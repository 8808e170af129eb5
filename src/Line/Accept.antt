-- ===== src/Line/Accept.antt =====
-- `kgets` returns the line that a reader with a backspace key would take for typed.
use mya_xos.Base.{
  ℕ, ◌+◌, ◌<◌, ◌≤◌, ◌≡◌, refl, ◌∙◌, ◌⊎◌, inl, inr, some, none, Option, List, [], ◌∷◌, true, false,
  not, arith, ◌==◌, ltb, if◌then◌else◌, length, All, Bool-cases,
}
use mya_xos.Memory.{store8, within, CString}
use mya_xos.Vga.{Console}
use mya_xos.Vga.Puts.{IsConsole, on_screen}
use mya_xos.Line.{Editor, kgets_handler, is_open, kgets_loop, close_line, kgets, returned, waiting}
use mathlib.Core.Path.{subst}
use mya_xos.Line.Typed.{type_key, type_key-line, IsEditor, IsSame, IsSame-trans}
use mya_xos.Line.Keys.{IsSame-refl, kgets_handler-IsEditor}
use mya_xos.Line.Held.{Held-frame, onto, Held-CString, current, current-Shows}

-- The line when it is full or ended by a new line, with the keys that are left; `none` before that.
unfoldable pub accept : (want : ℕ) → List ℕ → List ℕ → Option (List ℕ × List ℕ)
accept want [] r = if ltb (length r) want then none else some (r, [])
accept want (ch ∷ input) r =
    let next = accept want input (type_key want ch r) in
    if not (ltb (length r) want)
    then some (r, ch ∷ input)
    else if ch == b'\n'
    then some (r, input)
    else next

close_line-CString :
    (w : ℕ) (l : List ℕ) (s : Editor)
    → IsEditor w l s
    → CString (close_line s).console.mem s.buffer (onto l [])
unfolding close_line
close_line-CString w l s h =
    let m' = store8 s.console.mem (s.buffer + s.collected) 0 in
    Held-CString m' s.buffer l []
      (Held-frame s.console.mem m' s.buffer l (λ x lo hi. ground (arith, h.count)) h.held) h.text
      (ground (arith, h.count))

close_line-outside :
    (w : ℕ) (l : List ℕ) (s : Editor)
    → IsEditor w l s
    → (x : ℕ) → within s.buffer (s.want + 1) x ≡ false
    → (close_line s).console.mem x ≡ s.console.mem x
unfolding close_line
close_line-outside w l s h x off = ground (arith, h.count, h.room)

pub kgets_loop-closed :
    (fuel : ℕ) (input : List ℕ) (s : Editor)
    → is_open s ≡ false
    → kgets_loop fuel input s ≡ returned s input
unfolding kgets_loop
kgets_loop-closed fuel [] s shut = rw shut refl
kgets_loop-closed fuel (c ∷ input) s shut = rw shut refl

-- How the loop goes on from a line `r`: it waits, or has the line that is accepted.
abbrev Goes : (w fuel : ℕ) → List ℕ → List ℕ → Editor → Type 0
Goes w fuel input r s =
    ((s' : Editor) × (accept s.want input r ≡ none)
      × (kgets_loop fuel input s ≡ waiting s')
      × IsSame s s')
    ⊎ ((s' : Editor) × (l rest : List ℕ) × (accept s.want input r ≡ some (l, rest))
        × (kgets_loop fuel input s ≡ returned s' rest)
        × IsEditor w l s'
        × IsSame s s')

pub open_iff :
    (w : ℕ) (r : List ℕ) (s : Editor)
    → IsEditor w r s
    → s.newline ≡ 0
    → is_open s ≡ ltb (length r) s.want
open_iff w r s h e = ground (arith, h.count)

pub kgets_loop-suc :
    (fuel ch : ℕ) (input : List ℕ) (s s' : Editor)
    → is_open s ≡ true
    → kgets_handler fuel ch s ≡ some s'
    → kgets_loop fuel (ch ∷ input) s ≡ kgets_loop fuel input s'
unfolding kgets_loop
kgets_loop-suc fuel ch input s s' going run = rw (going, run) refl

pub kgets_loop-open : (fuel : ℕ) (s : Editor) → is_open s ≡ true → kgets_loop fuel [] s ≡ waiting s
unfolding kgets_loop
kgets_loop-open fuel s going = rw going refl

pub closed_by : (s : Editor) → s.newline ≡ 1 → is_open s ≡ false
closed_by s e = ground (arith, e)

kgets_loop-accept :
    (w fuel : ℕ) (input r : List ℕ) (s : Editor)
    → IsEditor w r s
    → s.newline ≡ 0
    → w ≤ fuel
    → All (λ c. c < 256) input
    → Goes w fuel input r s
unfolding accept
kgets_loop-accept w fuel [] r s h e le small = elim (Bool-cases (ltb (length r) s.want)) [
  | inl going ↦ inl (
    s,
    rw going refl,
    kgets_loop-open fuel s (open_iff w r s h e ∙ going),
    IsSame-refl s s.newline,
  )
  | inr full ↦ inr (
    s,
    r,
    [],
    rw full refl,
    kgets_loop-closed fuel [] s (open_iff w r s h e ∙ full),
    h,
    IsSame-refl s s.newline,
  )
]
kgets_loop-accept w fuel (ch ∷ input) r s h e le small = elim (Bool-cases (ltb (length r) s.want)) [
  | inr full ↦ inr (
    s,
    r,
    ch ∷ input,
    rw full refl,
    kgets_loop-closed fuel (ch ∷ input) s (open_iff w r s h e ∙ full),
    h,
    IsSame-refl s s.newline,
  )
  | inl going ↦
      let (s1, run, (h1, same, line), shown) =
        kgets_handler-IsEditor w fuel ch r s (current s.console) h le small.0
          (current-Shows s.console) in
      let turn = kgets_loop-suc fuel ch input s s1 (open_iff w r s h e ∙ going) run in
      elim (Bool-cases (ch == b'\n')) [
        | inl ended ↦
            let marked : s1.newline ≡ 1 = rw ended at line in
            let shut : is_open s1 ≡ false = closed_by s1 marked in
            inr (
              s1,
              r,
              input,
              rw (going, ended) refl,
              turn ∙ kgets_loop-closed fuel input s1 shut,
              rw (type_key-line s.want ch r ended) at h1,
              same,
            )
        | inr more ↦
            let open_still : s1.newline ≡ 0 = rw more at line ∙ e in
            elim (kgets_loop-accept w fuel input (type_key s.want ch r) s1 h1 open_still le
              small.1) [
                | inl (s2, none_yet, rest, same2) ↦ inl (
                  s2,
                  rw (going, more) (rw same.same_want at none_yet),
                  turn ∙ rest,
                  IsSame-trans same same2,
                )
                | inr (s2, l, left, got, rest, h2, same2) ↦ inr (
                  s2,
                  l,
                  left,
                  rw (going, more) (rw same.same_want at got),
                  turn ∙ rest,
                  h2,
                  IsSame-trans same same2,
                )
              ]
      ]
]

-- With the screen and the line in order and the buffer, a byte longer than `size`, off the screen,
-- `kgets` comes to an end or still waits. It waits where the keys do not make a line yet; else it returns
-- the length of the line that they make, leaves the line in the buffer with a NUL behind it, and passes
-- the keys behind it on. It writes to the buffer and the screen only.
pub kgets-accept :
    (w fuel buffer size : ℕ) (input : List ℕ) (c : Console)
    → IsConsole w c
    → w ≤ fuel
    → All (λ ch. ch < 256) input
    → ((x : ℕ) → buffer ≤ x → x ≤ buffer + size → on_screen c x ≡ false)
    → ((s : Editor) × (accept size input [] ≡ none) × (kgets fuel buffer size input c ≡ waiting s))
      ⊎ ((s : Editor) × (l rest : List ℕ) × (accept size input [] ≡ some (l, rest))
          × (kgets fuel buffer size input c ≡ returned s rest)
          × (s.collected ≡ length l)
          × (length l ≤ size)
          × CString s.console.mem buffer (onto l [])
          × ((x : ℕ)
              → on_screen c x ≡ false
              → within buffer (size + 1) x ≡ false
              → s.console.mem x ≡ c.mem x))
unfolding kgets close_line
kgets-accept w fuel buffer size input c hc le small off =
    let start : Editor = record {
      buffer = buffer;
      collected = 0;
      want = size;
      newline = 0;
      console = c;
    } in
    let begin : IsEditor w [] start = record {
      held = tt;
      count = refl;
      room = omega arith;
      text = tt;
      console = hc;
      off = off;
    } in
    elim (kgets_loop-accept w fuel input [] start begin refl le small) [
      | inl (s, none_yet, run, same) ↦ inl (s, none_yet, rw (kgets, run) refl)
      | inr (s, l, rest, got, run, h, same) ↦ inr (
        close_line s,
        l,
        rest,
        got,
        rw (kgets, run) refl,
        h.count,
        rw same.same_want at h.room,
        subst (λ b. CString (close_line s).console.mem b (onto l [])) same.same_buffer
            (close_line-CString w l s h),
        λ x a b.
            close_line-outside w l s h x (rw (same.same_buffer, same.same_want) b)
            ∙ same.same_mem x a b,
      )
    ]
