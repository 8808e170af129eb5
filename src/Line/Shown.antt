-- ===== src/Line/Shown.antt =====
-- What the screen shows while a line is typed.
use mya_xos.Base.{
  ℕ, ◌+◌, ◌<◌, ◌≤◌, ◌≡◌, refl, sym, ◌∙◌, ◌⊎◌, inl, inr, List, [], ◌∷◌, ◌++◌, false, not, arith, ◌%◌,
  ◌==◌, ltb, if◌then◌else◌, length, All, Bool-cases,
}
use mathlib.Core.Path.{subst}
use mya_xos.Memory.{store8}
use mya_xos.Vga.{Console, blank}
use mya_xos.Vga.Terminal.{Terminal, Shows}
use mya_xos.Vga.Puts.{IsConsole, on_screen, type_text, type_text-append, Shows-frame}
use mya_xos.Line.{Editor, Input, echo, is_open, kgets_loop, close_line, kgets, returned, waiting}
use mya_xos.Line.Typed.{type_key, IsEditor}
use mya_xos.Line.Keys.{poke-console, kgets_handler-IsEditor}
use mya_xos.Line.Accept.{open_iff, kgets_loop-suc, kgets_loop-open, kgets_loop-closed, closed_by}

-- What a backspace shows: the cursor back, a blank over the character and back again, where there is one.
unfoldable pub erased : List ℕ → List ℕ
erased [] = []
erased (c ∷ r) = 8 ∷ 32 ∷ 8 ∷ []

-- What a key shows behind the line `r`: itself, or a control character, which a byte from 128 on is as
-- well, as a caret and the letter.
unfoldable pub shown_key : (ch : ℕ) → List ℕ → List ℕ
shown_key ch r =
    if ch == 8
    then erased r
    else if ch == 10
    then 10 ∷ []
    else if ltb ch 32
    then b'^' ∷ (ch + 64) % 256 ∷ []
    else if ltb ch 128
    then ch ∷ []
    else b'^' ∷ (ch + 64) % 256 ∷ []

echo-shown_key : (ch : ℕ) (r : List ℕ) → ch < 256 → echo ch (length r) ≡ shown_key ch r
unfolding echo shown_key erased
echo-shown_key ch [] h = ground arith
echo-shown_key ch (c ∷ r) h = ground arith

-- What is printed for the keys, from the line `r` on.
unfoldable pub echoes : (want : ℕ) → List ℕ → List ℕ → List ℕ
echoes want [] r = []
echoes want (ch ∷ input) r =
    let next = echoes want input (type_key want ch r) in
    if not (ltb (length r) want)
    then []
    else if ch == b'\n'
    then shown_key ch r
    else shown_key ch r ++ next

-- The editor where the input ends or the line does.
abbrev pub Stops : Input → Editor → Type 0
Stops i s = (i ≡ waiting s) ⊎ ((rest : List ℕ) × (i ≡ returned s rest))

-- A console that shows the text typed after `t`, and whose colours and place of the screen stay.
abbrev pub IsTyped : (w : ℕ) → List ℕ → Terminal → Console → Console → Type 0
IsTyped w bs t c c' =
    IsConsole w c'
    × Shows c' (type_text c.attrib (blank c.attrib) bs t)
    × (c'.attrib ≡ c.attrib)
    × (c'.textmemptr ≡ c.textmemptr)

pub IsTyped-trans :
    (w : ℕ) (bs bs' : List ℕ) (t : Terminal) (c c1 c2 : Console)
    → c1.attrib ≡ c.attrib
    → c1.textmemptr ≡ c.textmemptr
    → IsTyped w bs' (type_text c.attrib (blank c.attrib) bs t) c1 c2
    → IsTyped w (bs ++ bs') t c c2
IsTyped-trans w bs bs' t c c1 c2 attrib place (h, v, kept, kept_place) = (
  h,
  subst (Shows c2) (sym (type_text-append c.attrib (blank c.attrib) bs bs' t)) (
      subst (λ a. Shows c2 (type_text a (blank a) bs' (type_text c.attrib (blank c.attrib) bs t)))
        attrib v),
  kept ∙ attrib,
  kept_place ∙ place,
)

kgets_loop-IsTyped :
    (w fuel : ℕ) (input r : List ℕ) (s : Editor) (t : Terminal)
    → IsEditor w r s
    → s.newline ≡ 0
    → w ≤ fuel
    → All (λ c. c < 256) input
    → Shows s.console t
    → (s' : Editor) × (r' : List ℕ) × Stops (kgets_loop fuel input s) s'
      × IsEditor w r' s'
      × IsTyped w (echoes s.want input r) t s.console s'.console
unfolding echoes
kgets_loop-IsTyped w fuel [] r s t h e le small v = elim (Bool-cases (ltb (length r) s.want)) [
  | inl going ↦ (
    s,
    r,
    inl (kgets_loop-open fuel s (open_iff w r s h e ∙ going)),
    h,
    (h.console, v, refl, refl),
  )
  | inr full ↦ (
    s,
    r,
    inr ([], kgets_loop-closed fuel [] s (open_iff w r s h e ∙ full)),
    h,
    (h.console, v, refl, refl),
  )
]
kgets_loop-IsTyped w fuel (ch ∷ input) r s t h e le small v =
    elim (Bool-cases (ltb (length r) s.want)) [
      | inr full ↦ (
        s,
        r,
        inr (ch ∷ input, kgets_loop-closed fuel (ch ∷ input) s (open_iff w r s h e ∙ full)),
        h,
        rw full (h.console, v, refl, refl),
      )
      | inl going ↦
          let (s1, run, (h1, same, line), (shown, attrib)) =
            kgets_handler-IsEditor w fuel ch r s t h le small.0 v in
          let turn = kgets_loop-suc fuel ch input s s1 (open_iff w r s h e ∙ going) run in
          let a = s.console.attrib in
          let typed : Shows s1.console (type_text a (blank a) (shown_key ch r) t) =
            rw (h.count, echo-shown_key ch r small.0) at shown in
          elim (Bool-cases (ch == b'\n')) [
            | inl ended ↦
                let shut : is_open s1 ≡ false = closed_by s1 (rw ended at line) in
                (
                  s1,
                  type_key s.want ch r,
                  inr (input, turn ∙ kgets_loop-closed fuel input s1 shut),
                  h1,
                  rw (going, ended) (h1.console, typed, attrib, same.same_text),
                )
            | inr more ↦
                let open_still : s1.newline ≡ 0 = rw more at line ∙ e in
                let (s2, r2, stops, h2, next) =
                  kgets_loop-IsTyped w fuel input (type_key s.want ch r) s1 _ h1 open_still le
                    small.1 typed in
                (
                  s2,
                  r2,
                  subst (λ i. Stops i s2) (sym turn) stops,
                  h2,
                  rw (going, more)
                      (IsTyped-trans w (shown_key ch r) _ t s.console s1.console s2.console attrib
                        same.same_text (rw same.same_want at next)),
                )
          ]
    ]

-- The NUL behind the line does not show.
close_line-IsTyped :
    (w : ℕ) (bs r : List ℕ) (s : Editor) (t : Terminal) (c : Console)
    → IsEditor w r s
    → IsTyped w bs t c s.console
    → IsTyped w bs t c (close_line s).console
unfolding close_line
close_line-IsTyped w bs r s t c h (console, v, attrib, place) =
    let off = h.off (s.buffer + s.collected) (omega arith) (omega (arith, h.count, h.room)) in
    let m = store8 s.console.mem (s.buffer + s.collected) 0 in
    (
      poke-console w (s.buffer + s.collected) 0 s.console console off,
      Shows-frame s.console _ m (λ x on. ground (arith, on, off)) v,
      attrib,
      place,
    )

-- With the screen and the line in order and the buffer, a byte longer than `size`, off the screen, the
-- screen that showed `t` shows, where `kgets` ends or waits, what the keys show typed after `t`: each
-- printable key itself, a control character as a caret and a letter, and a backspace the erasing of one
-- character where the line has one.
pub kgets-Shows :
    (w fuel buffer size : ℕ) (input : List ℕ) (c : Console) (t : Terminal)
    → IsConsole w c
    → Shows c t
    → w ≤ fuel
    → All (λ ch. ch < 256) input
    → ((x : ℕ) → buffer ≤ x → x ≤ buffer + size → on_screen c x ≡ false)
    → (s : Editor) × Stops (kgets fuel buffer size input c) s
      × IsTyped w (echoes size input []) t c s.console
unfolding kgets close_line
kgets-Shows w fuel buffer size input c t hc v le small off =
    let start : Editor = record {
      buffer = buffer;
      collected = 0;
      want = size;
      newline = 0;
      console = c;
    } in
    let begin : IsEditor w [] start = record {
      held = tt;
      count = refl;
      room = omega arith;
      text = tt;
      console = hc;
      off = off;
    } in
    let (s, r, stops, h, typed) =
      kgets_loop-IsTyped w fuel input [] start t begin refl le small v in
    elim stops [
      | inl waits ↦ (s, inl (rw (kgets, waits) refl), typed)
      | inr (rest, ends) ↦ (
        close_line s,
        inr (rest, rw (kgets, ends) refl),
        close_line-IsTyped w (echoes size input []) r s t c h typed,
      )
    ]
