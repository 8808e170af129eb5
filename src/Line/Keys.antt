-- ===== src/Line/Keys.antt =====
-- What `kgets_handler` makes of one key: the buffer holds the line that a reader would take for typed.
use mya_xos.Base.{
  ℕ, ◌+◌, ◌-◌, ◌<◌, ◌≤◌, ◌≡◌, ◌≢◌, refl, sym, ap, ◌∙◌, ◌⊎◌, inl, inr, some, List, [], ◌∷◌, true,
  false, arith, ◌==◌, ltb, if◌then◌else◌, length, Bool-cases, ltb→lt, ==→eq, ==→ne,
}
use mya_xos.Memory.{store8}
use mathlib.Core.Path.{subst}
use mya_xos.Vga.{Console, blank}
use mya_xos.Vga.Terminal.{Terminal, Shows}
use mya_xos.Vga.Puts.{IsConsole, on_screen, type_text, Shows-frame}
use mya_xos.Str.{char_lt}
use mya_xos.Line.{Editor, echo, store_key, kgets_handler}
use mya_xos.Line.Held.{Held-frame, write_all-Keeps, echo-small}
use mya_xos.Line.Typed.{
  type_key, type_key-control, type_key-letter, IsEditor, IsSame, IsSame-trans, console-IsEditor,
}

-- A byte put at a place of the buffer.
abbrev poke : (x v n newline : ℕ) → Editor → Editor
poke x v n newline s = record s {
  collected = n;
  newline = newline;
  console = record (s.console) { mem = store8 s.console.mem x v };
}

pub poke-console :
    (w x v : ℕ) (c : Console)
    → IsConsole w c
    → on_screen c x ≡ false
    → IsConsole w (record c { mem = store8 c.mem x v })
poke-console w x v c h off = record {
  on = record { column = h.on.column; row = h.on.row };
  colour = h.colour;
  line = h.line;
}

poke-IsSame :
    (w k v n newline : ℕ) (r : List ℕ) (s : Editor)
    → IsEditor w r s
    → k ≤ s.want
    → IsSame s (poke (s.buffer + k) v n newline s)
poke-IsSame w k v n newline r s h le = record {
  same_buffer = refl;
  same_want = refl;
  same_text = refl;
  same_mem = λ x off out. ground arith;
}

shrink :
    (w c : ℕ) (r : List ℕ) (s : Editor)
    → IsEditor w (c ∷ r) s
    → IsEditor w r (poke (s.buffer + s.collected) 0 (s.collected - 1) s.newline s)
shrink w c r s h = record {
  held =
      Held-frame s.console.mem (store8 s.console.mem (s.buffer + s.collected) 0) s.buffer r
        (λ x lo hi. ground (arith, h.count)) h.held.1;
  count = omega (arith, h.count);
  room = omega (arith, h.room);
  text = h.text.1;
  console =
      poke-console w (s.buffer + s.collected) 0 s.console h.console
        (h.off _ (omega arith) (omega (arith, h.count, h.room)));
  off = h.off;
}

grow :
    (w ch : ℕ) (r : List ℕ) (s : Editor)
    → IsEditor w r s
    → length r < s.want
    → (0 < ch) × (ch < 256)
    → IsEditor w (ch ∷ r) (poke (s.buffer + s.collected) ch (s.collected + 1) s.newline s)
grow w ch r s h lt small = record {
  held = (
    ground (arith, h.count),
    Held-frame s.console.mem (store8 s.console.mem (s.buffer + s.collected) ch) s.buffer r
        (λ x lo hi. ground (arith, h.count)) h.held,
  );
  count = omega (arith, h.count);
  room = omega arith;
  text = (small, h.text);
  console =
      poke-console w (s.buffer + s.collected) ch s.console h.console
        (h.off _ (omega arith) (omega (arith, h.count, h.room)));
  off = h.off;
}

mark : (w : ℕ) (r : List ℕ) (s : Editor) → IsEditor w r s → IsEditor w r (record s { newline = 1 })
mark w r s h = record {
  held = h.held;
  count = h.count;
  room = h.room;
  text = h.text;
  console = h.console;
  off = h.off;
}

pub IsSame-refl : (s : Editor) (newline : ℕ) → IsSame s (record s { newline = newline })
IsSame-refl s newline = record {
  same_buffer = refl;
  same_want = refl;
  same_text = refl;
  same_mem = λ x off out. refl;
}

-- The buffer after a key, with the flag for a new line.
abbrev pub AfterKey : (w ch : ℕ) → List ℕ → Editor → Editor → Type 0
AfterKey w ch r s s' =
    IsEditor w (type_key s.want ch r) s'
    × IsSame s s'
    × (s'.newline ≡ (if ch == b'\n' then 1 else s.newline))

store_key-backspace :
    (w ch : ℕ) (r : List ℕ) (s : Editor)
    → IsEditor w r s
    → ch ≡ 0x08
    → AfterKey w ch r s (store_key ch s)
unfolding store_key type_key
store_key-backspace w ch [] s h e =
    let none_held : (s.collected == 0) ≡ true = ground (arith, h.count) in
    rw (e, none_held) (h, IsSame-refl s s.newline, refl)
store_key-backspace w ch (c ∷ r) s h e =
    let some_held : (s.collected == 0) ≡ false = ground (arith, h.count) in
    rw (e, some_held)
      (
        shrink w c r s h,
        poke-IsSame w s.collected 0 (s.collected - 1) s.newline (c ∷ r) s h
            (omega (arith, h.count, h.room)),
        refl,
      )

store_key-other :
    (w ch : ℕ) (r : List ℕ) (s : Editor)
    → IsEditor w r s
    → ch ≢ 0x08
    → char_lt ch 0x20 ≡ true
    → AfterKey w ch r s (store_key ch s)
unfolding store_key
store_key-other w ch r s h ne control =
    let not_back : (ch == 0x08) ≡ false = ground arith in
    rw (type_key-control s.want ch r ne control) (elim (Bool-cases (ch == b'\n')) [
      | inl line ↦ rw (not_back, line) (mark w r s h, IsSame-refl s 1, refl)
      | inr other ↦ rw (not_back, other, control) (h, IsSame-refl s s.newline, refl)
    ])

store_key-letter :
    (w ch : ℕ) (r : List ℕ) (s : Editor)
    → IsEditor w r s
    → ch < 256
    → ch ≢ 0x08
    → char_lt ch 0x20 ≡ false
    → AfterKey w ch r s (store_key ch s)
unfolding store_key
store_key-letter w ch r s h small ne letter =
    let not_back : (ch == 0x08) ≡ false = ground arith in
    let not_line : (ch == b'\n') ≡ false = ground arith in
    rw (type_key-letter s.want ch r ne letter) (elim (Bool-cases (ltb (length r) s.want)) [
      | inl free ↦
          let free' : ltb s.collected s.want ≡ true = rw h.count free in
          rw (not_back, not_line, letter, free, free')
            (
              grow w ch r s h (ltb→lt (length r) s.want free) (ground arith),
              poke-IsSame w s.collected ch (s.collected + 1) s.newline r s h
                  (omega (arith, h.count, h.room)),
              refl,
            )
      | inr full ↦
          let full' : ltb s.collected s.want ≡ false = rw h.count full in
          rw (not_back, not_line, letter, full, full') (h, IsSame-refl s s.newline, refl)
    ])

store_key-IsEditor :
    (w ch : ℕ) (r : List ℕ) (s : Editor)
    → IsEditor w r s
    → ch < 256
    → AfterKey w ch r s (store_key ch s)
store_key-IsEditor w ch r s h small = elim (Bool-cases (ch == 0x08)) [
  | inl back ↦ store_key-backspace w ch r s h (==→eq _ _ back)
  | inr other ↦ elim (Bool-cases (char_lt ch 0x20)) [
    | inl control ↦ store_key-other w ch r s h (==→ne _ _ other) control
    | inr letter ↦ store_key-letter w ch r s h small (==→ne _ _ other) letter
  ]
]

-- What is stored does not show.
store_key-console :
    (ch : ℕ) (s : Editor)
    → ((store_key ch s).console ≡ s.console)
      ⊎ ((v : ℕ) × ((store_key ch s).console
            ≡ record (s.console) { mem = store8 s.console.mem (s.buffer + s.collected) v }))
unfolding store_key
store_key-console ch s = elim (Bool-cases (ch == 0x08)) [
  | inl back ↦ elim (Bool-cases (s.collected == 0)) [
    | inl none_held ↦ inl (rw (back, none_held) refl)
    | inr some_held ↦ inr (0, rw (back, some_held) refl)
  ]
  | inr other ↦ elim (Bool-cases (ch == b'\n')) [
    | inl line ↦ inl (rw (other, line) refl)
    | inr letter ↦ elim (Bool-cases (char_lt ch 0x20)) [
      | inl control ↦ inl (rw (other, letter, control) refl)
      | inr plain ↦ elim (Bool-cases (ltb s.collected s.want)) [
        | inl free ↦ inr (ch, rw (other, letter, plain, free) refl)
        | inr full ↦ inl (rw (other, letter, plain, full) refl)
      ]
    ]
  ]
]

store_key-Shows :
    (w ch : ℕ) (r : List ℕ) (s : Editor) (t : Terminal)
    → IsEditor w r s
    → Shows s.console t
    → Shows (store_key ch s).console t × ((store_key ch s).console.attrib ≡ s.console.attrib)
store_key-Shows w ch r s t h v = elim (store_key-console ch s) [
  | inl same ↦ (subst (λ c. Shows c t) (sym same) v, ap (λ c. c.attrib) same)
  | inr (b, stored) ↦
      let off = h.off (s.buffer + s.collected) (omega arith) (omega (arith, h.count, h.room)) in
      let m = store8 s.console.mem (s.buffer + s.collected) b in
      (
        subst (λ c. Shows c t) (sym stored)
            (Shows-frame s.console t m (λ x on. ground (arith, on, off)) v),
        ap (λ c. c.attrib) stored,
      )
]

-- The screen after a key.
abbrev pub AfterEcho : (ch : ℕ) → Terminal → Editor → Editor → Type 0
AfterEcho ch t s s' =
    Shows s'.console (type_text s.console.attrib (blank s.console.attrib) (echo ch s.collected) t)
    × (s'.console.attrib ≡ s.console.attrib)

-- One character of input.
pub kgets_handler-IsEditor :
    (w fuel ch : ℕ) (r : List ℕ) (s : Editor) (t : Terminal)
    → IsEditor w r s
    → w ≤ fuel
    → ch < 256
    → Shows s.console t
    → (s' : Editor) × (kgets_handler fuel ch s ≡ some s')
      × AfterKey w ch r s s'
      × AfterEcho ch t s s'
unfolding kgets_handler
kgets_handler-IsEditor w fuel ch r s t h le small v =
    let (c, run, hc, shown, kept) =
      write_all-Keeps w fuel (echo ch s.collected) s.console t h.console le
        (echo-small ch s.collected small) v in
    let (h1, same) = console-IsEditor w r s c h hc kept in
    let s1 : Editor = record s { console = c } in
    let (h2, same2, line) = store_key-IsEditor w ch r s1 h1 small in
    let (shown2, attrib) = store_key-Shows w ch r s1 _ h1 shown in
    (
      store_key ch s1,
      rw (kgets_handler, run) refl,
      (h2, IsSame-trans same same2, line),
      (shown2, attrib ∙ kept.same_attrib),
    )
