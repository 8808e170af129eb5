-- ===== src/Vga/Puts.antt =====
-- `puts` types a text on the terminal, a character at a time.
use mya_xos.Base.{
  ◌*◌, ℕ, suc, ◌+◌, ◌<◌, ◌≤◌, ◌≡◌, refl, sym, ap, ◌∙◌, ◌⊎◌, inl, inr, some, List, [], ◌∷◌, ◌++◌,
  true, false, Bool, arith, ltb, length, All, Bool-cases, ltb→lt, ltb→le,
}
use mathlib.Core.Path.{subst}
use mya_xos.Memory.{Memory, within, CString}
use mya_xos.Ports.{Ports, outportb}
use mya_xos.Serial.Wait.{IsReadyAt}
use mya_xos.Str.Text.{CString-frame, strlen-length}
use mya_xos.Vga.{Console, blank, scroll, put, wrap, move_csr, writech, puts_loop, puts}
use mya_xos.Vga.Cursor.{IsOnScreen, sent, writech-sent, writech-IsOnScreen, wrap-row}
use mya_xos.Vga.Scroll.{scroll-IsScrolled, scroll-same}
use mya_xos.Vga.Terminal.{Terminal, terminal_write, Shows, writech-Shows}

-- From every state on the serial line is ready after fewer than `w` questions.
pub record IsPatient (w : ℕ) (p : Ports) : Type 0 where
  pub soon : (n : ℕ) → (k : ℕ) × (k < w) × IsReadyAt 0x20 k (record p { reads = n })

-- A console that can be written to.
pub record IsConsole (w : ℕ) (s : Console) : Type 0 where
  pub on : IsOnScreen s
  pub colour : s.attrib < 256
  pub line : IsPatient w s.ports

-- Where the bytes of the screen stand.
abbrev pub on_screen : Console → ℕ → Bool
on_screen s x = within s.textmemptr 4000 x

-- What writing leaves alone: the place of the screen, the colours, the line and all other memory.
pub record Keeps (s s' : Console) : Type 0 where
  pub same_text : s'.textmemptr ≡ s.textmemptr
  pub same_attrib : s'.attrib ≡ s.attrib
  pub same_answer : s'.ports.answer ≡ s.ports.answer
  pub same_mem : (x : ℕ) → on_screen s x ≡ false → s'.mem x ≡ s.mem x

pub Keeps-refl : (s : Console) → Keeps s s
Keeps-refl s = record {
  same_text = refl;
  same_attrib = refl;
  same_answer = refl;
  same_mem = λ x off. refl;
}

pub Keeps-trans : {s t u : Console} → Keeps s t → Keeps t u → Keeps s u
Keeps-trans {s} {t} {u} a b = record {
  same_text = b.same_text ∙ a.same_text;
  same_attrib = b.same_attrib ∙ a.same_attrib;
  same_answer = b.same_answer ∙ a.same_answer;
  same_mem = λ x off. b.same_mem x (ap (λ p. within p 4000 x) a.same_text ∙ off) ∙ a.same_mem x off;
}

unwrap_eq {ℓ} : {A : Type ℓ} {a b : A} → some a ≡ some b → a ≡ b
unwrap_eq e = cc e

put-Keeps : (c : ℕ) (s : Console) → IsOnScreen s → Keeps s (put c s)
unfolding put
put-Keeps c s on = record {
  same_text = ground arith;
  same_attrib = ground arith;
  same_answer = ground arith;
  same_mem = λ x off. ground (arith, on.column, on.row);
}

wrap-Keeps : (s : Console) → Keeps s (wrap s)
unfolding wrap
wrap-Keeps s = record {
  same_text = ground arith;
  same_attrib = ground arith;
  same_answer = ground arith;
  same_mem = λ x off. ground arith;
}

scroll-Keeps : (s : Console) → s.csr_y < 26 → Keeps s (scroll s)
unfolding scroll
scroll-Keeps s h = elim (Bool-cases (ltb s.csr_y 25)) [
  | inl above ↦ rw (scroll-same s (ltb→lt s.csr_y 25 above)) (Keeps-refl s)
  | inr below ↦
      let g = scroll-IsScrolled s (omega (arith, ltb→le s.csr_y 25 below)) in
      record {
        same_text = ground arith;
        same_attrib = ground arith;
        same_answer = ground arith;
        same_mem = λ x off. g.outside x (outside_screen s x off);
      }
]
  where
    outside_screen :
        (s : Console) (x : ℕ)
        → on_screen s x ≡ false
        → (x < s.textmemptr) ⊎ (s.textmemptr + 4000 ≤ x)
    outside_screen s x off = ground arith

move_csr-Keeps : (s : Console) → Keeps s (move_csr s)
unfolding move_csr outportb
move_csr-Keeps s = record {
  same_text = refl;
  same_attrib = refl;
  same_answer = refl;
  same_mem = λ x off. refl;
}

put-ports : (c : ℕ) (s : Console) → (put c s).ports ≡ s.ports
unfolding put
put-ports c s = ground arith

sent-Keeps : (k c : ℕ) (s : Console) → IsOnScreen s → Keeps s (sent k c s)
sent-Keeps k c s on =
    let g = put-Keeps c s on in
    record {
      same_text = g.same_text;
      same_attrib = g.same_attrib;
      same_answer = g.same_answer;
      same_mem = g.same_mem;
    }

put-IsReadyAt :
    (k c : ℕ) (s : Console)
    → IsReadyAt 0x20 k (record s.ports { reads = s.ports.reads })
    → IsReadyAt 0x20 k (put c s).ports
put-IsReadyAt k c s r = rw (put-ports c s) (record { busy = r.busy; ready = r.ready })

IsPatient-answer : (w : ℕ) (p q : Ports) → q.answer ≡ p.answer → IsPatient w p → IsPatient w q
IsPatient-answer w p q e h = record {
  soon = λ n.
      let (k, lt, r) = h.soon n in
      (k, lt, record { busy = λ j hj. rw e (r.busy j hj); ready = rw e r.ready });
}

-- What one character does, where the line is patient.
pub writech-Keeps :
    (w fuel c : ℕ) (s : Console) (t : Terminal)
    → IsConsole w s
    → w ≤ fuel
    → c < 256
    → Shows s t
    → (s' : Console) × (writech fuel c s ≡ some s')
      × IsConsole w s'
      × Shows s' (terminal_write s.attrib (blank s.attrib) c t)
      × Keeps s s'
writech-Keeps w fuel c s t h le hc v =
    let (k, lt, r) = h.line.soon s.ports.reads in
    let ready = put-IsReadyAt k c s r in
    let lk : k < fuel = omega arith in
    let (s1, run1, shown) = writech-Shows fuel k c s t h.on hc h.colour lk ready v in
    let (s2, run2, on2, csr) = writech-IsOnScreen fuel k c s h.on lk ready in
    let wrapped = wrap (sent k c s) in
    let kept = Keeps-trans (sent-Keeps k c s h.on) (
      Keeps-trans (wrap-Keeps (sent k c s)) (
        Keeps-trans (scroll-Keeps wrapped (wrap-row k c s h.on).0)
          (move_csr-Keeps (scroll wrapped)))) in
    let run = writech-sent fuel k c s lk ready in
    let e : move_csr (scroll wrapped) ≡ s1 = unwrap_eq (sym run ∙ run1) in
    let e2 : s2 ≡ s1 = unwrap_eq (sym run2 ∙ run1) in
    let kept1 : Keeps s s1 = subst (Keeps s) e kept in
    (
      s1,
      run1,
      record {
        on = subst IsOnScreen e2 on2;
        colour = rw kept1.same_attrib h.colour;
        line = IsPatient-answer w s.ports s1.ports kept1.same_answer h.line;
      },
      shown,
      kept1,
    )

-- The text typed on a terminal, in the given colours.
abbrev pub type_text : (attrib empty : ℕ) → List ℕ → Terminal → Terminal
type_text attrib empty [] t = t
type_text attrib empty (c ∷ cs) t = type_text attrib empty cs (terminal_write attrib empty c t)

puts_loop-suc :
    (left fuel text i c : ℕ) (s s1 : Console)
    → s.mem (text + i) ≡ c
    → writech fuel c s ≡ some s1
    → puts_loop (suc left) fuel text i s ≡ puts_loop left fuel text (i + 1) s1
unfolding puts_loop
puts_loop-suc left fuel text i c s s1 first run = rw (puts_loop, first, run) refl

puts_loop-Keeps :
    (w fuel text i p : ℕ) (bs : List ℕ) (s : Console) (t : Terminal)
    → p ≡ text + i
    → IsConsole w s
    → w ≤ fuel
    → All (λ c. c < 256) bs
    → CString s.mem p bs
    → ((x : ℕ) → p ≤ x → x ≤ p + length bs → on_screen s x ≡ false)
    → Shows s t
    → (s' : Console) × (puts_loop (length bs) fuel text i s ≡ some s')
      × IsConsole w s'
      × Shows s' (type_text s.attrib (blank s.attrib) bs t)
      × Keeps s s'
unfolding puts_loop
puts_loop-Keeps w fuel text i p [] s t ep h le small held off v = (s, refl, h, v, Keeps-refl s)
puts_loop-Keeps w fuel text i p (c ∷ cs) s t ep h le small held off v =
    let (s1, run, h1, v1, kept) = writech-Keeps w fuel c s t h le small.0 v in
    let off1 : (x : ℕ) → p + 1 ≤ x → x ≤ p + 1 + length cs → on_screen s1 x ≡ false =
      λ x lo hi. ap (λ a. within a 4000 x) kept.same_text ∙ off x (omega arith) (omega arith) in
    let held1 =
      CString-frame s.mem s1.mem (p + 1) cs
        (λ x lo hi. kept.same_mem x (off x (omega arith) (omega arith))) held.2 in
    let first : s.mem (text + i) ≡ c = ap s.mem (sym ep) ∙ held.0 in
    let (s2, rest, h2, v2, kept2) =
      puts_loop-Keeps w fuel text (i + 1) (p + 1) cs s1
        (terminal_write s.attrib (blank s.attrib) c t) (omega arith) h1 le small.1 held1 off1 v1 in
    (
      s2,
      puts_loop-suc (length cs) fuel text i c s s1 first run ∙ rest,
      h2,
      rw kept.same_attrib at v2,
      Keeps-trans kept kept2,
    )

pub type_text-append :
    (a e : ℕ) (xs ys : List ℕ) (t : Terminal)
    → type_text a e (xs ++ ys) t ≡ type_text a e ys (type_text a e xs t)
type_text-append a e [] ys t = refl
type_text-append a e (x ∷ xs) ys t = type_text-append a e xs ys _

-- The screen shows the same where memory changes elsewhere.
pub Shows-frame :
    (s : Console) (t : Terminal) (m : Memory)
    → ((x : ℕ) → within (s.textmemptr) 4000 x ≡ true → m x ≡ s.mem x)
    → Shows s t
    → Shows (record s { mem = m }) t
Shows-frame s t m same h = record {
  cells = λ r k hr hk.
      let x = s.textmemptr + 2 * (r * 80 + k) in
      rw (same x (ground arith), same (x + 1) (ground arith)) (h.cells r k hr hk);
  column = h.column;
  line = h.line;
}

-- Where the line is patient and the text stands outside the screen, `puts` comes to an end, the screen
-- shows the terminal on which the text was typed, and nothing else in memory has changed.
pub puts-Shows :
    (w fuel text : ℕ) (bs : List ℕ) (s : Console) (t : Terminal)
    → IsConsole w s
    → w ≤ fuel
    → length bs < fuel
    → All (λ c. c < 256) bs
    → CString s.mem text bs
    → ((x : ℕ) → text ≤ x → x ≤ text + length bs → on_screen s x ≡ false)
    → Shows s t
    → (s' : Console) × (puts fuel text s ≡ some s')
      × IsConsole w s'
      × Shows s' (type_text s.attrib (blank s.attrib) bs t)
      × Keeps s s'
unfolding puts
puts-Shows w fuel text bs s t h le long small held off v =
    let (s', run, h', v', kept) =
      puts_loop-Keeps w fuel text 0 text bs s t (omega arith) h le small held off v in
    (s', rw (puts, strlen-length fuel s.mem text bs held long) run, h', v', kept)
