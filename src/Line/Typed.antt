-- ===== src/Line/Typed.antt =====
-- A line while it is typed: what a key makes of it, and an editor that holds it.
use mya_xos.Base.{
  ℕ, suc, ◌+◌, ◌≤◌, ◌≡◌, ◌≢◌, refl, ◌∙◌, List, [], ◌∷◌, true, false, ◌||◌, arith, ◌==◌, ltb,
  if◌then◌else◌, length, ==→eq,
}
use mya_xos.Memory.{within}
use mya_xos.Vga.{Console}
use mya_xos.Vga.Puts.{IsConsole, on_screen, Keeps}
use mya_xos.Str.{char_lt}
use mya_xos.Str.Compare.{IsText}
use mya_xos.Line.{Editor}
use mya_xos.Line.Held.{Held, Held-frame}

-- What a key does to a line of at most `want` characters, the last one first: backspace takes that one
-- away, control characters and bytes from 0x80 on do nothing, and others are added where there is room.
unfoldable pub type_key : (want ch : ℕ) → List ℕ → List ℕ
type_key want ch [] =
    if (ch == 0x08) || (ch == b'\n') || char_lt ch 0x20
    then []
    else if ltb 0 want
    then ch ∷ []
    else []
type_key want ch (c ∷ r) =
    if ch == 0x08
    then r
    else if (ch == b'\n') || char_lt ch 0x20
    then c ∷ r
    else if ltb (suc (length r)) want
    then ch ∷ c ∷ r
    else c ∷ r

pub type_key-control :
    (want ch : ℕ) (r : List ℕ) → ch ≢ 0x08 → char_lt ch 0x20 ≡ true → type_key want ch r ≡ r
unfolding type_key
type_key-control want ch [] ne control = ground arith
type_key-control want ch (c ∷ r) ne control = ground arith

pub type_key-line : (want ch : ℕ) (r : List ℕ) → (ch == b'\n') ≡ true → type_key want ch r ≡ r
type_key-line want ch r e =
    let is_line = ==→eq ch b'\n' e in type_key-control want ch r (omega arith) (ground arith)

pub type_key-letter :
    (want ch : ℕ) (r : List ℕ)
    → ch ≢ 0x08
    → char_lt ch 0x20 ≡ false
    → type_key want ch r ≡ (if ltb (length r) want then ch ∷ r else r)
unfolding type_key
type_key-letter want ch [] ne letter = ground arith
type_key-letter want ch (c ∷ r) ne letter = ground arith

-- The editor holds the line `r`, on a console that can be written to, with its buffer off the screen.
pub record IsEditor (w : ℕ) (r : List ℕ) (s : Editor) : Type 0 where
  pub held : Held s.console.mem s.buffer r
  pub count : s.collected ≡ length r
  pub room : length r ≤ s.want
  pub text : IsText r
  pub console : IsConsole w s.console
  pub off : (x : ℕ) → s.buffer ≤ x → x ≤ s.buffer + s.want → on_screen s.console x ≡ false

-- What typing leaves alone.
pub record IsSame (s s' : Editor) : Type 0 where
  pub same_buffer : s'.buffer ≡ s.buffer
  pub same_want : s'.want ≡ s.want
  pub same_text : s'.console.textmemptr ≡ s.console.textmemptr
  pub same_mem :
      (x : ℕ)
      → on_screen s.console x ≡ false
      → within s.buffer (s.want + 1) x ≡ false
      → s'.console.mem x ≡ s.console.mem x

pub IsSame-trans : {s t u : Editor} → IsSame s t → IsSame t u → IsSame s u
IsSame-trans {s} {t} {u} a b = record {
  same_buffer = b.same_buffer ∙ a.same_buffer;
  same_want = b.same_want ∙ a.same_want;
  same_text = b.same_text ∙ a.same_text;
  same_mem = λ x off out.
      b.same_mem x (rw a.same_text off) (rw (a.same_buffer, a.same_want) out)
      ∙ a.same_mem x off out;
}

pub console-IsEditor :
    (w : ℕ) (r : List ℕ) (s : Editor) (c : Console)
    → IsEditor w r s
    → IsConsole w c
    → Keeps s.console c
    → IsEditor w r (record s { console = c }) × IsSame s (record s { console = c })
console-IsEditor w r s c h hc kept = (
  record {
    held =
        Held-frame s.console.mem c.mem s.buffer r
          (λ x lo hi. kept.same_mem x (h.off x lo (omega (arith, h.room)))) h.held;
    count = h.count;
    room = h.room;
    text = h.text;
    console = hc;
    off = λ x lo hi. rw kept.same_text (h.off x lo hi);
  },
  record {
    same_buffer = refl;
    same_want = refl;
    same_text = kept.same_text;
    same_mem = λ x off out. kept.same_mem x off;
  },
)
