-- ===== src/Line/Made.antt =====
-- A line that the keys make: what `kgets` returns, and what the screen shows behind it.
use mya_xos.Base.{
  ℕ, ◌+◌, ◌<◌, ◌≤◌, ◌≡◌, sym, ap, ◌∙◌, inl, inr, some, none, Option, List, [], false, arith, length,
  All,
}
use mathlib.Core.Path.{subst}
use mya_xos.Memory.{within, CString}
use mya_xos.Vga.{Console}
use mya_xos.Vga.Terminal.{Terminal, Shows}
use mya_xos.Vga.Puts.{IsConsole, on_screen}
use mya_xos.Line.{Editor, Input, returned, waiting, out_of_fuel, kgets}
use mya_xos.Line.Accept.{accept, kgets-accept}
use mya_xos.Line.Held.{onto}
use mya_xos.Line.Shown.{echoes, IsTyped, kgets-Shows}

-- The editor with the line `l` in its buffer.
pub record IsMade (w buffer size : ℕ) (input l : List ℕ) (t : Terminal) (c : Console) (s : Editor)
    : Type 0 where
  pub count : s.collected ≡ length l
  pub room : length l ≤ size
  pub text : CString s.console.mem buffer (onto l [])
  pub outside :
      (x : ℕ)
      → on_screen c x ≡ false
      → within buffer (size + 1) x ≡ false
      → s.console.mem x ≡ c.mem x
  pub typed : IsTyped w (echoes size input []) t c s.console

abbrev editor_or : Editor → Input → Editor
editor_or e (returned s rest) = s
editor_or e (waiting s) = e
editor_or e out_of_fuel = e

abbrev IsReturn : Input → Type 0
IsReturn (returned s rest) = Unit
IsReturn (waiting s) = ⊥
IsReturn out_of_fuel = ⊥

abbrev line_or : List ℕ → Option (List ℕ × List ℕ) → List ℕ
line_or l none = l
line_or l (some r) = r.0

abbrev keys_or : List ℕ → Option (List ℕ × List ℕ) → List ℕ
keys_or l none = l
keys_or l (some r) = r.1

pub kgets-IsMade :
    (w fuel buffer size : ℕ) (input l rest : List ℕ) (c : Console) (t : Terminal)
    → IsConsole w c
    → Shows c t
    → w ≤ fuel
    → All (λ ch. ch < 256) input
    → ((x : ℕ) → buffer ≤ x → x ≤ buffer + size → on_screen c x ≡ false)
    → accept size input [] ≡ some (l, rest)
    → (s : Editor) × (kgets fuel buffer size input c ≡ returned s rest)
      × IsMade w buffer size input l t c s
kgets-IsMade w fuel buffer size input l rest c t hc v le small off made =
    let (s', stops, typed) = kgets-Shows w fuel buffer size input c t hc v le small off in
    elim (kgets-accept w fuel buffer size input c hc le small off) [
      | inl (s, none_yet, run) ↦ absurd (ground (arith, none_yet, made))
      | inr (s, l', rest', got, run, count, room, text, outside) ↦
          let same_l : l' ≡ l = ap (λ o. line_or l o) (sym got ∙ made) in
          let same_rest : rest' ≡ rest = ap (λ o. keys_or rest o) (sym got ∙ made) in
          let same : s' ≡ s = elim stops [
            | inl waits ↦ absurd (subst IsReturn (sym run ∙ waits) tt)
            | inr (rest2, ends) ↦ ap (editor_or s) (sym ends ∙ run)
          ] in
          (
            s,
            run ∙ ap (λ r. returned s r) same_rest,
            record {
              count = count ∙ ap length same_l;
              room = subst (λ k. length k ≤ size) same_l room;
              text = subst (λ k. CString s.console.mem buffer (onto k [])) same_l text;
              outside = outside;
              typed = subst (λ e. IsTyped w (echoes size input []) t c e.console) same typed;
            },
          )
    ]
