-- ===== src/Report/Exceptions.antt =====
-- What is printed of an exception without a handler.
mod Tests
use mya_xos.Base.{
  ℕ, zero, suc, ◌+◌, ◌^◌, ◌<◌, ◌≤◌, ◌≡◌, refl, sym, ap, ◌∙◌, List, [], ◌∷◌, ◌++◌, map, get_or, All,
  true, false, arith, length, ltb,
}
use Prim.Native.String.{String}
use mathlib.Core.Path.{subst}
use mya_xos.Memory.{Memory, within, CString}
use mya_xos.Str.Text.{CString-unique}
use mya_xos.Str.Compare.{IsText}
use mya_xos.Print.{printed}
use mya_xos.Print.Pieces.{Piece, plain, a_string, Renders, ends, itself, text_at}
use mya_xos.Vga.{Console, blank}
use mya_xos.Vga.Terminal.{Terminal}
use mya_xos.Vga.Puts.{type_text, type_text-append}
use mya_xos.Report.{codes, run_script}
use mya_xos.Report.Formats.{format, is_format, is_piece, are_pieces, same_bytes}
use mya_xos.Report.Panic.{exception_messages, halt_and_catch_fire, unhandled}
use mya_xos.Print.Numbers.{IsNumeral}
use mya_xos.Report.Texts.{panic_text, string_between, halt_and_catch_fire-shown}
use mya_xos.Report.Play.{
  HoldsText, IsHeld, IsLinked, Says, Ready, Plays, IsPlaying, run_script-Plays,
}
use mya_xos.Report.Faults.{panic_formats, constant-Says, halt_and_catch_fire-Ready}

All-get_or {ℓ κ} :
    {A : Type ℓ} (P : A → Type κ) (xs : List A) (n : ℕ) (d : A)
    → n < length xs
    → All P xs
    → P (get_or xs n d)
All-get_or P [] n d lt h = absurd (omega arith)
All-get_or P (x ∷ xs) zero d lt h = h.0
All-get_or P (x ∷ xs) (suc n) d lt h = All-get_or P xs n d (omega (arith, lt)) h.1

messages-IsText : All (λ f. IsText (codes f) × (length (codes f) < 28)) exception_messages
messages-IsText = omega arith

module _ (v w fuel buf screen : ℕ) (literal : String → ℕ) (m0 : Memory) (narrow : w ≤ 40)
    (long : 28 ≤ w) where
  -- With the names, the formats and the texts in memory, away from what printing writes, an exception
  -- without a handler is reported whole: its name, in the colours that were set, in a line and again behind
  -- it, and then in yellow on red the message of the kernel's end with its text, the file and the line in
  -- decimal.
  pub unhandled-Plays :
      (int_no message file line : ℕ) (p : ℕ × Terminal) (s : Console)
      → int_no < 32
      → All (IsLinked v w fuel buf screen literal m0) exception_messages
      → IsLinked v w fuel buf screen literal m0 "%s exception encountered.\n"
      → All (IsLinked v w fuel buf screen literal m0) panic_formats
      → line < 2 ^ 32
      → (text : HoldsText v w fuel buf screen literal m0 message)
        (named : HoldsText v w fuel buf screen literal m0 file)
      → v ≤ fuel
      → 1024 + w ≤ fuel
      → ((x : ℕ) → buf ≤ x → x < buf + 1024 → within screen 4000 x ≡ false)
      → IsPlaying v w fuel buf screen literal m0 p s
      → let name = codes (get_or exception_messages int_no "") in
        let shown = (name ++ codes " exception encountered.\n") ++ name in
        (s' : Console) × (ns : List ℕ) × (run_script fuel buf literal
            (unhandled literal int_no message file line)
            s
          ≡ printed s')
        × IsNumeral line ns
        × IsPlaying v w fuel buf screen literal m0
            (
              0x4E,
              type_text 0x4E
                  (blank 0x4E)
                  (panic_text text.0 named.0 ns)
                  (type_text p.0 (blank p.0) shown p.1),
            )
            s'
  unfolding unhandled halt_and_catch_fire is_format format is_piece are_pieces same_bytes
  unhandled-Plays int_no message file line p s small names linked panic small_line text named
        patient enough apart h =
      let name = get_or exception_messages int_no "" in
      let (is_text, short) =
        All-get_or (λ f. IsText (codes f) × (length (codes f) < 28)) exception_messages int_no ""
          small messages-IsText in
      let there : IsLinked v w fuel buf screen literal m0 name =
        All-get_or (IsLinked v w fuel buf screen literal m0) exception_messages int_no "" small
          names in
      let held : HoldsText v w fuel buf screen literal m0 (literal name) =
        (codes name, there, is_text, omega (arith, short, long)) in
      let first =
        constant-Says v w fuel buf screen literal m0 25 "%s exception encountered.\n"
          (literal name ∷ []) refl (omega (arith, narrow)) (omega arith) (held, tt) linked in
      let (s', q, run, plays, after) =
        run_script-Plays v w fuel buf screen literal m0 patient (omega (arith, long)) enough apart
          (unhandled literal int_no message file line) p s
          (
            first,
            (
              held,
              halt_and_catch_fire-Ready v w fuel buf screen literal m0 message file line narrow
                  panic text named small_line,
            ),
          )
          h in
      let (out, r, later) = plays in
      let (bs, again, end) = later in
      let said : out ≡ codes name ++ codes " exception encountered.\n" =
        string_between m0 [] (codes " exception encountered.\n") (codes name) there.text r in
      let shown = (codes name ++ codes " exception encountered.\n") ++ codes name in
      let typed : type_text p.0 (blank p.0) bs (type_text p.0 (blank p.0) out p.1)
          ≡ type_text p.0 (blank p.0) shown p.1 =
        rw (said, CString-unique m0 (literal name) bs (codes name) again there.text)
          (sym (
            type_text-append p.0 (blank p.0) (codes name ++ codes " exception encountered.\n")
              (codes name) p.1)) in
      let (ns, n, ended) =
        halt_and_catch_fire-shown v w fuel buf screen literal m0 message file line text.0 named.0
          (p.0, type_text p.0 (blank p.0) bs (type_text p.0 (blank p.0) out p.1)) q text.1.text
          named.1.text end in
      (
        s',
        ns,
        run,
        n,
        subst (λ k. IsPlaying v w fuel buf screen literal m0 k s')
            (ended
              ∙ ap (λ k. (0x4E, type_text 0x4E (blank 0x4E) (panic_text text.0 named.0 ns) k))
                  typed)
            after,
      )
