-- ===== src/Report/Texts.antt =====
-- The texts of a kernel's end and of a page fault, piece in front of piece.
use mya_xos.Base.{
  ℕ, zero, suc, ◌^◌, arith, bit_and, ◌*◌, ◌/◌, ◌%◌, ◌≡◌, refl, ap, sym, ◌∙◌, List, [], ◌∷◌, ◌++◌,
  map, All, length, ◌==◌, if◌then◌else◌,
}
use Prim.Native.String.{String}
use mathlib.Core.List.{append-nil, append_assoc}
use native.Mathlib.Nat.{pow-suc, div-div-eq-div-mul}
use mathlib.Core.Path.{subst}
use mya_xos.Base.Bits.{bit, bit_and-pow, bit_and_mask}
use mya_xos.Memory.{Memory, CString}
use mya_xos.Str.Text.{CString-unique}
use mya_xos.Vga.{blank}
use mya_xos.Vga.Terminal.{Terminal}
use mya_xos.Vga.Puts.{type_text, type_text-append}
use mya_xos.Print.Numbers.{IsNumeral, read_from, hex_value, IsHexDigit}
use mya_xos.Print.Pieces.{
  Piece, plain, a_string, a_hex, a_number, Renders, ends, itself, text_at, hexadecimal, decimal,
}
use mya_xos.Report.{codes}
use mya_xos.Report.Formats.{format}
use mya_xos.Report.Panic.{halt_and_catch_fire}
use mya_xos.Report.Play.{Plays}

-- The text of the kernel's end: the message, the file and the number of the line.
abbrev pub panic_text : (message file line : List ℕ) → List ℕ
panic_text message file line =
    codes "PANIC! " ++ message ++ codes "\nFile: " ++ file ++ codes "\nLine: " ++ line ++ codes "\n"

-- A text in hexadecimal for a word.
pub record IsHexWord (a : ℕ) (cs : List ℕ) : Type 0 where
  pub eight : length cs ≡ 8
  pub reads : read_from hex_value 16 0 cs ≡ a
  pub digits : All IsHexDigit cs

-- The report of a page fault: bit 0 of the error code, inverted, the next four in place, and the address.
pub record IsFaultText (err address : ℕ) (out : List ℕ) : Type 0 where
  pub present : List ℕ
  pub rw_ : List ℕ
  pub user : List ℕ
  pub reserved : List ℕ
  pub fetch : List ℕ
  pub place : List ℕ
  pub is_present : IsNumeral (if err % 2 == 0 then 1 else 0) present
  pub is_rw : IsNumeral (err / 2 % 2 * 2) rw_
  pub is_user : IsNumeral (err / 4 % 2 * 4) user
  pub is_reserved : IsNumeral (err / 8 % 2 * 8) reserved
  pub is_fetch : IsNumeral (err / 16 % 2 * 16) fetch
  pub is_place : IsHexWord address place
  pub whole :
      out
      ≡ codes "Page fault! (p:"
        ++ (present
            ++ (codes ",rw:"
                ++ (rw_
                    ++ (codes ",user:"
                        ++ (user
                            ++ (codes ",res:"
                                ++ (reserved
                                    ++ (codes ",id:"
                                        ++ (fetch
                                            ++ (codes ") at 0x" ++ (place ++ (codes "\n"))))))))))))

bit-div : (k w : ℕ) → bit w k ≡ w / 2 ^ k % 2
unfolding bit
bit-div zero w = omega arith
bit-div (suc k) w =
    let split : w / 2 / 2 ^ k ≡ w / (2 * 2 ^ k) = div-div-eq-div-mul w 2 (2 ^ k) in
    let two : 2 * 2 ^ k ≡ 2 ^ suc k = omega (arith, pow-suc 2 k) in
    bit-div k (w / 2) ∙ ap (λ x. x % 2) (split ∙ ap (λ y. w / y) two)

bit_at : (k w : ℕ) → bit_and w (2 ^ k) ≡ w / 2 ^ k % 2 * 2 ^ k
bit_at k w = bit_and-pow k w ∙ ap (λ b. b * 2 ^ k) (bit-div k w)

in_front :
    (now : List ℕ) {out rest later : List ℕ} → out ≡ now ++ rest → rest ≡ later → out ≡ now ++ later
in_front now e e' = e ∙ ap (λ l. now ++ l) e'

-- What a rendered text is made of, from its front.
module _ (m : Memory) where
  first_plain :
      (cs : List ℕ) {ps : List Piece} {args out : List ℕ}
      → Renders m (map plain cs ++ ps) args out
      → (rest : List ℕ) × Renders m ps args rest × (out ≡ cs ++ rest)
  first_plain [] {out = out} r = (out, r, refl)
  first_plain (c ∷ cs) (itself d r) =
      let (rest, r', e) = first_plain cs r in (rest, r', ap (λ l. c ∷ l) e)

  first_string :
      (w : List ℕ) {a : ℕ} {ps : List Piece} {args out : List ℕ}
      → CString m a w
      → Renders m (a_string ∷ ps) (a ∷ args) out
      → (rest : List ℕ) × Renders m ps args rest × (out ≡ w ++ rest)
  first_string w {a} held (text_at b bs {out = rest} there text r) =
      (rest, r, ap (λ l. l ++ rest) (CString-unique m a bs w there held))

  first_number :
      {a : ℕ} {ps : List Piece} {args out : List ℕ}
      → Renders m (a_number ∷ ps) (a ∷ args) out
      → (cs : List ℕ) × IsNumeral a cs
        × (rest : List ℕ) × Renders m ps args rest
        × (out ≡ cs ++ rest)
  first_number (decimal a cs {out = rest} n r) = (cs, n, rest, r, refl)

  first_hex :
      {a : ℕ} {ps : List Piece} {args out : List ℕ}
      → Renders m (a_hex ∷ ps) (a ∷ args) out
      → (cs : List ℕ) × IsHexWord a cs
        × (rest : List ℕ) × Renders m ps args rest
        × (out ≡ cs ++ rest)
  first_hex (hexadecimal a cs {out = rest} len reads digits r) =
      (cs, record { eight = len; reads = reads; digits = digits }, rest, r, refl)

  nothing_left : {args out : List ℕ} → Renders m [] args out → out ≡ []
  nothing_left ends = refl

  -- A text with one string in it, and one with one number.
  pub string_between :
      (cs ds w : List ℕ) {a : ℕ} {out : List ℕ}
      → CString m a w
      → Renders m (map plain cs ++ (a_string ∷ (map plain ds ++ []))) (a ∷ []) out
      → out ≡ cs ++ (w ++ ds)
  string_between cs ds w held r =
      let (o1, r1, e1) = first_plain cs r in
      let (o2, r2, e2) = first_string w held r1 in
      let (o3, r3, e3) = first_plain ds r2 in
      e1
      ∙ ap (λ l. cs ++ l)
          (e2 ∙ ap (λ l. w ++ l) (e3 ∙ ap (λ l. ds ++ l) (nothing_left r3) ∙ append-nil ds))

  number_between :
      (cs ds : List ℕ) {a : ℕ} {out : List ℕ}
      → Renders m (map plain cs ++ (a_number ∷ (map plain ds ++ []))) (a ∷ []) out
      → (ns : List ℕ) × IsNumeral a ns × (out ≡ cs ++ (ns ++ ds))
  number_between cs ds r =
      let (o1, r1, e1) = first_plain cs r in
      let (ns, n, o2, r2, e2) = first_number r1 in
      let (o3, r3, e3) = first_plain ds r2 in
      (
        ns,
        n,
        e1
            ∙ ap (λ l. cs ++ l)
                (e2 ∙ ap (λ l. ns ++ l) (e3 ∙ ap (λ l. ds ++ l) (nothing_left r3) ∙ append-nil ds)),
      )

  -- The three lines as one text.
  panic_text-lines :
      (message file line : List ℕ)
      → ((codes "PANIC! " ++ (message ++ codes "\n")) ++ (codes "File: " ++ (file ++ codes "\n")))
          ++ (codes "Line: " ++ (line ++ codes "\n"))
        ≡ panic_text message file line
  panic_text-lines message file line = simp (append_assoc) refl

-- The pieces of the message of a page fault, from its numbers on.
abbrev from_address : List Piece
from_address = a_hex ∷ map plain (codes "\n")

abbrev from_id : List Piece
from_id = a_number ∷ (map plain (codes ") at 0x") ++ from_address)

abbrev from_res : List Piece
from_res = a_number ∷ (map plain (codes ",id:") ++ from_id)

abbrev from_user : List Piece
from_user = a_number ∷ (map plain (codes ",res:") ++ from_res)

abbrev from_rw : List Piece
from_rw = a_number ∷ (map plain (codes ",user:") ++ from_user)

abbrev from_present : List Piece
from_present = a_number ∷ (map plain (codes ",rw:") ++ from_rw)

-- The message of a page fault.
module _ (m : Memory) (err address : ℕ) where
  pub fault-IsFaultText :
      (out : List ℕ)
      → Renders m
          (format (codes "Page fault! (p:%d,rw:%d,user:%d,res:%d,id:%d) at 0x%x\n"))
          ((if bit_and err 0x1 == 0 then 1 else 0)
            ∷ bit_and err 0x2
            ∷ bit_and err 0x4
            ∷ bit_and err 0x8
            ∷ bit_and err 0x10
            ∷ address
            ∷ [])
          out
      → IsFaultText err address out
  unfolding format
  fault-IsFaultText out r =
      let (o0, r0, e0) = first_plain m (codes "Page fault! (p:") {ps = from_present} r in
      let (n0, i0, o1, r1, e1) = first_number m r0 in
      let (o2, r2, e2) = first_plain m (codes ",rw:") {ps = from_rw} r1 in
      let (n1, i1, o3, r3, e3) = first_number m r2 in
      let (o4, r4, e4) = first_plain m (codes ",user:") {ps = from_user} r3 in
      let (n2, i2, o5, r5, e5) = first_number m r4 in
      let (o6, r6, e6) = first_plain m (codes ",res:") {ps = from_res} r5 in
      let (n3, i3, o7, r7, e7) = first_number m r6 in
      let (o8, r8, e8) = first_plain m (codes ",id:") {ps = from_id} r7 in
      let (n4, i4, o9, r9, e9) = first_number m r8 in
      let (p0, s0, f0) = first_plain m (codes ") at 0x") {ps = from_address} r9 in
      let (hs, i5, p1, s1, f1) = first_hex m s0 in
      let (p2, s2, f2) = first_plain m (codes "\n") {ps = []} s1 in
      let low : bit_and err 0x1 ≡ err % 2 = bit_and_mask 1 err in
      record {
        present = n0;
        rw_ = n1;
        user = n2;
        reserved = n3;
        fetch = n4;
        place = hs;
        is_present = rw low at i0;
        is_rw = subst (λ x. IsNumeral x n1) (bit_at 1 err) i1;
        is_user = subst (λ x. IsNumeral x n2) (bit_at 2 err) i2;
        is_reserved = subst (λ x. IsNumeral x n3) (bit_at 3 err) i3;
        is_fetch = subst (λ x. IsNumeral x n4) (bit_at 4 err) i4;
        is_place = i5;
        whole = in_front (codes "Page fault! (p:") e0 (
            in_front n0 e1 (
              in_front (codes ",rw:") e2 (
                in_front n1 e3 (
                  in_front (codes ",user:") e4 (
                    in_front n2 e5 (
                      in_front (codes ",res:") e6 (
                        in_front n3 e7 (
                          in_front (codes ",id:") e8 (
                            in_front n4 e9 (
                              in_front (codes ") at 0x") f0 (
                                in_front hs f1
                                  (in_front (codes "\n") f2 (nothing_left m s2)))))))))))));
      }

module _ (v w fuel buf screen : ℕ) (literal : String → ℕ) (m0 : Memory) where
  -- What the end of the kernel shows.
  pub halt_and_catch_fire-shown :
      (message file line : ℕ) (ms fs : List ℕ) (p q : ℕ × Terminal)
      → CString m0 message ms
      → CString m0 file fs
      → Plays v w fuel buf screen literal m0 (halt_and_catch_fire message file line) p q
      → (ns : List ℕ) × IsNumeral line ns
        × (q ≡ (0x4E, type_text 0x4E (blank 0x4E) (panic_text ms fs ns) p.1))
  unfolding halt_and_catch_fire format
  halt_and_catch_fire-shown message file line ms fs p q held named
        (o1, r1, (o2, r2, (o3, r3, end))) =
      let e1 = string_between m0 (codes "PANIC! ") (codes "\n") ms held r1 in
      let e2 = string_between m0 (codes "File: ") (codes "\n") fs named r2 in
      let (ns, n, e3) = number_between m0 (codes "Line: ") (codes "\n") r3 in
      let whole : (o1 ++ o2) ++ o3 ≡ panic_text ms fs ns =
        rw (e1, e2, e3) (panic_text-lines m0 ms fs ns) in
      let b = blank 0x4E in
      (
        ns,
        n,
        end
            ∙ ap (λ t. (0x4E, t))
                (ap (type_text 0x4E b o3) (sym (type_text-append 0x4E b o1 o2 p.1))
                  ∙ sym (type_text-append 0x4E b (o1 ++ o2) o3 p.1)
                  ∙ ap (λ l. type_text 0x4E b l p.1) whole),
      )
