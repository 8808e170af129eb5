-- ===== src/Print/Format.antt =====
-- What `kprintf` puts into its buffer, against a description of formats by their pieces.
use mya_xos.Base.{
  ◌-◌, ◌*◌, leb, ◌==◌, false, inl, inr, Bool-cases, length-append, ℕ, zero, suc, ◌+◌, ◌^◌, ◌<◌, ◌≤◌,
  ◌≡◌, ◌≢◌, refl, sym, ap, ◌∙◌, some, List, [], ◌∷◌, ◌++◌, arith, length, All, u8,
}
use mathlib.Core.List.{append_assoc, append-nil}
use native.Mathlib.Nat.{pow-le-pow_right}
use mya_xos.Memory.{Memory, within, store8, CString}
use mya_xos.Print.{parse_num, escape, printed, fill, copy_string, convert, print_loop}
use mya_xos.Print.Numbers.{IsNumeral, parse_num-IsNumeral, parse_hex-reads}
use mya_xos.Print.Pieces.{
  Piece, plain, escaped, a_string, a_char, a_hex, a_number, behind_percent, spell, IsPiece,
  escaped_text, escape-escaped_text, AreSupplied, Renders, ends, itself, escape_of, text_at,
  low_byte, hexadecimal, decimal, second,
}

fill-apart :
    (out : List ℕ) (m : Memory) (p x : ℕ) → within p (length out) x ≡ false → fill m p out x ≡ m x
unfolding fill
fill-apart [] m p x off = refl
fill-apart (c ∷ cs) m p x off = ground (arith, fill-apart cs (store8 m p c) (p + 1) x, off)

fill-outside :
    (out : List ℕ) (m : Memory) (p x : ℕ)
    → length out < 1024
    → within p 1024 x ≡ false
    → fill m p out x ≡ m x
fill-outside out m p x room off = fill-apart out m p x (ground (arith, off))

-- The `n` bytes from `p` on and the next one stand outside the buffer.
abbrev pub IsOff : (buf p n : ℕ) → Type 0
IsOff buf p n = (x : ℕ) → p ≤ x → x ≤ p + n → within buf 1024 x ≡ false

copy_string-CString :
    (fuel : ℕ) (m : Memory) (buf s : ℕ) (bs out : List ℕ)
    → CString m s bs
    → length bs < fuel
    → length out + length bs < 1024
    → IsOff buf s (length bs)
    → copy_string fuel m buf s out ≡ printed (out ++ bs)
unfolding copy_string
copy_string-CString zero m buf s bs out h lt room off = absurd (omega arith)
copy_string-CString (suc fuel) m buf s [] out h lt room off =
    let same = fill-outside out m buf s (omega arith) (off s (omega arith) (omega arith)) in
    let fits : leb 1024 (length out) ≡ false = ground arith in
    rw (same, fits, h) (ap printed (sym (append-nil out)))
copy_string-CString (suc fuel) m buf s (c ∷ cs) out h lt room off =
    let same = fill-outside out m buf s (omega arith) (off s (omega arith) (omega arith)) in
    let fits : leb 1024 (length out) ≡ false = ground arith in
    let more : (c == 0) ≡ false = ground (arith, h.1) in
    let rest =
      copy_string-CString fuel m buf (s + 1) cs (out ++ (c ∷ [])) h.2 (omega arith)
        (omega (arith, length-append out (c ∷ [])))
        (λ x lo hi. off x (omega arith) (omega arith)) in
    rw (same, fits, h.0, more, rest) (ap printed (append_assoc out (c ∷ []) cs))

-- One round of the loop, with a byte of the buffer left.
module _ (fuel : ℕ) (m : Memory) (buf fmt i : ℕ) (args out : List ℕ)
    (room : length out < 1024) where
  fits : leb 1024 (length out) ≡ false
  fits = ground arith

  print_loop-plain :
      (c : ℕ)
      → fill m buf out (fmt + i) ≡ c
      → (c ≢ b'%') × (c ≢ b'\\') × (0 < c) × (c < 256)
      → print_loop (suc fuel) m buf fmt i args out
        ≡ print_loop fuel m buf fmt (i + 1) args (out ++ (c ∷ []))
  unfolding print_loop
  print_loop-plain c e h = rw (fits, e) (ground arith)

  print_loop-escaped :
      (d : ℕ)
      → fill m buf out (fmt + i) ≡ b'\\'
      → fill m buf out (fmt + (i + 1)) ≡ d
      → print_loop (suc fuel) m buf fmt i args out
        ≡ print_loop fuel m buf fmt (i + 2) args (out ++ escaped_text d)
  unfolding print_loop
  print_loop-escaped d e e' = rw (print_loop, fits, e, e', ← escape-escaped_text d) refl

  print_loop-converted :
      (d : ℕ) (args' out' : List ℕ)
      → fill m buf out (fmt + i) ≡ b'%'
      → fill m buf out (fmt + (i + 1)) ≡ d
      → convert fuel m buf d args out ≡ printed (args', out')
      → print_loop (suc fuel) m buf fmt i args out ≡ print_loop fuel m buf fmt (i + 2) args' out'
  unfolding print_loop
  print_loop-converted d args' out' e e' run = rw (print_loop, fits, e, e', run) refl

  print_loop-end :
      fill m buf out (fmt + i) ≡ 0
      → print_loop (suc fuel) m buf fmt i args out ≡ printed (out ++ [])
  unfolding print_loop
  print_loop-end e = rw (print_loop, fits, e) (ap printed (sym (append-nil out)))

convert-behind_percent :
    (fuel : ℕ) (m : Memory) (buf d : ℕ) (args out : List ℕ)
    → IsPiece (behind_percent d)
    → convert fuel m buf d args out ≡ printed (args, out ++ (d ∷ []))
unfolding convert
convert-behind_percent fuel m buf d [] out h = ground arith
convert-behind_percent fuel m buf d (a ∷ args) out h = ground arith

-- What the rest of the format has to give.
abbrev Rest : (fuel : ℕ) → Memory → (buf fmt i : ℕ) → List Piece → (args buf : List ℕ) → Type 0
Rest fuel m buf fmt i ps args out =
    (more : List ℕ) × (print_loop fuel m buf fmt i args out ≡ printed (out ++ more))
    × Renders m ps args more

-- Between two rounds: the text `now` was added.
Rest-run :
    (fuel : ℕ) (m : Memory) (buf fmt i j : ℕ) (args args' out now more : List ℕ)
    → print_loop (suc fuel) m buf fmt i args out ≡ print_loop fuel m buf fmt j args' (out ++ now)
    → print_loop fuel m buf fmt j args' (out ++ now) ≡ printed ((out ++ now) ++ more)
    → print_loop (suc fuel) m buf fmt i args out ≡ printed (out ++ (now ++ more))
Rest-run fuel m buf fmt i j args args' out now more step run =
    step ∙ run ∙ ap printed (append_assoc out now more)

convert-string :
    (fuel : ℕ) (m : Memory) (buf a : ℕ) (args out bs : List ℕ)
    → CString m a bs
    → length bs < fuel
    → length out + length bs < 1024
    → IsOff buf a (length bs)
    → convert fuel m buf b's' (a ∷ args) out ≡ printed (args, out ++ bs)
unfolding convert
convert-string fuel m buf a args out bs held h room off =
    rw (copy_string-CString fuel m buf a bs out held h room off) refl

convert-number :
    (fuel : ℕ) (m : Memory) (buf a : ℕ) (args out cs : List ℕ)
    → parse_num fuel a 10 out ≡ some (out ++ cs)
    → convert fuel m buf b'd' (a ∷ args) out ≡ printed (args, out ++ cs)
unfolding convert
convert-number fuel m buf a args out cs run = rw run refl

pub length-escaped_text : (d : ℕ) → length (escaped_text d) ≤ 1
unfolding escape
length-escaped_text d = rw (← escape-escaped_text d) (ground arith)

pub length-IsNumeral : (a : ℕ) (cs : List ℕ) → a < 2 ^ 32 → IsNumeral a cs → length cs ≤ 10
length-IsNumeral a cs h n = elim (Bool-cases (leb (length cs) 10)) [
  | inl short ↦ ground arith
  | inr long ↦
      let big =
        pow-le-pow_right {n = 10} (omega arith) {i = 10} {j = length cs - 1} (ground arith) in
      absurd (omega (arith, big, n.shortest))
]

digits_fit : (fuel a : ℕ) → a < 2 ^ 32 → 10 ≤ fuel → a < 10 ^ fuel
digits_fit fuel a h room = omega (arith, pow-le-pow_right {n = 10} (omega arith) room)

next_place : (p fmt i : ℕ) → p ≡ fmt + i → fmt + (i + 1) ≡ p + 1
next_place p fmt i e = omega arith

-- What stands at the place, and behind it, read past the bytes in the buffer.
reads_at :
    (m : Memory) (buf p a n : ℕ) (out : List ℕ)
    → length out < 1024
    → IsOff buf p n
    → p ≤ a
    → a ≤ p + n
    → (k : ℕ) → k ≡ a
    → fill m buf out k ≡ m a
reads_at m buf p a n out room off lo hi k e = rw e (fill-outside out m buf a room (off a lo hi))

pub print_loop-Renders :
    (fuel : ℕ) (m : Memory) (buf fmt i p w : ℕ) (args out : List ℕ) (ps : List Piece)
    → p ≡ fmt + i
    → CString m p (spell ps)
    → IsOff buf p (length (spell ps))
    → All IsPiece ps
    → AreSupplied m buf w ps args
    → 10 ≤ w
    → length ps + w ≤ fuel
    → length out + length ps * w < 1024
    → Rest fuel m buf fmt i ps args out
unfolding convert
print_loop-Renders zero m buf fmt i p w args out ps ep h off k s lo room short =
    absurd (omega arith)
print_loop-Renders (suc fuel) m buf fmt i p w args out [] ep h off k s lo room short = (
  [],
  print_loop-end fuel m buf fmt i args out (omega arith) (
      reads_at m buf p p 0 out (omega arith) off (omega arith) (omega arith) (fmt + i) (omega arith)
      ∙ h),
  ends,
)
print_loop-Renders (suc fuel) m buf fmt i p w args out (plain c ∷ ps) ep h off k s lo room short =
    let small : length (c ∷ []) ≤ w = omega arith in
    let long : length (out ++ (c ∷ [])) ≡ length out + length (c ∷ []) =
      length-append out (c ∷ []) in
    let (more, run, r) =
      print_loop-Renders fuel m buf fmt (i + 1) (p + 1) w args (out ++ (c ∷ [])) ps (omega arith)
        h.2 (λ x a b. off x (omega arith) (omega arith)) k.1 s lo (omega arith) (omega arith) in
    let first =
      reads_at m buf p p (length (spell ps) + 1) out (omega arith) (λ x a b. off x a (omega arith))
        (omega arith) (omega arith) (fmt + i) (omega arith)
      ∙ h.0 in
    let now = print_loop-plain fuel m buf fmt i args out (omega arith) c first k.0 in
    (
      (c ∷ []) ++ more,
      Rest-run fuel m buf fmt i (i + 1) args args out (c ∷ []) more now run,
      itself c r,
    )
print_loop-Renders (suc fuel) m buf fmt i p w args out (escaped d ∷ ps) ep h off k s lo room short =
    let small : length (escaped_text d) ≤ w = omega (arith, length-escaped_text d) in
    let long : length (out ++ (escaped_text d)) ≡ length out + length (escaped_text d) =
      length-append out (escaped_text d) in
    let (more, run, r) =
      print_loop-Renders fuel m buf fmt (i + 2) (p + 1 + 1) w args (out ++ (escaped_text d)) ps
        (omega arith) h.2.2 (λ x a b. off x (omega arith) (omega arith)) k.1 s lo (omega arith)
        (omega arith) in
    let first =
      reads_at m buf p p (length (spell ps) + 2) out (omega arith) (λ x a b. off x a (omega arith))
        (omega arith) (omega arith) (fmt + i) (omega arith)
      ∙ h.0 in
    let next =
      reads_at m buf p (p + 1) (length (spell ps) + 2) out (omega arith)
        (λ x a b. off x a (omega arith)) (omega arith) (omega arith) (fmt + (i + 1)) (omega arith)
      ∙ h.2.0 in
    let now = print_loop-escaped fuel m buf fmt i args out (omega arith) d first next in
    (
      (escaped_text d) ++ more,
      Rest-run fuel m buf fmt i (i + 2) args args out (escaped_text d) more now run,
      escape_of d r,
    )
print_loop-Renders (suc fuel) m buf fmt i p w args out (behind_percent d ∷ ps) ep h off k s lo room
      short =
    let small : length (d ∷ []) ≤ w = omega arith in
    let long : length (out ++ (d ∷ [])) ≡ length out + length (d ∷ []) =
      length-append out (d ∷ []) in
    let (more, run, r) =
      print_loop-Renders fuel m buf fmt (i + 2) (p + 1 + 1) w args (out ++ (d ∷ [])) ps
        (omega arith) h.2.2 (λ x a b. off x (omega arith) (omega arith)) k.1 s lo (omega arith)
        (omega arith) in
    let first =
      reads_at m buf p p (length (spell ps) + 2) out (omega arith) (λ x a b. off x a (omega arith))
        (omega arith) (omega arith) (fmt + i) (omega arith)
      ∙ h.0 in
    let next =
      reads_at m buf p (p + 1) (length (spell ps) + 2) out (omega arith)
        (λ x a b. off x a (omega arith)) (omega arith) (omega arith) (fmt + (i + 1)) (omega arith)
      ∙ h.2.0 in
    let now =
      print_loop-converted fuel m buf fmt i args out (omega arith) d args (out ++ (d ∷ [])) first
        next (convert-behind_percent fuel m buf d args out k.0) in
    (
      (d ∷ []) ++ more,
      Rest-run fuel m buf fmt i (i + 2) args args out (d ∷ []) more now run,
      second d r,
    )
print_loop-Renders (suc fuel) m buf fmt i p w (a ∷ args) out (a_string ∷ ps) ep h off k s lo room
      short =
    let (bs, held, text, few, apart) = s.0 in
    let small : length (bs) ≤ w = omega arith in
    let long : length (out ++ (bs)) ≡ length out + length (bs) = length-append out (bs) in
    let (more, run, r) =
      print_loop-Renders fuel m buf fmt (i + 2) (p + 1 + 1) w args (out ++ (bs)) ps (omega arith)
        h.2.2 (λ x a b. off x (omega arith) (omega arith)) k.1 s.1 lo (omega arith) (omega arith) in
    let first =
      reads_at m buf p p (length (spell ps) + 2) out (omega arith) (λ x a b. off x a (omega arith))
        (omega arith) (omega arith) (fmt + i) (omega arith)
      ∙ h.0 in
    let next =
      reads_at m buf p (p + 1) (length (spell ps) + 2) out (omega arith)
        (λ x a b. off x a (omega arith)) (omega arith) (omega arith) (fmt + (i + 1)) (omega arith)
      ∙ h.2.0 in
    let now =
      print_loop-converted fuel m buf fmt i (a ∷ args) out (omega arith) b's' args (out ++ (bs))
        first next
        (convert-string fuel m buf a args out bs held (omega arith) (omega arith) apart) in
    (
      (bs) ++ more,
      Rest-run fuel m buf fmt i (i + 2) (a ∷ args) args out (bs) more now run,
      text_at a bs held text r,
    )
print_loop-Renders (suc fuel) m buf fmt i p w (a ∷ args) out (a_char ∷ ps) ep h off k s lo room
      short =
    let small : length (u8 a ∷ []) ≤ w = omega arith in
    let long : length (out ++ (u8 a ∷ [])) ≡ length out + length (u8 a ∷ []) =
      length-append out (u8 a ∷ []) in
    let (more, run, r) =
      print_loop-Renders fuel m buf fmt (i + 2) (p + 1 + 1) w args (out ++ (u8 a ∷ [])) ps
        (omega arith) h.2.2 (λ x a b. off x (omega arith) (omega arith)) k.1 s.1 lo (omega arith)
        (omega arith) in
    let first =
      reads_at m buf p p (length (spell ps) + 2) out (omega arith) (λ x a b. off x a (omega arith))
        (omega arith) (omega arith) (fmt + i) (omega arith)
      ∙ h.0 in
    let next =
      reads_at m buf p (p + 1) (length (spell ps) + 2) out (omega arith)
        (λ x a b. off x a (omega arith)) (omega arith) (omega arith) (fmt + (i + 1)) (omega arith)
      ∙ h.2.0 in
    let now =
      print_loop-converted fuel m buf fmt i (a ∷ args) out (omega arith) b'c' args
        (out ++ (u8 a ∷ [])) first next (refl) in
    (
      (u8 a ∷ []) ++ more,
      Rest-run fuel m buf fmt i (i + 2) (a ∷ args) args out (u8 a ∷ []) more now run,
      low_byte a r,
    )
print_loop-Renders (suc fuel) m buf fmt i p w (a ∷ args) out (a_hex ∷ ps) ep h off k s lo room
      short =
    let (cs, hex, len, reads, digits) = parse_hex-reads a out s.0 in
    let small : length (cs) ≤ w = omega arith in
    let long : length (out ++ (cs)) ≡ length out + length (cs) = length-append out (cs) in
    let (more, run, r) =
      print_loop-Renders fuel m buf fmt (i + 2) (p + 1 + 1) w args (out ++ (cs)) ps (omega arith)
        h.2.2 (λ x a b. off x (omega arith) (omega arith)) k.1 s.1 lo (omega arith) (omega arith) in
    let first =
      reads_at m buf p p (length (spell ps) + 2) out (omega arith) (λ x a b. off x a (omega arith))
        (omega arith) (omega arith) (fmt + i) (omega arith)
      ∙ h.0 in
    let next =
      reads_at m buf p (p + 1) (length (spell ps) + 2) out (omega arith)
        (λ x a b. off x a (omega arith)) (omega arith) (omega arith) (fmt + (i + 1)) (omega arith)
      ∙ h.2.0 in
    let now =
      print_loop-converted fuel m buf fmt i (a ∷ args) out (omega arith) b'x' args (out ++ (cs))
        first next (ap (λ b. printed (args, b)) hex) in
    (
      (cs) ++ more,
      Rest-run fuel m buf fmt i (i + 2) (a ∷ args) args out (cs) more now run,
      hexadecimal a cs len reads digits r,
    )
print_loop-Renders (suc fuel) m buf fmt i p w (a ∷ args) out (a_number ∷ ps) ep h off k s lo room
      short =
    let (cs, dec, numeral) =
      parse_num-IsNumeral fuel a out (digits_fit fuel a s.0 (omega arith)) (omega arith) in
    let small : length (cs) ≤ w = omega (arith, length-IsNumeral a cs s.0 numeral) in
    let long : length (out ++ (cs)) ≡ length out + length (cs) = length-append out (cs) in
    let (more, run, r) =
      print_loop-Renders fuel m buf fmt (i + 2) (p + 1 + 1) w args (out ++ (cs)) ps (omega arith)
        h.2.2 (λ x a b. off x (omega arith) (omega arith)) k.1 s.1 lo (omega arith) (omega arith) in
    let first =
      reads_at m buf p p (length (spell ps) + 2) out (omega arith) (λ x a b. off x a (omega arith))
        (omega arith) (omega arith) (fmt + i) (omega arith)
      ∙ h.0 in
    let next =
      reads_at m buf p (p + 1) (length (spell ps) + 2) out (omega arith)
        (λ x a b. off x a (omega arith)) (omega arith) (omega arith) (fmt + (i + 1)) (omega arith)
      ∙ h.2.0 in
    let now =
      print_loop-converted fuel m buf fmt i (a ∷ args) out (omega arith) b'd' args (out ++ (cs))
        first next (convert-number fuel m buf a args out cs dec) in
    (
      (cs) ++ more,
      Rest-run fuel m buf fmt i (i + 2) (a ∷ args) args out (cs) more now run,
      decimal a cs numeral r,
    )
print_loop-Renders (suc fuel) m buf fmt i p w [] out (a_string ∷ ps) ep h off k s lo room short =
    elim s [ ]
print_loop-Renders (suc fuel) m buf fmt i p w [] out (a_char ∷ ps) ep h off k s lo room short =
    elim s [ ]
print_loop-Renders (suc fuel) m buf fmt i p w [] out (a_hex ∷ ps) ep h off k s lo room short =
    elim s [ ]
print_loop-Renders (suc fuel) m buf fmt i p w [] out (a_number ∷ ps) ep h off k s lo room short =
    elim s [ ]
