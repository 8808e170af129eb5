-- ===== src/Report/Formats.antt =====
-- The formats of the kernel, read into their pieces, and a test that `kprintf` can print them.
use mya_xos.Base.{
  ℕ, ◌*◌, ◌<◌, ◌≤◌, ◌≡◌, refl, List, [], ◌∷◌, true, false, Bool, not, ◌&&◌, arith, ◌==◌, ltb, leb,
  if◌then◌else◌, length, All,
}
use Prim.Native.String.{String}
use native.Mathlib.Nat.{mul-le-mul_right}
use mya_xos.Print.Pieces.{
  Piece, plain, escaped, a_string, a_char, a_hex, a_number, behind_percent, spell, IsPiece,
}
use mya_xos.Report.{codes}

-- The pieces of a format.
unfoldable pub format : List ℕ → List Piece
format [] = []
format (c ∷ []) = plain c ∷ []
format (c ∷ d ∷ cs) =
    let rest = format cs in
    let next = format (d ∷ cs) in
    if c == b'\\'
    then escaped d ∷ rest
    else if not (c == b'%')
    then plain c ∷ next
    else (if d == b's'
        then a_string
        else if d == b'c'
        then a_char
        else if d == b'x'
        then a_hex
        else if d == b'd'
        then a_number
        else behind_percent d)
      ∷ rest

-- A format that `kprintf` can print, with texts of fewer than `w` characters.
abbrev pub IsFormat : (w : ℕ) → String → Type 0
IsFormat w f =
    (spell (format (codes f)) ≡ codes f)
    × All IsPiece (format (codes f))
    × (length (format (codes f)) * w < 1024)
    × (length (format (codes f)) < 1024)

unfoldable pub is_piece : Piece → Bool
is_piece (plain c) = not (c == b'%') && not (c == b'\\') && ltb 0 c && ltb c 256
is_piece (behind_percent d) =
    not (d == b's') && not (d == b'c') && not (d == b'x') && not (d == b'd') && ltb 0 d && ltb d 256
is_piece _ = true

is_piece-IsPiece : (p : Piece) → is_piece p ≡ true → IsPiece p
unfolding is_piece
is_piece-IsPiece (plain c) h = ground (arith, h)
is_piece-IsPiece (behind_percent d) h = ground (arith, h)
is_piece-IsPiece (escaped d) h = tt
is_piece-IsPiece a_string h = tt
is_piece-IsPiece a_char h = tt
is_piece-IsPiece a_hex h = tt
is_piece-IsPiece a_number h = tt

unfoldable pub are_pieces : List Piece → Bool
are_pieces [] = true
are_pieces (p ∷ ps) = is_piece p && are_pieces ps

are_pieces-IsPiece : (ps : List Piece) → are_pieces ps ≡ true → All IsPiece ps
unfolding are_pieces
are_pieces-IsPiece [] h = tt
are_pieces-IsPiece (p ∷ ps) h =
    (is_piece-IsPiece p (ground (arith, h)), are_pieces-IsPiece ps (ground (arith, h)))

unfoldable pub same_bytes : List ℕ → List ℕ → Bool
same_bytes [] [] = true
same_bytes (a ∷ as_) (b ∷ bs) = a == b && same_bytes as_ bs
same_bytes _ _ = false

pub same_bytes-eq : (xs ys : List ℕ) → same_bytes xs ys ≡ true → xs ≡ ys
unfolding same_bytes
same_bytes-eq [] [] h = refl
same_bytes-eq [] (y ∷ ys) h = cc h
same_bytes-eq (x ∷ xs) [] h = cc h
same_bytes-eq (x ∷ xs) (y ∷ ys) h = ground (arith, h, same_bytes-eq xs ys)

pub same_bytes_refl : (xs : List ℕ) → same_bytes xs xs ≡ true
unfolding same_bytes
same_bytes_refl [] = refl
same_bytes_refl (x ∷ xs) = ground (arith, same_bytes_refl xs)

-- A format of at most `n` pieces that `kprintf` can print.
unfoldable pub is_format : (n : ℕ) → String → Bool
is_format n f =
    let ps = format (codes f) in
    leb (length ps) n && are_pieces ps && same_bytes (spell ps) (codes f)

pub is_format-IsFormat :
    (n w : ℕ) (f : String) → is_format n f ≡ true → n * w < 1024 → n < 1024 → IsFormat w f
unfolding is_format
is_format-IsFormat n w f h fits few =
    let ps = format (codes f) in
    let small : length ps ≤ n = ground (arith, h) in
    (
      same_bytes-eq (spell ps) (codes f) (ground (arith, h)),
      are_pieces-IsPiece ps (ground (arith, h)),
      omega (arith, mul-le-mul_right w small),
      omega arith,
    )

-- Formats that take no argument, one word, and one text.
unfoldable pub plain_only : List Piece → Bool
plain_only [] = true
plain_only (plain c ∷ ps) = plain_only ps
plain_only (escaped c ∷ ps) = plain_only ps
plain_only (behind_percent c ∷ ps) = plain_only ps
plain_only _ = false

unfoldable pub one_word : List Piece → Bool
one_word (plain c ∷ ps) = one_word ps
one_word (escaped c ∷ ps) = one_word ps
one_word (behind_percent c ∷ ps) = one_word ps
one_word (a_hex ∷ ps) = plain_only ps
one_word (a_number ∷ ps) = plain_only ps
one_word _ = false
