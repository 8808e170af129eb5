-- ===== src/Print/Pieces.antt =====
-- Formats by their pieces, and the texts that they stand for.
use mya_xos.Base.{
  ℕ, ◌+◌, ◌≤◌, ◌==◌, false, if◌then◌else◌, ◌%◌, ◌^◌, ◌<◌, ◌≡◌, ◌≢◌, List, [], ◌∷◌, ◌++◌, length,
  All, u8,
}
use mathlib.Core.Path.{refl}
use mya_xos.Memory.{Memory, within, CString}
use mya_xos.Str.Compare.{IsText}
use mya_xos.Print.{escape}
use mya_xos.Print.Numbers.{IsNumeral, read_from, hex_value, IsHexDigit}

-- A format: a character that stands for itself, one behind a backslash, the four conversions, and any
-- other character behind a percent sign.
pub data Piece : Type 0 where
  plain : ℕ → Piece
  escaped : ℕ → Piece
  a_string : Piece
  a_char : Piece
  a_hex : Piece
  a_number : Piece
  behind_percent : ℕ → Piece

abbrev pub spell : List Piece → List ℕ
spell [] = []
spell (plain c ∷ ps) = c ∷ spell ps
spell (escaped d ∷ ps) = b'\\' ∷ d ∷ spell ps
spell (a_string ∷ ps) = b'%' ∷ b's' ∷ spell ps
spell (a_char ∷ ps) = b'%' ∷ b'c' ∷ spell ps
spell (a_hex ∷ ps) = b'%' ∷ b'x' ∷ spell ps
spell (a_number ∷ ps) = b'%' ∷ b'd' ∷ spell ps
spell (behind_percent d ∷ ps) = b'%' ∷ d ∷ spell ps

abbrev pub IsPiece : Piece → Type 0
IsPiece (plain c) = (c ≢ b'%') × (c ≢ b'\\') × (0 < c) × (c < 256)
IsPiece (behind_percent d) = (d ≢ b's') × (d ≢ b'c') × (d ≢ b'x') × (d ≢ b'd') × (0 < d) × (d < 256)
IsPiece p = Unit

-- What a backslash and a character stand for.
abbrev escapes : List (ℕ × ℕ)
escapes = (b'a', 7) ∷ (b'b', 8) ∷ (b't', 9) ∷ (b'n', 10) ∷ (b'r', 13) ∷ (b'\\', b'\\') ∷ []

abbrev meant_by : ℕ → List (ℕ × ℕ) → List ℕ
meant_by d [] = []
meant_by d ((k, c) ∷ table) = if d == k then c ∷ [] else meant_by d table

pub escaped_text : ℕ → List ℕ
escaped_text d = meant_by d escapes

pub escape-escaped_text : (d : ℕ) → escape d ≡ escaped_text d
unfolding escape escaped_text
escape-escaped_text d = refl

-- The arguments suit the format: one for each conversion, a word each, the address of a text of fewer
-- than `w` characters outside the buffer for a string, and no NUL for a character.
abbrev pub AreSupplied : (m : Memory) (buf w : ℕ) → List Piece → List ℕ → Type 0
AreSupplied m buf w [] args = Unit
AreSupplied m buf w (plain c ∷ ps) args = AreSupplied m buf w ps args
AreSupplied m buf w (escaped d ∷ ps) args = AreSupplied m buf w ps args
AreSupplied m buf w (behind_percent d ∷ ps) args = AreSupplied m buf w ps args
AreSupplied m buf w (a_string ∷ ps) [] = ⊥
AreSupplied m buf w (a_string ∷ ps) (a ∷ args) =
    ((bs : List ℕ) × CString m a bs
      × IsText bs
      × (length bs < w)
      × ((x : ℕ) → a ≤ x → x ≤ a + length bs → within buf 1024 x ≡ false))
    × AreSupplied m buf w ps args
AreSupplied m buf w (a_char ∷ ps) [] = ⊥
AreSupplied m buf w (a_char ∷ ps) (a ∷ args) = (a % 256 ≢ 0) × AreSupplied m buf w ps args
AreSupplied m buf w (a_hex ∷ ps) [] = ⊥
AreSupplied m buf w (a_hex ∷ ps) (a ∷ args) = (a < 2 ^ 32) × AreSupplied m buf w ps args
AreSupplied m buf w (a_number ∷ ps) [] = ⊥
AreSupplied m buf w (a_number ∷ ps) (a ∷ args) = (a < 2 ^ 32) × AreSupplied m buf w ps args

-- The text that a format and its arguments stand for.
pub data Renders (m : Memory) : List Piece → List ℕ → List ℕ → Type 0 where
  ends : {args : List ℕ} → Renders m [] args []
  itself :
      (c : ℕ) {ps : List Piece} {args out : List ℕ}
      → Renders m ps args out
      → Renders m (plain c ∷ ps) args (c ∷ out)
  escape_of :
      (d : ℕ) {ps : List Piece} {args out : List ℕ}
      → Renders m ps args out
      → Renders m (escaped d ∷ ps) args (escaped_text d ++ out)
  text_at :
      (a : ℕ) (bs : List ℕ) {ps : List Piece} {args out : List ℕ}
      → CString m a bs
      → IsText bs
      → Renders m ps args out
      → Renders m (a_string ∷ ps) (a ∷ args) (bs ++ out)
  low_byte :
      (a : ℕ) {ps : List Piece} {args out : List ℕ}
      → Renders m ps args out
      → Renders m (a_char ∷ ps) (a ∷ args) (u8 a ∷ out)
  hexadecimal :
      (a : ℕ) (cs : List ℕ) {ps : List Piece} {args out : List ℕ}
      → length cs ≡ 8
      → read_from hex_value 16 0 cs ≡ a
      → All IsHexDigit cs
      → Renders m ps args out
      → Renders m (a_hex ∷ ps) (a ∷ args) (cs ++ out)
  decimal :
      (a : ℕ) (cs : List ℕ) {ps : List Piece} {args out : List ℕ}
      → IsNumeral a cs
      → Renders m ps args out
      → Renders m (a_number ∷ ps) (a ∷ args) (cs ++ out)
  second :
      (d : ℕ) {ps : List Piece} {args out : List ℕ}
      → Renders m ps args out
      → Renders m (behind_percent d ∷ ps) args (d ∷ out)
