-- ===== src/Str/Tests.antt =====
-- The string routines on two small texts.
use mya_xos.Base.{ℕ, ◌+◌, ◌≡◌, ◌≢◌, refl, List, [], ◌∷◌, some, arith, ◌↔◌}
use mya_xos.Memory.{Memory, store8, CString}
use mya_xos.Str.{strcmp, equal, atoi, lfind, Tok, strtok_r}
use mya_xos.Str.Text.{lfind-end}
use mya_xos.Str.Compare.{strcmp-equal_iff, IsText}
use mya_xos.Str.Atoi.{atoi-ne-decimal}
use mya_xos.Str.Token.{Cut, strtok_r-Cut}

abbrev place : ℕ → List ℕ → Memory → Memory
place p [] m = m
place p (b ∷ bs) m = store8 (place (p + 1) bs m) p b

-- " cp a" at 100 and the delimiter " " at 200.
abbrev line : List ℕ
line = 32 ∷ 99 ∷ 112 ∷ 32 ∷ 97 ∷ []

abbrev blanks : List ℕ
blanks = 32 ∷ []

abbrev ram : Memory
ram = place 100 line (place 200 blanks (λ x. 0))

line-CString : CString ram 100 line
line-CString = ground arith

blanks-CString : CString ram 200 blanks
blanks-CString = ground arith

line-IsText : IsText line
line-IsText = ground arith

blanks-IsText : IsText blanks
blanks-IsText = ground arith

strtok_r-Cut_example : (t : Tok) × (strtok_r 9 ram 100 200 0 ≡ some t) × Cut blanks ram 100 line t
strtok_r-Cut_example =
    strtok_r-Cut ram 200 blanks blanks-CString 9 100 0 100 line (ground arith) (omega arith)
      line-CString (omega arith)

strcmp-equal_iff_example : (strcmp 9 ram 100 200 ≡ some equal) ↔ (line ≡ blanks)
strcmp-equal_iff_example =
    strcmp-equal_iff 9 ram 100 200 line blanks line-CString blanks-CString line-IsText blanks-IsText
      (omega arith)

lfind-end_example : lfind 9 ram 100 0 ≡ some 105
lfind-end_example = lfind-end 9 ram 100 line line-CString (omega arith)

-- "16" at 100.
abbrev sixteen : Memory
sixteen = place 100 (49 ∷ 54 ∷ []) (λ x. 0)

atoi-ne-decimal_example : atoi 5 sixteen 100 ≢ some 16
atoi-ne-decimal_example =
    atoi-ne-decimal 5 sixteen 100 1 (49 ∷ 54 ∷ []) 16 (ground arith) refl (omega arith)
      (omega arith) refl (ground arith)
