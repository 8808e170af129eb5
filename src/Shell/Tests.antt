-- ===== src/Shell/Tests.antt =====
-- The command "ls  a", and the name "a" in the root.
use mya_xos.Base.{
  ℕ, ◌*◌, ◌<◌, ◌≤◌, ◌≡◌, refl, ◌⊎◌, inr, some, List, [], ◌∷◌, true, false, arith, ◌==◌,
  if◌then◌else◌, length,
}
use mya_xos.Memory.{within, Memory, CString}
use mya_xos.Allocator.{Machine}
use mya_xos.Allocator.Bump.{bump}
use mya_xos.Shell.{tokenize, file_name}
use mya_xos.Shell.Words.{words, in_front, lengthen, PointTo, tokenize-words}
use mya_xos.Shell.Join.{below, joined}
use mya_xos.Shell.Names.{IsHeld, file_name-joined}

-- "ls  a" at 0x100, " " at 0x200, "/" at 0x300 and "a" at 0x400.
abbrev texts : Memory
texts x =
    if x == 0x100
    then 108
    else if x == 0x101
    then 115
    else if x == 0x102
    then 32
    else if x == 0x103
    then 32
    else if x == 0x104
    then 97
    else if x == 0x200
    then 32
    else if x == 0x300
    then 47
    else if x == 0x400
    then 97
    else 0

tokenize-words_example :
    (argv : List ℕ) × (m' : Memory) × (tokenize 9 9 texts 0x200 0x100 0 ≡ some (argv, m'))
    × PointTo m' 0x100 0x105 argv ((108 ∷ 115 ∷ []) ∷ (97 ∷ []) ∷ [])
    × (length argv * 2 ≤ 6)
    × ((x : ℕ) → (x < 0x100) ⊎ (0x105 ≤ x) → m' x ≡ texts x)
unfolding words in_front lengthen
tokenize-words_example =
    tokenize-words 0x200 (32 ∷ []) 9 9 0x100 0 (108 ∷ 115 ∷ 32 ∷ 32 ∷ 97 ∷ []) texts
      (record {
        real = omega arith;
        text = (
          refl,
          omega arith,
          (refl, omega arith, (refl, omega arith, (refl, omega arith, (refl, omega arith, refl)))),
        );
        delimiters = (refl, omega arith, refl);
        apart = inr (omega arith);
        enough = omega arith;
      })
      (omega arith)

abbrev booted : Machine bump
booted = record { heap = (0x40000, 0); mem = texts }

file_name-joined_example :
    (filename : ℕ) × (s' : Machine bump) × (file_name bump 9 0x300 0x400 0x300 booted
      ≡ some (filename, s'))
    × CString s'.mem filename (47 ∷ 97 ∷ [])
    × ((x : ℕ)
        → within filename 1024 x ≡ true
        → (bump.safe (0x40000, 0) x ≡ false) × (bump.safe s'.heap x ≡ true))
    × ((x : ℕ) → bump.safe (0x40000, 0) x ≡ true → s'.mem x ≡ texts x)
unfolding joined below
file_name-joined_example =
    file_name-joined bump 9 0x300 0x400 0x300 (47 ∷ []) (97 ∷ []) booted root name root
      ((omega arith, omega arith), tt) (omega arith) (omega arith) (omega arith)
  where
    root : IsHeld bump 0x300 (47 ∷ []) booted
    root = record { text = (refl, omega arith, refl); owned = λ x lo hi. ground arith }

    name : IsHeld bump 0x400 (97 ∷ []) booted
    name = record { text = (refl, omega arith, refl); owned = λ x lo hi. ground arith }
