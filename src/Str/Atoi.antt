-- ===== src/Str/Atoi.antt =====
-- `atoi` in closed form. The weight is multiplied by 80 in each round and 80 ^ 8 is 0 modulo
-- 2 ^ 32, so only the first eight rounds count, and these read from the last digit on.
use mya_xos.Base.{
  ℕ, zero, suc, ◌+◌, ◌-◌, ◌*◌, ◌%◌, ◌^◌, ◌<◌, ◌≤◌, ◌≡◌, ◌≢◌, refl, some, List, arith, length, u32,
  sub32, sign_extend, ap,
}
use mya_xos.Memory.{Memory, CString}
use mya_xos.Str.{atoi_loop, atoi_of, atoi, atoi_rounds}
use mya_xos.Str.Text.{strlen-length}

-- With the weight at 0 nothing more is added.
atoi_loop-zero :
    (left : ℕ) (m : Memory) (str i out : ℕ) → atoi_loop left m str i (u32 out) 0 ≡ u32 out
unfolding atoi_loop
atoi_loop-zero zero m str i out = refl
atoi_loop-zero (suc left) m str i out = ground (arith, atoi_loop-zero left m str (i + 1) out)

-- A character less '0', as the code computes it.
abbrev pub digit : Memory → ℕ → ℕ
digit m p = sub32 (sign_extend (m p)) 48

flatten_word : (a b : ℕ) → u32 (u32 a + u32 b) ≡ u32 (a + b)
flatten_word a b = omega arith

-- Eight rounds leave the weight at 0 and the sum of eight characters.
atoi_loop-eight :
    (left : ℕ) (m : Memory) (str n : ℕ)
    → atoi_loop (suc (suc (suc (suc (suc (suc (suc (suc left)))))))) m str (n + 1) 0 1
      ≡ u32 (
          digit m (str + n)
          + 80 * digit m (str + (n + 1))
          + 80 ^ 2 * digit m (str + (n + 2))
          + 80 ^ 3 * digit m (str + (n + 3))
          + 80 ^ 4 * digit m (str + (n + 4))
          + 80 ^ 5 * digit m (str + (n + 5))
          + 80 ^ 6 * digit m (str + (n + 6))
          + 80 ^ 7 * digit m (str + (n + 7)))
unfolding atoi_loop
atoi_loop-eight left m str n = rw (atoi_loop-zero left m str) (ground arith)

-- `atoi` of a string of `n + 1` characters: the last one and the seven bytes behind it in memory,
-- weighted by the powers of 80.
pub atoi-eight :
    (fuel : ℕ) (m : Memory) (str n : ℕ) (bs : List ℕ)
    → CString m str bs
    → length bs ≡ n + 1
    → n + 9 ≤ 2 ^ 32
    → length bs < fuel
    → atoi fuel m str
      ≡ some (
          u32 (
            digit m (str + n)
            + 80 * digit m (str + (n + 1))
            + 80 ^ 2 * digit m (str + (n + 2))
            + 80 ^ 3 * digit m (str + (n + 3))
            + 80 ^ 4 * digit m (str + (n + 4))
            + 80 ^ 5 * digit m (str + (n + 5))
            + 80 ^ 6 * digit m (str + (n + 6))
            + 80 ^ 7 * digit m (str + (n + 7))))
unfolding atoi atoi_of
atoi-eight fuel m str n bs s e lo h =
    let left : ℕ = 2 ^ 32 - (n + 9) in
    let rounds : atoi_rounds (n + 1) ≡ suc (suc (suc (suc (suc (suc (suc (suc left))))))) =
      ground arith in
    rw (strlen-length fuel m str bs s h, atoi)
      (rw (e, rounds) (ap some (atoi_loop-eight left m str n)))

-- So the result has the last digit of the text as its residue modulo 16: where the number that the
-- text stands for has another residue there, `atoi` returns something else.
pub atoi-ne-decimal :
    (fuel : ℕ) (m : Memory) (str n : ℕ) (bs : List ℕ) (v : ℕ)
    → CString m str bs
    → length bs ≡ n + 1
    → n + 9 ≤ 2 ^ 32
    → length bs < fuel
    → m (str + n) ≡ 48 + v % 10
    → v % 16 ≢ v % 10
    → atoi fuel m str ≢ some v
atoi-ne-decimal fuel m str n bs v s e lo h last ne eq =
    ne (ground (arith, atoi-eight fuel m str n bs s e lo h))
