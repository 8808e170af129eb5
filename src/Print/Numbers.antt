-- ===== src/Print/Numbers.antt =====
-- The digits that `parse_num` and `parse_hex` print, read back.
use mya_xos.Base.{
  ℕ, zero, suc, ◌+◌, ◌-◌, ◌*◌, ◌/◌, ◌%◌, ◌^◌, ◌<◌, ◌≤◌, ◌≡◌, ◌⊎◌, refl, sym, ap, ◌∙◌, some, List,
  [], ◌∷◌, ◌++◌, arith, ltb, leb, if◌then◌else◌, length, length-append, All, Bool-cases, inl, inr,
  bit_and, ◌>>>◌,
}
use Prim.Native.Nat.{max}
use mathlib.Core.List.{append_assoc, append-nil}
use native.Mathlib.Nat.{pow-suc, mod-eq-sub-div-mul, div-div-eq-div-mul, mod-add-div'}
use mya_xos.Base.Bits.{bit_and_mask}
use mya_xos.Print.{parse_num, hex_digit, hex_loop, parse_hex}

-- The number that digits in base `base` stand for, going on from `acc`.
abbrev pub read_from : (digit : ℕ → ℕ) → (base acc : ℕ) → List ℕ → ℕ
read_from digit base acc [] = acc
read_from digit base acc (c ∷ cs) = read_from digit base (acc * base + digit c) cs

abbrev pub decimal_digit : ℕ → ℕ
decimal_digit c = c - b'0'

abbrev pub hex_value : ℕ → ℕ
hex_value c = if ltb c b'a' then c - b'0' else c - b'a' + 10

abbrev pub IsDecimal : List ℕ → Type 0
IsDecimal cs = All (λ c. (b'0' ≤ c) × (c ≤ b'9')) cs

abbrev pub IsHexDigit : ℕ → Type 0
IsHexDigit c = ((b'0' ≤ c) × (c ≤ b'9')) ⊎ ((b'a' ≤ c) × (c ≤ b'f'))

read_from-append :
    (digit : ℕ → ℕ) (base acc : ℕ) (cs : List ℕ) (c : ℕ)
    → read_from digit base acc (cs ++ (c ∷ [])) ≡ read_from digit base acc cs * base + digit c
read_from-append digit base acc [] c = refl
read_from-append digit base acc (x ∷ cs) c = read_from-append digit base (acc * base + digit x) cs c

pub All-append {ℓ κ} :
    {A : Type ℓ} (P : A → Type κ) (xs ys : List A) → All P xs → All P ys → All P (xs ++ ys)
All-append P [] ys hx hy = hy
All-append P (x ∷ xs) ys hx hy = (hx.0, All-append P xs ys hx.1 hy)

pow-pred : (n : ℕ) → 0 < n → 10 ^ n ≡ 10 ^ (n - 1) * 10
pow-pred zero h = elim h [ ]
pow-pred (suc n) h = let e : suc n - 1 ≡ n = omega arith in rw (pow-suc 10 n, e) (omega arith)

fuel_left : (fuel value : ℕ) → value / 10 < 10 ^ fuel → 10 ≤ value → 0 < fuel
fuel_left zero value h big = absurd (omega arith)
fuel_left (suc fuel) value h big = omega arith

-- Decimal digits that read back to the number, with no leading zero.
pub record IsNumeral (value : ℕ) (cs : List ℕ) : Type 0 where
  pub digits : IsDecimal cs
  pub reads : read_from decimal_digit 10 0 cs ≡ value
  pub some_digit : 0 < length cs
  pub shortest : 10 ^ (length cs - 1) ≤ max 1 value

last_digit : (value : ℕ) → IsDecimal ((value % 10 + b'0') ∷ [])
last_digit value = omega arith

IsNumeral-append :
    (value : ℕ) (cs : List ℕ)
    → 10 ≤ value
    → IsNumeral (value / 10) cs
    → IsNumeral value (cs ++ ((value % 10 + b'0') ∷ []))
IsNumeral-append value cs big n =
    let c = value % 10 + b'0' in
    let long : length (cs ++ (c ∷ [])) ≡ length cs + 1 = length-append cs (c ∷ []) in
    let pw : 10 ^ length cs ≡ 10 ^ (length cs - 1) * 10 = pow-pred (length cs) n.some_digit in
    record {
      digits = All-append (λ d. (b'0' ≤ d) × (d ≤ b'9')) cs (c ∷ []) n.digits (last_digit value);
      reads = read_from-append decimal_digit 10 0 cs c ∙ omega (arith, n.reads);
      some_digit = omega arith;
      shortest =
          let e : length (cs ++ (c ∷ [])) - 1 ≡ length cs = omega arith in
          rw e (omega (arith, n.shortest));
    }

-- With fuel for each digit, `parse_num` at base 10 appends the numeral of its value, and returns.
pub parse_num-IsNumeral :
    (fuel value : ℕ) (buf : List ℕ)
    → value < 10 ^ fuel
    → 0 < fuel
    → (cs : List ℕ) × (parse_num fuel value 10 buf ≡ some (buf ++ cs)) × IsNumeral value cs
unfolding parse_num
parse_num-IsNumeral zero value buf small pos = absurd (omega arith)
parse_num-IsNumeral (suc fuel) value buf small pos = elim (Bool-cases (leb 10 value)) [
  | inr one ↦ (
    (value % 10 + b'0') ∷ [],
    rw one refl,
    record {
      digits = last_digit value;
      reads = ground arith;
      some_digit = omega arith;
      shortest = omega arith;
    },
  )
  | inl more ↦
      let big : 10 ≤ value = ground arith in
      let room : value / 10 < 10 ^ fuel = omega (arith, pow-suc 10 fuel) in
      let (cs, run, n) =
        parse_num-IsNumeral fuel (value / 10) buf room (fuel_left fuel value room big) in
      (
        cs ++ ((value % 10 + b'0') ∷ []),
        rw (more, run) (ap some (append_assoc buf cs ((value % 10 + b'0') ∷ []))),
        IsNumeral-append value cs big n,
      )
]

two_pow-mul_four : (i : ℕ) → 2 ^ (i * 4) ≡ 16 ^ i
two_pow-mul_four zero = refl
two_pow-mul_four (suc i) =
    let e : suc i * 4 ≡ suc (suc (suc (suc (i * 4)))) = omega arith in
    let p = i * 4 in
    rw (e, pow-suc 16 i)
      (omega (
        arith,
        two_pow-mul_four i,
        pow-suc 2 p,
        pow-suc 2 (suc p),
        pow-suc 2 (suc (suc p)),
        pow-suc 2 (suc (suc (suc p))),
      ))

hex_digit_value : (d : ℕ) → d < 16 → hex_value (hex_digit d) ≡ d
hex_digit_value d h = ground arith

hex_digit-IsHexDigit : (d : ℕ) → d < 16 → IsHexDigit (hex_digit d)
hex_digit-IsHexDigit d h = ground arith

-- The nibble at `i` above the lower ones.
mod-pow_suc : (value i : ℕ) → value % 16 ^ suc i ≡ value / 16 ^ i % 16 * 16 ^ i + value % 16 ^ i
mod-pow_suc value i =
    let p = 16 ^ i in
    let q = value / p in
    let whole : q * p ≡ (q / 16 * 16 + q % 16) * p = ap (λ (t : ℕ). t * p) (omega arith) in
    rw (pow-suc 16 i, mod-eq-sub-div-mul value (p * 16), ← div-div-eq-div-mul value p 16)
      (omega (arith, whole, mod-add-div' value p))

nibble : (value i : ℕ) → bit_and (value >>> (i * 4)) 0xF ≡ value / 16 ^ i % 16
nibble value i = rw (two_pow-mul_four i) (bit_and_mask 4 (value / 16 ^ i))

-- The nibbles below `i` read on from those before them.
hex_loop-reads :
    (i value acc : ℕ) (buf : List ℕ)
    → (cs : List ℕ) × (hex_loop i value buf ≡ buf ++ cs)
      × (length cs ≡ i)
      × (read_from hex_value 16 acc cs ≡ acc * 16 ^ i + value % 16 ^ i)
      × All IsHexDigit cs
unfolding hex_loop
hex_loop-reads zero value acc buf = ([], sym (append-nil buf), refl, omega arith, tt)
hex_loop-reads (suc i) value acc buf =
    let d = value / 16 ^ i % 16 in
    let (cs, run, len, reads, digits) =
      hex_loop-reads i value (acc * 16 + d) (buf ++ (hex_digit d ∷ [])) in
    (
      hex_digit d ∷ cs,
      rw (nibble value i) (run ∙ append_assoc buf (hex_digit d ∷ []) cs),
      omega (arith, len),
      rw (hex_digit_value d (omega arith))
          (reads ∙ rw (mod-pow_suc value i, pow-suc 16 i) (omega arith)),
      (hex_digit-IsHexDigit d (omega arith), digits),
    )

-- `parse_hex` appends eight hexadecimal digits that read back to the word.
pub parse_hex-reads :
    (value : ℕ) (buf : List ℕ)
    → value < 2 ^ 32
    → (cs : List ℕ) × (parse_hex value buf ≡ buf ++ cs)
      × (length cs ≡ 8)
      × (read_from hex_value 16 0 cs ≡ value)
      × All IsHexDigit cs
unfolding parse_hex
parse_hex-reads value buf h =
    let (cs, run, len, reads, digits) = hex_loop-reads 8 value 0 buf in
    (cs, run, len, reads ∙ omega arith, digits)
