-- ===== src/Print.antt =====
-- kernel/core/kprintf.c, the printing part. The list `out` holds the bytes of the static buffer `buf`
-- before `ptr`; they are in memory while the format and the arguments are read. An argument is a word,
-- the address of the text where it is a string. The recursion of `parse_num` and the loops over texts
-- take fuel.
pub mod Numbers
pub mod Pieces
pub mod Format
pub mod Screen
mod Tests
use mya_xos.Memory.{Memory, store8}
use mya_xos.Vga.{Console, puts}
use mya_xos.Base.{
  ℕ, zero, suc, ◌+◌, ◌-◌, ◌*◌, ◌/◌, ◌%◌, bit_and, ◌≡◌, some, none, Option, List, [], ◌∷◌, ◌++◌, not,
  ◌&&◌, ◌||◌, ◌==◌, ltb, leb, if◌then◌else◌, u8, length, ◌>>>◌,
}

-- `none` where the fuel does not reach. `value % base` is never negative, since it is computed on
-- `unsigned int`, so the branch for `r < 0` is never taken.
pub parse_num : (fuel : ℕ) → (value base : ℕ) → List ℕ → Option (List ℕ)
parse_num zero value base buf = none
parse_num (suc fuel) value base buf =
    let rest = parse_num fuel (value / base) base buf in
    let digit = λ (b : List ℕ). b ++ ((value % base + b'0') ∷ []) in
    if leb base value then elim rest [ none ↦ none | some b ↦ some (digit b) ] else some (digit buf)

-- "0123456789abcdef"[d]
abbrev pub hex_digit : ℕ → ℕ
hex_digit d = if ltb d 10 then b'0' + d else b'a' + (d - 10)

-- The loop from the nibble `i - 1` down to the lowest one.
pub hex_loop : (i : ℕ) → (value : ℕ) → List ℕ → List ℕ
hex_loop zero value buf = buf
hex_loop (suc i) value buf =
    hex_loop i value (buf ++ (hex_digit (bit_and (value >>> (i * 4)) 0xF) ∷ []))

pub parse_hex : (value : ℕ) → List ℕ → List ℕ
parse_hex value buf = hex_loop 8 value buf

-- The character behind a backslash; none of the others adds a character.
pub escape : ℕ → List ℕ
escape c =
    if c == b'a'
    then 7 ∷ []
    else if c == b'b'
    then 8 ∷ []
    else if c == b't'
    then 9 ∷ []
    else if c == b'n'
    then 10 ∷ []
    else if c == b'r'
    then 13 ∷ []
    else if c == b'\\'
    then b'\\' ∷ []
    else []

-- `no_argument` is a `va_arg` past the last argument and `overrun` a text that with its NUL is longer
-- than the buffer; C leaves both undefined. `out_of_fuel` means that a loop had no round left.
pub data Printed {ℓ} (A : Type ℓ) : Type ℓ where
  printed : A → Printed A
  no_argument : Printed A
  overrun : Printed A
  out_of_fuel : Printed A

-- The size of `buf`.
abbrev pub buffer_size : ℕ
buffer_size = 1024

-- Memory with the bytes from `p` on.
pub fill : Memory → (p : ℕ) → List ℕ → Memory
fill m p [] = m
fill m p (c ∷ cs) = fill (store8 m p c) (p + 1) cs

-- The loop of `%s`: each byte is written before the next one is read.
pub copy_string : (fuel : ℕ) → Memory → (buf s : ℕ) → List ℕ → Printed (List ℕ)
copy_string zero m buf s out = out_of_fuel
copy_string (suc fuel) m buf s out =
    let c = fill m buf out s in
    let rest = copy_string fuel m buf (s + 1) (out ++ (c ∷ [])) in
    if leb buffer_size (length out) then overrun else if c == 0 then printed out else rest

-- The character `d` behind a percent sign: the arguments that are left, and the bytes in the buffer.
pub convert : (fuel : ℕ) → Memory → (buf d : ℕ) → List ℕ → List ℕ → Printed (List ℕ × List ℕ)
convert fuel m buf d [] out =
    if (d == b's') || (d == b'c') || (d == b'x') || (d == b'd')
    then no_argument
    else printed ([], out ++ (d ∷ []))
convert fuel m buf d (a ∷ args) out =
    if d == b's'
    then elim (copy_string fuel m buf a out) [
      | printed out' ↦ printed (args, out')
      | no_argument ↦ no_argument
      | overrun ↦ overrun
      | out_of_fuel ↦ out_of_fuel
    ]
    else if d == b'c'
    then printed (args, out ++ (u8 a ∷ []))
    else if d == b'x'
    then printed (args, parse_hex a out)
    else if d == b'd'
    then elim (parse_num fuel a 10 out) [ none ↦ out_of_fuel | some out' ↦ printed (args, out') ]
    else printed (a ∷ args, out ++ (d ∷ []))

-- The loop of `kprintf` from `fmt[i]` on. The character behind a percent sign or a backslash is passed
-- over whatever it is, also where it is the NUL. A byte, at least the NUL, is still to be written in each
-- round, so a full buffer is overrun.
pub print_loop : (fuel : ℕ) → Memory → (buf fmt i : ℕ) → List ℕ → List ℕ → Printed (List ℕ)
print_loop zero m buf fmt i args out = out_of_fuel
print_loop (suc fuel) m buf fmt i args out =
    let c = fill m buf out (fmt + i) in
    let d = fill m buf out (fmt + (i + 1)) in
    let plain = print_loop fuel m buf fmt (i + 1) args (out ++ (c ∷ [])) in
    let escaped = print_loop fuel m buf fmt (i + 2) args (out ++ escape d) in
    let converted : Printed (List ℕ) = elim (convert fuel m buf d args out) [
      | printed r ↦ print_loop fuel m buf fmt (i + 2) r.0 r.1
      | no_argument ↦ no_argument
      | overrun ↦ overrun
      | out_of_fuel ↦ out_of_fuel
    ] in
    if leb buffer_size (length out)
    then overrun
    else if c == 0
    then printed out
    else if not (c == b'%') && not (c == b'\\')
    then plain
    else if c == b'\\'
    then escaped
    else converted

-- The bytes and a NUL, from `p` on.
pub store_text : Memory → ℕ → List ℕ → Memory
store_text m p [] = store8 m p 0
store_text m p (c ∷ cs) = store_text (store8 m p c) (p + 1) cs

-- `buf` is the address of the buffer.
pub kprintf : (fuel buf fmt : ℕ) → List ℕ → Console → Printed Console
kprintf fuel buf fmt args s = elim (print_loop fuel s.mem buf fmt 0 args []) [
  | no_argument ↦ no_argument
  | overrun ↦ overrun
  | out_of_fuel ↦ out_of_fuel
  | printed bs ↦ elim (puts fuel buf (record s { mem = store_text s.mem buf bs })) [
    | none ↦ out_of_fuel
    | some s' ↦ printed s'
  ]
]
