-- ===== src/Str.antt =====
-- kernel/core/system.c: the memory and string routines. Pointers are addresses, `null` is NULL, and
-- a routine that walks a string takes fuel, the number of rounds that it may make; `none` means
-- that it did not come to the end of the string. `memcpy`, `memset` and `memsetw` return their first
-- argument, which is left out. An `int` count does not overflow while the fuel is at most 2 ^ 31.
pub mod Copy
pub mod Text
pub mod Compare
pub mod Atoi
pub mod Token
mod Tests
use mya_xos.Base.{
  ℕ, zero, suc, ◌+◌, ◌-◌, ◌*◌, ◌%◌, ◌^◌, Bool, true, false, Option, none, some, ltb, ◌==◌,
  if◌then◌else◌, u8, u32, sub32, sign_extend,
}
use mya_xos.Memory.{Memory, null, store8, store16}

-- Index `i`, with `left` rounds to go.
memcpy_loop : (left : ℕ) → Memory → (dest src i : ℕ) → Memory
memcpy_loop zero m dest src i = m
memcpy_loop (suc left) m dest src i =
    memcpy_loop left (store8 m (dest + i) (m (src + i))) dest src (i + 1)

pub memcpy : Memory → (dest src count : ℕ) → Memory
memcpy m dest src count = memcpy_loop count m dest src 0

memset_loop : (left : ℕ) → Memory → (dest val i : ℕ) → Memory
memset_loop zero m dest val i = m
memset_loop (suc left) m dest val i =
    memset_loop left (store8 m (dest + i) (u8 val)) dest val (i + 1)

pub memset : Memory → (dest val count : ℕ) → Memory
memset m dest val count = memset_loop count m dest val 0

memsetw_loop : (left : ℕ) → Memory → (dest val i : ℕ) → Memory
memsetw_loop zero m dest val i = m
memsetw_loop (suc left) m dest val i =
    memsetw_loop left (store16 m (dest + 2 * i) val) dest val (i + 1)

pub memsetw : Memory → (dest val count : ℕ) → Memory
memsetw m dest val count = memsetw_loop count m dest val 0

strlen_loop : (fuel : ℕ) → Memory → (str i : ℕ) → Option ℕ
strlen_loop zero m str i = none
strlen_loop (suc fuel) m str i =
    let next = strlen_loop fuel m str (i + 1) in if m (str + i) == 0 then some i else next

pub strlen : (fuel : ℕ) → Memory → (str : ℕ) → Option ℕ
strlen fuel m str = strlen_loop fuel m str 0

-- The results -1, 1 and 0 of `strcmp`.
pub data Compared : Type 0 where
  less greater equal : Compared

-- `<` on `char`, which is signed: a byte from 128 on stands for a negative number.
abbrev pub char_lt : ℕ → ℕ → Bool
char_lt a b = ltb ((a + 128) % 256) ((b + 128) % 256)

strcmp_loop : (fuel : ℕ) → Memory → (a b i : ℕ) → Option Compared
strcmp_loop zero m a b i = none
strcmp_loop (suc fuel) m a b i =
    let next = strcmp_loop fuel m a b (i + 1) in
    if char_lt (m (a + i)) (m (b + i))
    then some less
    else if char_lt (m (b + i)) (m (a + i))
    then some greater
    else if m (a + i) == 0
    then some equal
    else next

pub strcmp : (fuel : ℕ) → Memory → (a b : ℕ) → Option Compared
strcmp fuel m a b = strcmp_loop fuel m a b 0

-- The loop counts `i` up until it wraps to 0, so it makes `2 ^ 32 - len` rounds.
atoi_loop : (left : ℕ) → Memory → (str i out pow : ℕ) → ℕ
atoi_loop zero m str i out pow = out
atoi_loop (suc left) m str i out pow =
    atoi_loop left m str (i + 1)
      (u32 (out + u32 (sub32 (sign_extend (m (str + (i - 1)))) 48 * pow))) (u32 (pow * 80))

abbrev pub atoi_rounds : ℕ → ℕ
atoi_rounds len = if len == 0 then 0 else 2 ^ 32 - len

-- The `uint32_t` pattern of the result, given the length that `strlen` finds.
pub atoi_of : Memory → (str len : ℕ) → ℕ
atoi_of m str len = atoi_loop (atoi_rounds len) m str len 0 1

pub atoi : (fuel : ℕ) → Memory → (str : ℕ) → Option ℕ
atoi fuel m str = elim (strlen fuel m str) [ none ↦ none | some len ↦ some (atoi_of m str len) ]

lfind_loop : (fuel : ℕ) → Memory → (str accept i : ℕ) → Option ℕ
lfind_loop zero m str accept i = none
lfind_loop (suc fuel) m str accept i =
    let next = lfind_loop fuel m str accept (i + 1) in
    if m (str + i) == accept then some (str + i) else next

pub lfind : (fuel : ℕ) → Memory → (str accept : ℕ) → Option ℕ
lfind fuel m str accept = lfind_loop fuel m str accept 0

-- The loops over `accept` in `strspn` and `strpbrk`: whether `c` stands in it.
pub accepts : (fuel : ℕ) → Memory → (acc c : ℕ) → Option Bool
accepts zero m acc c = none
accepts (suc fuel) m acc c =
    let next = accepts fuel m (acc + 1) c in
    if m acc == 0 then some false else if c == m acc then some true else next

strspn_loop : (fuel : ℕ) → Memory → (ptr accept size : ℕ) → Option ℕ
strspn_loop zero m ptr accept size = none
strspn_loop (suc fuel) m ptr accept size =
    let next = strspn_loop fuel m (ptr + 1) accept (size + 1) in
    if m ptr == 0 then some size else elim (accepts (suc fuel) m accept (m ptr)) [
      | none ↦ none
      | some true ↦ next
      | some false ↦ some size
    ]

pub strspn : (fuel : ℕ) → Memory → (str accept : ℕ) → Option ℕ
strspn fuel m str accept = strspn_loop fuel m str accept 0

-- `null` where no character of `accept` occurs.
pub strpbrk : (fuel : ℕ) → Memory → (str accept : ℕ) → Option ℕ
strpbrk zero m str accept = none
strpbrk (suc fuel) m str accept =
    let next = strpbrk fuel m (str + 1) accept in
    if m str == 0 then some null else elim (accepts (suc fuel) m accept (m str)) [
      | none ↦ none
      | some true ↦ some str
      | some false ↦ next
    ]

-- What `strtok_r` returns and leaves in `*saveptr` and in memory.
pub record Tok : Type 0 where
  pub token : ℕ
  pub save : ℕ
  pub mem : Memory

abbrev pub tok : ℕ → ℕ → Memory → Tok
tok t s m = record { token = t; save = s; mem = m }

-- From the first character that is no delimiter on.
strtok_word : (fuel : ℕ) → Memory → (token delim : ℕ) → Option Tok
strtok_word fuel m token delim = elim (strpbrk fuel m token delim) [
  | none ↦ none
  | some q ↦
      if q == null
      then elim (lfind fuel m token 0) [ none ↦ none | some e ↦ some (tok token e m) ]
      else some (tok token (q + 1) (store8 m q 0))
]

-- From the first character to look at, `str` or the saved pointer.
strtok_at : (fuel : ℕ) → Memory → (start delim : ℕ) → Option Tok
strtok_at fuel m start delim = elim (strspn fuel m start delim) [
  | none ↦ none
  | some skip ↦
      if m (start + skip) == 0
      then some (tok null (start + skip) m)
      else strtok_word fuel m (start + skip) delim
]

pub strtok_r : (fuel : ℕ) → Memory → (str delim save : ℕ) → Option Tok
strtok_r fuel m str delim save = strtok_at fuel m (if str == null then save else str) delim
