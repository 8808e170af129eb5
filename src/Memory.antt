-- ===== src/Memory.antt =====
-- The flat memory of the machine: a byte at each address. Objects never wrap round the end of the
-- address space, so an address is not reduced modulo 2 ^ 32 where the source indexes an object.
use mya_xos.Base.{
  ℕ, ◌+◌, ◌*◌, ◌≡◌, ◌≢◌, Bool, ◌&&◌, List, [], ◌∷◌, ltb, leb, ◌==◌, if◌then◌else◌, u8, ◌>>>◌,
}

abbrev pub Memory : Type 0
Memory = ℕ → ℕ

abbrev pub null : ℕ
null = 0

abbrev pub store8 : Memory → ℕ → ℕ → Memory
store8 m a v = λ x. if x == a then v else m x

-- Little-endian words.
abbrev pub store16 : Memory → ℕ → ℕ → Memory
store16 m a v = store8 (store8 m a (u8 v)) (a + 1) (u8 (v >>> 8))

abbrev pub load16 : Memory → ℕ → ℕ
load16 m a = m a + 256 * m (a + 1)

unfoldable pub load32 : Memory → ℕ → ℕ
load32 m a = load16 m a + 65536 * load16 m (a + 2)

-- The address `x` lies in the `n` bytes from `a` on.
abbrev pub within : ℕ → ℕ → ℕ → Bool
within a n x = leb a x && ltb x (a + n)

-- The bytes `bs`, none of them NUL, stand from `p` on and a NUL ends them.
abbrev pub CString : Memory → ℕ → List ℕ → Type 0
CString m p [] = m p ≡ 0
CString m p (c ∷ cs) = (m p ≡ c) × (c ≢ 0) × CString m (p + 1) cs
