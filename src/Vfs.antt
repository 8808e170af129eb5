-- ===== src/Vfs.antt =====
-- kernel/core/vfs.c over the node of kernel/include/fs.h: the dispatch to a driver, and `kopen`. The type
-- of nodes and their function pointers are a parameter, a driver; `none` is the null pointer.
pub mod Resolve
pub mod Open
use mya_xos.Base.{ℕ, zero, suc, ◌+◌, bit_and, ◌≡◌, some, none, Option, ◌==◌, if◌then◌else◌, length}
use mya_xos.Memory.{Memory, null, store8}
use mya_xos.Allocator.{Allocator, Machine, allocate, release}
use mya_xos.Str.{memcpy, strlen}

-- `stopped` is HALT_AND_CATCH_FIRE and `null_call` a call or a read through a null pointer;
-- `no_argument` is a `va_arg` past the last argument, `overrun` a text longer than the buffer of
-- `kprintf`, and `out_of_fuel` means that a
-- loop had no round left.
pub data Run {ℓ} (A : Type ℓ) : Type ℓ where
  done : A → Run A
  stopped : Run A
  null_call : Run A
  no_argument : Run A
  overrun : Run A
  out_of_fuel : Run A

infixl 5 ◌>>=◌
abbrev pub ◌>>=◌ {ℓ κ} : {A : Type ℓ} {B : Type κ} → Run A → (A → Run B) → Run B
done a >>= f = f a
stopped >>= f = stopped
null_call >>= f = null_call
no_argument >>= f = no_argument
overrun >>= f = overrun
out_of_fuel >>= f = out_of_fuel

-- The flags of a node and what its pointers lead to.
pub record Driver (a : Allocator) : Type 1 where
  pub Node : Type 0
  pub flags : Node → ℕ
  pub length : Node → ℕ
  pub read : Node → Option ((offset size buffer : ℕ) → Machine a → Run (ℕ × Machine a))
  pub write : Node → Option ((offset size buffer : ℕ) → Machine a → Run (ℕ × Machine a))
  pub open_node : Node → Option ((read write : ℕ) → Machine a → Run (Machine a))
  pub close_node : Node → Option (Machine a → Run (Machine a))
  pub readdir : Node → Option ((index : ℕ) → Machine a → Run (ℕ × Machine a))
  pub finddir : Node → Option ((name : ℕ) → Machine a → Run (Option Node × Machine a))

module _ {a : Allocator} (d : Driver a) where
  open d use {Node, flags, read, write, open_node, close_node, readdir, finddir}

  unfoldable pub read_fs : Node → (offset size buffer : ℕ) → Machine a → Run (ℕ × Machine a)
  read_fs node offset size buffer s = elim (read node) [
    | none ↦ done (0, s)
    | some f ↦ f offset size buffer s
  ]

  pub write_fs : Node → (offset size buffer : ℕ) → Machine a → Run (ℕ × Machine a)
  write_fs node offset size buffer s = elim (write node) [
    | none ↦ done (0, s)
    | some f ↦ f offset size buffer s
  ]

  unfoldable pub open_fs : Node → (read write : ℕ) → Machine a → Run (Machine a)
  open_fs node r w s = elim (open_node node) [ none ↦ done s | some f ↦ f r w s ]

  pub close_fs : Node → Machine a → Run (Machine a)
  close_fs node s = elim (close_node node) [ none ↦ done s | some f ↦ f s ]

  pub readdir_fs : Node → (index : ℕ) → Machine a → Run (ℕ × Machine a)
  readdir_fs node index s = elim (readdir node) [
    | none ↦ done (null, s)
    | some f ↦ if bit_and (flags node) 0x07 == 0x02 then f index s else done (null, s)
  ]

  -- The test is for `readdir`, the call is of `finddir`.
  unfoldable pub finddir_fs : Node → (name : ℕ) → Machine a → Run (Option Node × Machine a)
  finddir_fs node name s = elim (readdir node) [
    | none ↦ done (none, s)
    | some f ↦
        if bit_and (flags node) 0x02 == 0
        then done (none, s)
        else elim (finddir node) [ none ↦ null_call | some g ↦ g name s ]
  ]

  -- The loop that cuts the path at its slashes, `left` bytes from `path_offset` on, and their number.
  unfoldable pub cut_slashes : (left : ℕ) → (path_offset path_depth : ℕ) → Memory → ℕ × Memory
  cut_slashes zero p depth m = (depth, m)
  cut_slashes (suc left) p depth m =
      if m p == b'/'
      then cut_slashes left (p + 1) (depth + 1) (store8 m p 0)
      else cut_slashes left (p + 1) depth m

  -- The walk, with `left` names to go. The last node that is found is opened, and the path is kept.
  unfoldable pub walk :
      (fuel left : ℕ) → (path path_offset : ℕ) → Node → Machine a → Run (Option Node × Machine a)
  walk fuel zero path p node s = done (none, release a path s)
  walk fuel (suc left) path p node s = finddir_fs node p s >>= λ r. elim (r.0) [
    | none ↦ done (none, release a path r.1)
    | some next ↦ elim left [
      | zero ↦ open_fs next 1 0 r.1 >>= λ s'. done (some next, s')
      | suc _ ↦ elim (strlen fuel r.1.mem p) [
        | none ↦ out_of_fuel
        | some n ↦ walk fuel left path (p + (n + 1)) next r.1
      ]
    ]
  ]

  -- `!filename[0] == '/'` compares 0 or 1 with the slash. The NUL goes behind the block of the path.
  unfoldable pub kopen :
      (fuel : ℕ)
      → (fs_root : Option Node) → (filename : ℕ) → Machine a
      → Run (Option Node × Machine a)
  kopen fuel none filename s = stopped
  kopen fuel (some root) filename s =
      if (if s.mem filename == 0 then 1 else 0) == b'/'
      then stopped
      else elim (strlen fuel s.mem filename) [
        | none ↦ out_of_fuel
        | some path_len ↦
            let (path, s1) = allocate a path_len s in
            let (depth, m2) = cut_slashes path_len path 0 (memcpy s1.mem path filename path_len) in
            walk fuel depth path (path + 1) root
              (record { heap = s1.heap; mem = store8 m2 (path + path_len) 0 })
      ]
