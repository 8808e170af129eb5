-- ===== src/Shell.antt =====
-- kernel/core/shell.c: how the shell reads a command, what the commands do, and the loop around them. This file
-- cuts a command into its words and puts the name of a file together.
pub mod Words
pub mod Join
pub mod Names
pub mod Commands
pub mod Loop
pub mod Naming
pub mod Actions
pub mod Dispatch
pub mod Round
pub mod Echo
mod Tests
use mya_xos.Base.{ℕ, zero, suc, ◌+◌, ◌≡◌, some, none, Option, List, [], ◌∷◌, ◌==◌, if◌then◌else◌}
use mya_xos.Memory.{Memory, null, store8}
use mya_xos.Allocator.{Allocator, Machine, allocate}
use mya_xos.Str.{strlen, strcmp, equal, memcpy, strtok_r}

-- The loop over `strtok_r`: the tokens from `pch` on, which are put into `argv` one after another.
pub token_loop : (rounds fuel : ℕ) → Memory → (delim pch save : ℕ) → Option (List ℕ × Memory)
token_loop zero fuel m delim pch save = none
token_loop (suc rounds) fuel m delim pch save =
    if pch == null then some ([], m) else elim (strtok_r fuel m null delim save) [
      | none ↦ none
      | some t ↦ elim (token_loop rounds fuel t.mem delim t.token t.save) [
        | none ↦ none
        | some r ↦ some (pch ∷ r.0, r.1)
      ]
    ]

-- `save` is not set before the first call.
pub tokenize : (rounds fuel : ℕ) → Memory → (delim buffer save : ℕ) → Option (List ℕ × Memory)
tokenize rounds fuel m delim buffer save = elim (strtok_r fuel m buffer delim save) [
  | none ↦ none
  | some t ↦ token_loop rounds fuel t.mem delim t.token t.save
]

-- `memcpy(dest, arg, strlen(arg) + 1)`
pub copy_text : (fuel : ℕ) → Memory → (dest arg : ℕ) → Option Memory
copy_text fuel m dest arg = elim (strlen fuel m arg) [
  | none ↦ none
  | some n ↦ some (memcpy m dest arg (n + 1))
]

-- The argument behind the working directory, whose text stands at `path`; `slash` is the literal "/".
pub append_name : (fuel : ℕ) → Memory → (filename path arg slash : ℕ) → Option Memory
append_name fuel m filename path arg slash = elim (strlen fuel m path) [
  | none ↦ none
  | some n ↦
      let m2 = memcpy m filename path n in
      elim (strcmp fuel m2 path slash) [
        | none ↦ none
        | some equal ↦ elim (strlen fuel m2 path) [
          | none ↦ none
          | some k ↦ copy_text fuel m2 (filename + k) arg
        ]
        | some _ ↦ elim (strlen fuel m2 path) [
          | none ↦ none
          | some k ↦
              let m3 = store8 m2 (filename + k) b'/' in
              elim (strlen fuel m3 path) [
                | none ↦ none
                | some k' ↦ copy_text fuel m3 (filename + k' + 1) arg
              ]
        ]
      ]
]

-- The name that `cd` and `cat` open. The length of what is written is not compared with 1024.
pub file_name : (a : Allocator) (fuel path arg slash : ℕ) → Machine a → Option (ℕ × Machine a)
file_name a fuel path arg slash s =
    let (filename, s1) = allocate a 1024 s in
    let written =
      if s1.mem arg == b'/'
      then copy_text fuel s1.mem filename arg
      else append_name fuel s1.mem filename path arg slash in
    elim written [ none ↦ none | some m ↦ some (filename, record { heap = s1.heap; mem = m }) ]
