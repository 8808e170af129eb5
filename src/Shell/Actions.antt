-- ===== src/Shell/Actions.antt =====
-- The names of the commands and what each of them does, apart from the table of the code.
use mya_xos.Base.{ℕ, ◌≡◌, refl, inl, inr, Option, List, [], ◌∷◌, Bool, Bool-cases, if◌then◌else◌}
use Prim.Native.String.{String}
use mya_xos.Allocator.{Allocator}
use mya_xos.Report.{stop, say, colours, default_colours, codes}
use mya_xos.Report.Formats.{same_bytes}
use mya_xos.Vfs.{Run, done, Driver, ◌>>=◌}
use mya_xos.Shell.Commands.{
  Shell, commands, run_command, print, echo_script, change_directory, concatenate, list_entries,
  on_node, write_port, send_arguments, dereference,
}
use mya_xos.Shell.Naming.{named}

module _ {a : Allocator} (d : Driver a) (fuel buf path : ℕ) (literal : String → ℕ)
    (mapped : ℕ → Bool) (fs_root : Option (d.Node)) where
  abbrev say_line : String → List ℕ → Shell d → Run (Shell d)
  say_line f args = print d fuel buf path literal mapped fs_root (say f (λ m. args) stop)

  -- Nothing is printed where there is no word behind "echo".
  abbrev echo_words : List ℕ → Shell d → Run (Shell d)
  echo_words [] s = done s
  echo_words (arg ∷ args) s =
      print d fuel buf path literal mapped fs_root (echo_script (arg ∷ args)) s

  abbrev send_words : List ℕ → Shell d → Run (Shell d)
  send_words [] s = say_line "Need some arguments.\n" [] s
  send_words (arg ∷ args) s = send_arguments d fuel buf path literal mapped fs_root (arg ∷ args) s

  -- What the shell does on the word `word`, which is at `cmd`, with the words at `args` behind it.
  unfoldable pub action : (word : List ℕ) → (cmd : ℕ) → (args : List ℕ) → Shell d → Run (Shell d)
  action word cmd args s =
      if same_bytes word (codes "cd")
      then change_directory d fuel buf path literal mapped fs_root args s
      else if same_bytes word (codes "cat")
      then concatenate d fuel buf path literal mapped fs_root args s
      else if same_bytes word (codes "echo")
      then echo_words args s
      else if same_bytes word (codes "ls")
      then on_node d fuel buf path literal mapped fs_root
          (list_entries d fuel buf path literal mapped fs_root fuel 0) s
      else if same_bytes word (codes "info")
      then on_node d fuel buf path literal mapped fs_root
          (λ n. say_line "Flags: 0x%x\n" (d.flags n ∷ [])) s
      else if same_bytes word (codes "help")
      then print d fuel buf path literal mapped fs_root
          (colours 9 0 (say "TODO: this\n" (λ m. []) (default_colours stop))) s
      else if same_bytes word (codes "out")
      then write_port d fuel buf path literal mapped fs_root args s
      else if same_bytes word (codes "serial")
      then send_words args s
      else if same_bytes word (codes "crash")
      then say_line "Going to dereference some invalid pointer.\n" [] s
        >>= dereference d fuel buf path literal mapped fs_root 0xFFFFFFF
      else say_line "Unrecognized command: %s\n" (cmd ∷ []) s

  -- The table and the commands of the code come to the same.
  pub run_command-action :
      (word : List ℕ) (cmd : ℕ) (args : List ℕ) (s : Shell d)
      → run_command d fuel buf path literal mapped fs_root (named word commands) cmd args s
        ≡ action word cmd args s
  unfolding action run_command named
  run_command-action word cmd args s = elim (Bool-cases (same_bytes word (codes "cd"))) [
    | inl h ↦ rw h refl
    | inr n0 ↦ rw n0 (elim (Bool-cases (same_bytes word (codes "cat"))) [
      | inl h ↦ rw h refl
      | inr n1 ↦ rw n1 (elim (Bool-cases (same_bytes word (codes "echo"))) [
        | inl h ↦ rw h (elim args [ [] ↦ refl | x ∷ xs ↦ refl ])
        | inr n2 ↦ rw n2 (elim (Bool-cases (same_bytes word (codes "ls"))) [
          | inl h ↦ rw h refl
          | inr n3 ↦ rw n3 (elim (Bool-cases (same_bytes word (codes "info"))) [
            | inl h ↦ rw h refl
            | inr n4 ↦ rw n4 (elim (Bool-cases (same_bytes word (codes "help"))) [
              | inl h ↦ rw h refl
              | inr n5 ↦ rw n5 (elim (Bool-cases (same_bytes word (codes "out"))) [
                | inl h ↦ rw h refl
                | inr n6 ↦ rw n6 (elim (Bool-cases (same_bytes word (codes "serial"))) [
                  | inl h ↦ rw h (elim args [ [] ↦ refl | x ∷ xs ↦ refl ])
                  | inr n7 ↦ rw n7 (elim (Bool-cases (same_bytes word (codes "crash"))) [
                    | inl h ↦ rw h refl
                    | inr n8 ↦ rw n8 refl
                  ])
                ])
              ])
            ])
          ])
        ])
      ])
    ])
  ]
