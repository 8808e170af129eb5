-- ===== src/Shell/Commands.antt =====
-- The commands of the shell: how the name of a command is found, and what each command does.
use mya_xos.Base.{
  ℕ, zero, suc, ◌+◌, bit_and, some, none, Option, List, [], ◌∷◌, Bool, ◌==◌, ltb, if◌then◌else◌, u8,
  u16, u32,
}
use Prim.Native.String.{String}
use mya_xos.Memory.{Memory, null, store8}
use mya_xos.Ports.{outportb}
use mya_xos.Serial.{serial_send}
use mya_xos.Str.{memcpy, strlen, strcmp, equal, atoi}
use mya_xos.Allocator.{Allocator, Machine, allocate, release}
use mya_xos.Vga.{Console, writech}
use mya_xos.Print.{Printed, printed}
use mya_xos.Report.{Script, stop, say, colours, default_colours, run_script}
use mya_xos.Vfs.{Run, done, stopped, null_call, Driver, read_fs, close_fs, readdir_fs, kopen, ◌>>=◌}
use mya_xos.Shell.{file_name}

pub data Command : Type 0 where
  cd cat echo ls info help out serial crash unrecognized : Command

-- The comparisons, in their order.
abbrev pub commands : List (String × Command)
commands =
    ("cd", cd)
    ∷ ("cat", cat)
    ∷ ("echo", echo)
    ∷ ("ls", ls)
    ∷ ("info", info)
    ∷ ("help", help)
    ∷ ("out", out)
    ∷ ("serial", serial)
    ∷ ("crash", crash)
    ∷ []

unfoldable pub read_command :
    (fuel : ℕ)
    → Memory
    → (literal : String → ℕ) → (cmd : ℕ) → List (String × Command)
    → Option Command
read_command fuel m literal cmd [] = some unrecognized
read_command fuel m literal cmd ((name, c) ∷ rest) = elim (strcmp fuel m cmd (literal name)) [
  | none ↦ none
  | some equal ↦ some c
  | some _ ↦ read_command fuel m literal cmd rest
]

-- `argv` from the index 1 on, one after another.
unfoldable pub echo_script : List ℕ → Script
echo_script [] = say "\n" (λ m. []) stop
echo_script (arg ∷ args) = say "%s " (λ m. arg ∷ []) (echo_script args)

-- What a loop of the model without a round left becomes.
abbrev pub from_option {ℓ} : {A : Type ℓ} → Option A → Run A
from_option none = Run.out_of_fuel
from_option (some x) = done x

abbrev pub from_printed {ℓ} : {A : Type ℓ} → Printed A → Run A
from_printed (printed x) = done x
from_printed Printed.no_argument = Run.no_argument
from_printed Printed.overrun = Run.overrun
from_printed Printed.out_of_fuel = Run.out_of_fuel

-- The shell's node, the heap and the console, which has the memory.
pub record Shell {a : Allocator} (d : Driver a) : Type 0 where
  pub node : Option (d.Node)
  pub heap : a.Heap
  pub console : Console

-- `path` is the array with the working directory, `buf` the buffer of `kprintf`; `literal` gives the
-- address of a string literal, and `mapped` says which addresses can be read.
module _ {a : Allocator} (d : Driver a) (fuel buf path : ℕ) (literal : String → ℕ)
    (mapped : ℕ → Bool) (fs_root : Option (d.Node)) where
  abbrev pub machine : Shell d → Machine a
  machine s = record { heap = s.heap; mem = s.console.mem }

  abbrev pub resume : Shell d → Machine a → Shell d
  resume s r = record s { heap = r.heap; console = record (s.console) { mem = r.mem } }

  abbrev pub print : Script → Shell d → Run (Shell d)
  print sc s = from_printed (run_script fuel buf literal sc (s.console)) >>= λ c.
      done (record s { console = c })

  -- The name of the directory becomes the working directory.
  pub enter : (filename : ℕ) → d.Node → Shell d → Run (Shell d)
  enter filename chd s = from_option (strlen fuel s.console.mem filename) >>= λ n.
      let m = memcpy s.console.mem path filename n in
      from_option (strlen fuel m filename) >>= λ k.
      done
        (record s { node = some chd; console = record (s.console) { mem = store8 m (path + k) 0 } })

  pub change_directory : List ℕ → Shell d → Run (Shell d)
  change_directory [] s = print (say "cd: argument expected\n" (λ m. []) stop) s
  change_directory (arg ∷ args) s =
      from_option (file_name a fuel path arg (literal "/") (machine s)) >>= λ f.
      kopen d fuel fs_root f.0 f.1 >>= λ r.
      let s' = resume s r.1 in
      elim (r.0) [
        | none ↦ print (say "cd: could not change directory\n" (λ m. []) stop) s'
        | some chd ↦
            if bit_and (d.flags chd) 0x02 == 0
            then print (say "cd: %s is not a directory\n" (λ m. f.0 ∷ []) stop) s'
            else enter f.0 chd s'
      ]

  -- The bytes from `bufferb[i]` on, `left` of them.
  pub write_bytes : (left bufferb i : ℕ) → Shell d → Run (Shell d)
  write_bytes zero bufferb i s = done s
  write_bytes (suc left) bufferb i s =
      from_option (writech fuel (s.console.mem (bufferb + i)) (s.console)) >>= λ c.
      write_bytes left bufferb (i + 1) (record s { console = c })

  pub concatenate : List ℕ → Shell d → Run (Shell d)
  concatenate [] s = print (say "cat: argument expected\n" (λ m. []) stop) s
  concatenate (arg ∷ args) s =
      from_option (file_name a fuel path arg (literal "/") (machine s)) >>= λ f.
      kopen d fuel fs_root f.0 f.1 >>= λ r.
      let s' = resume s r.1 in
      elim (r.0) [
        | none ↦ print (say "cat: could not open file `%s`\n" (λ m. arg ∷ []) stop) s'
        | some file ↦
            let (bufferb, opened) = allocate a (u32 (d.length file + 200)) r.1 in
            read_fs d file 0 (d.length file) bufferb opened >>= λ t.
            write_bytes t.0 bufferb 0 (resume s t.1) >>= λ s2.
            close_fs d file (release a bufferb (machine s2)) >>= λ closed. done (resume s2 closed)
      ]

  -- The entries from the index `i` on. `entry->name` is at the start of the entry.
  pub list_entries : (rounds i : ℕ) → d.Node → Shell d → Run (Shell d)
  list_entries zero i node s = Run.out_of_fuel
  list_entries (suc rounds) i node s = readdir_fs d node i (machine s) >>= λ r.
      let s' = resume s r.1 in
      let next : Run (Shell d) = print (say "%s\n" (λ m. r.0 ∷ []) stop) s' >>= λ s2.
      list_entries rounds (i + 1) node (resume s2 (release a (r.0) (machine s2))) in
      if r.0 == null then done s' else next

  -- A node that is NULL is read through the null pointer.
  pub on_node : (d.Node → Shell d → Run (Shell d)) → Shell d → Run (Shell d)
  on_node f s = elim (s.node) [ none ↦ null_call | some n ↦ f n s ]

  pub write_port : List ℕ → Shell d → Run (Shell d)
  write_port (port ∷ val ∷ args) s = from_option (atoi fuel s.console.mem port) >>= λ p.
      from_option (atoi fuel s.console.mem val) >>= λ v.
      print (say "Writing %d (%c) to port %d\n" (λ m. v ∷ u8 v ∷ p ∷ []) stop) s >>= λ s'.
      done (record s' {
        console = record (s'.console) { ports = outportb (u16 p) (u8 v) s'.console.ports };
      })
  write_port args s =
      print
        (say "Need a port and a character (both as numbers, please) to write...\n" (λ m. []) stop) s

  -- A character to the serial line and to the screen.
  pub send : (ch : ℕ) → Shell d → Run (Shell d)
  send ch s = from_option (serial_send fuel ch s.console.ports) >>= λ p.
      from_option (writech fuel ch (record (s.console) { ports = p })) >>= λ c.
      done (record s { console = c })

  -- The loop over the characters of `text` from `j` on, whose length is taken in each round.
  pub send_text : (rounds text j : ℕ) → Shell d → Run (Shell d)
  send_text zero text j s = Run.out_of_fuel
  send_text (suc rounds) text j s = from_option (strlen fuel s.console.mem text) >>= λ n.
      let next : Run (Shell d) =
        send (s.console.mem (text + j)) s >>= send_text rounds text (j + 1) in
      if ltb j n then next else done s

  pub send_arguments : List ℕ → Shell d → Run (Shell d)
  send_arguments [] s = send b'\n' s
  send_arguments (arg ∷ args) s = send_text fuel arg 0 s >>= λ s'.
      from_option (writech fuel b' ' (s'.console)) >>= λ c.
      send_arguments args (record s' { console = c })

  -- A read of an address that is not mapped does not come back.
  pub dereference : (address : ℕ) → Shell d → Run (Shell d)
  dereference address s = if mapped address then done s else stopped

  -- `args` is `argv` from the index 1 on.
  unfoldable pub run_command : Command → (cmd : ℕ) → List ℕ → Shell d → Run (Shell d)
  run_command cd cmd args s = change_directory args s
  run_command cat cmd args s = concatenate args s
  run_command echo cmd [] s = done s
  run_command echo cmd (arg ∷ args) s = print (echo_script (arg ∷ args)) s
  run_command ls cmd args s = on_node (list_entries fuel 0) s
  run_command info cmd args s =
      on_node (λ n. print (say "Flags: 0x%x\n" (λ m. d.flags n ∷ []) stop)) s
  run_command help cmd args s =
      print (colours 9 0 (say "TODO: this\n" (λ m. []) (default_colours stop))) s
  run_command out cmd args s = write_port args s
  run_command serial cmd [] s = print (say "Need some arguments.\n" (λ m. []) stop) s
  run_command serial cmd (arg ∷ args) s = send_arguments (arg ∷ args) s
  run_command crash cmd args s =
      print (say "Going to dereference some invalid pointer.\n" (λ m. []) stop) s
      >>= dereference 0xFFFFFFF
  run_command unrecognized cmd args s =
      print (say "Unrecognized command: %s\n" (λ m. cmd ∷ []) stop) s
