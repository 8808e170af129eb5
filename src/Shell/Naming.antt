-- ===== src/Shell/Naming.antt =====
-- A command is found by its name.
use mya_xos.Base.{
  ℕ, ◌<◌, ◌≡◌, refl, sym, ◌∙◌, ◌↔◌, inl, inr, some, List, [], ◌∷◌, true, false, arith,
  if◌then◌else◌, length, All, Bool-cases,
}
use Prim.Native.String.{String}
use mya_xos.Memory.{Memory, CString}
use mya_xos.Str.{strcmp, equal, Compared, less, greater}
use mya_xos.Str.Compare.{IsText, compare_text, strcmp-compare_text, strcmp-equal_iff}
use mya_xos.Report.{codes}
use mya_xos.Report.Formats.{same_bytes, same_bytes-eq, same_bytes_refl}
use mathlib.Core.Path.{subst}
use mya_xos.Shell.Commands.{Command, unrecognized, read_command}

-- The command of a name, of the first entry that has it.
unfoldable pub named : List ℕ → List (String × Command) → Command
named bs [] = unrecognized
named bs ((name, c) ∷ rest) =
    let other = named bs rest in if same_bytes bs (codes name) then c else other

differs_bytes : (bs cs : List ℕ) → (bs ≡ cs → ⊥) → same_bytes bs cs ≡ false
differs_bytes bs cs h = elim (Bool-cases (same_bytes bs cs)) [
  | inl same ↦ absurd (h (same_bytes-eq bs cs same))
  | inr other ↦ other
]

module _ (fuel : ℕ) (m : Memory) (literal : String → ℕ) (cmd : ℕ) (bs : List ℕ) where
  -- The names are in memory.
  abbrev pub AreNamed : List (String × Command) → Type 0
  AreNamed table = All (λ e. CString m (literal (e.0)) (codes (e.0)) × IsText (codes (e.0))) table

  -- One comparison.
  read_command-step :
      (name : String) (c : Command) (rest : List (String × Command)) (o : Compared)
      → strcmp fuel m cmd (literal name) ≡ some o
      → (strcmp fuel m cmd (literal name) ≡ some equal) ↔ (bs ≡ codes name)
      → read_command fuel m literal cmd rest ≡ some (named bs rest)
      → read_command fuel m literal cmd ((name, c) ∷ rest) ≡ some (named bs ((name, c) ∷ rest))
  unfolding read_command named
  read_command-step name c rest equal e iff next =
      let here : same_bytes bs (codes name) ≡ true =
        subst (λ l. same_bytes bs l ≡ true) (iff.0 e) (same_bytes_refl bs) in
      rw (read_command, e, here) refl
  read_command-step name c rest less e iff next =
      rw (read_command, e, differs_bytes bs (codes name) (λ s. ground (arith, sym e ∙ iff.1 s)))
        next
  read_command-step name c rest greater e iff next =
      rw (read_command, e, differs_bytes bs (codes name) (λ s. ground (arith, sym e ∙ iff.1 s)))
        next

  -- The comparisons with `strcmp` find the command of that name, and no other; a name that is not in the
  -- table is not recognized.
  pub read_command-named :
      (table : List (String × Command))
      → CString m cmd bs
      → IsText bs
      → length bs < fuel
      → AreNamed table
      → read_command fuel m literal cmd table ≡ some (named bs table)
  unfolding read_command named
  read_command-named [] held text lt there = refl
  read_command-named ((name, c) ∷ rest) held text lt there =
      read_command-step name c rest (compare_text bs (codes name))
        (strcmp-compare_text fuel m cmd (literal name) bs (codes name) held there.0.0 text there.0.1
          lt)
        (strcmp-equal_iff fuel m cmd (literal name) bs (codes name) held there.0.0 text there.0.1
          lt)
        (read_command-named rest held text lt there.1)
