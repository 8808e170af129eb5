-- ===== src/Shell/Names.antt =====
-- The names that `cd` and `cat` open, from the working directory and the argument.
use mya_xos.Base.{
  ℕ, ◌+◌, ◌<◌, ◌≤◌, ◌≡◌, ◌≢◌, refl, sym, ◌∙◌, inl, inr, some, List, [], ◌∷◌, true, false, arith,
  ◌==◌, length, Bool-cases, ==→eq, ==→ne,
}
use mathlib.Core.Path.{subst}
use mya_xos.Memory.{Memory, within, CString}
use mya_xos.Allocator.{Allocator, Machine, allocate, owned-apart}
use mya_xos.Str.Text.{CString-frame}
use mya_xos.Str.Compare.{IsText}
use mya_xos.Shell.Join.{below, joined, copy_text-CString, AreNames, append_name-joined}
use mya_xos.Shell.{file_name}

-- The head of a name decides.
joined-absolute :
    (ps cs : List ℕ) (m : Memory) (arg : ℕ) → CString m arg cs → m arg ≡ b'/' → joined ps cs ≡ cs
unfolding joined
joined-absolute ps [] m arg h e = absurd (ground (arith, h, e))
joined-absolute ps (c ∷ cs) m arg h e = ground (arith, h.0, e)

joined-relative :
    (ps cs : List ℕ) (m : Memory) (arg : ℕ)
    → CString m arg cs
    → m arg ≢ b'/'
    → joined ps cs ≡ below ps cs
unfolding joined
joined-relative ps [] m arg h e = refl
joined-relative ps (c ∷ cs) m arg h e = ground (arith, h.0, e)

module _ (a : Allocator) where
  -- The program holds the text at `q`.
  pub record IsHeld (q : ℕ) (bs : List ℕ) (s : Machine a) : Type 0 where
    pub text : CString s.mem q bs
    pub owned : (x : ℕ) → q ≤ x → x ≤ q + length bs → a.safe s.heap x ≡ true

  allocated-CString :
      (size q : ℕ) (bs : List ℕ) (s : Machine a)
      → IsHeld q bs s
      → CString (allocate a size s).1.mem q bs
  allocated-CString size q bs s h =
      CString-frame s.mem (allocate a size s).1.mem q bs
        (λ x lo hi. a.malloc_keeps size s.heap s.mem x (h.owned x lo hi)) h.text

  -- Where the two names and the slash between them fit in 1024 bytes, the name is put together and stands
  -- in a block of 1024 bytes that no one held before and that the program holds then; nothing that the program held before is written to.
  pub file_name-joined :
      (fuel path arg slash : ℕ) (ps cs : List ℕ) (s : Machine a)
      → IsHeld path ps s
      → IsHeld arg cs s
      → IsHeld slash (b'/' ∷ []) s
      → IsText ps
      → length ps < fuel
      → length cs < fuel
      → length ps + length cs + 2 ≤ 1024
      → (filename : ℕ) × (s' : Machine a) × (file_name a fuel path arg slash s
          ≡ some (filename, s'))
        × CString s'.mem filename (joined ps cs)
        × ((x : ℕ)
            → within filename 1024 x ≡ true
            → (a.safe s.heap x ≡ false) × (a.safe s'.heap x ≡ true))
        × ((x : ℕ) → a.safe s.heap x ≡ true → s'.mem x ≡ s.mem x)
  unfolding file_name
  file_name-joined fuel path arg slash ps cs s hp ha hs text lp la room =
      let (block, s1) = allocate a 1024 s in
      let p = owned-apart a 1024 path (length ps) s (omega arith) hp.owned in
      let names : AreNames block path arg slash ps cs s1.mem = record {
        path_held = allocated-CString 1024 path ps s hp;
        arg_held = allocated-CString 1024 arg cs s ha;
        slash_held = allocated-CString 1024 slash (b'/' ∷ []) s hs;
        path_outside = owned-apart a 1024 path (length ps) s (omega arith) hp.owned;
        arg_outside = owned-apart a 1024 arg (length cs) s (omega arith) ha.owned;
        slash_outside = owned-apart a 1024 slash 1 s (omega arith) hs.owned;
      } in
      let new : (x : ℕ)
          → within block 1024 x ≡ true
          → (a.safe s.heap x ≡ false) × (a.safe s1.heap x ≡ true) =
        λ x e. (a.malloc_fresh 1024 s.heap s.mem x e, a.malloc_live 1024 s.heap s.mem x e) in
      let unsafe : (x : ℕ) → a.safe s.heap x ≡ true → within block 1024 x ≡ false = λ x e.
        elim (Bool-cases (within block 1024 x)) [
          | inl inside ↦ absurd (ground (arith, e, a.malloc_fresh 1024 s.heap s.mem x inside))
          | inr off ↦ off
        ] in
      elim (Bool-cases (s1.mem arg == b'/')) [
        | inl slashed ↦
            let (m', run, held, same) =
              copy_text-CString fuel s1.mem block arg cs names.arg_held la
                (ground (arith, names.arg_outside)) in
            (
              block,
              record { heap = s1.heap; mem = m' },
              rw (file_name, slashed, run) refl,
              subst (λ n. CString m' block n)
                  (sym (
                    joined-absolute ps cs s1.mem arg names.arg_held
                      (==→eq (s1.mem arg) b'/' slashed)))
                  held,
              new,
              λ x e. same x (ground (arith, unsafe x e)) ∙ a.malloc_keeps 1024 s.heap s.mem x e,
            )
        | inr other ↦
            let (m', run, named) =
              append_name-joined fuel block path arg slash ps cs text lp la room s1.mem names in
            (
              block,
              record { heap = s1.heap; mem = m' },
              rw (file_name, other, run) refl,
              subst (λ n. CString m' block n)
                  (sym (
                    joined-relative ps cs s1.mem arg names.arg_held
                      (==→ne (s1.mem arg) b'/' other)))
                  named.named,
              new,
              λ x e. named.elsewhere x (unsafe x e) ∙ a.malloc_keeps 1024 s.heap s.mem x e,
            )
      ]
