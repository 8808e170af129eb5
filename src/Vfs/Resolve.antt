-- ===== src/Vfs/Resolve.antt =====
-- `kopen` follows the names of an absolute path, on a driver that looks names up in directories.
use mya_xos.Base.{
  ℕ, zero, suc, ◌+◌, ◌<◌, ◌≤◌, ◌≡◌, ◌≢◌, refl, ap, inl, inr, some, none, Option, List, [], ◌∷◌,
  true, ◌&&◌, arith, ◌==◌, if◌then◌else◌, length, All, Bool-cases, Option-cases,
}
use mya_xos.Memory.{Memory, store8, within, CString}
use mya_xos.Allocator.{Allocator, Machine, release}
use mya_xos.Str.Text.{Bytes, Bytes-frame, CString-frame, strlen-length}
use mya_xos.Vfs.{done, Driver, open_fs, finddir_fs, cut_slashes, walk}

-- A path that is cut at its slashes: the first name, and the others.
unfoldable pub first_name : List ℕ → List ℕ
first_name [] = []
first_name (c ∷ cs) = if c == b'/' then [] else c ∷ first_name cs

unfoldable pub other_names : List ℕ → List (List ℕ)
other_names [] = []
other_names (c ∷ cs) = let rest = other_names cs in if c == b'/' then first_name cs ∷ rest else rest

-- The names stand behind each other, each behind the NUL of the one before; `q` is the first NUL.
abbrev pub HoldsAll : Memory → ℕ → List (List ℕ) → Type 0
HoldsAll m q [] = Unit
HoldsAll m q (y ∷ ys) = CString m (q + 1) y × HoldsAll m (q + 1 + length y) ys

abbrev pub room : List (List ℕ) → ℕ
room [] = 0
room (y ∷ ys) = 1 + length y + room ys

HoldsAll-frame :
    (m m' : Memory) (q : ℕ) (ys : List (List ℕ))
    → ((x : ℕ) → q ≤ x → x ≤ q + room ys → m' x ≡ m x)
    → HoldsAll m q ys
    → HoldsAll m' q ys
HoldsAll-frame m m' q [] same h = tt
HoldsAll-frame m m' q (y ∷ ys) same h = (
  CString-frame m m' (q + 1) y (λ x lo hi. same x (omega arith) (omega arith)) h.0,
  HoldsAll-frame m m' (q + 1 + length y) ys (λ x lo hi. same x (omega arith) (omega arith)) h.1,
)

-- The bytes of a path after the cut.
abbrev pub Cut : Memory → ℕ → List ℕ → Type 0
Cut m p [] = m p ≡ 0
Cut m p (c ∷ cs) = (m p ≡ (if c == b'/' then 0 else c)) × (c ≢ 0) × Cut m (p + 1) cs

pub Cut-HoldsAll :
    (m : Memory) (p : ℕ) (bs : List ℕ)
    → Cut m p bs
    → CString m p (first_name bs) × HoldsAll m (p + length (first_name bs)) (other_names bs)
unfolding first_name other_names
Cut-HoldsAll m p [] h = (h, tt)
Cut-HoldsAll m p (c ∷ cs) h =
    let (here, there) = Cut-HoldsAll m (p + 1) cs h.2 in
    elim (Bool-cases (c == b'/')) [
      | inl slash ↦
          let e : p + 0 ≡ p = omega arith in rw (slash, e) (rw slash at h.0, (here, there))
      | inr letter ↦
          let e : p + suc (length (first_name cs)) ≡ p + 1 + length (first_name cs) = omega arith in
          rw (letter, e) ((rw letter at h.0, h.1, here), there)
    ]

pub room-names : (bs : List ℕ) → length (first_name bs) + room (other_names bs) ≡ length bs
unfolding first_name other_names
room-names [] = refl
room-names (c ∷ cs) = ground (arith, room-names cs)

pub cut_slashes-mem :
    {a : Allocator} (d : Driver a) (left p depth : ℕ) (m : Memory) (x : ℕ)
    → (cut_slashes d left p depth m).1 x ≡ (if within p left x && (m x == b'/') then 0 else m x)
unfolding cut_slashes
cut_slashes-mem d zero p depth m x = ground arith
cut_slashes-mem d (suc left) p depth m x = ground (
  arith,
  cut_slashes-mem d left (p + 1) (depth + 1) (store8 m p 0) x,
  cut_slashes-mem d left (p + 1) depth m x,
)

pub cut_slashes-count :
    {a : Allocator} (d : Driver a) (p depth : ℕ) (m : Memory) (bs : List ℕ)
    → Bytes m p bs
    → (cut_slashes d (length bs) p depth m).0 ≡ depth + length (other_names bs)
unfolding cut_slashes other_names
cut_slashes-count d p depth m [] h = omega arith
cut_slashes-count d p depth m (c ∷ cs) h =
    let later : Bytes (store8 m p 0) (p + 1) cs =
      Bytes-frame m (store8 m p 0) (p + 1) cs (λ x lo hi. ground arith) h.2 in
    ground (
      arith,
      h.0,
      cut_slashes-count d (p + 1) (depth + 1) (store8 m p 0) cs later,
      cut_slashes-count d (p + 1) depth m cs h.2,
    )

pub Bytes-Cut :
    (m m' : Memory) (p : ℕ) (bs : List ℕ)
    → Bytes m p bs
    → ((x : ℕ) → p ≤ x → x < p + length bs → m' x ≡ (if m x == b'/' then 0 else m x))
    → m' (p + length bs) ≡ 0
    → Cut m' p bs
Bytes-Cut m m' p [] h same end = let e : p + 0 ≡ p = omega arith in rw e at end
Bytes-Cut m m' p (c ∷ cs) h same end =
    let e : p + suc (length cs) ≡ p + 1 + length cs = omega arith in
    (
      rw h.0 at (same p (omega arith) (omega arith)),
      h.1,
      Bytes-Cut m m' (p + 1) cs h.2 (λ x lo hi. same x (omega arith) (omega arith)) (rw e at end),
    )

-- What a call may change: nothing that belonged to the program before.
pub record Spares (a : Allocator) (s s' : Machine a) : Type 0 where
  pub same_mem : (x : ℕ) → a.safe s.heap x ≡ true → s'.mem x ≡ s.mem x
  pub same_safe : (x : ℕ) → a.safe s.heap x ≡ true → a.safe s'.heap x ≡ true

module _ {a : Allocator} (d : Driver a) (lookup : d.Node → List ℕ → Option d.Node) where
  -- The driver looks names up by `lookup`, and opens every node, as long as something holds of the
  -- machine that what spares the program's memory keeps, something of the nodes that are found, and
  -- something of the names.
  pub record IsLookingWhile (Inv : Machine a → Type 0) (Good : d.Node → Type 0)
      (Fit : List ℕ → Type 0) : Type 0 where
    pub finds :
        (n : d.Node) (name : ℕ) (text : List ℕ) (s : Machine a)
        → Good n
        → Inv s
        → Fit text
        → CString s.mem name text
        → ((x : ℕ) → name ≤ x → x ≤ name + length text → a.safe s.heap x ≡ true)
        → (s' : Machine a) × (finddir_fs d n name s ≡ done (lookup n text, s')) × Spares a s s'
    pub opens : (n : d.Node) (s : Machine a) → (s' : Machine a) × (open_fs d n 1 0 s ≡ done s')
    pub good : (n next : d.Node) (text : List ℕ) → Good n → lookup n text ≡ some next → Good next
    pub kept : (s s' : Machine a) → Spares a s s' → Inv s → Inv s'

  -- The node that is reached by the names, one after another.
  unfoldable pub resolve : List ℕ → List (List ℕ) → d.Node → Option d.Node
  resolve x [] n = lookup n x
  resolve x (y ∷ ys) n = elim (lookup n x) [ none ↦ none | some n' ↦ resolve y ys n' ]

  resolve-none : (x : List ℕ) (n : d.Node) → resolve x [] n ≡ lookup n x
  unfolding resolve
  resolve-none x n = refl

  resolve-missing :
      (x y : List ℕ) (ys : List (List ℕ)) (n : d.Node)
      → lookup n x ≡ none
      → resolve x (y ∷ ys) n ≡ none
  unfolding resolve
  resolve-missing x y ys n missing =
      ap
        (λ (o : Option d.Node). elim o as (λ _. Option d.Node) [
          | none ↦ none
          | some n' ↦ resolve y ys n'
        ])
        missing

  resolve-found :
      (x y : List ℕ) (ys : List (List ℕ)) (n next : d.Node)
      → lookup n x ≡ some next
      → resolve x (y ∷ ys) n ≡ resolve y ys next
  unfolding resolve
  resolve-found x y ys n next found =
      ap
        (λ (o : Option d.Node). elim o as (λ _. Option d.Node) [
          | none ↦ none
          | some n' ↦ resolve y ys n'
        ])
        found

  module _ (Inv : Machine a → Type 0) (Good : d.Node → Type 0) (Fit : List ℕ → Type 0)
      (looking : IsLookingWhile Inv Good Fit) (fuel path : ℕ) where
    pub walk-resolve :
        (p : ℕ) (x : List ℕ) (ys : List (List ℕ)) (n : d.Node) (s : Machine a)
        → Good n
        → Inv s
        → All Fit (x ∷ ys)
        → CString s.mem p x
        → HoldsAll s.mem (p + length x) ys
        → ((k : ℕ) → p ≤ k → k ≤ p + length x + room ys → a.safe s.heap k ≡ true)
        → length x + room ys < fuel
        → (s' : Machine a) × (walk d fuel (suc (length ys)) path p n s ≡ done (resolve x ys n, s'))
    unfolding walk
    walk-resolve p x [] n s g i fit h hs safe lt =
        let (s1, run, kept) =
          looking.finds n p x s g i fit.0 h (λ k lo hi. safe k lo (omega arith)) in
        elim (Option-cases (lookup n x)) [
          | inl missing ↦ (release a path s1, rw (resolve-none x n, run, missing) refl)
          | inr (next, found) ↦
              let (s2, opened) = looking.opens next s1 in
              (s2, rw (resolve-none x n, run, found, opened) refl)
        ]
    walk-resolve p x (y ∷ ys) n s g i fit h hs safe lt =
        let (s1, run, kept) =
          looking.finds n p x s g i fit.0 h (λ k lo hi. safe k lo (omega arith)) in
        elim (Option-cases (lookup n x)) [
          | inl missing ↦
              (release a path s1, rw (resolve-missing x y ys n missing, run, missing) refl)
          | inr (next, found) ↦
              let h1 =
                CString-frame s.mem s1.mem p x
                  (λ k lo hi. kept.same_mem k (safe k lo (omega arith))) h in
              let len = strlen-length fuel s1.mem p x h1 (omega arith) in
              let hs1 =
                HoldsAll-frame s.mem s1.mem (p + length x) (y ∷ ys)
                  (λ k lo hi. kept.same_mem k (safe k (omega arith) hi)) hs in
              let e : p + length x + 1 ≡ p + (length x + 1) = omega arith in
              let (s2, rest) =
                walk-resolve (p + (length x + 1)) y ys next s1 (looking.good n next x g found)
                  (looking.kept s s1 kept i) fit.1 (rw e at hs1.0) (rw e at hs1.1)
                  (λ k lo hi. kept.same_safe k (safe k (omega arith) (omega arith)))
                  (omega arith) in
              (s2, rw (resolve-found x y ys n next found, run, found, len) rest)
        ]
