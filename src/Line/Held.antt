-- ===== src/Line/Held.antt =====
-- A line in a buffer, its last character first, and what one key does to it.
use mya_xos.Base.{ℕ, suc, ◌+◌, ◌<◌, ◌≤◌, ◌≡◌, refl, ◌∙◌, some, List, [], ◌∷◌, arith, length, All}
use mya_xos.Memory.{Memory, CString}
use mathlib.Core.Path.{subst}
use mya_xos.Vga.{Console, blank}
use mya_xos.Vga.Terminal.{Terminal, terminal_write, Shows}
use mya_xos.Vga.Scroll.{cell}
use mya_xos.Vga.Puts.{IsConsole, type_text, Keeps, Keeps-refl, Keeps-trans, writech-Keeps}
use mya_xos.Str.Compare.{IsText}
use mya_xos.Line.{write_all, echo}

-- The line `r` stands in the buffer; its last character is the head of `r`.
abbrev pub Held : Memory → ℕ → List ℕ → Type 0
Held m buffer [] = Unit
Held m buffer (c ∷ r) = (m (buffer + length r) ≡ c) × Held m buffer r

pub Held-frame :
    (m m' : Memory) (buffer : ℕ) (r : List ℕ)
    → ((x : ℕ) → buffer ≤ x → x < buffer + length r → m' x ≡ m x)
    → Held m buffer r
    → Held m' buffer r
Held-frame m m' buffer [] same h = tt
Held-frame m m' buffer (c ∷ r) same h = (
  same (buffer + length r) (omega arith) (omega arith) ∙ h.0,
  Held-frame m m' buffer r (λ x lo hi. same x lo (omega arith)) h.1,
)

-- The characters of `r` in order, and then `cs`.
abbrev pub onto : List ℕ → List ℕ → List ℕ
onto [] cs = cs
onto (c ∷ r) cs = onto r (c ∷ cs)

pub Held-CString :
    (m : Memory) (buffer : ℕ) (r cs : List ℕ)
    → Held m buffer r
    → IsText r
    → CString m (buffer + length r) cs
    → CString m buffer (onto r cs)
Held-CString m buffer [] cs h t k = let e : buffer + 0 ≡ buffer = omega arith in rw e at k
Held-CString m buffer (c ∷ r) cs h t k =
    let e : buffer + suc (length r) ≡ buffer + length r + 1 = omega arith in
    Held-CString m buffer r (c ∷ cs) h.1 t.1 (h.0, ground arith, rw e at k)

pub write_all-Keeps :
    (w fuel : ℕ) (cs : List ℕ) (s : Console) (t : Terminal)
    → IsConsole w s
    → w ≤ fuel
    → All (λ c. c < 256) cs
    → Shows s t
    → (s' : Console) × (write_all fuel cs s ≡ some s')
      × IsConsole w s'
      × Shows s' (type_text s.attrib (blank s.attrib) cs t)
      × Keeps s s'
unfolding write_all
write_all-Keeps w fuel [] s t h le small v = (s, refl, h, v, Keeps-refl s)
write_all-Keeps w fuel (c ∷ cs) s t h le small v =
    let (s1, run, h1, v1, kept) = writech-Keeps w fuel c s t h le small.0 v in
    let (s2, rest, h2, v2, kept2) = write_all-Keeps w fuel cs s1 _ h1 le small.1 v1 in
    (
      s2,
      rw (write_all, run) rest,
      h2,
      subst
          (λ a. Shows s2 (type_text a (blank a) cs (terminal_write s.attrib (blank s.attrib) c t)))
          kept.same_attrib v2,
      Keeps-trans kept kept2,
    )

-- What a screen shows now.
abbrev pub current : Console → Terminal
current s = record { at = cell s; x = s.csr_x; y = s.csr_y }

pub current-Shows : (s : Console) → Shows s (current s)
current-Shows s = record { cells = λ r k hr hk. refl; column = refl; line = refl }

pub echo-small : (ch collected : ℕ) → ch < 256 → All (λ c. c < 256) (echo ch collected)
unfolding echo
echo-small ch collected h = ground arith
