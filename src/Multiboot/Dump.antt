-- ===== src/Multiboot/Dump.antt =====
-- The report of the boot loader is printed whole.
use mya_xos.Base.{
  ℕ, zero, suc, ◌+◌, ◌-◌, ◌*◌, ◌/◌, ◌^◌, ◌<◌, ◌≤◌, bit_and, ◌≡◌, refl, ap, List, [], ◌∷◌, true,
  false, Bool, not, ◌&&◌, arith, ◌==◌, ltb, All, ltb→lt, u32,
}
use Prim.Native.String.{String}
use mya_xos.Memory.{Memory, load32, within}
use mya_xos.Print.{printed}
use mya_xos.Vga.{Console}
use mya_xos.Vga.Terminal.{Terminal}
use mya_xos.Report.{Script, default_colours, codes, run_script}
use mya_xos.Report.Formats.{
  format, is_format, is_piece, are_pieces, same_bytes, plain_only, one_word, is_format-IsFormat,
}
use mya_xos.Report.Play.{
  HoldsText, IsLinked, one_word-Suits, Plays, IsPlaying, run_script-Plays, Says, Suits, Ready,
  Agree, kept,
}
use mya_xos.Multiboot.{field, flag, lines, say_lines, say_modules, say_options, dump_multiboot}

-- Formats of at most 25 pieces that print one word, and the places of words of the structure.
are_lines : List (String × ℕ) → Bool
are_lines [] = true
are_lines ((f, k) ∷ ls) = is_format 25 f && one_word (format (codes f)) && ltb k 24 && are_lines ls

lines-are_lines : are_lines lines ≡ true
unfolding are_lines is_format format is_piece are_pieces same_bytes plain_only one_word
lines-are_lines = refl

-- The formats besides those of the table.
abbrev pub other_formats : List String
other_formats =
    "MULTIBOOT header at 0x%x:\n" ∷ "Started with: %s\n" ∷ "Booted from: %s\n"
    ∷ "%dkB lower memory\n" ∷ "%dkB higher memory " ∷ "(%dMB)\n" ∷ "Found %d module(s).\n"
    ∷ "Module %d is at 0x%x:0x%x\n" ∷ []

module _ (v w fuel buf screen : ℕ) (literal : String → ℕ) (m0 : Memory) where
  -- A word that printing leaves alone.
  load32-Agree :
      (m : Memory) (p : ℕ)
      → Agree v w fuel buf screen literal m0 m
      → ((x : ℕ) → p ≤ x → x < p + 4 → kept v w fuel buf screen literal m0 x ≡ true)
      → load32 m p ≡ load32 m0 p
  unfolding load32
  load32-Agree m p e k = ground (
    arith,
    e p (k p (omega arith) (omega arith)),
    e (p + 1) (k (p + 1) (omega arith) (omega arith)),
    e (p + 2) (k (p + 2) (omega arith) (omega arith)),
    e (p + 3) (k (p + 3) (omega arith) (omega arith)),
  )

  load32-lt : (m : Memory) (p : ℕ) → ((x : ℕ) → m x < 256) → load32 m p < 2 ^ 32
  unfolding load32
  load32-lt m p h =
      omega (arith, h p, h (p + 1), h (p + 2), h (p + 1 + 2), h (p + 2 + 1), h (p + 3))

  -- The structure at `ptr`, and the texts and modules that it leads to where its flags say so, are away
  -- from the screen and the buffer; there are rounds for the modules and one more.
  pub record IsReport (ptr rounds : ℕ) : Type 0 where
    pub bytes : (x : ℕ) → m0 x < 256
    pub pointer : ptr + 96 < 2 ^ 32
    pub structure : (x : ℕ) → ptr ≤ x → x < ptr + 96 → kept v w fuel buf screen literal m0 x ≡ true
    pub narrow : w ≤ 40
    pub command_line :
        flag ptr 2 m0 ≡ true → HoldsText v w fuel buf screen literal m0 (field ptr 4 m0)
    pub loader : flag ptr 9 m0 ≡ true → HoldsText v w fuel buf screen literal m0 (field ptr 16 m0)
    pub rounds_enough : flag ptr 3 m0 ≡ true → field ptr 5 m0 < rounds
    pub modules :
        flag ptr 3 m0 ≡ true
        → (x : ℕ) → field ptr 6 m0 ≤ x
        → x < field ptr 6 m0 + 32 * field ptr 5 m0 + 4
        → (x < 2 ^ 32) × (kept v w fuel buf screen literal m0 x ≡ true)

  module _ (ptr rounds : ℕ) (r : IsReport ptr rounds) where
    field-Agree :
        (m : Memory) (k : ℕ)
        → k < 24
        → Agree v w fuel buf screen literal m0 m
        → field ptr k m ≡ field ptr k m0
    field-Agree m k lt e =
        load32-Agree m (ptr + 4 * k) e (λ x lo hi. r.structure x (omega arith) (omega arith))

    line-Says :
        (f : String) (k : ℕ)
        → k < 24
        → is_format 25 f ≡ true
        → one_word (format (codes f)) ≡ true
        → IsLinked v w fuel buf screen literal m0 f
        → Says v w fuel buf screen literal m0 f (λ m. field ptr k m ∷ [])
    line-Says f k lt good one linked = record {
      held = linked;
      good = is_format-IsFormat 25 w f good (omega (arith, r.narrow)) (omega arith);
      steady = λ m e. ap (λ a. a ∷ []) (field-Agree m k lt e);
      suits =
          one_word-Suits v w fuel buf screen literal m0 (format (codes f)) (field ptr k m0) one
            (load32-lt m0 (ptr + 4 * k) r.bytes);
    }

    say_lines-Ready :
        (ls : List (String × ℕ)) (rest : Script)
        → are_lines ls ≡ true
        → All (λ l. IsLinked v w fuel buf screen literal m0 l.0) ls
        → Ready v w fuel buf screen literal m0 rest
        → Ready v w fuel buf screen literal m0 (say_lines ptr ls rest)
    unfolding are_lines say_lines
    say_lines-Ready [] rest good linked after = after
    say_lines-Ready ((f, k) ∷ ls) rest good linked after = (
      line-Says f k (ground (arith, good)) (ground (arith, good)) (ground (arith, good)) linked.0,
      say_lines-Ready ls rest (ground (arith, good)) linked.1 after,
    )

    text_Says :
        (f : String) (k : ℕ)
        → k < 24
        → is_format 25 f ≡ true
        → (HoldsText v w fuel buf screen literal m0 (field ptr k m0)
            → Suits v w fuel buf screen literal m0 (format (codes f)) (field ptr k m0 ∷ []))
        → IsLinked v w fuel buf screen literal m0 f
        → HoldsText v w fuel buf screen literal m0 (field ptr k m0)
        → Says v w fuel buf screen literal m0 f (λ m. field ptr k m ∷ [])
    text_Says f k lt good suits linked text = record {
      held = linked;
      good = is_format-IsFormat 25 w f good (omega (arith, r.narrow)) (omega arith);
      steady = λ m e. ap (λ a. a ∷ []) (field-Agree m k lt e);
      suits = suits text;
    }

    megabytes-Says :
        IsLinked v w fuel buf screen literal m0 "(%dMB)\n"
        → Says v w fuel buf screen literal m0 "(%dMB)\n" (λ m. field ptr 2 m / 1024 ∷ [])
    unfolding is_format format is_piece are_pieces same_bytes
    megabytes-Says linked = record {
      held = linked;
      good = is_format-IsFormat 25 w "(%dMB)\n" refl (omega (arith, r.narrow)) (omega arith);
      steady = λ m e. ap (λ a. a / 1024 ∷ []) (field-Agree m 2 (omega arith) e);
      suits = (omega (arith, load32-lt m0 (ptr + 4 * 2) r.bytes), tt);
    }

    flag-Agree :
        (m : Memory) (bit : ℕ)
        → Agree v w fuel buf screen literal m0 m
        → flag ptr bit m ≡ flag ptr bit m0
    flag-Agree m bit e = ap (λ a. not (bit_and a (2 ^ bit) == 0)) (field-Agree m 0 (omega arith) e)

    -- A word of the table of modules.
    module_word-Agree :
        (m : Memory) (o : ℕ)
        → flag ptr 3 m0 ≡ true
        → o + 4 ≤ 32 * field ptr 5 m0 + 4
        → Agree v w fuel buf screen literal m0 m
        → load32 m (u32 (field ptr 6 m + o)) ≡ load32 m0 (u32 (field ptr 6 m0 + o))
    module_word-Agree m o set inside e =
        let p = field ptr 6 m0 in
        let same = field-Agree m 6 (omega arith) e in
        let real : p + o < 2 ^ 32 = (r.modules set (p + o) (omega arith) (omega arith)).0 in
        let at : u32 (p + o) ≡ p + o = omega arith in
        rw (same, at)
          (load32-Agree m (p + o) e (λ x lo hi. (r.modules set x (omega arith) (omega arith)).1))

    module _ (set : flag ptr 3 m0 ≡ true)
        (linked : IsLinked v w fuel buf screen literal m0 "Module %d is at 0x%x:0x%x\n") where
      module-Says :
          (i : ℕ)
          → i < field ptr 5 m0
          → Says v w fuel buf screen literal m0 "Module %d is at 0x%x:0x%x\n" (λ m.
            u32 (i + 1)
            ∷ load32 m (u32 (field ptr 6 m + 32 * i))
            ∷ load32 m (u32 (field ptr 6 m + (8 * i + 4)))
            ∷ [])
      unfolding is_format format is_piece are_pieces same_bytes
      module-Says i lt = record {
        held = linked;
        good =
            is_format-IsFormat 25 w "Module %d is at 0x%x:0x%x\n" refl (omega (arith, r.narrow))
              (omega arith);
        steady = λ m e.
            rw
              (
                module_word-Agree m (32 * i) set (omega arith) e,
                module_word-Agree m (8 * i + 4) set (omega arith) e,
              )
              refl;
        suits = (
          omega arith,
          (
            load32-lt m0 (u32 (field ptr 6 m0 + 32 * i)) r.bytes,
            (load32-lt m0 (u32 (field ptr 6 m0 + (8 * i + 4))) r.bytes, tt),
          ),
        );
      }

      say_modules-Ready :
          (n i : ℕ)
          → i ≤ field ptr 5 m0
          → field ptr 5 m0 - i < n
          → Ready v w fuel buf screen literal m0 (say_modules n ptr i)
      unfolding say_modules
      say_modules-Ready zero i le lt = absurd (omega arith)
      say_modules-Ready (suc n) i le lt = (
        (λ m e. ap (λ a. ltb i a) (field-Agree m 5 (omega arith) e)),
        (λ more.
            let less : i < field ptr 5 m0 = ltb→lt i (field ptr 5 m0) more in
            (module-Says i less, say_modules-Ready n (i + 1) (omega arith) (omega arith))),
        tt,
      )

    module _ (linked : All (IsLinked v w fuel buf screen literal m0) other_formats) where
      say_options-Ready : Ready v w fuel buf screen literal m0 (say_options rounds ptr)
      unfolding say_options is_format format is_piece are_pieces same_bytes one_word plain_only
      say_options-Ready = (
        (λ m e. flag-Agree m 2 e),
        (λ set. (
          text_Says "Started with: %s\n" 4 (omega arith) refl (λ t. (t, tt)) linked.1.0
              (r.command_line set),
          tt,
        )),
        (
          (λ m e. flag-Agree m 9 e),
          (λ set. (
            text_Says "Booted from: %s\n" 16 (omega arith) refl (λ t. (t, tt)) linked.1.1.0
                (r.loader set),
            tt,
          )),
          (
            (λ m e. flag-Agree m 0 e),
            (λ set. (
              line-Says "%dkB lower memory\n" 1 (omega arith) refl refl linked.1.1.1.0,
              (
                line-Says "%dkB higher memory " 2 (omega arith) refl refl linked.1.1.1.1.0,
                (megabytes-Says linked.1.1.1.1.1.0, tt),
              ),
            )),
            (
              (λ m e. flag-Agree m 3 e),
              (λ set. (
                line-Says "Found %d module(s).\n" 5 (omega arith) refl refl linked.1.1.1.1.1.1.0,
                (
                  (λ m e. ap (λ a. ltb 0 a) (field-Agree m 5 (omega arith) e)),
                  (λ more.
                      say_modules-Ready set linked.1.1.1.1.1.1.1.0 rounds 0 (omega arith)
                        (omega (arith, r.rounds_enough set))),
                  tt,
                ),
              )),
              tt,
            ),
          ),
        ),
      )

      dump_multiboot-Ready :
          All (λ l. IsLinked v w fuel buf screen literal m0 l.0) lines
          → Ready v w fuel buf screen literal m0 (dump_multiboot rounds ptr)
      unfolding dump_multiboot is_format format is_piece are_pieces same_bytes
      dump_multiboot-Ready table = (
        record {
          held = linked.0;
          good =
              is_format-IsFormat 25 w "MULTIBOOT header at 0x%x:\n" refl (omega (arith, r.narrow))
                (omega arith);
          steady = λ m e. refl;
          suits = (omega (arith, r.pointer), tt);
        },
        (
          omega arith,
          say_lines-Ready lines (default_colours (say_options rounds ptr)) lines-are_lines table
              say_options-Ready,
        ),
      )

      -- The report of the boot loader: `dump_multiboot` comes to an end, and the screen shows its lines one
      -- after another, in their colours, with the values that the structure holds.
      pub dump_multiboot-Plays :
          (p : ℕ × Terminal) (s : Console)
          → All (λ l. IsLinked v w fuel buf screen literal m0 l.0) lines
          → v ≤ fuel
          → 10 ≤ w
          → 1024 + w ≤ fuel
          → ((x : ℕ) → buf ≤ x → x < buf + 1024 → within screen 4000 x ≡ false)
          → IsPlaying v w fuel buf screen literal m0 p s
          → (s' : Console) × (q : ℕ × Terminal) × (run_script fuel buf literal
                (dump_multiboot rounds ptr)
                s
              ≡ printed s')
            × Plays v w fuel buf screen literal m0 (dump_multiboot rounds ptr) p q
            × IsPlaying v w fuel buf screen literal m0 q s'
      dump_multiboot-Plays p s table patient wide enough apart h =
          run_script-Plays v w fuel buf screen literal m0 patient wide enough apart
            (dump_multiboot rounds ptr) p s (dump_multiboot-Ready table) h
