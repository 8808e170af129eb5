-- ===== src/Paging/Heap.antt =====
-- `sbrk` grows the heap: it maps the pages of the new range, and no frame comes to two entries.
use mya_xos.Base.{
  ℕ, zero, suc, ◌+◌, ◌-◌, ◌*◌, ◌/◌, ◌%◌, ◌^◌, ◌≤◌, ◌<◌, ◌≡◌, ◌≢◌, refl, ap, ◌∙◌, ◌⊎◌, inl, inr,
  true, false, arith, ◌==◌, u32, Bool-cases, ltb, ltb→lt, ltb→le, ==→eq, ==→ne,
}
use mya_xos.Memory.{null}
use mya_xos.Panic.{Outcome, ok, halted}
use mya_xos.Frames.Bitmap.{is_taken}
use mya_xos.Paging.{Mm, alloc_frame, table_index, entry, get_page, sbrk_page, sbrk_loop, sbrk}
use mya_xos.Paging.Mapping.{
  IsUnshared, alloc_frame-same, alloc_frame-IsAllocated, IsAllocated-IsUnshared,
}

-- The entry of the page that holds the address `a`, where its table is there.
abbrev pub entry_of : Mm → ℕ → ℕ
entry_of s a = entry (s.tables (table_index a)) a

-- What `sbrk` relies on: the tables of the range from `lo` to `hi - 1` are there, frame 0 is taken
-- (its number would mark an entry as empty) and a frame number fits the 20 bits of an entry.
pub record IsReady (lo hi : ℕ) (s : Mm) : Type 0 where
  pub present : (a : ℕ) → lo ≤ a → a < hi → s.tables (table_index a) ≢ null
  pub zero_taken : is_taken s.frames 0 ≡ true
  pub few : s.frames.nframes ≤ 2 ^ 20
  pub unshared : IsUnshared s

-- `s'` is `s` with every page from `lo` to `hi - 1` mapped, with the entries that had a frame as
-- they were, and with no frame taken but those that were taken and those of the mapped pages.
pub record IsGrown (lo hi : ℕ) (s s' : Mm) : Type 0 where
  pub same_end : s'.heap_end ≡ s.heap_end
  pub same_tables : (k : ℕ) → s'.tables k ≡ s.tables k
  pub kept : (e : ℕ) → (s.pages e).frame ≢ 0 → s'.pages e ≡ s.pages e
  pub mapped : (a : ℕ) → lo ≤ a → a < hi → (s'.pages (entry_of s a)).frame ≢ 0
  pub used :
      (g : ℕ)
      → is_taken s'.frames g ≡ true
      → (is_taken s.frames g ≡ true)
        ⊎ ((a : ℕ) × (lo ≤ a) × (a < hi) × ((s'.pages (entry_of s a)).frame ≡ g))
  pub same_count : s'.frames.nframes ≡ s.frames.nframes
  pub zero_taken : is_taken s'.frames 0 ≡ true
  pub few : s'.frames.nframes ≤ 2 ^ 20
  pub unshared : IsUnshared s'

-- The pages from `lo` to `mid - 1`, but not up to `hi - 1`, could be mapped: after that each frame of
-- the whole words of the bitmap is taken.
abbrev pub IsExhausted : ℕ → ℕ → Mm → Type 0
IsExhausted lo hi s =
    (mid : ℕ) × (s' : Mm) × (lo ≤ mid)
    × (mid < hi)
    × IsGrown lo mid s s'
    × ((g : ℕ) → g < s.frames.nframes / 32 * 32 → is_taken s'.frames g ≡ true)

abbrev Grows : ℕ → ℕ → Mm → Outcome Mm → Type 0
Grows lo hi s r =
    ((s' : Mm) × (r ≡ ok s') × IsGrown lo hi s s') ⊎ ((r ≡ halted) × IsExhausted lo hi s)

IsGrown-none : {lo mid hi : ℕ} {s : Mm} → mid ≤ lo → IsReady lo hi s → IsGrown lo mid s s
IsGrown-none le ready = record {
  same_end = refl;
  same_tables = λ k. refl;
  kept = λ x ne. refl;
  mapped = λ a lo up. absurd (omega arith);
  used = λ g taken. inl taken;
  same_count = refl;
  zero_taken = ready.zero_taken;
  few = ready.few;
  unshared = ready.unshared;
}

sbrk_page-alloc_frame :
    (i : ℕ) (s : Mm)
    → s.tables (table_index i) ≢ null
    → sbrk_page i s ≡ alloc_frame (entry_of s i) false false s
unfolding sbrk_page get_page
sbrk_page-alloc_frame i s ne = ground arith

entry_of-page :
    (s : Mm) (i a : ℕ) → i % 0x1000 ≡ 0 → i ≤ a → a < i + 0x1000 → entry_of s a ≡ entry_of s i
entry_of-page s i a e lo hi = let page : a / 0x1000 ≡ i / 0x1000 = omega arith in rw page refl

module _ (i hi : ℕ) (s : Mm) (ready : IsReady i hi s) (aligned : i % 0x1000 ≡ 0)
    (room : i < hi) where
  -- One round maps its page, or the kernel is out of frames.
  sbrk_page-Grows : Grows i (i + 0x1000) s (sbrk_page i s)
  sbrk_page-Grows =
      let e = entry_of s i in
      let run = sbrk_page-alloc_frame i s (ready.present i (omega arith) room) in
      elim (Bool-cases ((s.pages e).frame == 0)) [
        | inr used ↦ inl (
          s,
          run ∙ alloc_frame-same e false false s ready.few (==→ne _ _ used),
          record {
            same_end = refl;
            same_tables = λ k. refl;
            kept = λ x ne. refl;
            mapped = λ a lo up. rw (entry_of-page s i a aligned lo up) (==→ne _ _ used);
            used = λ g taken. inl taken;
            same_count = refl;
            zero_taken = ready.zero_taken;
            few = ready.few;
            unshared = ready.unshared;
          },
        )
        | inl empty ↦ elim (alloc_frame-IsAllocated e false false s ready.few (==→eq _ _ empty)) [
          | inr (stop, full) ↦
              inr (
                run ∙ stop,
                (i, s, omega arith, omega arith, IsGrown-none (omega arith) ready, full),
              )
          | inl (f, s', got, lt, new) ↦ inl (
            s',
            run ∙ got,
            record {
              same_end = new.same_end;
              same_tables = new.same_tables;
              kept = λ x ne.
                  new.others x (λ same. ne (ap (λ k. (s.pages k).frame) same ∙ ==→eq _ _ empty));
              mapped = λ a lo up.
                  rw (entry_of-page s i a aligned lo up)
                    (ground (arith, new.self, new.free, ready.zero_taken));
              used = λ g taken. elim (Bool-cases (g == f)) [
                | inl same ↦
                    inr (i, omega arith, omega arith, ground (arith, new.self, ==→eq g f same))
                | inr other ↦ inl (ground (arith, new.bitmap g, taken, other))
              ];
              same_count = new.same_count;
              zero_taken = ground (arith, new.bitmap 0, ready.zero_taken);
              few = ground (arith, new.same_count, ready.few);
              unshared = IsAllocated-IsUnshared new ready.unshared;
            },
          )
        ]
      ]

-- What is grown from `lo` to `mid` is ready from there on, and growing goes on from there.
IsGrown-IsReady :
    {lo mid hi : ℕ} {s t : Mm} → lo ≤ mid → IsReady lo hi s → IsGrown lo mid s t → IsReady mid hi t
IsGrown-IsReady le ready g = record {
  present = λ a x y. ground (arith, g.same_tables (table_index a), ready.present a);
  zero_taken = g.zero_taken;
  few = g.few;
  unshared = g.unshared;
}

IsGrown-trans :
    {lo mid hi : ℕ} {s t u : Mm}
    → lo ≤ mid
    → mid ≤ hi
    → IsGrown lo mid s t
    → IsGrown mid hi t u
    → IsGrown lo hi s u
IsGrown-trans {lo} {mid} {hi} {s} {t} {u} le le' g h = record {
  same_end = h.same_end ∙ g.same_end;
  same_tables = λ k. h.same_tables k ∙ g.same_tables k;
  kept = λ e ne. ground (arith, g.kept e, h.kept e);
  mapped = λ a x y.
      let there : entry_of t a ≡ entry_of s a =
        ap (λ k. entry k a) (g.same_tables (table_index a)) in
      ground (arith, g.mapped a, h.mapped a, h.kept (entry_of s a), there);
  used = λ k taken. elim (h.used k taken) [
    | inr (a, x, y, at) ↦
        let there : entry_of t a ≡ entry_of s a =
          ap (λ j. entry j a) (g.same_tables (table_index a)) in
        inr (a, omega arith, y, ground (arith, there, at))
    | inl before ↦ elim (g.used k before) [
      | inl first ↦ inl first
      | inr (a, x, y, at) ↦
          inr (a, x, omega arith, ap (λ p. p.frame) (h.kept (entry_of s a) (g.mapped a x y)) ∙ at)
    ]
  ];
  same_count = h.same_count ∙ g.same_count;
  zero_taken = h.zero_taken;
  few = h.few;
  unshared = h.unshared;
}

-- With a round for each page and one for the last test the loop comes to its end.
sbrk_loop-Grows :
    (fuel i hi : ℕ) (s : Mm)
    → IsReady i hi s
    → i % 0x1000 ≡ 0
    → hi % 0x1000 ≡ 0
    → i ≤ hi
    → hi < 2 ^ 32
    → hi - i < fuel * 0x1000
    → Grows i hi s (sbrk_loop fuel i hi s)
unfolding sbrk_loop
sbrk_loop-Grows zero i hi s ready ai ah le top enough = absurd (omega arith)
sbrk_loop-Grows (suc fuel) i hi s ready ai ah le top enough = elim (Bool-cases (ltb i hi)) [
  | inr done ↦ rw done (inl (s, refl, IsGrown-none (ltb→le i hi done) ready))
  | inl more ↦
      let next : u32 (i + 0x1000) ≡ i + 0x1000 = omega (arith, ltb→lt i hi more) in
      rw more (elim (sbrk_page-Grows i hi s ready ai (ltb→lt i hi more)) [
        | inr (stop, (mid, t, le, lt, g, full)) ↦
            inr (rw stop refl, (mid, t, le, omega (arith, ltb→lt i hi more), g, full))
        | inl (t, run, g) ↦
            rw (run, next)
              (elim (sbrk_loop-Grows fuel (i + 0x1000) hi t (IsGrown-IsReady (omega arith) ready g)
                (omega arith) ah (omega (arith, ltb→lt i hi more)) top
                (omega (arith, ltb→lt i hi more))) [
                  | inr (stop, (mid, u, from, lt, h, full)) ↦ inr (
                    stop,
                    (
                      mid,
                      u,
                      omega arith,
                      lt,
                      IsGrown-trans (omega arith) from g h,
                      λ k less. full k (rw g.same_count less),
                    ),
                  )
                  | inl (u, rest, h) ↦
                      inl
                        (u, rest, IsGrown-trans (omega arith) (omega (arith, ltb→lt i hi more)) g h)
                ])
      ])
]

-- On a page aligned heap whose tables are there, with frame 0 taken, at most 2 ^ 20 frames, none of them
-- shared, and the new end below 2 ^ 32, `sbrk` of whole pages comes to an end. It returns the old end of
-- the heap, and the new range is mapped, or it halts, and then so many of the pages of the range were
-- mapped before that each frame of the whole words of the bitmap is taken. Entries that had a frame keep
-- it, no frame is shared, and no frame is taken but by the mapped pages.
pub sbrk-IsGrown :
    (increment : ℕ) (s : Mm)
    → increment % 0x1000 ≡ 0
    → s.heap_end % 0x1000 ≡ 0
    → s.heap_end + increment < 2 ^ 32
    → IsReady s.heap_end (s.heap_end + increment) s
    → ((s' : Mm) × (sbrk increment s ≡ ok (s.heap_end, s'))
        × (s'.heap_end ≡ s.heap_end + increment)
        × IsGrown s.heap_end
            (s.heap_end + increment)
            (record s { heap_end = s.heap_end + increment })
            s')
      ⊎ ((sbrk increment s ≡ halted)
          × IsExhausted s.heap_end
              (s.heap_end + increment)
              (record s { heap_end = s.heap_end + increment }))
unfolding sbrk
sbrk-IsGrown increment s pages aligned top ready =
    let end = s.heap_end + increment in
    let whole : u32 end ≡ end = omega arith in
    let ok_size : (increment % 0x1000 == 0) ≡ true = ground arith in
    let s0 : Mm = record s { heap_end = end } in
    rw (ok_size, whole)
      (elim (sbrk_loop-Grows (increment / 0x1000 + 1) s.heap_end end s0
        (record {
          present = ready.present;
          zero_taken = ready.zero_taken;
          few = ready.few;
          unshared = record { marked = ready.unshared.marked; distinct = ready.unshared.distinct };
        })
        aligned (omega arith) (omega arith) top (omega arith)) [
          | inr (stop, full) ↦ inr (rw stop refl, full)
          | inl (t, run, g) ↦ inl (t, rw run, g.same_end, g)
        ])

-- The assertion: an increment that is no multiple of the page size stops the kernel.
sbrk-halted : (increment : ℕ) (s : Mm) → increment % 0x1000 ≢ 0 → sbrk increment s ≡ halted
unfolding sbrk
sbrk-halted increment s ne = ground arith
