-- ===== src/Timer/Wait.antt =====
-- kernel/core/timer.c: `timer_wait` under the interrupts that come while it waits.
use mya_xos.Base.{
  ℕ, zero, suc, ◌+◌, ◌^◌, ◌<◌, ◌≤◌, ◌≡◌, refl, ◌∙◌, ap, List, [], ◌∷◌, Option, some, ltb, ltb→lt,
  u32, arith, Bool-cases, inl, inr,
}
use mya_xos.Timer.{
  Timer, timer_handler, after_ticks, signed_less, ticked, wait_until, timer_wait,
  timer_handler-after_ticks,
}

-- The interrupts of the first `r` entries.
unfoldable pub arrived : (r : ℕ) → List ℕ → ℕ
arrived zero ns = 0
arrived (suc r) [] = 0
arrived (suc r) (n ∷ ns) = n + arrived r ns

unfoldable pub total : List ℕ → ℕ
total [] = 0
total (n ∷ ns) = n + total ns

ticked-after_ticks : (k n : ℕ) → ticked k (after_ticks n) ≡ after_ticks (k + n)
unfolding ticked
ticked-after_ticks zero n = ap after_ticks (omega arith)
ticked-after_ticks (suc k) n =
    let e : suc (k + n) ≡ suc k + n = omega arith in
    ap timer_handler (ticked-after_ticks k n) ∙ ap after_ticks e

ticks_lem : (n : ℕ) → n < 2 ^ 31 → (after_ticks n).timer_ticks ≡ n
ticks_lem n small = ap (λ s. s.timer_ticks) (timer_handler-after_ticks n small)

signed_less_small : (a b : ℕ) → a < 2 ^ 31 → b < 2 ^ 31 → signed_less a b ≡ ltb a b
unfolding signed_less
signed_less_small a b sa sb = ground arith

-- The number of tests of the loop that fail, and the state that it ends in.
abbrev Ended : (target n : ℕ) (ns : List ℕ) → Option Timer → Type 0
Ended target n ns result =
    (r : ℕ) × (result ≡ some (after_ticks (arrived r ns + n)))
    × (target ≤ arrived r ns + n)
    × ((q : ℕ) → q < r → arrived q ns + n < target)

Ended-now :
    (target n : ℕ) (ns : List ℕ) (result : Option Timer)
    → result ≡ some (after_ticks n)
    → target ≤ n
    → Ended target n ns result
unfolding arrived
Ended-now target n ns result e h =
    (0, e ∙ ap (λ k. some (after_ticks k)) (omega arith), omega arith, λ q l. omega arith)

Ended-later :
    (target n k : ℕ) (ns : List ℕ) (result : Option Timer)
    → n < target
    → Ended target (k + n) ns result
    → Ended target n (k ∷ ns) result
unfolding arrived
Ended-later target n k ns result h (r, e, reached, least) = (
  suc r,
  e ∙ ap (λ j. some (after_ticks j)) (omega arith),
  omega arith,
  elim [ zero ↦ λ l. omega arith | suc q ↦ λ l. let before = least q (omega arith) in omega arith ],
)

wait_until-Ended :
    (target n : ℕ) (ns : List ℕ)
    → target < 2 ^ 31
    → total ns + n < 2 ^ 31
    → target ≤ total ns + n
    → Ended target n ns (wait_until target ns (after_ticks n))
unfolding wait_until total
wait_until-Ended target n [] st sn enough =
    rw (ticks_lem n (omega arith), signed_less_small n target (omega arith) st)
      (Ended-now target n [] _ (ground arith) (omega arith))
wait_until-Ended target n (k ∷ ns) st sn enough =
    rw
      (
        ticks_lem n (omega arith),
        signed_less_small n target (omega arith) st,
        ticked-after_ticks k n,
      )
      (elim (Bool-cases (ltb n target)) [
        | inl h ↦ rw h (
            Ended-later target n k ns _ (ltb→lt n target h)
              (wait_until-Ended target (k + n) ns st (omega arith) (omega arith)))
        | inr h ↦ rw h (Ended-now target n (k ∷ ns) _ refl (ground (arith, h)))
      ])

-- Where `n` ticks are counted, the interrupts that come between the tests of the loop are at least
-- `ticks`, and the count stays below 2 ^ 31 with them, `timer_wait` ends: at the first test at which `ticks`
-- of them have come, having handled those that came until then.
pub timer_wait-Ended :
    (n ticks : ℕ) (ns : List ℕ)
    → total ns + n < 2 ^ 31
    → ticks ≤ total ns
    → (r : ℕ) × (timer_wait ticks ns (after_ticks n) ≡ some (after_ticks (arrived r ns + n)))
      × (ticks ≤ arrived r ns)
      × ((q : ℕ) → q < r → arrived q ns < ticks)
unfolding timer_wait
timer_wait-Ended n ticks ns small enough =
    let e : u32 ((after_ticks n).timer_ticks + ticks) ≡ n + ticks =
      rw (ticks_lem n (omega arith)) (ground arith) in
    rw e (
      let (r, ends, reached, least) =
        wait_until-Ended (n + ticks) n ns (omega arith) (omega arith) (omega arith) in
      (r, ends, omega arith, λ q l. let before = least q l in omega arith))
