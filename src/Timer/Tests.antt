-- ===== src/Timer/Tests.antt =====
-- A second of interrupts at 100 Hz.
use mya_xos.Base.{◌≡◌, arith, ℕ, ◌+◌, ◌<◌, ◌≤◌, [], ◌∷◌, some}
use mya_xos.Timer.{after_ticks, timer_wait}
use mya_xos.Timer.Wait.{total, arrived, timer_wait-Ended}

-- Five ticks, with up to two interrupts between the tests.
timer_wait-Ended_example :
    (r : ℕ) × (timer_wait 5 (1 ∷ 0 ∷ 2 ∷ 1 ∷ 2 ∷ 1 ∷ []) (after_ticks 100)
      ≡ some (after_ticks (arrived r (1 ∷ 0 ∷ 2 ∷ 1 ∷ 2 ∷ 1 ∷ []) + 100)))
    × (5 ≤ arrived r (1 ∷ 0 ∷ 2 ∷ 1 ∷ 2 ∷ 1 ∷ []))
    × ((q : ℕ) → q < r → arrived q (1 ∷ 0 ∷ 2 ∷ 1 ∷ 2 ∷ 1 ∷ []) < 5)
unfolding total
timer_wait-Ended_example =
    timer_wait-Ended 100 5 (1 ∷ 0 ∷ 2 ∷ 1 ∷ 2 ∷ 1 ∷ []) (omega arith) (omega arith)
