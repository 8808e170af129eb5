-- ===== src/Timer.antt =====
-- kernel/core/timer.c: the rate of the timer, the count of its interrupts and the wait for a number of
-- them. `timer_ticks` is a `long` of 32 bits; it is written as the bit pattern, and the theorems stay
-- below 2 ^ 31.
pub mod Wait
mod Tests
use mya_xos.Base.{
  ℕ, zero, suc, ◌+◌, ◌/◌, ◌%◌, ◌^◌, ◌<◌, ◌≡◌, refl, bit_and, ◌==◌, ltb, Bool, List, [], ◌∷◌, Option,
  none, some, if◌then◌else◌, u32, ◌>>>◌, arith,
}
use mya_xos.Ports.{Ports, outportb}

pub record Timer : Type 0 where
  pub timer_ticks : ℕ
  pub ticker : ℕ

abbrev pub started : Timer
started = record { timer_ticks = 0; ticker = 0 }

pub timer_phase : (hz : ℕ) → Ports → Ports
timer_phase hz p =
    let divisor = 1193180 / hz in
    let p = outportb 0x43 0x36 p in
    let p = outportb 0x40 (bit_and divisor 0xFF) p in outportb 0x40 (bit_and (divisor >>> 8) 0xFF) p

pub timer_handler : Timer → Timer
timer_handler s =
    let ticks = u32 (s.timer_ticks + 1) in
    record {
      timer_ticks = ticks;
      ticker = if ticks % 18 == 0 then u32 (s.ticker + 1) else s.ticker;
    }

-- The state after `n` interrupts.
abbrev pub after_ticks : ℕ → Timer
after_ticks zero = started
after_ticks (suc n) = timer_handler (after_ticks n)

-- After `n` interrupts the kernel has counted `n` ticks, and one on `ticker` for each 18 of them.
pub timer_handler-after_ticks :
    (n : ℕ) → n < 2 ^ 31 → after_ticks n ≡ record { timer_ticks = n; ticker = n / 18 }
unfolding timer_handler
timer_handler-after_ticks zero h = refl
timer_handler-after_ticks (suc n) h =
    let before = timer_handler-after_ticks n (omega arith) in rw before (ground arith)

-- Setting the rate only writes.
pub timer_phase-answer : (hz : ℕ) (p : Ports) → (timer_phase hz p).answer ≡ p.answer
unfolding timer_phase outportb
timer_phase-answer hz p = refl

-- `<` on `long`.
unfoldable pub signed_less : ℕ → ℕ → Bool
signed_less a b = ltb (u32 (a + 2 ^ 31)) (u32 (b + 2 ^ 31))

-- `n` interrupts.
unfoldable pub ticked : (n : ℕ) → Timer → Timer
ticked zero s = s
ticked (suc n) s = timer_handler (ticked n s)

-- The loop of `timer_wait`. The entries of the list are the numbers of interrupts that come between one
-- test and the next; `none` means that the loop goes on when they have all come.
unfoldable pub wait_until : (eticks : ℕ) → List ℕ → Timer → Option Timer
wait_until eticks [] s = if signed_less s.timer_ticks eticks then none else some s
wait_until eticks (n ∷ ns) s =
    let rest = wait_until eticks ns (ticked n s) in
    if signed_less s.timer_ticks eticks then rest else some s

unfoldable pub timer_wait : (ticks : ℕ) → List ℕ → Timer → Option Timer
timer_wait ticks arrivals s = wait_until (u32 (s.timer_ticks + ticks)) arrivals s
