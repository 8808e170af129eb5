-- ===== src/Serial/Wait.antt =====
-- `serial_send` and `serial_recv` wait for the device and then move one byte.
use mya_xos.Base.{
  refl, ℕ, zero, suc, ◌+◌, ◌<◌, ◌≡◌, ◌≢◌, bit_and, some, ◌∷◌, arith, u8, ap, ◌∙◌, ne→==,
}
use native.Mathlib.Nat.{add-zero}
use mya_xos.Ports.{Ports, inportb, outportb}
use mya_xos.Serial.{serial_install, serial_send, serial_recv, serial_transmit_empty, serial_rcvd}

-- The line status that the `n`-th read of all would find, under a mask.
abbrev pub status : ℕ → Ports → ℕ → ℕ
status mask s n = bit_and (u8 (s.answer n 0x3FD)) mask

-- From the state `s` on the device is first ready at the `k`-th question.
pub record IsReadyAt (mask k : ℕ) (s : Ports) : Type 0 where
  pub busy : (j : ℕ) → j < k → status mask s (s.reads + j) ≡ 0
  pub ready : status mask s (s.reads + k) ≢ 0

abbrev asked : Ports → Ports
asked s = record s { reads = s.reads + 1 }

IsReadyAt-now : (mask : ℕ) (s : Ports) → IsReadyAt mask 0 s → status mask s s.reads ≢ 0
IsReadyAt-now mask s r = rw (add-zero s.reads) at r.ready

IsReadyAt-later :
    (mask k : ℕ) (s : Ports)
    → IsReadyAt mask (suc k) s
    → (status mask s s.reads ≡ 0) × IsReadyAt mask k (asked s)
IsReadyAt-later mask k s r = (
  rw (add-zero s.reads) at (r.busy 0 (omega arith)),
  record {
    busy = λ j h.
        let e : s.reads + 1 + j ≡ s.reads + suc j = omega arith in
        rw e (r.busy (suc j) (omega arith));
    ready = let e : s.reads + 1 + k ≡ s.reads + suc k = omega arith in rw e r.ready;
  },
)

-- Where the transmitter is first ready at the `k`-th question, and the fuel reaches so far,
-- `serial_send` writes the byte to the data port, once, and nothing else.
pub serial_send-written :
    (fuel k out : ℕ) (s : Ports)
    → k < fuel
    → IsReadyAt 0x20 k s
    → serial_send fuel out s
      ≡ some (record s { reads = s.reads + k + 1; written = (0x3F8, u8 out) ∷ s.written })
unfolding serial_send serial_transmit_empty inportb outportb
serial_send-written zero k out s h r = absurd (omega arith)
serial_send-written (suc fuel) zero out s h r =
    rw (ne→== _ _ (IsReadyAt-now 0x20 s r), add-zero s.reads)
serial_send-written (suc fuel) (suc k) out s h r =
    let (busy, rest) = IsReadyAt-later 0x20 k s r in
    let e : s.reads + 1 + k + 1 ≡ s.reads + suc k + 1 = omega arith in
    rw busy (
      serial_send-written fuel k out (asked s) (omega arith) rest
      ∙ ap (λ n. some (record s { reads = n; written = (0x3F8, u8 out) ∷ s.written })) e)

-- Where a byte is first there at the `k`-th question, and the fuel reaches so far, `serial_recv`
-- returns what the next read of the data port finds, and writes nothing.
pub serial_recv-answer :
    (fuel k : ℕ) (s : Ports)
    → k < fuel
    → IsReadyAt 1 k s
    → serial_recv fuel s
      ≡ some (u8 (s.answer (s.reads + k + 1) 0x3F8), record s { reads = s.reads + k + 2 })
unfolding serial_recv serial_rcvd inportb
serial_recv-answer zero k s h r = absurd (omega arith)
serial_recv-answer (suc fuel) zero s h r =
    let e : s.reads + 1 + 1 ≡ s.reads + 2 = omega arith in
    rw (ne→== _ _ (IsReadyAt-now 1 s r), add-zero s.reads, e)
serial_recv-answer (suc fuel) (suc k) s h r =
    let (busy, rest) = IsReadyAt-later 1 k s r in
    let e : s.reads + 1 + k ≡ s.reads + suc k = omega arith in
    rw busy (
      serial_recv-answer fuel k (asked s) (omega arith) rest
      ∙ ap (λ n. some (u8 (s.answer (n + 1) 0x3F8), record s { reads = n + 2 })) e)

-- Setting the line up only writes.
pub serial_install-answer : (p : Ports) → (serial_install p).answer ≡ p.answer
unfolding serial_install outportb
serial_install-answer p = refl
