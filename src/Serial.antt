-- ===== src/Serial.antt =====
-- kernel/core/serial.c on port A. The loops that wait for the device take fuel, the number of times
-- that they may ask; `none` means that the device was not ready by then.
pub mod Wait
mod Tests
use mya_xos.Base.{ℕ, zero, suc, ◌+◌, bit_and, Bool, Option, none, some, ◌==◌, if◌then◌else◌}
use mya_xos.Ports.{Ports, inportb, outportb}

abbrev pub serial_port_a : ℕ
serial_port_a = 0x3F8

pub serial_install : Ports → Ports
serial_install s =
    let s = outportb (serial_port_a + 1) 0x00 s in
    let s = outportb (serial_port_a + 3) 0x80 s in
    let s = outportb (serial_port_a + 0) 0x03 s in
    let s = outportb (serial_port_a + 1) 0x00 s in
    let s = outportb (serial_port_a + 3) 0x03 s in
    let s = outportb (serial_port_a + 2) 0xC7 s in
    let s = outportb (serial_port_a + 4) 0x0B s in outportb (serial_port_a + 1) 0x01 s

pub serial_rcvd : Ports → ℕ × Ports
serial_rcvd s = let (v, s') = inportb (serial_port_a + 5) s in (bit_and v 1, s')

pub serial_recv : (fuel : ℕ) → Ports → Option (ℕ × Ports)
serial_recv zero s = none
serial_recv (suc fuel) s =
    let next = serial_recv fuel (serial_rcvd s).1 in
    if (serial_rcvd s).0 == 0 then next else some (inportb serial_port_a (serial_rcvd s).1)

pub serial_transmit_empty : Ports → ℕ × Ports
serial_transmit_empty s = let (v, s') = inportb (serial_port_a + 5) s in (bit_and v 0x20, s')

pub serial_send : (fuel : ℕ) → (out : ℕ) → Ports → Option Ports
serial_send zero out s = none
serial_send (suc fuel) out s =
    let next = serial_send fuel out (serial_transmit_empty s).1 in
    if (serial_transmit_empty s).0 == 0
    then next
    else some (outportb serial_port_a out (serial_transmit_empty s).1)

-- The character that `serial_handler` hands on: delete is a backspace and a carriage return is a
-- new line.
pub serial_fix : ℕ → ℕ
serial_fix c = if c == 127 then 0x08 else if c == 13 then 10 else c
