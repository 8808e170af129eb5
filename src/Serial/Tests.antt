-- ===== src/Serial/Tests.antt =====
-- A line that is ready at the second question.
use mya_xos.Base.{◌+◌, ◌≡◌, [], ◌∷◌, some, u8, arith, ◌==◌, if◌then◌else◌}
use mya_xos.Ports.{Ports}
use mya_xos.Serial.{serial_send}
use mya_xos.Serial.Wait.{IsReadyAt, serial_send-written}

abbrev port : Ports
port = record { answer = λ n p. if n == 0 then 0 else 0x21; reads = 0; written = [] }

port-IsReadyAt_send : IsReadyAt 0x20 1 port
port-IsReadyAt_send = record { busy = λ j h. ground arith; ready = ground arith }

serial_send-written_example :
    serial_send 3 65 port
    ≡ some (record port { reads = port.reads + 1 + 1; written = (0x3F8, u8 65) ∷ port.written })
serial_send-written_example = serial_send-written 3 1 65 port (omega arith) port-IsReadyAt_send
