-- ===== src/I2c/Tests.antt =====
-- A sensor with one register behind the bus: a write sets it, a read brings it again and again.
use greybus_zephyr.Base.{
  ℕ, ◌≡◌, refl, some, [], ◌∷◌, List, Bytes, arith, replicate, length-replicate, ℤ, pos, negsuc,
}
use greybus_zephyr.Messages.{Message}
use greybus_zephyr.Samples.{zeroed, zeroed-HasMemory, message}
use greybus_zephyr.Transport.{Effects}
use greybus_zephyr.Transport.Laws.{calls}
use greybus_zephyr.I2c.{BusCall, i2c_read, i2c_write, gb_i2c_protocol_transfer}
use greybus_zephyr.I2c.Requests.{Step, read, write, request_bytes}
use greybus_zephyr.I2c.Replies.{Ends}
use greybus_zephyr.I2c.Transfer.{Fills, perform, gb_i2c_protocol_transfer-perform}

abbrev sensor : ℕ → BusCall → (ℤ × Bytes) × ℕ
sensor s (i2c_read n addr) = ((pos 0, replicate n s), s)
sensor s (i2c_write [] addr) = ((negsuc 4, []), s)
sensor s (i2c_write (b ∷ bs) addr) = ((pos 0, []), b)

sensor-Fills : Fills sensor
sensor-Fills = record { fills = λ s n addr good. length-replicate n s }

abbrev steps : List Step
steps = write (9 ∷ []) 0x40 ∷ read 2 0x40 ∷ []

abbrev request : Message
request = message 0x05 (request_bytes steps)

gb_i2c_protocol_transfer-perform_example :
    (es : Effects BusCall) × (gb_i2c_protocol_transfer sensor zeroed 3 request 0 ≡ some es)
    × (calls es ≡ (perform sensor 0 [] steps).0)
    × Ends request 3 es (perform sensor 0 [] steps).1
gb_i2c_protocol_transfer-perform_example =
    gb_i2c_protocol_transfer-perform sensor zeroed zeroed-HasMemory sensor-Fills steps
      (omega arith, omega arith, (omega arith, omega arith, tt)) (omega arith) (omega arith) request
      refl 3 0
