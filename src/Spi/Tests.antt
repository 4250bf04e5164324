-- ===== src/Spi/Tests.antt =====
-- A shift register of one byte behind the bus: what is written to it comes back with the next exchange or read.
use greybus_zephyr.Base.{
  ℕ, refl, [], ◌∷◌, List, Bytes, arith, replicate, length, length-replicate, ℤ, pos, negsuc,
}
use greybus_zephyr.Messages.{Message}
use greybus_zephyr.Samples.{zeroed, zeroed-HasMemory, message}
use greybus_zephyr.Spi.{
  SpiCall, spi_read, spi_write, spi_transceive, k_sleep, gb_spi_protocol_transfer,
}
use greybus_zephyr.Spi.Requests.{Step, Settings, read, write, exchange, request_bytes}
use greybus_zephyr.Spi.Loop.{Fills, perform}
use greybus_zephyr.Spi.Transfer.{Finished, initial, gb_spi_protocol_transfer-perform}

abbrev register : ℕ → SpiCall → (ℤ × Bytes) × ℕ
register s (spi_read conf n) = ((pos 0, replicate n s), s)
register s (spi_write conf []) = ((negsuc 4, []), s)
register s (spi_write conf (b ∷ bs)) = ((pos 0, []), b)
register s (spi_transceive conf bytes) = ((pos 0, replicate (length bytes) s), length bytes)
register s (k_sleep n) = ((pos 0, []), s)

register-Fills : Fills register
register-Fills = record {
  fills = λ s conf n good. length-replicate n s;
  exchanges = λ s conf bytes good. length-replicate (length bytes) s;
}

abbrev slow : Settings
slow = record { speed_hz = 1000000; delay_usecs = 10; bits_per_word = 8 }

abbrev steps : List Step
steps = write slow (9 ∷ []) ∷ exchange slow (1 ∷ 2 ∷ 3 ∷ []) ∷ read slow 2 ∷ []

abbrev request : Message
request = message 0x04 (request_bytes 1 3 steps)

gb_spi_protocol_transfer-perform_example :
    Finished request 3
      (gb_spi_protocol_transfer register zeroed 3 request 0)
      (perform register 0 (initial 1 3) [] steps)
gb_spi_protocol_transfer-perform_example =
    gb_spi_protocol_transfer-perform register zeroed zeroed-HasMemory register-Fills steps
      (
        record { speed_lt = omega arith; size_lt = omega arith; delay_lt = omega arith },
        (
          record { speed_lt = omega arith; size_lt = omega arith; delay_lt = omega arith },
          (record { speed_lt = omega arith; size_lt = omega arith; delay_lt = omega arith }, tt),
        ),
      )
      (omega arith) (omega arith) 1 3 refl request refl refl 3 0
