-- ===== src/Control/Tests.antt =====
-- The control protocol on a device with two cports.
use greybus_zephyr.Base.{ℕ, refl, some, [], ◌∷◌, Bytes, true, arith, pos}
use greybus_zephyr.Messages.{Message}
use greybus_zephyr.Samples.{zeroed, zeroed-HasMemory, message, message-IsMessage}
use greybus_zephyr.Transport.Laws.{Handled}
use greybus_zephyr.Core.Cports.{Cports, Backend, Driver}
use greybus_zephyr.Control.{gb_control_connected, gb_control_handler}
use greybus_zephyr.Control.Connections.{
  connected_status, connected_calls, Outcome, gb_control_connected-outcome,
}
use greybus_zephyr.Control.Answers.{gb_control_handler-Handled}

abbrev driver : Driver
driver = record { has_connected = true; has_disconnected = true; has_op_handler = true }

abbrev cports : Cports
cports = some driver ∷ some driver ∷ []

abbrev backend : Backend
backend = record { on_listen = λ c. pos 0; on_stop_listening = some (λ c. pos 0) }

-- The cport 1, as a request names it.
abbrev names_one : ℕ → Message
names_one type = message type (1 ∷ 0 ∷ [])

gb_control_connected-outcome_example :
    Outcome
      (names_one 0x05)
      0
      (connected_status backend 1 (some driver))
      (connected_calls backend 1 (some driver))
      (gb_control_connected cports backend 0 (names_one 0x05))
gb_control_connected-outcome_example =
    gb_control_connected-outcome cports backend (names_one 0x05) 0 1
      (message-IsMessage 0x05 (1 ∷ 0 ∷ []) (omega arith)) (1, 0, refl, refl, refl)

abbrev manifest : Bytes
manifest = 8 ∷ 0 ∷ 0 ∷ 1 ∷ []

gb_control_handler-Handled_example :
    Handled
      (names_one 0x05)
      0
      (gb_control_handler zeroed manifest cports backend (names_one 0x05) 0)
gb_control_handler-Handled_example =
    gb_control_handler-Handled zeroed manifest cports backend (names_one 0x05) 0 zeroed-HasMemory
      (message-IsMessage 0x05 (1 ∷ 0 ∷ []) (omega arith)) (omega arith) (λ e. omega arith)
