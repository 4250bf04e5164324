-- ===== src/Core/Tests.antt =====
-- The receive queue at concrete inputs.
use greybus_zephyr.Base.{ℕ, ◌*◌, ◌≤◌, ◌≡◌, refl, some, [], ◌∷◌, ◌++◌, true, false, length}
use greybus_zephyr.Messages.{Message}
use greybus_zephyr.Samples.{message}
use greybus_zephyr.Transport.{Effects}
use greybus_zephyr.Core.Cports.{Cports, CoreCall, Queue, greybus_rx_handler, gb_process_msg}
use greybus_zephyr.Core.Worker.{Rx, empty_rx, Step, receive, Reach, start, next, Reach-served}

-- One cport, whose driver has only a handler.
abbrev cports : Cports
cports =
    some (record { has_connected = false; has_disconnected = false; has_op_handler = true }) ∷ []

abbrev one_waiting : Rx
one_waiting = record {
  queue = (0, message 2 []) ∷ [];
  received = (0, message 2 []) ∷ [];
  processed = [];
}

one_waiting-Reach : Reach cports one_waiting
unfolding greybus_rx_handler
one_waiting-Reach = next start (receive empty_rx 0 (message 2 []) ((0, message 2 []) ∷ []) refl)

Reach-served_example :
    (length one_waiting.queue ≤ length cports * 2)
    × (one_waiting.received ≡ one_waiting.processed ++ one_waiting.queue)
    × ((cport : ℕ) (msg : Message) (q : Queue)
        → one_waiting.queue ≡ (cport, msg) ∷ q
        → (es : Effects CoreCall) × (gb_process_msg cports msg cport ≡ some es)
          × Step cports one_waiting (record one_waiting {
            queue = q;
            processed = one_waiting.processed ++ (cport, msg) ∷ [];
          }))
Reach-served_example = Reach-served cports one_waiting one_waiting-Reach
