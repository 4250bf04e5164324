-- ===== src/Loopback/Tests.antt =====
-- A transfer that is sent back.
use greybus_zephyr.Base.{[], ◌∷◌, arith}
use greybus_zephyr.Samples.{message, message-IsMessage}
use greybus_zephyr.Transport.Laws.{Answers}
use greybus_zephyr.Loopback.{gb_loopback_handler, gb_loopback_handler-Answers}

gb_loopback_handler-Answers_example :
    Answers
      (message 0x03 (1 ∷ 2 ∷ []))
      5
      0
      (1 ∷ 2 ∷ [])
      (gb_loopback_handler (message 0x03 (1 ∷ 2 ∷ [])) 5)
gb_loopback_handler-Answers_example =
    gb_loopback_handler-Answers (message 0x03 (1 ∷ 2 ∷ [])) 5
      (message-IsMessage 0x03 (1 ∷ 2 ∷ []) (omega arith))
