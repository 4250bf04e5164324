-- ===== src/Gpio/Tests.antt =====
-- The GPIO protocol on a port with four pins.
use greybus_zephyr.Base.{◌≡◌, ◌≢◌, refl, map, inr, some, [], ◌∷◌, arith, ℤ, pos}
use greybus_zephyr.Messages.{Message, gb_op_invalid}
use greybus_zephyr.Samples.{zeroed, zeroed-HasMemory, message, message-IsMessage}
use greybus_zephyr.Transport.{gb_transport_message_empty_response_send}
use greybus_zephyr.Gpio.{
  GpioCall, GpioData, line_count, set_value, operation_of, gb_gpio_handler, gpio_callback_handler,
}
use greybus_zephyr.Gpio.Guards.{gb_gpio_handler-refuses}
use greybus_zephyr.Gpio.Answers.{Answered, gb_gpio_handler-Answered}
use greybus_zephyr.Gpio.Events.{event_of, set_pins, gpio_callback_handler-events}

abbrev port : GpioData
port = record { cport = 3; ngpios = 4 }

abbrev dev : GpioCall → ℤ
dev call = pos 0

-- Set the pin 2, and the pin 9 that is not there.
abbrev set_two : Message
set_two = message 0x09 (2 ∷ 1 ∷ [])

abbrev set_nine : Message
set_nine = message 0x09 (9 ∷ 1 ∷ [])

is_set_value : operation_of 0x09 ≡ some set_value
unfolding operation_of
is_set_value = refl

not_line_count : set_value ≢ line_count
not_line_count e = cc e

gb_gpio_handler-Answered_example :
    Answered port set_two 3 (gb_gpio_handler zeroed dev port set_two 3)
gb_gpio_handler-Answered_example =
    gb_gpio_handler-Answered zeroed zeroed-HasMemory port set_two 3 dev
      (message-IsMessage 0x09 (2 ∷ 1 ∷ []) (omega arith))

gb_gpio_handler-refuses_example :
    gb_gpio_handler zeroed dev port set_nine 3
    ≡ some (gb_transport_message_empty_response_send set_nine gb_op_invalid 3)
gb_gpio_handler-refuses_example =
    gb_gpio_handler-refuses zeroed dev port set_nine 3 set_value 9 is_set_value not_line_count
      (inr (refl, omega arith))

gpio_callback_handler-events_example :
    gpio_callback_handler port 5 ≡ map (event_of port.cport) (set_pins 32 0 5)
gpio_callback_handler-events_example = gpio_callback_handler-events port 5

-- The pins 0 and 2.
five_pins : set_pins 32 0 5 ≡ 0 ∷ 2 ∷ []
unfolding set_pins
five_pins = refl
