-- ===== src/Gpio.antt =====
-- subsys/greybus/gpio.c: the GPIO protocol over a Zephyr GPIO port.
-- The port's driver is Zephyr's: the parameter `dev` is the result of each driver call. A handler makes
-- no call twice, so one function stands for every behaviour of a driver.
-- `none` is undefined behaviour: a read past the payload, or the reply's copy to NULL.
pub mod Answers
pub mod Events
pub mod Guards
mod Tests
use greybus_zephyr.Base.{
  ℕ, zero, suc, ◌+◌, ◌-◌, ◌/◌, ◌%◌, ◌<◌, Bool, true, false, Option, none, some, List, [], ◌∷◌, ◌++◌,
  Bytes, word16, ltb, leb, ◌==◌, if◌then◌else◌, get_elem?, ℤ, pos, negsuc, ◌>>=◌,
}
use greybus_zephyr.Core.{gb_errno_to_op_result}
use greybus_zephyr.Messages.{
  Message, gb_message_type, gb_message_payload_len, gb_op_success, gb_op_invalid,
}
use greybus_zephyr.Transport.{
  Effect, send, device, Effects, gb_transport_message_empty_response_send,
  gb_transport_message_response_success_send,
}

-- `gpio_flags_t` values given to `gpio_pin_configure`; `debounce` is that of the set_debounce handler.
pub data PinFlags : Type 0 where
  input output debounce : PinFlags

-- The flags given to `gpio_pin_interrupt_configure`; `enable` is the pair of the unmask handler.
pub data InterruptFlags : Type 0 where
  disable edge_rising edge_falling edge_both level_high level_low enable : InterruptFlags

pub data GpioCall : Type 0 where
  is_input : ℕ → GpioCall
  configure : ℕ → PinFlags → GpioCall
  get : ℕ → GpioCall
  set : ℕ → ℕ → GpioCall
  interrupt : ℕ → InterruptFlags → GpioCall
  add_callback remove_callback : GpioCall

-- `struct gb_gpio_driver_data`
pub record GpioData : Type 0 where
  pub cport : ℕ
  pub ngpios : ℕ

-- A conversion of an `int` to uint8_t.
abbrev pub to_u8 : ℤ → ℕ
to_u8 (pos n) = n % 256
to_u8 (negsuc n) = 255 - n % 256

abbrev pub type_line_count : ℕ
type_line_count = 0x02

abbrev pub type_activate : ℕ
type_activate = 0x03

abbrev pub type_deactivate : ℕ
type_deactivate = 0x04

abbrev pub type_get_direction : ℕ
type_get_direction = 0x05

abbrev pub type_direction_in : ℕ
type_direction_in = 0x06

abbrev pub type_direction_out : ℕ
type_direction_out = 0x07

abbrev pub type_get_value : ℕ
type_get_value = 0x08

abbrev pub type_set_value : ℕ
type_set_value = 0x09

abbrev pub type_set_debounce : ℕ
type_set_debounce = 0x0a

abbrev pub type_irq_type : ℕ
type_irq_type = 0x0b

abbrev pub type_irq_mask : ℕ
type_irq_mask = 0x0c

abbrev pub type_irq_unmask : ℕ
type_irq_unmask = 0x0d

abbrev pub type_irq_event : ℕ
type_irq_event = 0x0e

-- The request types of the switch in `gb_gpio_handler`.
pub data Operation : Type 0 where
  line_count activate deactivate get_direction direction_in direction_out : Operation
  get_value set_value set_debounce irq_type irq_mask irq_unmask : Operation

unfoldable pub operation_of : ℕ → Option Operation
operation_of type =
    if type == type_line_count
    then some line_count
    else if type == type_activate
    then some activate
    else if type == type_deactivate
    then some deactivate
    else if type == type_get_direction
    then some get_direction
    else if type == type_direction_in
    then some direction_in
    else if type == type_direction_out
    then some direction_out
    else if type == type_get_value
    then some get_value
    else if type == type_set_value
    then some set_value
    else if type == type_set_debounce
    then some set_debounce
    else if type == type_irq_type
    then some irq_type
    else if type == type_irq_mask
    then some irq_mask
    else if type == type_irq_unmask
    then some irq_unmask
    else none

abbrev pub Reaction : Type 0
Reaction = Option (Effects GpioCall)

-- The two tests that open each handler of a pin, on the size of its request; then the pin's index.
pub gpio_guard : ℕ → ℕ → Message → GpioData → (ℕ → Reaction) → Reaction
gpio_guard size cport req gpio act =
    if ltb (gb_message_payload_len req) size
    then some (gb_transport_message_empty_response_send req gb_op_invalid cport)
    else (do
      which ← get_elem? req.payload 0
      if leb gpio.ngpios which
          then some (gb_transport_message_empty_response_send req gb_op_invalid cport)
          else act which)

-- One driver call, whose result is the status of the reply.
abbrev reply_call : (GpioCall → ℤ) → ℕ → Message → GpioCall → Effects GpioCall
reply_call dev cport req call =
    device call
    ∷ gb_transport_message_empty_response_send req (gb_errno_to_op_result (dev call)) cport

-- The flags for the type byte of an irq_type request.
pub irq_flags : ℕ → Option InterruptFlags
irq_flags type =
    if type == 0x00
    then some disable
    else if type == 0x01
    then some edge_rising
    else if type == 0x02
    then some edge_falling
    else if type == 0x03
    then some edge_both
    else if type == 0x04
    then some level_high
    else if type == 0x08
    then some level_low
    else none

-- What direction_out does once the driver has returned: the value is set only if the pin is an output.
set_after : (GpioCall → ℤ) → ℕ → Message → ℕ → ℕ → ℤ → Effects GpioCall
set_after dev cport req which value (pos zero) = reply_call dev cport req (set which value)
set_after dev cport req which value err =
    gb_transport_message_empty_response_send req (gb_errno_to_op_result err) cport

-- What irq_type does with the flags; an unknown type is refused.
configure_interrupt : (GpioCall → ℤ) → ℕ → Message → ℕ → Option InterruptFlags → Effects GpioCall
configure_interrupt dev cport req which none =
    gb_transport_message_empty_response_send req gb_op_invalid cport
configure_interrupt dev cport req which (some flags) =
    reply_call dev cport req (interrupt which flags)

module _ (alloc : ℕ → Option Bytes) (dev : GpioCall → ℤ) where
  gb_gpio_line_count : ℕ → Message → GpioData → Reaction
  gb_gpio_line_count cport req gpio =
      gb_transport_message_response_success_send alloc req ((gpio.ngpios + 256 - 1) % 256 ∷ [])
        cport

  gb_gpio_activate : ℕ → Message → GpioData → Reaction
  gb_gpio_activate cport req gpio =
      gpio_guard 1 cport req gpio
        λ which. some (gb_transport_message_empty_response_send req gb_op_success cport)

  gb_gpio_deactivate : ℕ → Message → GpioData → Reaction
  gb_gpio_deactivate cport req gpio =
      gpio_guard 1 cport req gpio
        λ which. some (gb_transport_message_empty_response_send req gb_op_success cport)

  -- A driver call whose result, as a byte, is the reply's payload.
  reply_value : ℕ → Message → GpioCall → Reaction
  reply_value cport req call = do
    es ← gb_transport_message_response_success_send alloc req (to_u8 (dev call) ∷ []) cport
    some (device call ∷ es)

  gb_gpio_get_direction : ℕ → Message → GpioData → Reaction
  unfolding reply_value
  gb_gpio_get_direction cport req gpio =
      gpio_guard 1 cport req gpio λ which. reply_value cport req (is_input which)

  gb_gpio_direction_in : ℕ → Message → GpioData → Reaction
  gb_gpio_direction_in cport req gpio =
      gpio_guard 1 cport req gpio λ which. some (reply_call dev cport req (configure which input))

  gb_gpio_direction_out : ℕ → Message → GpioData → Reaction
  gb_gpio_direction_out cport req gpio = gpio_guard 2 cport req gpio λ which. do
    value ← get_elem? req.payload 1
    some (
        device (configure which output)
        ∷ set_after dev cport req which value (dev (configure which output)))

  gb_gpio_get_value : ℕ → Message → GpioData → Reaction
  unfolding reply_value
  gb_gpio_get_value cport req gpio =
      gpio_guard 1 cport req gpio λ which. reply_value cport req (get which)

  gb_gpio_set_value : ℕ → Message → GpioData → Reaction
  gb_gpio_set_value cport req gpio =
      gpio_guard 2 cport req gpio λ which. do
        value ← get_elem? req.payload 1
        some (reply_call dev cport req (set which value))

  gb_gpio_set_debounce : ℕ → Message → GpioData → Reaction
  gb_gpio_set_debounce cport req gpio = gpio_guard 3 cport req gpio λ which. do
    lo ← get_elem? req.payload 1
    hi ← get_elem? req.payload 2
    some (
        if ltb 0 (word16 lo hi)
        then reply_call dev cport req (configure which debounce)
        else gb_transport_message_empty_response_send req gb_op_success cport)

  gb_gpio_irq_mask : ℕ → Message → GpioData → Reaction
  gb_gpio_irq_mask cport req gpio =
      gpio_guard 1 cport req gpio λ which. some (reply_call dev cport req (interrupt which disable))

  gb_gpio_irq_unmask : ℕ → Message → GpioData → Reaction
  gb_gpio_irq_unmask cport req gpio =
      gpio_guard 1 cport req gpio λ which. some (reply_call dev cport req (interrupt which enable))

  gb_gpio_irq_type : ℕ → Message → GpioData → Reaction
  gb_gpio_irq_type cport req gpio = gpio_guard 2 cport req gpio λ which. do
    type ← get_elem? req.payload 1
    some (configure_interrupt dev cport req which (irq_flags type))

  -- The cases of the switch.
  pub gpio_dispatch : Operation → GpioData → Message → ℕ → Reaction
  gpio_dispatch line_count gpio msg cport = gb_gpio_line_count cport msg gpio
  gpio_dispatch activate gpio msg cport = gb_gpio_activate cport msg gpio
  gpio_dispatch deactivate gpio msg cport = gb_gpio_deactivate cport msg gpio
  gpio_dispatch get_direction gpio msg cport = gb_gpio_get_direction cport msg gpio
  gpio_dispatch direction_in gpio msg cport = gb_gpio_direction_in cport msg gpio
  gpio_dispatch direction_out gpio msg cport = gb_gpio_direction_out cport msg gpio
  gpio_dispatch get_value gpio msg cport = gb_gpio_get_value cport msg gpio
  gpio_dispatch set_value gpio msg cport = gb_gpio_set_value cport msg gpio
  gpio_dispatch set_debounce gpio msg cport = gb_gpio_set_debounce cport msg gpio
  gpio_dispatch irq_type gpio msg cport = gb_gpio_irq_type cport msg gpio
  gpio_dispatch irq_mask gpio msg cport = gb_gpio_irq_mask cport msg gpio
  gpio_dispatch irq_unmask gpio msg cport = gb_gpio_irq_unmask cport msg gpio

  pub gb_gpio_handler : GpioData → Message → ℕ → Reaction
  unfolding gpio_dispatch operation_of gb_message_type
  gb_gpio_handler gpio msg cport = elim (operation_of (gb_message_type msg)) [
    | none ↦ some (gb_transport_message_empty_response_send msg gb_op_invalid cport)
    | some op ↦ gpio_dispatch op gpio msg cport
  ]

-- `struct gpio_irq_event_request_msg` for one pin, zeroed elsewhere.
abbrev pub irq_event : ℕ → Message
irq_event which = record {
  header = record {
    size = 9;
    operation_id = 0;
    type = type_irq_event;
    result = 0;
    pad = 0 ∷ 0 ∷ [];
  };
  payload = which ∷ [];
}

-- The loop over the pins, with the rounds left, the index and the mask shifted so far. A failure to
-- send is only logged.
pub irq_loop : ℕ → ℕ → ℕ → ℕ → Effects GpioCall
irq_loop zero i pins cport = []
irq_loop (suc left) i pins cport =
    let rest = irq_loop left (i + 1) (pins / 2) cport in
    if pins == 0 then [] else if pins % 2 == 1 then send cport (irq_event i) ∷ rest else rest

-- `GPIO_MAX_PINS_PER_PORT`
abbrev pub gpio_max_pins_per_port : ℕ
gpio_max_pins_per_port = 32

pub gpio_callback_handler : GpioData → ℕ → Effects GpioCall
unfolding irq_loop
gpio_callback_handler gpio pins = irq_loop gpio_max_pins_per_port 0 pins gpio.cport

-- A failure to add the callback is only logged.
pub gb_gpio_connected : GpioData → ℕ → GpioData × Effects GpioCall
gb_gpio_connected gpio cport = (record gpio { cport = cport }, device add_callback ∷ [])

pub gb_gpio_disconnected : GpioData → Effects GpioCall
gb_gpio_disconnected gpio = device remove_callback ∷ []
