-- ===== src/Gpio/Guards.antt =====
-- gpio.c: requests that are refused with no call of the driver.
use greybus_zephyr.Base.{
  ℕ, ◌≤◌, ◌<◌, ◌≡◌, ◌∙◌, ◌≢◌, ◌⊎◌, inl, inr, Option, none, some, [], Bytes, arith, get_elem?,
  lt→ltb, ge→ltb, ℤ, refl,
}
use greybus_zephyr.Messages.{Message, header_size, gb_message_payload_len, gb_op_invalid}
use greybus_zephyr.Transport.{gb_transport_message_empty_response_send}
use greybus_zephyr.Gpio.{
  Operation, line_count, activate, deactivate, get_direction, direction_in, direction_out,
  get_value, set_value, set_debounce, irq_type, irq_mask, irq_unmask, operation_of, gpio_dispatch,
  GpioCall, GpioData, Reaction, gpio_guard, gb_gpio_handler, gb_gpio_activate, gb_gpio_deactivate,
  gb_gpio_get_direction, gb_gpio_direction_in, gb_gpio_direction_out, gb_gpio_get_value,
  gb_gpio_set_value, gb_gpio_set_debounce, gb_gpio_irq_type, gb_gpio_irq_mask, gb_gpio_irq_unmask,
}

-- The size of the request body of the operations on a pin, from the protocol's structures.
abbrev pub body_size : Operation → ℕ
body_size line_count = 0
body_size direction_out = 2
body_size set_value = 2
body_size irq_type = 2
body_size set_debounce = 3
body_size _ = 1

body_size-le : (op : Operation) → body_size op ≤ 3
body_size-le line_count = omega arith
body_size-le _ = omega arith

-- Below the size of a header, the payload's length wraps to a number near 2^32.
payload_len_wraps :
    (req : Message) (n : ℕ) → req.header.size < header_size → n ≤ 3 → n ≤ gb_message_payload_len req
unfolding gb_message_payload_len
payload_len_wraps req n h k = omega arith

module _ (size cport : ℕ) (req : Message) (gpio : GpioData) (act : ℕ → Reaction) where
  gpio_guard-short :
      gb_message_payload_len req < size
      → gpio_guard size cport req gpio act
        ≡ some (gb_transport_message_empty_response_send req gb_op_invalid cport)
  unfolding gpio_guard
  gpio_guard-short h = rw (lt→ltb _ _ h)

  gpio_guard-bad_pin :
      (which : ℕ)
      → get_elem? req.payload 0 ≡ some which
      → gpio.ngpios ≤ which
      → gpio_guard size cport req gpio act
        ≡ some (gb_transport_message_empty_response_send req gb_op_invalid cport)
  unfolding gpio_guard
  gpio_guard-bad_pin which e h = ground (arith, e)

  pub gpio_guard-no_payload :
      size ≤ gb_message_payload_len req
      → req.payload ≡ []
      → gpio_guard size cport req gpio act ≡ none
  unfolding gpio_guard
  gpio_guard-no_payload h e = rw (ge→ltb _ _ h, e)

module _ (alloc : ℕ → Option Bytes) (dev : GpioCall → ℤ) (gpio : GpioData) (req : Message)
    (cport : ℕ) where
  -- Every operation on a pin is the guard at the size of its request.
  pub dispatch_guard :
      (op : Operation)
      → op ≢ line_count
      → (act : ℕ → Reaction) × (gpio_dispatch alloc dev op gpio req cport
          ≡ gpio_guard (body_size op) cport req gpio act)
  unfolding gpio_dispatch gb_gpio_activate gb_gpio_deactivate gb_gpio_get_direction
      gb_gpio_direction_in gb_gpio_direction_out gb_gpio_get_value gb_gpio_set_value
      gb_gpio_set_debounce gb_gpio_irq_type gb_gpio_irq_mask gb_gpio_irq_unmask
  dispatch_guard line_count h = absurd (h refl)
  dispatch_guard activate h = (_, refl)
  dispatch_guard deactivate h = (_, refl)
  dispatch_guard get_direction h = (_, refl)
  dispatch_guard direction_in h = (_, refl)
  dispatch_guard direction_out h = (_, refl)
  dispatch_guard get_value h = (_, refl)
  dispatch_guard set_value h = (_, refl)
  dispatch_guard set_debounce h = (_, refl)
  dispatch_guard irq_type h = (_, refl)
  dispatch_guard irq_mask h = (_, refl)
  dispatch_guard irq_unmask h = (_, refl)

  handler_op :
      (op : Operation)
      → operation_of req.header.type ≡ some op
      → gb_gpio_handler alloc dev gpio req cport ≡ gpio_dispatch alloc dev op gpio req cport
  unfolding gb_gpio_handler
  handler_op op e = rw (e, gb_gpio_handler)

  -- Any request on a pin that is shorter than its operation's structure, or that names a pin
  -- that the port does not have, is answered as invalid, and no driver call is made.
  pub gb_gpio_handler-refuses :
      (op : Operation) (which : ℕ)
      → operation_of req.header.type ≡ some op
      → op ≢ line_count
      → (gb_message_payload_len req < body_size op)
        ⊎ ((get_elem? req.payload 0 ≡ some which) × (gpio.ngpios ≤ which))
      → gb_gpio_handler alloc dev gpio req cport
        ≡ some (gb_transport_message_empty_response_send req gb_op_invalid cport)
  gb_gpio_handler-refuses op which e pin bad =
      let (act, guarded) = dispatch_guard op pin in
      handler_op op e ∙ guarded ∙ elim bad [
        | inl short ↦ gpio_guard-short (body_size op) cport req gpio act short
        | inr (found, high) ↦ gpio_guard-bad_pin (body_size op) cport req gpio act which found high
      ]

  -- A request on a pin whose size field is below that of the header, with no payload, passes
  -- the test for short messages and is read past its end.
  gb_gpio_handler-undersized :
      (op : Operation)
      → operation_of req.header.type ≡ some op
      → op ≢ line_count
      → req.header.size < header_size
      → req.payload ≡ []
      → gb_gpio_handler alloc dev gpio req cport ≡ none
  gb_gpio_handler-undersized op e pin small empty =
      let (act, guarded) = dispatch_guard op pin in
      handler_op op e
      ∙ guarded
      ∙ gpio_guard-no_payload (body_size op) cport req gpio act
          (payload_len_wraps req (body_size op) small (body_size-le op)) empty
