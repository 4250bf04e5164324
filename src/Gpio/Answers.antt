-- ===== src/Gpio/Answers.antt =====
-- gpio.c: every request is answered exactly once, and the driver is called on existing pins only.
use greybus_zephyr.Base.{
  ℕ, zero, ◌+◌, ◌≤◌, ◌<◌, ◌≡◌, refl, inl, inr, Option, none, some, List, [], ◌∷◌, Bytes, arith,
  get_elem?-lt, ltb, leb, length, ℤ, pos, word16, Bool-cases,
}
use greybus_zephyr.Core.{gb_errno_to_op_result}
use greybus_zephyr.Messages.{
  Message, header_size, gb_message_payload_len, gb_op_success, gb_op_invalid,
}
use greybus_zephyr.Messages.Laws.{IsMessage, HasMemory, gb_message_payload_len_lem}
use greybus_zephyr.Transport.{
  Effects, device, gb_transport_message_empty_response_send,
  gb_transport_message_response_success_send,
}
use greybus_zephyr.Transport.Laws.{
  calls, Answers, empty_response-Answers, Answers-device, success_send-some,
}
use greybus_zephyr.Gpio.{
  Operation, line_count, activate, deactivate, get_direction, direction_in, direction_out,
  get_value, set_value, set_debounce, irq_type, irq_mask, irq_unmask, operation_of, gpio_dispatch,
  to_u8, debounce, set_after, configure_interrupt, InterruptFlags, GpioCall, is_input, configure,
  get, set, interrupt, add_callback, remove_callback, output, GpioData, Reaction, gpio_guard,
  reply_call, reply_value, irq_flags, gb_gpio_handler, gb_gpio_line_count, gb_gpio_activate,
  gb_gpio_deactivate, gb_gpio_get_direction, gb_gpio_direction_in, gb_gpio_direction_out,
  gb_gpio_get_value, gb_gpio_set_value, gb_gpio_set_debounce, gb_gpio_irq_type, gb_gpio_irq_mask,
  gb_gpio_irq_unmask,
}

-- The pin of a driver call exists.
abbrev pub InRange : ℕ → GpioCall → Type 0
InRange n (is_input pin) = pin < n
InRange n (configure pin _) = pin < n
InRange n (get pin) = pin < n
InRange n (set pin _) = pin < n
InRange n (interrupt pin _) = pin < n
InRange n add_callback = Unit
InRange n remove_callback = Unit

abbrev pub AllInRange : ℕ → List GpioCall → Type 0
AllInRange n [] = Unit
AllInRange n (c ∷ cs) = InRange n c × AllInRange n cs

-- The handler runs to its end, answers the request once, and calls the driver on existing pins.
pub record Answered (gpio : GpioData) (req : Message) (cport : ℕ) (r : Reaction) : Type 0 where
  pub status : ℕ
  pub payload : Bytes
  pub effects : Effects GpioCall
  pub runs : r ≡ some effects
  pub answers : Answers req cport status payload effects
  pub pins : AllInRange gpio.ngpios (calls effects)

module _ (gpio : GpioData) (req : Message) (cport : ℕ) where
  empty-Answered :
      (status : ℕ)
      → Answered gpio req cport (some (gb_transport_message_empty_response_send req status cport))
  empty-Answered status = record {
    status = status;
    payload = [];
    effects = gb_transport_message_empty_response_send req status cport;
    runs = refl;
    answers = empty_response-Answers req status cport;
    pins = tt;
  }

  call-Answered :
      (call : GpioCall) {es : Effects GpioCall}
      → InRange gpio.ngpios call
      → Answered gpio req cport (some es)
      → Answered gpio req cport (some (device call ∷ es))
  call-Answered call {es} ok a =
      let e : es ≡ a.effects = cc a.runs in
      record {
        status = a.status;
        payload = a.payload;
        effects = device call ∷ a.effects;
        runs = rw e;
        answers = Answers-device call a.answers;
        pins = (ok, a.pins);
      }

  reply_call-Answered :
      (dev : GpioCall → ℤ) (call : GpioCall)
      → InRange gpio.ngpios call
      → Answered gpio req cport (some (reply_call dev cport req call))
  reply_call-Answered dev call ok =
      call-Answered call ok (empty-Answered (gb_errno_to_op_result (dev call)))

  set_after-Answered :
      (dev : GpioCall → ℤ) (which value : ℕ)
      → which < gpio.ngpios
      → (result : ℤ) → Answered gpio req cport (some (set_after dev cport req which value result))
  unfolding set_after
  set_after-Answered dev which value lt (pos zero) = reply_call-Answered dev (set which value) lt
  set_after-Answered dev which value lt _ = empty-Answered _

  configure_interrupt-Answered :
      (dev : GpioCall → ℤ) (which : ℕ)
      → which < gpio.ngpios
      → (flags : Option InterruptFlags)
      → Answered gpio req cport (some (configure_interrupt dev cport req which flags))
  unfolding configure_interrupt
  configure_interrupt-Answered dev which lt none = empty-Answered gb_op_invalid
  configure_interrupt-Answered dev which lt (some flags) =
      reply_call-Answered dev (interrupt which flags) lt

  -- The act of a guard runs only where the pin exists and the request is long enough.
  guard-Answered :
      (size : ℕ) (act : ℕ → Reaction)
      → IsMessage req
      → 1 ≤ size
      → ((which : ℕ)
          → which < gpio.ngpios
          → size ≤ length req.payload
          → Answered gpio req cport (act which))
      → Answered gpio req cport (gpio_guard size cport req gpio act)
  unfolding gpio_guard
  guard-Answered size act m one act_ok = elim (Bool-cases (ltb (gb_message_payload_len req) size)) [
    | inl short ↦ rw short (empty-Answered gb_op_invalid)
    | inr long ↦
        let enough : size ≤ length req.payload =
          ground (arith, long, gb_message_payload_len_lem req m) in
        let (which, found) = get_elem?-lt req.payload 0 (omega (arith, enough)) in
        rw (long, found)
          (elim (Bool-cases (leb gpio.ngpios which)) [
            | inl high ↦ rw high (empty-Answered gb_op_invalid)
            | inr low ↦ rw low (act_ok which (ground (arith, low)) enough)
          ])
  ]

module _ (alloc : ℕ → Option Bytes) (memory : HasMemory alloc) (gpio : GpioData) (req : Message)
    (cport : ℕ) where
  success-Answered :
      (payload : Bytes)
      → length payload < 256
      → Answered gpio req cport (gb_transport_message_response_success_send alloc req payload cport)
  success-Answered payload short =
      let (block, found, sized) = memory.blocks (header_size + length payload) in
      let (es, runs, answers, none_called) =
        success_send-some alloc req payload cport block (omega (arith, short)) found sized in
      record {
        status = gb_op_success;
        payload = payload;
        effects = es;
        runs = runs;
        answers = answers;
        pins = rw none_called tt;
      }

  module _ (dev : GpioCall → ℤ) (m : IsMessage req) where
    reply_value-Answered :
        (call : GpioCall)
        → InRange gpio.ngpios call
        → Answered gpio req cport (reply_value alloc dev cport req call)
    unfolding reply_value
    reply_value-Answered call ok =
        let a = success-Answered (to_u8 (dev call) ∷ []) (omega arith) in
        rw (a.runs) (call-Answered gpio req cport call ok (rw a.runs at a))

    dispatch-Answered :
        (op : Operation) → Answered gpio req cport (gpio_dispatch alloc dev op gpio req cport)
    unfolding gpio_dispatch gb_gpio_line_count gb_gpio_activate gb_gpio_deactivate
        gb_gpio_get_direction gb_gpio_direction_in gb_gpio_direction_out gb_gpio_get_value
        gb_gpio_set_value gb_gpio_set_debounce gb_gpio_irq_type gb_gpio_irq_mask gb_gpio_irq_unmask
    dispatch-Answered line_count = success-Answered _ (omega arith)
    dispatch-Answered activate =
        guard-Answered gpio req cport 1 _ m (omega arith)
          (λ w lt len. empty-Answered gpio req cport gb_op_success)
    dispatch-Answered deactivate =
        guard-Answered gpio req cport 1 _ m (omega arith)
          (λ w lt len. empty-Answered gpio req cport gb_op_success)
    dispatch-Answered get_direction =
        guard-Answered gpio req cport 1 _ m (omega arith) (λ w lt len. reply_value-Answered _ lt)
    dispatch-Answered get_value =
        guard-Answered gpio req cport 1 _ m (omega arith) (λ w lt len. reply_value-Answered _ lt)
    dispatch-Answered direction_in =
        guard-Answered gpio req cport 1 _ m (omega arith)
          (λ w lt len. reply_call-Answered gpio req cport dev _ lt)
    dispatch-Answered irq_mask =
        guard-Answered gpio req cport 1 _ m (omega arith)
          (λ w lt len. reply_call-Answered gpio req cport dev _ lt)
    dispatch-Answered irq_unmask =
        guard-Answered gpio req cport 1 _ m (omega arith)
          (λ w lt len. reply_call-Answered gpio req cport dev _ lt)
    dispatch-Answered set_value = guard-Answered gpio req cport 2 _ m (omega arith) λ w lt len.
        let (v, found) = get_elem?-lt req.payload 1 (omega arith) in
        rw found (reply_call-Answered gpio req cport dev (set w v) lt)
    dispatch-Answered direction_out = guard-Answered gpio req cport 2 _ m (omega arith) λ w lt len.
        let (v, found) = get_elem?-lt req.payload 1 (omega arith) in
        rw found (
          call-Answered gpio req cport (configure w output) lt
            (set_after-Answered gpio req cport dev w v lt (dev (configure w output))))
    dispatch-Answered set_debounce = guard-Answered gpio req cport 3 _ m (omega arith) λ w lt len.
        let (lo, lo_found) = get_elem?-lt req.payload 1 (omega arith) in
        let (hi, hi_found) = get_elem?-lt req.payload 2 (omega arith) in
        rw (lo_found, hi_found)
          (elim (Bool-cases (ltb 0 (word16 lo hi))) [
            | inl wanted ↦
                rw wanted (reply_call-Answered gpio req cport dev (configure w debounce) lt)
            | inr zero_time ↦ rw zero_time (empty-Answered gpio req cport gb_op_success)
          ])
    dispatch-Answered irq_type = guard-Answered gpio req cport 2 _ m (omega arith) λ w lt len.
        let (t, found) = get_elem?-lt req.payload 1 (omega arith) in
        rw found (configure_interrupt-Answered gpio req cport dev w lt (irq_flags t))

    handler-cases :
        (o : Option Operation)
        → operation_of req.header.type ≡ o
        → Answered gpio req cport (gb_gpio_handler alloc dev gpio req cport)
    unfolding gb_gpio_handler
    handler-cases none e = rw (e, gb_gpio_handler) (empty-Answered gpio req cport gb_op_invalid)
    handler-cases (some op) e = rw (e, gb_gpio_handler) (dispatch-Answered op)

    -- With memory, for every well-formed request of any type: the GPIO handler runs to its
    -- end, answers the request once, frees it once, and calls the driver on pins of the port
    -- only.
    pub gb_gpio_handler-Answered :
        Answered gpio req cport (gb_gpio_handler alloc dev gpio req cport)
    gb_gpio_handler-Answered = handler-cases (operation_of req.header.type) refl
