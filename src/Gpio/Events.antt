-- ===== src/Gpio/Events.antt =====
-- gpio.c, `gpio_callback_handler`: which events an interrupt sends.
use greybus_zephyr.Base.{
  ℕ, zero, suc, ◌+◌, ◌/◌, ◌%◌, ◌^◌, ◌≡◌, refl, sym, ◌∙◌, ap, List, [], ◌∷◌, map, arith, ◌==◌,
  if◌then◌else◌, Bool-cases, inl, inr, ==_iff,
}
use native.Mathlib.Nat.{div-div-eq-div-mul}
use native.Mathlib.Numerals.{towards_suc}
use greybus_zephyr.Transport.{Effect, send}
use greybus_zephyr.Gpio.{GpioData, GpioCall, irq_loop, gpio_callback_handler}

-- The protocol's event of a pin: a request of 9 bytes with the type 0x0e that wants no response, and the pin.
abbrev pub event_of : ℕ → ℕ → Effect GpioCall
event_of cport pin = send cport (record {
  header = record { size = 9; operation_id = 0; type = 0x0e; result = 0; pad = 0 ∷ 0 ∷ [] };
  payload = pin ∷ [];
})

-- The pins among the `n` from `i` on whose bits are set.
unfoldable pub set_pins : ℕ → ℕ → ℕ → List ℕ
set_pins zero i pins = []
set_pins (suc n) i pins =
    let rest = set_pins n (i + 1) pins in if pins / 2 ^ i % 2 == 1 then i ∷ rest else rest

shift : (pins i : ℕ) → pins / 2 ^ i / 2 ≡ pins / 2 ^ (i + 1)
shift pins i =
    div-div-eq-div-mul pins (2 ^ i) 2 ∙ ap (λ t. pins / t) (simp towards_suc (omega arith))

-- Once the shifted mask is 0, no bit is left.
set_pins-nil : (n i pins : ℕ) → pins / 2 ^ i ≡ 0 → set_pins n i pins ≡ []
unfolding set_pins
set_pins-nil zero i pins h = refl
set_pins-nil (suc n) i pins h =
    let next : pins / 2 ^ (i + 1) ≡ 0 = sym (shift pins i) ∙ rw h (omega arith) in
    rw (h, set_pins-nil n (i + 1) pins next) refl

irq_loop-set_pins :
    (n i pins cport : ℕ)
    → irq_loop n i (pins / 2 ^ i) cport ≡ map (event_of cport) (set_pins n i pins)
unfolding irq_loop set_pins
irq_loop-set_pins zero i pins cport = refl
irq_loop-set_pins (suc n) i pins cport =
    let ih : irq_loop n (i + 1) (pins / 2 ^ i / 2) cport
        ≡ map (event_of cport) (set_pins n (i + 1) pins) =
      ap (λ t. irq_loop n (i + 1) t cport) (shift pins i)
      ∙ irq_loop-set_pins n (i + 1) pins cport in
    elim (Bool-cases (pins / 2 ^ i == 0)) [
      | inl e ↦
          let zero_left : pins / 2 ^ i ≡ 0 = (==_iff _ _).0 e in
          rw
            (
              zero_left,
              set_pins-nil n (i + 1) pins (sym (shift pins i) ∙ rw zero_left (omega arith)),
            )
            refl
      | inr ne ↦ elim (Bool-cases (pins / 2 ^ i % 2 == 1)) [
        | inl odd ↦ rw (ne, odd, ih) refl
        | inr even ↦ rw (ne, even, ih) refl
      ]
    ]

-- An interrupt with the mask pins does exactly this: for each of the 32 pins whose bit is set, in
-- ascending order, it sends on the port's cport one request of 9 bytes with the id 0, the type of
-- an event (0x0e) and the pin as its payload.
pub gpio_callback_handler-events :
    (gpio : GpioData) (pins : ℕ)
    → gpio_callback_handler gpio pins ≡ map (event_of gpio.cport) (set_pins 32 0 pins)
unfolding gpio_callback_handler
gpio_callback_handler-events gpio pins =
    let whole : pins / 2 ^ 0 ≡ pins = omega arith in
    ap (λ t. irq_loop 32 0 t gpio.cport) (sym whole) ∙ irq_loop-set_pins 32 0 pins gpio.cport
