-- ===== src/Pwm.antt =====
-- subsys/greybus/pwm-protocol.c: the PWM protocol, with the settings of the generators as its state.
-- The driver is Zephyr's: the parameter `dev` is the result of each call.
-- `none` is undefined behaviour: a read past the payload or past the generators, the reply's copy to NULL.
pub mod Answers
pub mod Settings
pub mod Sessions
mod Tests
use greybus_zephyr.Base.{
  ℕ, ◌+◌, ◌-◌, ◌*◌, ◌%◌, ◌^◌, Bool, true, false, Option, none, some, List, [], ◌∷◌, Bytes, leb,
  ◌==◌, if◌then◌else◌, get_elem?, word32_at, set, ℤ, ◌>>=◌,
}
use greybus_zephyr.Core.{gb_errno_to_op_result}
use greybus_zephyr.Messages.{
  Message, gb_message_type, gb_op_success, gb_op_invalid, gb_op_protocol_bad,
}
use greybus_zephyr.Transport.{
  Effects, device, gb_transport_message_empty_response_send,
  gb_transport_message_response_success_send,
}

-- `struct gb_pwm_channel_data`; `polarity` is false for normal, true for inverted.
pub record Channel : Type 0 where
  pub duty : ℕ
  pub period : ℕ
  pub polarity : Bool

-- `struct gb_pwm_driver_data`
pub record Pwm : Type 0 where
  pub channel_data : List Channel
  pub channel_num : ℕ

-- `pwm_set` with the channel, the period, the pulse, and whether the polarity is inverted.
pub data PwmCall : Type 0 where
  pwm_set : ℕ → ℕ → ℕ → Bool → PwmCall

abbrev pub Reaction : Type 0
Reaction = Option (Effects PwmCall × Pwm)

abbrev pub type_pwm_count : ℕ
type_pwm_count = 0x02

abbrev pub type_activate : ℕ
type_activate = 0x03

abbrev pub type_deactivate : ℕ
type_deactivate = 0x04

abbrev pub type_config : ℕ
type_config = 0x05

abbrev pub type_polarity : ℕ
type_polarity = 0x06

abbrev pub type_enable : ℕ
type_enable = 0x07

abbrev pub type_disable : ℕ
type_disable = 0x08

-- An answer without a payload.
abbrev pub answer : Message → ℕ → Pwm → ℕ → Effects PwmCall × Pwm
answer req cport pwm status = (gb_transport_message_empty_response_send req status cport, pwm)

-- The test that opens each handler of a generator; then the generator's index and its settings.
unfoldable pub pwm_guard : ℕ → Message → Pwm → (ℕ → Channel → Reaction) → Reaction
pwm_guard cport req pwm act = do
  which ← get_elem? req.payload 0
  if leb pwm.channel_num which
      then some (answer req cport pwm gb_op_invalid)
      else get_elem? pwm.channel_data which >>= act which

-- The generator's settings are written.
abbrev pub with_channel : Pwm → ℕ → Channel → Pwm
with_channel pwm which chan = record pwm { channel_data = set pwm.channel_data which chan }

-- The count is a uint8_t.
unfoldable pub gb_pwm_protocol_count : (ℕ → Option Bytes) → ℕ → Message → Pwm → Reaction
gb_pwm_protocol_count alloc cport req pwm =
    gb_transport_message_response_success_send alloc req ((pwm.channel_num + 255) % 256 ∷ []) cport
    >>= λ es. some (es, pwm)

unfoldable pub gb_pwm_protocol_config : ℕ → Message → Pwm → Reaction
gb_pwm_protocol_config cport req pwm = pwm_guard cport req pwm λ which chan. do
  duty ← word32_at req.payload 1
  period ← word32_at req.payload 5
  some (
      answer req cport (with_channel pwm which (record chan { duty = duty; period = period }))
        gb_op_success)

unfoldable pub gb_pwm_protocol_polarity : ℕ → Message → Pwm → Reaction
gb_pwm_protocol_polarity cport req pwm = pwm_guard cport req pwm λ which chan. do
  polarity ← get_elem? req.payload 1
  some (
      answer req cport (with_channel pwm which (record chan { polarity = polarity == 1 }))
        gb_op_success)

module _ (dev : PwmCall → ℤ) where
  -- One driver call, whose result is the status of the reply.
  abbrev pub reply_call : ℕ → Message → Pwm → PwmCall → Effects PwmCall × Pwm
  reply_call cport req pwm call = (
    device call
        ∷ gb_transport_message_empty_response_send req (gb_errno_to_op_result (dev call)) cport,
    pwm,
  )

  unfoldable pub gb_pwm_protocol_enable : ℕ → Message → Pwm → Reaction
  gb_pwm_protocol_enable cport req pwm = pwm_guard cport req pwm λ which chan.
      some (reply_call cport req pwm (pwm_set which chan.period chan.duty chan.polarity))

  unfoldable pub gb_pwm_protocol_disable : ℕ → Message → Pwm → Reaction
  gb_pwm_protocol_disable cport req pwm =
      pwm_guard cport req pwm
        λ which chan. some (reply_call cport req pwm (pwm_set which chan.period 0 false))

  unfoldable pub gb_pwm_handler : (ℕ → Option Bytes) → Message → ℕ → Pwm → Reaction
  gb_pwm_handler alloc msg cport pwm =
      let type = gb_message_type msg in
      if type == type_pwm_count
      then gb_pwm_protocol_count alloc cport msg pwm
      else if type == type_activate
      then some (answer msg cport pwm gb_op_success)
      else if type == type_deactivate
      then some (answer msg cport pwm gb_op_success)
      else if type == type_config
      then gb_pwm_protocol_config cport msg pwm
      else if type == type_polarity
      then gb_pwm_protocol_polarity cport msg pwm
      else if type == type_enable
      then gb_pwm_protocol_enable cport msg pwm
      else if type == type_disable
      then gb_pwm_protocol_disable cport msg pwm
      else some (answer msg cport pwm gb_op_protocol_bad)
