-- ===== src/Audio.antt =====
-- subsys/greybus/audio.c: the audio protocol over a codec of Zephyr's, whose calls are the parameter `dev`.
-- `none` is undefined behaviour: a read past the payload, the copy of a reply to NULL.
pub mod Topology
pub mod Answers
pub mod Streams
mod Tests
use greybus_zephyr.Base.{
  ℕ, ◌+◌, ◌*◌, ◌^◌, Bool, true, false, not, Option, none, some, List, [], ◌∷◌, Bytes, le16, ltb,
  ◌==◌, if◌then◌else◌, get_elem?, word32_at, length, take, ◌-◌, drop, ℤ, neg, enomem, is_nonzero,
  overwrite, ◌>>=◌,
}
use greybus_zephyr.Messages.{
  Message, gb_message_type, gb_message_payload_len, gb_op_success, gb_op_invalid,
  gb_op_unknown_error,
}
use greybus_zephyr.Messages.Ids.{gb_message_request_alloc}
use greybus_zephyr.Transport.{Effects, send, device}
use greybus_zephyr.Transport.Stateful.{Outcome, refuse, after_calls, succeed}
use greybus_zephyr.Audio.Topology.{
  control_id_volume, control_id_mute, topology_max_size, gb_audio_get_topology_size_bytes, topology,
}

-- `struct gb_audio_driver_data`
pub record Audio : Type 0 where
  pub state : ℕ

abbrev pub state_removed : ℕ
state_removed = 0

abbrev pub state_unconfigured : ℕ
state_unconfigured = 2

abbrev pub state_configured : ℕ
state_configured = 3

-- The properties of the codec that a control can name, `audio_property_t`.
pub data Property : Type 0 where
  output_volume input_mute : Property

-- The calls of the codec: a configuration has the sample rate, the channels and the width, and the value of
-- a mute is 0 or 1. What was not set in the configuration is not modelled.
pub data CodecCall : Type 0 where
  configure : ℕ → ℕ → ℕ → CodecCall
  set_property : Property → ℕ → CodecCall
  start_output stop_output : CodecCall
  write : Bytes → CodecCall

-- A handler is given NULL, `none`, where no driver data is set.
abbrev pub Reaction : Type 0
Reaction = Outcome CodecCall (Option Audio)

-- The loop over `current_topology`.
unfoldable pub gb_audio_lookup_property : ℕ → Option Property
gb_audio_lookup_property control_id =
    if control_id == control_id_volume
    then some output_volume
    else if control_id == control_id_mute
    then some input_mute
    else none

-- The value for the codec: a mute is a bool.
abbrev pub property_value : Property → ℕ → ℕ
property_value output_volume value = value
property_value input_mute value = if value == 0 then 0 else 1

-- The test that opens the handlers that use the codec, on the driver data and its state.
abbrev pub in_state : (ℕ → Bool) → Message → ℕ → Option Audio → (Audio → Reaction) → Reaction
in_state bad req cport none act = refuse req cport gb_op_invalid none
in_state bad req cport (some a) act =
    if bad a.state then refuse req cport gb_op_invalid (some a) else act a

-- One call of the codec, whose failure is an unknown error.
abbrev pub codec_call :
    (CodecCall → ℤ) → Message → ℕ → CodecCall → Option Audio → Option Audio → Reaction
codec_call dev req cport call failed done = after_calls (device call ∷ []) (
    if is_nonzero (dev call)
    then refuse req cport gb_op_unknown_error failed
    else refuse req cport gb_op_success done)

module _ (dev : CodecCall → ℤ) (alloc : ℕ → Option Bytes) (req : Message) (cport : ℕ) where
  unfoldable pub gb_audio_protocol_version : Option Audio → Reaction
  gb_audio_protocol_version st = succeed alloc req cport (1 ∷ 0 ∷ []) st

  unfoldable pub gb_audio_set_pcm : Option Audio → Reaction
  gb_audio_set_pcm st =
      in_state (λ s. ltb s state_unconfigured) req cport st
        λ a. if ltb (gb_message_payload_len req) 12 then refuse req cport gb_op_invalid st else do
          rate ← word32_at req.payload 6
          channels ← get_elem? req.payload 10
          sig_bits ← get_elem? req.payload 11
          codec_call dev req cport (configure rate channels sig_bits) st
              (some (record a { state = state_configured }))

  -- What follows the lookup of the control.
  abbrev pub set_found : Option Audio → Option Property → Reaction
  set_found st none = refuse req cport gb_op_invalid st
  set_found st (some prop) = word32_at req.payload 10 >>= λ value.
      codec_call dev req cport (set_property prop (property_value prop value)) st st

  unfoldable pub gb_audio_set_control : Option Audio → Reaction
  gb_audio_set_control st =
      in_state (λ s. ltb s state_unconfigured) req cport st
        λ a. if ltb (gb_message_payload_len req) 26 then refuse req cport gb_op_invalid st else (do
          control_id ← get_elem? req.payload 0
          set_found st (gb_audio_lookup_property control_id))

  unfoldable pub gb_audio_get_topology_size : Option Audio → Reaction
  gb_audio_get_topology_size st = succeed alloc req cport (le16 gb_audio_get_topology_size_bytes) st

  unfoldable pub gb_audio_get_topology : Option Audio → Reaction
  gb_audio_get_topology st =
      if ltb topology_max_size gb_audio_get_topology_size_bytes
      then refuse req cport gb_op_unknown_error st
      else succeed alloc req cport (topology cport) st

  -- The results of start and stop are ignored.
  unfoldable pub gb_audio_activate_tx : Option Audio → Reaction
  gb_audio_activate_tx st =
      in_state (λ s. not (s == state_configured)) req cport st
        λ a. after_calls (device start_output ∷ []) (refuse req cport gb_op_success st)

  unfoldable pub gb_audio_activate_rx : Option Audio → Reaction
  gb_audio_activate_rx st =
      in_state (λ s. not (s == state_configured)) req cport st
        λ a. refuse req cport gb_op_success st

  unfoldable pub gb_audio_send_data : Option Audio → Reaction
  gb_audio_send_data st =
      in_state (λ s. not (s == state_configured)) req cport st
        λ a.
          if ltb (gb_message_payload_len req) 8
          then refuse req cport gb_op_invalid st
          else if ltb (length req.payload) (gb_message_payload_len req)
          then none
          else codec_call dev req cport
              (write (take (gb_message_payload_len req - 8) (drop 8 req.payload))) st st

  unfoldable pub gb_audio_deactivate_tx : Option Audio → Reaction
  gb_audio_deactivate_tx st =
      in_state (λ s. not (s == state_configured)) req cport st
        λ a. after_calls (device stop_output ∷ []) (refuse req cport gb_op_success st)

  unfoldable pub gb_audio_deactivate_rx : Option Audio → Reaction
  gb_audio_deactivate_rx st =
      in_state (λ s. not (s == state_configured)) req cport st
        λ a. refuse req cport gb_op_success st

  unfoldable pub gb_audio_enable_widget : Option Audio → Reaction
  gb_audio_enable_widget st = refuse req cport gb_op_success st

  unfoldable pub gb_audio_disable_widget : Option Audio → Reaction
  gb_audio_disable_widget st = refuse req cport gb_op_success st

  unfoldable pub gb_audio_handler : Option Audio → Reaction
  gb_audio_handler st =
      let type = gb_message_type req in
      if type == 0x01
      then gb_audio_protocol_version st
      else if type == 0x02
      then gb_audio_get_topology_size st
      else if type == 0x03
      then gb_audio_get_topology st
      else if type == 0x09
      then gb_audio_set_pcm st
      else if type == 0x05
      then gb_audio_set_control st
      else if type == 0x0c
      then gb_audio_activate_tx st
      else if type == 0x10
      then gb_audio_activate_rx st
      else if type == 0x15
      then gb_audio_send_data st
      else if type == 0x0d
      then gb_audio_deactivate_tx st
      else if type == 0x11
      then gb_audio_deactivate_rx st
      else if type == 0x06
      then gb_audio_enable_widget st
      else if type == 0x07
      then gb_audio_disable_widget st
      else refuse req cport gb_op_invalid st

-- `ready` is the answer of the codec's device.
unfoldable pub gb_audio_connected : Bool → Option Audio → Option Audio
gb_audio_connected ready none = none
gb_audio_connected ready (some a) =
    if ready then some (record a { state = state_unconfigured }) else some a

unfoldable pub gb_audio_disconnected : Option Audio → Option Audio
gb_audio_disconnected none = none
gb_audio_disconnected (some a) = some (record a { state = state_removed })

-- The effects, the int result, and the counter of the operation ids; `sent` is the result of the transport.
-- The message is not freed.
unfoldable pub send_event : (ℕ → Option Bytes) → ℤ → ℕ → Bytes → ℕ → ℕ → (Effects CodecCall × ℤ) × ℕ
send_event alloc sent type payload cport counter =
    let allocated = gb_message_request_alloc alloc (length payload) type false counter in
    elim allocated.0 [
      | none ↦ (([], neg enomem), allocated.1)
      | some msg ↦ (
        (send cport (record msg { payload = overwrite msg.payload payload }) ∷ [], sent),
        allocated.1,
      )
    ]

unfoldable pub gb_audio_send_jack_event :
    (ℕ → Option Bytes) → ℤ → ℕ → ℕ → ℕ → ℕ → ℕ → (Effects CodecCall × ℤ) × ℕ
gb_audio_send_jack_event alloc sent cport widget_id jack_attribute event counter =
    send_event alloc sent 0x12 (widget_id ∷ jack_attribute ∷ event ∷ []) cport counter

unfoldable pub gb_audio_send_button_event :
    (ℕ → Option Bytes) → ℤ → ℕ → ℕ → ℕ → ℕ → ℕ → (Effects CodecCall × ℤ) × ℕ
gb_audio_send_button_event alloc sent cport widget_id button_id event counter =
    send_event alloc sent 0x13 (widget_id ∷ button_id ∷ event ∷ []) cport counter
