-- ===== src/Audio/Answers.antt =====
-- subsys/greybus/audio.c: every request is answered once, and only a configuration changes the state.
use greybus_zephyr.Base.{
  ℕ, ◌≤◌, ◌<◌, ◌≡◌, refl, ◌⊎◌, inl, inr, Bool, true, false, not, Option, none, some, [], ◌∷◌, Bytes,
  arith, le16, ltb, ◌==◌, if◌then◌else◌, length, get_elem?-lt, word32_at-lt, ℤ, is_nonzero, ge→ltb,
}
use greybus_zephyr.Messages.{
  Message, gb_message_type, gb_message_payload_len, gb_op_success, gb_op_invalid,
  gb_op_unknown_error,
}
use greybus_zephyr.Messages.Laws.{IsMessage, HasMemory, gb_message_payload_len_lem}
use greybus_zephyr.Transport.{device}
use greybus_zephyr.Transport.Stateful.{
  refuse, after_calls, succeed, Answered, refuse-Answered, after_calls-Answered, branch-Answered,
  succeed-Answered,
}
use greybus_zephyr.Audio.Topology.{gb_audio_get_topology_size_bytes, topology, topology_max_size}
use greybus_zephyr.Audio.{
  Audio, CodecCall, configure, set_property, start_output, stop_output, Property, property_value,
  Reaction, state_unconfigured, state_configured, in_state, codec_call, set_found,
  gb_audio_lookup_property, gb_audio_protocol_version, gb_audio_set_pcm, gb_audio_set_control,
  gb_audio_get_topology_size, gb_audio_get_topology, gb_audio_activate_tx, gb_audio_activate_rx,
  gb_audio_send_data, gb_audio_deactivate_tx, gb_audio_deactivate_rx, gb_audio_enable_widget,
  gb_audio_disable_widget, gb_audio_handler,
}

-- The state stays, or a connected device is configured.
abbrev pub Moves : Option Audio → Option Audio → Type 0
Moves none none = Unit
Moves (some a) (some a') =
    (a'.state ≡ a.state) ⊎ ((state_unconfigured ≤ a.state) × (a'.state ≡ state_configured))
Moves _ _ = ⊥

stays : (st : Option Audio) → Moves st st
stays none = tt
stays (some a) = inl refl

-- The topology's length, which is the size that is announced.
pub topology-len : (cport : ℕ) → length (topology cport) ≡ gb_audio_get_topology_size_bytes
unfolding topology gb_audio_get_topology_size_bytes
topology-len cport = refl

-- A handler whose act runs on driver data in a state that is not refused.
in_state-Answered :
    (req : Message) (cport : ℕ) (bad : ℕ → Bool) (st : Option Audio) (act : Audio → Reaction)
    → ((a : Audio) → st ≡ some a → bad a.state ≡ false → Answered req cport (Moves st) (act a))
    → Answered req cport (Moves st) (in_state bad req cport st act)
in_state-Answered req cport bad none act h =
    refuse-Answered req cport (Moves none) gb_op_invalid none tt
in_state-Answered req cport bad (some a) act h =
    branch-Answered req cport (Moves (some a)) (bad a.state)
      (λ _. refuse-Answered req cport (Moves (some a)) gb_op_invalid (some a) (inl refl)) (h a refl)

configures :
    (a : Audio) (st : Option Audio)
    → st ≡ some a
    → ltb a.state state_unconfigured ≡ false
    → Moves st (some (record a { state = state_configured }))
configures a st e up =
    let high : state_unconfigured ≤ a.state = ground (arith, up) in rw e (inr (high, refl))

module _ (dev : CodecCall → ℤ) (alloc : ℕ → Option Bytes) (req : Message) (cport : ℕ)
    (memory : HasMemory alloc) (m : IsMessage req) (st : Option Audio) where
  abbrev Ok : Reaction → Type 0
  Ok r = Answered req cport (Moves st) r

  same-Ok : (status : ℕ) → Ok (refuse req cport status st)
  same-Ok status = refuse-Answered req cport (Moves st) status st (stays st)

  branch-Ok :
      (b : Bool) {x y : Reaction} → (b ≡ true → Ok x) → (b ≡ false → Ok y) → Ok (if b then x else y)
  branch-Ok b = branch-Answered req cport (Moves st) b

  call-Ok : (call : CodecCall) (r : Reaction) → Ok r → Ok (after_calls (device call ∷ []) r)
  call-Ok call r = after_calls-Answered req cport (Moves st) (device call ∷ []) r tt

  codec_call-Ok :
      (call : CodecCall) (done : Option Audio)
      → Moves st done
      → Ok (codec_call dev req cport call st done)
  codec_call-Ok call done ok = call-Ok call _ (
      branch-Ok (is_nonzero (dev call)) (λ _. same-Ok gb_op_unknown_error)
        λ _. refuse-Answered req cport (Moves st) gb_op_success done ok)

  succeed-Ok : (payload : Bytes) → length payload < 1024 → Ok (succeed alloc req cport payload st)
  succeed-Ok payload h =
      succeed-Answered req cport (Moves st) alloc payload st memory (omega (arith, h)) (stays st)

  set_pcm-Ok : Ok (gb_audio_set_pcm dev alloc req cport st)
  unfolding gb_audio_set_pcm
  set_pcm-Ok =
      in_state-Answered req cport (λ s. ltb s state_unconfigured) st _
        λ a e up.
          branch-Ok (ltb (gb_message_payload_len req) 12) (λ _. same-Ok gb_op_invalid)
            λ long.
              let size : 12 ≤ length req.payload =
                ground (arith, long, gb_message_payload_len_lem req m) in
              let (rate, e0) = word32_at-lt req.payload 6 (omega (arith, size)) in
              let (channels, e1) = get_elem?-lt req.payload 10 (omega (arith, size)) in
              let (sig_bits, e2) = get_elem?-lt req.payload 11 (omega (arith, size)) in
              rw (e0, e1, e2)
                (codec_call-Ok (configure rate channels sig_bits) _ (configures a st e up))

  set_found-Ok :
      (found : Option Property)
      → 26 ≤ length req.payload
      → Ok (set_found dev alloc req cport st found)
  set_found-Ok none size = same-Ok gb_op_invalid
  set_found-Ok (some prop) size =
      let (value, e) = word32_at-lt req.payload 10 (omega (arith, size)) in
      rw e (codec_call-Ok (set_property prop (property_value prop value)) st (stays st))

  set_control-Ok : Ok (gb_audio_set_control dev alloc req cport st)
  unfolding gb_audio_set_control
  set_control-Ok =
      in_state-Answered req cport (λ s. ltb s state_unconfigured) st _
        λ a e up.
          branch-Ok (ltb (gb_message_payload_len req) 26) (λ _. same-Ok gb_op_invalid)
            λ long.
              let size : 26 ≤ length req.payload =
                ground (arith, long, gb_message_payload_len_lem req m) in
              let (control_id, e0) = get_elem?-lt req.payload 0 (omega (arith, size)) in
              rw e0 (set_found-Ok (gb_audio_lookup_property control_id) size)

  send_data-Ok : Ok (gb_audio_send_data dev alloc req cport st)
  unfolding gb_audio_send_data
  send_data-Ok =
      in_state-Answered req cport (λ s. not (s == state_configured)) st _
        λ a e on.
          branch-Ok (ltb (gb_message_payload_len req) 8) (λ _. same-Ok gb_op_invalid)
            λ long.
              let whole : ltb (length req.payload) (gb_message_payload_len req) ≡ false =
                ge→ltb _ _ (omega (arith, gb_message_payload_len_lem req m)) in
              rw whole (codec_call-Ok _ st (stays st))

  -- With memory, for every well-formed request of any type, and with or without driver data:
  -- the audio handler runs to its end, answers the request once and frees it once, and leaves
  -- the state as it was, or moves a connected device to the configured state.
  pub gb_audio_handler-Answered :
      Answered req cport (Moves st) (gb_audio_handler dev alloc req cport st)
  unfolding gb_audio_handler gb_audio_protocol_version gb_audio_get_topology_size
      gb_audio_get_topology gb_audio_activate_tx gb_audio_activate_rx gb_audio_deactivate_tx
      gb_audio_deactivate_rx gb_audio_enable_widget gb_audio_disable_widget
  gb_audio_handler-Answered =
      let type = gb_message_type req in
      let succeeds = same-Ok gb_op_success in
      branch-Ok (type == 0x01) (λ _. succeed-Ok (1 ∷ 0 ∷ []) (omega arith))
        λ _.
          branch-Ok (type == 0x02)
            (λ _. succeed-Ok (le16 gb_audio_get_topology_size_bytes) (omega arith))
            λ _.
              branch-Ok (type == 0x03)
                (λ _.
                  branch-Ok (ltb topology_max_size gb_audio_get_topology_size_bytes)
                    (λ _. same-Ok gb_op_unknown_error)
                    λ fits. succeed-Ok (topology cport) (ground (arith, fits, topology-len cport)))
                λ _.
                  branch-Ok (type == 0x09) (λ _. set_pcm-Ok)
                    λ _.
                      branch-Ok (type == 0x05) (λ _. set_control-Ok)
                        λ _.
                          branch-Ok (type == 0x0c)
                            (λ _.
                              in_state-Answered req cport (λ s. not (s == state_configured)) st _
                                λ _ _ _. call-Ok start_output _ succeeds)
                            λ _.
                              branch-Ok (type == 0x10)
                                (λ _.
                                  in_state-Answered req cport (λ s. not (s == state_configured)) st
                                    _ λ _ _ _. succeeds)
                                λ _.
                                  branch-Ok (type == 0x15) (λ _. send_data-Ok)
                                    λ _.
                                      branch-Ok (type == 0x0d)
                                        (λ _.
                                          in_state-Answered req cport
                                            (λ s. not (s == state_configured)) st _
                                            λ _ _ _. call-Ok stop_output _ succeeds)
                                        λ _.
                                          branch-Ok (type == 0x11)
                                            (λ _.
                                              in_state-Answered req cport
                                                (λ s. not (s == state_configured)) st _
                                                λ _ _ _. succeeds)
                                            λ _.
                                              branch-Ok (type == 0x06) (λ _. succeeds)
                                                λ _.
                                                  branch-Ok (type == 0x07) (λ _. succeeds)
                                                    λ _. same-Ok gb_op_invalid
