-- ===== src/Camera/Answers.antt =====
-- subsys/greybus/camera.c: every request is answered once, and moves the camera along its state diagram.
use greybus_zephyr.Base.{
  ℕ, ◌+◌, ◌*◌, ◌≤◌, ◌≡◌, ◌≢◌, ◌∙◌, Bool, true, false, Option, none, some, List, [], ◌∷◌, Bytes,
  arith, ltb, ◌==◌, if◌then◌else◌, length, length-drop, drop, get_elem?-lt, le32, ℤ, is_nonzero,
  not, ◌&&◌, ◌||◌, word16,
}
use greybus_zephyr.Messages.{
  Message, gb_message_type, gb_message_payload_len, gb_op_success, gb_op_invalid,
  gb_op_unknown_error,
}
use greybus_zephyr.Messages.Laws.{IsMessage, HasMemory, gb_message_payload_len_lem}
use greybus_zephyr.Transport.{device}
use greybus_zephyr.Transport.Stateful.{
  refuse, after_calls, Answered, refuse-Answered, after_calls-Answered, branch-Answered,
  succeed-Answered,
}
use greybus_zephyr.Camera.{
  Camera, VideoCall, get_caps, stream_start, stream_stop, driver_flush, set_format,
  gb_camera_data_start_stream, gb_camera_data_stop_stream,
}
use greybus_zephyr.Camera.Management.{
  state_unconfigured, state_configured, state_streaming, max_streams, FormatCap, Reaction,
  count_formats, Built, unbuilt, is_already, gb_camera_protocol_version, gb_camera_capabilities,
  set_streams, gb_camera_configure_streams, start_video, gb_camera_capture, stop_video,
  gb_camera_flush, gb_camera_handler,
}
use greybus_zephyr.Camera.Streams.{
  and-left, Step-same, Step-captures, Step-drops, Step-flushes, start_stream-Starts,
  stop_stream-Stops,
}
use greybus_zephyr.Camera.Replies.{
  stays, configures, captures, Moves, Within, count_formats-Within, format_descs-len, FitsStreams,
  stream_loop-runs,
}

module _ (dev : VideoCall → ℤ) (alloc : ℕ → Option Bytes) (req : Message) (cport : ℕ)
    (memory : HasMemory alloc) (c : Camera) where
  abbrev Ok : Reaction → Type 0
  Ok r = Answered req cport (Moves (some c)) r

  same-Ok : (status : ℕ) → Ok (refuse req cport status (some c))
  same-Ok status = refuse-Answered req cport (Moves (some c)) status (some c) stays

  branch-Ok :
      (b : Bool) {x y : Reaction} → (b ≡ true → Ok x) → (b ≡ false → Ok y) → Ok (if b then x else y)
  branch-Ok b = branch-Answered req cport (Moves (some c)) b

  call-Ok : (call : VideoCall) (r : Reaction) → Ok r → Ok (after_calls (device call ∷ []) r)
  call-Ok call r = after_calls-Answered req cport (Moves (some c)) (device call ∷ []) r tt

  capabilities-Ok :
      (jpeg : ℕ) (formats : List FormatCap) {n : ℕ}
      → count_formats formats 0 ≡ some n
      → Ok (gb_camera_capabilities dev alloc req cport jpeg formats (some c))
  unfolding gb_camera_capabilities Within
  capabilities-Ok jpeg formats {n} count =
      let bound : n ≤ 255 = rw count at (count_formats-Within formats 0 (omega arith)) in
      let (block, found, sized) = memory.blocks (4 + n * 12) in
      rw (count, found, gb_camera_capabilities)
        (branch-Ok (ltb c.state state_unconfigured) (λ _. same-Ok gb_op_invalid)
          λ _. call-Ok get_caps _ (
            branch-Ok (is_nonzero (dev get_caps)) (λ _. same-Ok gb_op_unknown_error)
              λ _.
                branch-Ok (n == 0) (λ _. same-Ok gb_op_unknown_error)
                  λ _.
                    succeed-Answered req cport (Moves (some c)) alloc _ (some c) memory
                      (omega (arith, bound, format_descs-len jpeg n formats)) stays))

  set_streams-Ok :
      (n : ℕ) (built : Option Built)
      → n ≤ 4
      → c.state ≢ state_streaming
      → FitsStreams (0 + n * 16) built
      → Ok (set_streams dev alloc req cport n c built)
  unfolding set_streams FitsStreams
  set_streams-Ok n none h off fits = same-Ok gb_op_invalid
  set_streams-Ok n (some b) h off fits = call-Ok (set_format b.hw_width b.hw_height) _ (
      branch-Ok (is_nonzero (dev (set_format b.hw_width b.hw_height)))
        (λ _. same-Ok gb_op_unknown_error)
        λ _.
          succeed-Answered req cport (Moves (some c)) alloc _ _ memory (omega (arith, fits, h))
            (configures off))

  configure-Ok : IsMessage req → Ok (gb_camera_configure_streams dev alloc req cport (some c))
  unfolding gb_camera_configure_streams
  configure-Ok m =
      let size = gb_message_payload_len_lem req m in
      branch-Ok (c.state == state_streaming) (λ _. same-Ok gb_op_invalid)
        λ off.
          branch-Ok (ltb (gb_message_payload_len req) 4) (λ _. same-Ok gb_op_invalid)
            λ long.
              let (n, first) = get_elem?-lt req.payload 0 (ground (arith, long, size)) in
              rw first (
                branch-Ok (n == 0 || ltb max_streams n) (λ _. same-Ok gb_op_invalid)
                  λ few.
                    branch-Ok (not (gb_message_payload_len req == 4 + n * 8))
                      (λ _. same-Ok gb_op_invalid)
                      λ exact.
                        let len : length req.payload ≡ 4 + n * 8 = ground (arith, exact, size) in
                        let (built, runs, fits) =
                          stream_loop-runs n 0 (drop 4 req.payload) unbuilt
                            (omega (arith, len, length-drop 4 req.payload)) in
                        let (block, found, _) = memory.blocks (8 + n * 16) in
                        rw (found, runs)
                          (set_streams-Ok n built (ground (arith, few)) (ground (arith, off)) fits))

  capture-Ok : IsMessage req → Ok (gb_camera_capture dev alloc req cport (some c))
  unfolding gb_camera_capture start_video
  capture-Ok m =
      let size = gb_message_payload_len_lem req m in
      branch-Ok (ltb c.state state_configured) (λ _. same-Ok gb_op_invalid)
        λ on.
          branch-Ok (not (gb_message_payload_len req == 8)) (λ _. same-Ok gb_op_invalid)
            λ exact.
              let (n0, e0) = get_elem?-lt req.payload 6 (ground (arith, exact, size)) in
              let (n1, e1) = get_elem?-lt req.payload 7 (ground (arith, exact, size)) in
              let up : state_configured ≤ c.state = ground (arith, on) in
              let started = gb_camera_data_start_stream dev c (word16 n0 n1) in
              let starts = start_stream-Starts dev c (word16 n0 n1) in
              rw (e0, e1)
                (after_calls-Answered req cport (Moves (some c)) started.0.0 _ starts.only (
                  branch-Ok (is_nonzero started.0.1 && not (is_already started.0.1))
                    (λ bad.
                      refuse-Answered req cport (Moves (some c)) gb_op_unknown_error
                        (some started.1)
                        (Step-same starts.state_is (starts.failed (and-left _ _ bad))))
                    λ _.
                      branch-Ok (started.1.state == state_streaming)
                        (λ four.
                          refuse-Answered req cport (Moves (some c)) gb_op_success (some started.1)
                            (Step-captures (ground (arith, four)) up starts.stream_is))
                        λ _. call-Ok stream_start _ (
                          branch-Ok (is_nonzero (dev stream_start))
                            (λ _.
                              let stops = stop_stream-Stops dev started.1 in
                              after_calls-Answered req cport (Moves (some c)) _ _ stops.only (
                                refuse-Answered req cport (Moves (some c)) gb_op_unknown_error _ (
                                  Step-drops (stops.state_is ∙ starts.state_is) stops.stream_is
                                    up)))
                            λ _.
                              refuse-Answered req cport (Moves (some c)) gb_op_success _
                                (captures up starts.stream_is))))

  flush-Ok : Ok (gb_camera_flush dev alloc req cport (some c))
  unfolding gb_camera_flush stop_video
  flush-Ok =
      branch-Ok (ltb c.state state_streaming) (λ _. same-Ok gb_op_invalid)
        λ on.
          let up : state_streaming ≤ c.state = ground (arith, on) in
          let stopped = gb_camera_data_stop_stream dev c in
          let stops = stop_stream-Stops dev c in
          let fails : Ok (refuse req cport gb_op_unknown_error (some stopped.1)) =
            refuse-Answered req cport (Moves (some c)) gb_op_unknown_error (some stopped.1)
              (Step-drops stops.state_is stops.stream_is (omega (arith, up))) in
          after_calls-Answered req cport (Moves (some c)) stopped.0.0 _ stops.only (
            call-Ok stream_stop _ (
              branch-Ok (is_nonzero (dev stream_stop)) (λ _. fails)
                λ _. call-Ok driver_flush _ (
                  branch-Ok (is_nonzero (dev driver_flush)) (λ _. fails)
                    λ _.
                      succeed-Answered req cport (Moves (some c)) alloc (le32 stopped.1.frame_id) _
                        memory (omega arith) (Step-flushes stops.stream_is up))))

-- Without driver data, only the version is answered with success.
none-Answered :
    (dev : VideoCall → ℤ) (alloc : ℕ → Option Bytes) (req : Message) (cport jpeg : ℕ)
    (formats : List FormatCap)
    → HasMemory alloc
    → Answered req cport (Moves none) (gb_camera_handler dev alloc req cport jpeg formats none)
unfolding gb_camera_handler gb_camera_protocol_version gb_camera_capabilities
    gb_camera_configure_streams gb_camera_capture gb_camera_flush
none-Answered dev alloc req cport jpeg formats memory =
    let refused = refuse-Answered req cport (Moves none) gb_op_invalid none tt in
    branch-Answered req cport (Moves none) (gb_message_type req == 0x01)
      (λ _. succeed-Answered req cport (Moves none) alloc (0 ∷ 1 ∷ []) none memory (omega arith) tt)
      λ _.
        branch-Answered req cport (Moves none) (gb_message_type req == 0x02) (λ _. refused)
          λ _.
            branch-Answered req cport (Moves none) (gb_message_type req == 0x03) (λ _. refused)
              λ _.
                branch-Answered req cport (Moves none) (gb_message_type req == 0x04) (λ _. refused)
                  λ _.
                    branch-Answered req cport (Moves none) (gb_message_type req == 0x05)
                      (λ _. refused) λ _. refused

-- With memory, and a driver whose list of at most 255 formats has an end: for every well-formed
-- request of any type, and with or without driver data, the camera's handler runs to its end,
-- answers the request once and frees it once, and the states of the camera and of its stream move
-- by a step of the diagram Step.
pub gb_camera_handler-Answered :
    (dev : VideoCall → ℤ) (alloc : ℕ → Option Bytes) (req : Message) (cport jpeg n : ℕ)
    (formats : List FormatCap) (st : Option Camera)
    → HasMemory alloc
    → IsMessage req
    → count_formats formats 0 ≡ some n
    → Answered req cport (Moves st) (gb_camera_handler dev alloc req cport jpeg formats st)
unfolding gb_camera_handler gb_camera_protocol_version
gb_camera_handler-Answered dev alloc req cport jpeg n formats (some c) memory m count =
    branch-Ok dev alloc req cport memory c (gb_message_type req == 0x01)
      (λ _.
        succeed-Answered req cport (Moves (some c)) alloc (0 ∷ 1 ∷ []) (some c) memory (omega arith)
          stays)
      λ _.
        branch-Ok dev alloc req cport memory c (gb_message_type req == 0x02)
          (λ _. capabilities-Ok dev alloc req cport memory c jpeg formats count)
          λ _.
            branch-Ok dev alloc req cport memory c (gb_message_type req == 0x03)
              (λ _. configure-Ok dev alloc req cport memory c m)
              λ _.
                branch-Ok dev alloc req cport memory c (gb_message_type req == 0x04)
                  (λ _. capture-Ok dev alloc req cport memory c m)
                  λ _.
                    branch-Ok dev alloc req cport memory c (gb_message_type req == 0x05)
                      (λ _. flush-Ok dev alloc req cport memory c)
                      λ _. same-Ok dev alloc req cport memory c gb_op_invalid
gb_camera_handler-Answered dev alloc req cport jpeg n formats none memory m count =
    none-Answered dev alloc req cport jpeg formats memory
