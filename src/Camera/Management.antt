-- ===== src/Camera/Management.antt =====
-- subsys/greybus/camera.c: the requests of the management cport, its state, and how it is connected.
-- `none` is undefined behaviour: a read past the payload or past the driver's formats, the copy of a
-- reply to NULL. The buffer in which a handler builds a reply's payload is its own, and not modelled.
use greybus_zephyr.Base.{
  ℕ, zero, suc, ◌+◌, ◌*◌, Bool, false, ◌&&◌, ◌||◌, not, Option, none, some, List, [], ◌∷◌, ◌++◌,
  Bytes, word16, le16, le32, ltb, ◌==◌, if◌then◌else◌, get_elem?, drop, min, ℤ, pos, negsuc,
  is_nonzero, ealready, ◌>>=◌,
}
use greybus_zephyr.Messages.{
  Message, gb_message_type, gb_message_payload_len, gb_op_success, gb_op_invalid, gb_op_no_memory,
  gb_op_unknown_error,
}
use greybus_zephyr.Transport.{device}
use greybus_zephyr.Transport.Stateful.{Outcome, refuse, after_calls, succeed}
use greybus_zephyr.Camera.{
  Camera, VideoCall, get_caps, stream_start, stream_stop, driver_flush, set_format,
  gb_camera_data_init, gb_camera_data_start_stream, gb_camera_data_stop_stream,
}

abbrev pub state_removed : ℕ
state_removed = 0

abbrev pub state_unconfigured : ℕ
state_unconfigured = 2

abbrev pub state_configured : ℕ
state_configured = 3

abbrev pub state_streaming : ℕ
state_streaming = 4

-- `GB_CAMERA_CAP_FMT_JPEG`
abbrev pub cap_fmt_jpeg : ℕ
cap_fmt_jpeg = 0x01

-- `GB_CAMERA_MAX_STREAMS`
abbrev pub max_streams : ℕ
max_streams = 4

-- The fields of Zephyr's `struct video_format_cap` that the code reads.
pub record FormatCap : Type 0 where
  pub pixelformat : ℕ
  pub width_max : ℕ
  pub height_max : ℕ

-- A handler is given NULL, `none`, where no driver data is set.
abbrev pub Reaction : Type 0
Reaction = Outcome VideoCall (Option Camera)

-- The test that opens each handler, on the driver data and its state.
abbrev pub in_state : (ℕ → Bool) → Message → ℕ → Option Camera → (Camera → Reaction) → Reaction
in_state bad req cport none act = refuse req cport gb_op_invalid none
in_state bad req cport (some c) act =
    if bad c.state then refuse req cport gb_op_invalid (some c) else act c

-- The loop that counts the formats, with those left. The count is a uint8_t: at 256 it is 0 again and the
-- loop does not end.
unfoldable pub count_formats : List FormatCap → ℕ → Option ℕ
count_formats [] num_formats = none
count_formats (f ∷ fs) num_formats =
    let rest = count_formats fs (num_formats + 1) in
    if f.pixelformat == 0 then some num_formats else if num_formats == 255 then none else rest

-- The loop that fills the reply, `struct gb_camera_format_desc` for each format, with the rounds left.
unfoldable pub format_descs : ℕ → ℕ → List FormatCap → Bytes
format_descs jpeg zero fs = []
format_descs jpeg (suc n) [] = []
format_descs jpeg (suc n) (f ∷ fs) =
    le32 (if f.pixelformat == jpeg then cap_fmt_jpeg else 0)
    ++ le16 f.width_max
    ++ le16 f.height_max
    ++ le16 30
    ++ le16 0
    ++ format_descs jpeg n fs

-- The stream that `req->config[i]` points at, and what follows it.
pub record Stream : Type 0 where
  pub width : ℕ
  pub height : ℕ
  pub format : ℕ

unfoldable pub next_stream : Bytes → Option (Stream × Bytes)
next_stream (w0 ∷ w1 ∷ h0 ∷ h1 ∷ f0 ∷ f1 ∷ p0 ∷ p1 ∷ config) =
    some (record { width = word16 w0 w1; height = word16 h0 h1; format = word16 f0 f1 }, config)
next_stream _ = none

-- What the loop over the streams has built: the format for the driver, the flags, and the configurations.
pub record Built : Type 0 where
  pub hw_width : ℕ
  pub hw_height : ℕ
  pub adjusted : Bool
  pub configs : Bytes

-- Before the loop; the format for the driver is not set yet, and is set in the first round.
abbrev pub unbuilt : Built
unbuilt = record { hw_width = 0; hw_height = 0; adjusted = false; configs = [] }

abbrev pub stream_config : Stream → Bytes
stream_config s =
    le16 s.width
    ++ le16 s.height
    ++ le16 cap_fmt_jpeg
    ++ 0 ∷ 0 ∷ 0 ∷ 0 ∷ 0 ∷ 0 ∷ []
    ++ le32 (min (s.width * s.height * 2) 4294967295)

-- A round for a stream that is valid.
unfoldable pub add_stream : ℕ → Stream → Built → Built
add_stream i s b = record {
  hw_width = if i == 0 then s.width else b.hw_width;
  hw_height = if i == 0 then s.height else b.hw_height;
  adjusted = b.adjusted || not (s.format == cap_fmt_jpeg) || not (i == 0);
  configs = b.configs ++ stream_config s;
}

-- The loop over the streams, with the rounds left; the inner `none` is the jump to `err_invalid_stream`.
unfoldable pub stream_loop : ℕ → ℕ → Bytes → Built → Option (Option Built)
stream_loop zero i config b = some (some b)
stream_loop (suc n) i config b = next_stream config >>= λ found.
    let rest = stream_loop n (i + 1) found.1 (add_stream i found.0 b) in
    if found.0.width == 0 || found.0.height == 0 then some none else rest

-- The result is -EALREADY.
abbrev pub is_already : ℤ → Bool
is_already (pos _) = false
is_already (negsuc n) = n + 1 == ealready

module _ (dev : VideoCall → ℤ) (alloc : ℕ → Option Bytes) (req : Message) (cport : ℕ) where
  unfoldable pub gb_camera_protocol_version : Option Camera → Reaction
  gb_camera_protocol_version st = succeed alloc req cport (0 ∷ 1 ∷ []) st

  -- The driver's pixel format for JPEG, and the formats that the driver describes, are parameters.
  unfoldable pub gb_camera_capabilities : ℕ → List FormatCap → Option Camera → Reaction
  gb_camera_capabilities jpeg formats st =
      in_state (λ s. ltb s state_unconfigured) req cport st
        λ c. after_calls (device get_caps ∷ []) (
          if is_nonzero (dev get_caps)
          then refuse req cport gb_op_unknown_error st
          else count_formats formats 0 >>= λ n.
              if n == 0
              then refuse req cport gb_op_unknown_error st
              else elim (alloc (4 + n * 12)) [
                | none ↦ refuse req cport gb_op_no_memory st
                | some _ ↦ succeed alloc req cport (n ∷ 0 ∷ 0 ∷ 0 ∷ format_descs jpeg n formats) st
              ])

  -- What follows the loop over the streams.
  unfoldable pub set_streams : ℕ → Camera → Option Built → Reaction
  set_streams n c none = refuse req cport gb_op_invalid (some c)
  set_streams n c (some b) = after_calls (device (set_format b.hw_width b.hw_height) ∷ []) (
      if is_nonzero (dev (set_format b.hw_width b.hw_height))
      then refuse req cport gb_op_unknown_error (some c)
      else succeed alloc req cport
          (n ∷ (if b.adjusted then 0x01 else 0) ∷ 0 ∷ 0 ∷ le32 0 ++ b.configs)
          (some (record c { state = state_configured })))

  unfoldable pub gb_camera_configure_streams : Option Camera → Reaction
  gb_camera_configure_streams st =
      in_state (λ s. s == state_streaming) req cport st
        λ c.
          if ltb (gb_message_payload_len req) 4
          then refuse req cport gb_op_invalid st
          else get_elem? req.payload 0 >>= λ n.
              if n == 0 || ltb max_streams n
              then refuse req cport gb_op_invalid st
              else if not (gb_message_payload_len req == 4 + n * 8)
              then refuse req cport gb_op_invalid st
              else elim (alloc (8 + n * 16)) [
                | none ↦ refuse req cport gb_op_no_memory st
                | some _ ↦
                    stream_loop n 0 (drop 4 req.payload) unbuilt >>= λ built. set_streams n c built
              ]

  -- What follows the start of the data stream, of which the state is `c`.
  unfoldable pub start_video : Camera → Reaction
  start_video c =
      if c.state == state_streaming
      then refuse req cport gb_op_success (some c)
      else after_calls (device stream_start ∷ []) (
          if is_nonzero (dev stream_start)
          then (let ((es, ret), c') = gb_camera_data_stop_stream dev c in
              after_calls es (refuse req cport gb_op_unknown_error (some c')))
          else refuse req cport gb_op_success (some (record c { state = state_streaming })))

  unfoldable pub gb_camera_capture : Option Camera → Reaction
  gb_camera_capture st =
      in_state (λ s. ltb s state_configured) req cport st
        λ c. if not (gb_message_payload_len req == 8) then refuse req cport gb_op_invalid st else do
          n0 ← get_elem? req.payload 6
          n1 ← get_elem? req.payload 7
          let started = gb_camera_data_start_stream dev c (word16 n0 n1)
          after_calls started.0.0 (
              if is_nonzero started.0.1 && not (is_already started.0.1)
              then refuse req cport gb_op_unknown_error (some started.1)
              else start_video started.1)

  -- What follows the end of the data stream, of which the state is `c`.
  unfoldable pub stop_video : Camera → Reaction
  stop_video c = after_calls (device stream_stop ∷ []) (
      if is_nonzero (dev stream_stop)
      then refuse req cport gb_op_unknown_error (some c)
      else after_calls (device driver_flush ∷ []) (
          if is_nonzero (dev driver_flush)
          then refuse req cport gb_op_unknown_error (some c)
          else succeed alloc req cport (le32 c.frame_id)
              (some (record c { state = state_configured }))))

  unfoldable pub gb_camera_flush : Option Camera → Reaction
  gb_camera_flush st =
      in_state (λ s. ltb s state_streaming) req cport st
        λ c.
          let stopped = gb_camera_data_stop_stream dev c in
          after_calls stopped.0.0 (stop_video stopped.1)

  unfoldable pub gb_camera_handler : ℕ → List FormatCap → Option Camera → Reaction
  gb_camera_handler jpeg formats st =
      if gb_message_type req == 0x01
      then gb_camera_protocol_version st
      else if gb_message_type req == 0x02
      then gb_camera_capabilities jpeg formats st
      else if gb_message_type req == 0x03
      then gb_camera_configure_streams st
      else if gb_message_type req == 0x04
      then gb_camera_capture st
      else if gb_message_type req == 0x05
      then gb_camera_flush st
      else refuse req cport gb_op_invalid st

-- `ready` is the answer of the device that the driver data names, which is not NULL.
unfoldable pub gb_camera_connected : Bool → ℕ → Option Camera → Option Camera
gb_camera_connected ready cport none = none
gb_camera_connected ready cport (some c) =
    if ready
    then some (gb_camera_data_init (record c { state = state_unconfigured }) cport)
    else some (record c { state = state_removed })

unfoldable pub gb_camera_disconnected : Option Camera → Option Camera
gb_camera_disconnected none = none
gb_camera_disconnected (some c) = some (record c { state = state_removed })
