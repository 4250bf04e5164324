-- ===== src/Camera.antt =====
-- subsys/greybus/camera_data.c: frames of a camera, cut into messages on the camera's cport.
-- `Camera/Management.antt` has the requests of camera.c. Zephyr's video driver is the parameter `dev`, the
-- result of each of its calls; the work item and its mutex leave the worker alone with the state.
pub mod Fragments
pub mod Management
pub mod Replies
pub mod Streams
pub mod Answers
pub mod States
mod Tests
use greybus_zephyr.Base.{
  ℕ, zero, suc, ◌+◌, ◌-◌, ◌%◌, ◌^◌, Bool, true, false, ◌&&◌, Option, none, some, List, [], ◌∷◌,
  ◌++◌, Bytes, ltb, ◌==◌, if◌then◌else◌, get_or, take, drop, length, overwrite, ℤ, pos, neg, is_neg,
  is_nonzero, ealready, enomem,
}
use greybus_zephyr.Messages.{Message, header_size}
use greybus_zephyr.Transport.{Effects, send, device}

-- `enum gb_data_stream_state`
pub data StreamState : Type 0 where
  idle streaming stopping : StreamState

abbrev pub is_streaming : StreamState → Bool
is_streaming streaming = true
is_streaming _ = false

abbrev pub is_idle : StreamState → Bool
is_idle idle = true
is_idle _ = false

-- `struct gb_camera_driver_data`, with its `info` and its `data_ctx`.
pub record Camera : Type 0 where
  pub state : ℕ
  pub data_cport : ℕ
  pub stream_state : StreamState
  pub frame_id : ℕ
  pub sequence_num : ℕ
  pub target_frames : ℕ

-- The calls of the video driver and of the work queue. The number is that of the buffer.
pub data VideoCall : Type 0 where
  get_caps stream_start stream_stop driver_flush recycle release schedule cancel : VideoCall
  set_format : ℕ → ℕ → VideoCall
  buffer_alloc enqueue : ℕ → VideoCall

-- `GB_CAMERA_DATA_MTU`
abbrev pub gb_camera_data_mtu : ℕ
gb_camera_data_mtu = 1024

-- `GB_CAMERA_NUM_BUFFERS`
abbrev pub gb_camera_num_buffers : ℕ
gb_camera_num_buffers = 3

-- `GB_CAMERA_TYPE_DATA`
abbrev pub gb_camera_type_data : ℕ
gb_camera_type_data = 0x00

unfoldable pub gb_camera_data_init : Camera → ℕ → Camera
gb_camera_data_init c cport = record c {
  data_cport = cport;
  stream_state = idle;
  frame_id = 0;
  sequence_num = 0;
}

-- A message in a block of the slab: what is not set is what the block held.
unfoldable pub fragment : Bytes → Bytes → Message
fragment block chunk = record {
  header = record {
    size = (header_size + length chunk) % 2 ^ 16;
    operation_id = 0;
    type = gb_camera_type_data;
    result = get_or block 5 0;
    pad = take 2 (drop 6 block);
  };
  payload = overwrite (drop header_size block) chunk;
}

module _ (dev : VideoCall → ℤ) where
  -- The loop over the buffers, with the rounds left: its calls and its result. A buffer that cannot be
  -- allocated is NULL, for which the driver's result is not 0.
  unfoldable pub enqueue_buffers : ℕ → ℕ → Effects VideoCall × ℤ
  enqueue_buffers zero i = ([], pos 0)
  enqueue_buffers (suc left) i =
      let rest = enqueue_buffers left (i + 1) in
      if is_nonzero (dev (buffer_alloc i))
      then (device (buffer_alloc i) ∷ [], neg enomem)
      else if is_nonzero (dev (enqueue i))
      then (device (buffer_alloc i) ∷ device (enqueue i) ∷ device release ∷ [], dev (enqueue i))
      else (device (buffer_alloc i) ∷ device (enqueue i) ∷ rest.0, rest.1)

  -- What follows the loop.
  abbrev pub started : Camera → Effects VideoCall × ℤ → (Effects VideoCall × ℤ) × Camera
  started c (es, ret) =
      if is_nonzero ret
      then ((es, ret), c)
      else ((es ++ device schedule ∷ [], pos 0), record c { stream_state = streaming })

  unfoldable pub gb_camera_data_start_stream : Camera → ℕ → (Effects VideoCall × ℤ) × Camera
  gb_camera_data_start_stream c num_frames =
      if is_streaming c.stream_state
      then (([], neg ealready), c)
      else started (record c { target_frames = num_frames })
          (enqueue_buffers gb_camera_num_buffers 0)

  unfoldable pub gb_camera_data_stop_stream : Camera → (Effects VideoCall × ℤ) × Camera
  gb_camera_data_stop_stream c =
      if is_idle c.stream_state
      then (([], neg ealready), c)
      else ((device cancel ∷ [], pos 0), record c { stream_state = idle })

-- The loop over a frame, with rounds as fuel, the bytes left and the number of the fragment: `slab` is the
-- block that the slab gives for it, and `sent` what the transport returns.
unfoldable pub send_fragments :
    (ℕ → Option Bytes) → (ℕ → ℤ) → ℕ → ℕ → Bytes → ℕ → Option (Effects VideoCall)
send_fragments slab sent cport zero left i = none
send_fragments slab sent cport (suc fuel) [] i = some []
send_fragments slab sent cport (suc fuel) (b ∷ left) i =
    let chunk = take gb_camera_data_mtu (b ∷ left) in
    let rest = send_fragments slab sent cport fuel (drop gb_camera_data_mtu (b ∷ left)) (i + 1) in
    elim (slab i) [
      | none ↦ some []
      | some block ↦
          if is_neg (sent i)
          then some (send cport (fragment block chunk) ∷ [])
          else elim rest [ none ↦ none | some es ↦ some (send cport (fragment block chunk) ∷ es) ]
    ]

-- The work is scheduled again while the camera streams.
abbrev reschedule : Camera → Effects VideoCall
reschedule c = if is_streaming c.stream_state then device schedule ∷ [] else []

-- The end of a round that has sent a frame: a buffer that the driver does not take back is released.
abbrev recycled : (VideoCall → ℤ) → Effects VideoCall
recycled dev =
    if is_nonzero (dev recycle) then device recycle ∷ device release ∷ [] else device recycle ∷ []

-- A round of the worker; `frame` is what it dequeues.
unfoldable pub gb_camera_frame_worker :
    (VideoCall → ℤ)
    → (ℕ → Option Bytes)
    → (ℕ → ℤ)
    → Option Bytes
    → Camera
    → Option (Effects VideoCall × Camera)
gb_camera_frame_worker dev slab sent frame c =
    if is_streaming c.stream_state
    then elim frame [
      | none ↦ some (reschedule c, c)
      | some bytes ↦
          let c' = record c { frame_id = (c.frame_id + 1) % 2 ^ 32 } in
          if ltb 0 c'.target_frames && ltb c'.target_frames c'.frame_id
          then some (device recycle ∷ [], record c' { stream_state = idle })
          else elim (send_fragments slab sent c.data_cport (suc (length bytes)) bytes 0) [
            | none ↦ none
            | some es ↦ some (es ++ (recycled dev ++ reschedule c'), c')
          ]
    ]
    else some ([], c)
