-- ===== src/Camera/Tests.antt =====
-- A camera that sends frames of three bytes.
use greybus_zephyr.Base.{
  ℕ, ◌+◌, ◌%◌, ◌^◌, ◌≡◌, refl, inr, true, Option, none, some, List, [], ◌∷◌, Bytes, arith,
  replicate, ℤ, pos,
}
use greybus_zephyr.Messages.{
  Message, gb_message_type, gb_message_payload_len, gb_message_response_alloc_from_req,
  gb_message_alloc,
}
use greybus_zephyr.Samples.{zeroed, zeroed-HasMemory, message, message-IsMessage}
use greybus_zephyr.Transport.{Effects, device, gb_transport_message_response_success_send}
use greybus_zephyr.Transport.Stateful.{succeed, Answered}
use greybus_zephyr.Transport.Laws.{sends}
use greybus_zephyr.Camera.{
  idle, streaming, Camera, VideoCall, recycle, enqueue_buffers, gb_camera_num_buffers,
  gb_camera_data_init, gb_camera_data_start_stream, gb_camera_frame_worker,
}
use greybus_zephyr.Camera.Fragments.{
  carried, AllFragments, Delivers, gb_camera_frame_worker-frame, gb_camera_frame_worker-spent,
}
use greybus_zephyr.Camera.Management.{
  FormatCap, count_formats, set_streams, stream_loop, next_stream, add_stream, gb_camera_handler,
  gb_camera_configure_streams, gb_camera_connected,
}
use greybus_zephyr.Camera.Replies.{Moves}
use greybus_zephyr.Camera.Answers.{gb_camera_handler-Answered}
use greybus_zephyr.Camera.States.{done, request, round, IsSound, gb_camera_connected-IsSound}

abbrev dev : VideoCall → ℤ
dev call = pos 0

abbrev slab : ℕ → Option Bytes
slab i = some (replicate 1032 0)

abbrev sent : ℕ → ℤ
sent i = pos 0

slab-Delivers : Delivers slab sent
slab-Delivers = record { blocks = λ i. (replicate 1032 0, refl); sends_all = λ i. refl }

abbrev capturing : Camera
capturing = record {
  state = 4;
  data_cport = 5;
  stream_state = streaming;
  frame_id = 0;
  sequence_num = 0;
  target_frames = 2;
}

-- Two frames have been sent, and the stream has ended.
abbrev ended : Camera
ended = record capturing { stream_state = idle; frame_id = 3 }

abbrev frame : Bytes
frame = 1 ∷ 2 ∷ 3 ∷ []

gb_camera_frame_worker-frame_example :
    (es : Effects VideoCall) × (gb_camera_frame_worker dev slab sent (some frame) capturing
      ≡ some (es, record capturing { frame_id = (0 + 1) % 2 ^ 32 }))
    × (carried (sends es) ≡ frame)
    × AllFragments 5 (sends es)
gb_camera_frame_worker-frame_example =
    gb_camera_frame_worker-frame dev slab sent frame capturing slab-Delivers refl
      (inr (omega arith))

all_enqueued : (enqueue_buffers dev gb_camera_num_buffers 0).1 ≡ pos 0
unfolding enqueue_buffers
all_enqueued = refl

gb_camera_frame_worker-spent_example :
    let c' = (gb_camera_data_start_stream dev ended 2).1 in
    (c'.stream_state ≡ streaming)
    × (gb_camera_frame_worker dev slab sent (some frame) c'
        ≡ some (device recycle ∷ [], record c' { frame_id = 3 + 1; stream_state = idle }))
gb_camera_frame_worker-spent_example =
    gb_camera_frame_worker-spent dev slab sent frame ended 2 refl all_enqueued (omega arith)
      (omega arith) (omega arith)

abbrev formats : List FormatCap
formats =
    record { pixelformat = 0x4745504a; width_max = 640; height_max = 480 }
    ∷ record { pixelformat = 0; width_max = 0; height_max = 0 }
    ∷ []

one_format : count_formats formats 0 ≡ some 1
unfolding count_formats
one_format = refl

-- One stream of 640 by 480 in a format that is not JPEG.
abbrev configure : Message
configure = message 0x03 (1 ∷ 0 ∷ 0 ∷ 0 ∷ 0x80 ∷ 2 ∷ 0xe0 ∷ 1 ∷ 7 ∷ 0 ∷ 0 ∷ 0 ∷ [])

gb_camera_handler-Answered_example :
    Answered configure 4
      (Moves (some ended))
      (gb_camera_handler dev zeroed configure 4 0x4745504a formats (some ended))
gb_camera_handler-Answered_example =
    gb_camera_handler-Answered dev zeroed configure 4 0x4745504a 1 formats (some ended)
      zeroed-HasMemory (message-IsMessage 0x03 _ (omega arith)) one_format

abbrev fresh : Camera
fresh = record {
  state = 2;
  data_cport = 5;
  stream_state = idle;
  frame_id = 0;
  sequence_num = 0;
  target_frames = 0;
}

connected : gb_camera_connected true 5 (some ended) ≡ some (record fresh { target_frames = 2 })
unfolding gb_camera_connected gb_camera_data_init
connected = refl

-- What the configuration of the camera leaves.
configured :
    (es : Effects VideoCall) × (gb_camera_handler dev zeroed configure 4 0x4745504a formats
        (some (record fresh { target_frames = 2 }))
      ≡ some (es, some (record fresh { state = 3; target_frames = 2 })))
unfolding gb_camera_handler gb_camera_configure_streams stream_loop next_stream add_stream
    set_streams succeed gb_message_type gb_message_payload_len
    gb_transport_message_response_success_send gb_message_response_alloc_from_req gb_message_alloc
configured = (_, refl)

rests :
    gb_camera_frame_worker dev slab sent none (record fresh { state = 3; target_frames = 2 })
    ≡ some ([], record fresh { state = 3; target_frames = 2 })
unfolding gb_camera_frame_worker
rests = refl

gb_camera_connected-IsSound_example : IsSound (record fresh { state = 3; target_frames = 2 })
gb_camera_connected-IsSound_example =
    gb_camera_connected-IsSound 5 ended (record fresh { target_frames = 2 })
      (record fresh { state = 3; target_frames = 2 }) connected
      (request dev zeroed configure 4 0x4745504a 1 formats zeroed-HasMemory
        (message-IsMessage 0x03 _ (omega arith)) one_format configured.1
        (round dev slab sent none rests done))
