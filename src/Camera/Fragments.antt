-- ===== src/Camera/Fragments.antt =====
-- camera_data.c: the messages of a frame carry the frame, and the worker stops after the frames asked for.
use greybus_zephyr.Base.{
  ℕ, zero, suc, ◌+◌, ◌%◌, ◌^◌, ◌≤◌, ◌<◌, ◌≡◌, ◌⊎◌, refl, ap, true, false, Option, some, List, [],
  ◌∷◌, ◌++◌, Bytes, arith, ltb, take, drop, take-append_exact, take-append-drop, length,
  length-take, length-drop, ℤ, pos, is_neg, is_nonzero, ◌&&◌,
}
use greybus_zephyr.Messages.{Message, gb_message_payload_len}
use greybus_zephyr.Transport.{Effects, send, dealloc, device}
use greybus_zephyr.Transport.Laws.{sends}
use greybus_zephyr.Camera.{
  idle, streaming, is_streaming, Camera, VideoCall, gb_camera_data_mtu, gb_camera_type_data,
  fragment, send_fragments, enqueue_buffers, schedule, gb_camera_num_buffers,
  gb_camera_data_start_stream, gb_camera_frame_worker, recycled,
}

-- The bytes that a receiver of these messages reads, one message after another.
abbrev pub carried : List (ℕ × Message) → Bytes
carried [] = []
carried ((cport, msg) ∷ ms) = take (gb_message_payload_len msg) msg.payload ++ carried ms

-- Every message is a fragment on the cport: of the data type, with one byte to as many as the MTU.
abbrev pub AllFragments : ℕ → List (ℕ × Message) → Type 0
AllFragments cport [] = Unit
AllFragments cport ((c, msg) ∷ ms) =
    (c ≡ cport)
    × (msg.header.type ≡ gb_camera_type_data)
    × (0 < gb_message_payload_len msg)
    × (gb_message_payload_len msg ≤ gb_camera_data_mtu)
    × AllFragments cport ms

fragment-len :
    (block chunk : Bytes)
    → length chunk ≤ gb_camera_data_mtu
    → gb_message_payload_len (fragment block chunk) ≡ length chunk
unfolding fragment gb_message_payload_len
fragment-len block chunk h = omega arith

fragment-type : (block chunk : Bytes) → (fragment block chunk).header.type ≡ gb_camera_type_data
unfolding fragment
fragment-type block chunk = refl

fragment-carries :
    (block chunk : Bytes)
    → length chunk ≤ gb_camera_data_mtu
    → take (gb_message_payload_len (fragment block chunk)) (fragment block chunk).payload ≡ chunk
unfolding fragment
fragment-carries block chunk h =
    rw (fragment-len block chunk h) (take-append_exact (length chunk) chunk _ refl)

-- A slab that has a block for every fragment, and a transport that sends every one.
pub record Delivers (slab : ℕ → Option Bytes) (sent : ℕ → ℤ) : Type 0 where
  pub blocks : (i : ℕ) → (block : Bytes) × (slab i ≡ some block)
  pub sends_all : (i : ℕ) → is_neg (sent i) ≡ false

send_fragments_lem :
    (slab : ℕ → Option Bytes) (sent : ℕ → ℤ) (cport : ℕ)
    → Delivers slab sent
    → (fuel : ℕ) (left : Bytes) (i : ℕ) → length left < fuel
    → (es : Effects VideoCall) × (send_fragments slab sent cport fuel left i ≡ some es)
      × (carried (sends es) ≡ left)
      × AllFragments cport (sends es)
unfolding send_fragments
send_fragments_lem slab sent cport d zero left i h = absurd (omega arith)
send_fragments_lem slab sent cport d (suc fuel) [] i h = ([], refl, refl, tt)
send_fragments_lem slab sent cport d (suc fuel) (b ∷ left) i h =
    let chunk = take gb_camera_data_mtu (b ∷ left) in
    let (block, gives) = d.blocks i in
    let (es, runs, carries, all) =
      send_fragments_lem slab sent cport d fuel (drop gb_camera_data_mtu (b ∷ left)) (i + 1)
        (omega (arith, length-drop gb_camera_data_mtu (b ∷ left))) in
    let size = length-take gb_camera_data_mtu (b ∷ left) in
    let short : length chunk ≤ gb_camera_data_mtu = omega (arith, size) in
    let len = fragment-len block chunk short in
    (
      send cport (fragment block chunk) ∷ es,
      rw (gives, send_fragments, d.sends_all i, runs) refl,
      rw (fragment-carries block chunk short, carries)
          (take-append-drop gb_camera_data_mtu (b ∷ left)),
      (refl, fragment-type block chunk, omega (arith, len, size), omega (arith, len, short), all),
    )

sends-append :
    (ds : Effects VideoCall) (es : Effects VideoCall) → sends es ≡ [] → sends (ds ++ es) ≡ sends ds
sends-append [] es e = e
sends-append (send c m ∷ ds) es e = ap (◌∷◌ (c, m)) (sends-append ds es e)
sends-append (dealloc o ∷ ds) es e = sends-append ds es e
sends-append (device d ∷ ds) es e = sends-append ds es e

silent : (dev : VideoCall → ℤ) → sends (recycled dev ++ device schedule ∷ []) ≡ []
silent dev = ground arith

-- With a block for every fragment and a transport that sends them all, a streaming camera that
-- has not sent the frames it was asked for sends the next frame as messages of the data type on
-- its data cport, with 1 to 1024 bytes each, which carry the bytes of the frame in order, and
-- counts the frame.
pub gb_camera_frame_worker-frame :
    (dev : VideoCall → ℤ) (slab : ℕ → Option Bytes) (sent : ℕ → ℤ) (frame : Bytes) (c : Camera)
    → Delivers slab sent
    → c.stream_state ≡ streaming
    → (c.target_frames ≡ 0) ⊎ ((c.frame_id + 1) % 2 ^ 32 ≤ c.target_frames)
    → (es : Effects VideoCall) × (gb_camera_frame_worker dev slab sent (some frame) c
        ≡ some (es, record c { frame_id = (c.frame_id + 1) % 2 ^ 32 }))
      × (carried (sends es) ≡ frame)
      × AllFragments c.data_cport (sends es)
unfolding gb_camera_frame_worker
gb_camera_frame_worker-frame dev slab sent frame c d on more =
    let (es, runs, carries, all) =
      send_fragments_lem slab sent c.data_cport d (suc (length frame)) frame 0 (omega arith) in
    let is_on : is_streaming c.stream_state ≡ true = ap is_streaming on in
    let goes_on : (ltb 0 c.target_frames && ltb c.target_frames ((c.frame_id + 1) % 2 ^ 32))
        ≡ false =
      ground (arith, more) in
    let same = sends-append es (recycled dev ++ device schedule ∷ []) (silent dev) in
    (
      es ++ (recycled dev ++ device schedule ∷ []),
      rw (is_on, goes_on, runs) (rw is_on refl),
      rw same carries,
      rw same all,
    )

-- If a camera whose stream has ended has sent at least as many frames in all as a new capture
-- asks for, the capture starts the stream, and the first frame is dropped and ends the stream:
-- nothing is sent.
pub gb_camera_frame_worker-spent :
    (dev : VideoCall → ℤ) (slab : ℕ → Option Bytes) (sent : ℕ → ℤ) (frame : Bytes) (c : Camera)
    (num_frames : ℕ)
    → c.stream_state ≡ idle
    → (enqueue_buffers dev gb_camera_num_buffers 0).1 ≡ pos 0
    → 0 < num_frames
    → num_frames ≤ c.frame_id
    → c.frame_id + 1 < 2 ^ 32
    → let c' = (gb_camera_data_start_stream dev c num_frames).1 in
      (c'.stream_state ≡ streaming)
      × (gb_camera_frame_worker dev slab sent (some frame) c'
          ≡ some (
            device VideoCall.recycle ∷ [],
            record c' { frame_id = c.frame_id + 1; stream_state = idle },
          ))
unfolding gb_camera_frame_worker gb_camera_data_start_stream
gb_camera_frame_worker-spent dev slab sent frame c num_frames off ok some_frames past small =
    let is_off : is_streaming c.stream_state ≡ false = ap is_streaming off in
    let started_ok : is_nonzero (enqueue_buffers dev gb_camera_num_buffers 0).1 ≡ false =
      ap is_nonzero ok in
    let next : (c.frame_id + 1) % 2 ^ 32 ≡ c.frame_id + 1 = omega arith in
    let over : (ltb 0 num_frames && ltb num_frames (c.frame_id + 1)) ≡ true = ground arith in
    rw (is_off, started_ok) (refl, rw (next, over) refl)
