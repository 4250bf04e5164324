-- ===== src/Camera/States.antt =====
-- camera.c with camera_data.c: requests and rounds of the worker in any order, after the camera is connected.
use greybus_zephyr.Base.{
  IfSome, ◌%◌, ℕ, suc, ◌+◌, ◌^◌, ◌≤◌, ◌≡◌, ◌≢◌, ◌⊎◌, inl, inr, refl, sym, ◌∙◌, true, Bool-cases,
  Option-cases, Option, none, some, List, Bytes, arith, ltb, length, ℤ, ◌&&◌,
}
use greybus_zephyr.Messages.{Message}
use greybus_zephyr.Messages.Laws.{IsMessage, HasMemory}
use greybus_zephyr.Transport.{Effects}
use greybus_zephyr.Camera.{StreamState, idle, streaming, is_streaming, Camera, VideoCall}
use greybus_zephyr.Camera.Management.{
  state_unconfigured, state_streaming, FormatCap, Reaction, count_formats, gb_camera_handler,
}
use greybus_zephyr.Camera.Replies.{Step, stays, configures, captures, drops, flushes, Moves}
use greybus_zephyr.Camera.{gb_camera_frame_worker, send_fragments, gb_camera_data_init}
use greybus_zephyr.Camera.Management.{gb_camera_connected}
use greybus_zephyr.Camera.Replies.{Step, stays, configures, captures, drops, flushes, Moves}
use greybus_zephyr.Camera.Answers.{gb_camera_handler-Answered}

-- A stream that runs is that of a camera that streams, and no state is one that the code does not name.
pub record IsSound (c : Camera) : Type 0 where
  pub low : state_unconfigured ≤ c.state
  pub high : c.state ≤ state_streaming
  pub sound : c.stream_state ≡ streaming → c.state ≡ state_streaming

idle-streaming : idle ≢ streaming
idle-streaming e = cc e

some-inj : {c c' : Camera} → some c ≡ some c' → c ≡ c'
some-inj e = cc e

some-right :
    {r : Reaction} {es es' : Effects VideoCall} {st st' : Option Camera}
    → r ≡ some (es, st)
    → r ≡ some (es', st')
    → st ≡ st'
some-right e k = cc (e, k)

-- Requests, with memory for their replies, and rounds of the worker, in any order.
pub data Runs : Camera → Camera → Type 0 where
  done : {c : Camera} → Runs c c
  request :
      (dev : VideoCall → ℤ) (alloc : ℕ → Option Bytes) (req : Message) (cport jpeg n : ℕ)
      (formats : List FormatCap) {c c' c'' : Camera} {es : Effects VideoCall}
      → HasMemory alloc
      → IsMessage req
      → count_formats formats 0 ≡ some n
      → gb_camera_handler dev alloc req cport jpeg formats (some c) ≡ some (es, some c')
      → Runs c' c''
      → Runs c c''
  round :
      (dev : VideoCall → ℤ) (slab : ℕ → Option Bytes) (sent : ℕ → ℤ) (frame : Option Bytes)
      {c c' c'' : Camera} {es : Effects VideoCall}
      → gb_camera_frame_worker dev slab sent frame c ≡ some (es, c')
      → Runs c' c''
      → Runs c c''

Step-IsSound :
    {s s' : ℕ} {t t' : StreamState}
    → Step s t s' t'
    → state_unconfigured ≤ s
    → s ≤ state_streaming
    → (t ≡ streaming → s ≡ state_streaming)
    → (state_unconfigured ≤ s') × (s' ≤ state_streaming) × (t' ≡ streaming → s' ≡ state_streaming)
Step-IsSound stays l h k = (l, h, k)
Step-IsSound (configures off) l h k = (omega arith, omega arith, λ e. absurd (off (k e)))
Step-IsSound (captures up how) l h k = (omega arith, omega arith, λ _. refl)
Step-IsSound (drops up) l h k = (l, h, λ e. absurd (idle-streaming e))
Step-IsSound (flushes up) l h k = (omega arith, omega arith, λ e. absurd (idle-streaming e))

-- What a round leaves: the state, and the stream as it was or idle.
Keeps : Camera → Effects VideoCall × Camera → Type 0
Keeps c (es, c') =
    (c'.state ≡ c.state) × ((c'.stream_state ≡ c.stream_state) ⊎ (c'.stream_state ≡ idle))

worker-Keeps :
    (dev : VideoCall → ℤ) (slab : ℕ → Option Bytes) (sent : ℕ → ℤ) (frame : Option Bytes)
    (c : Camera)
    → IfSome (Keeps c) (gb_camera_frame_worker dev slab sent frame c)
unfolding gb_camera_frame_worker Keeps
worker-Keeps dev slab sent none c = elim (Bool-cases (is_streaming c.stream_state)) [
  | inr off ↦ rw off (refl, inl refl)
  | inl on ↦ rw on (refl, inl refl)
]
worker-Keeps dev slab sent (some bytes) c =
    let next = (c.frame_id + 1) % 2 ^ 32 in
    elim (Bool-cases (is_streaming c.stream_state)) [
      | inr off ↦ rw off (refl, inl refl)
      | inl on ↦ elim (Bool-cases (ltb 0 c.target_frames && ltb c.target_frames next)) [
        | inl over ↦ rw (on, over) (refl, inr refl)
        | inr more ↦
            elim (Option-cases
              (send_fragments slab sent c.data_cport (suc (length bytes)) bytes 0)) [
                | inl out ↦ rw (on, more, out) tt
                | inr (es, runs) ↦ rw (on, more, runs) (refl, inl refl)
              ]
      ]
    ]

Keeps-IsSound : (c : Camera) (r : Effects VideoCall × Camera) → Keeps c r → IsSound c → IsSound r.1
unfolding Keeps
Keeps-IsSound c (es, c') (e, inl same) ok = record {
  low = rw e ok.low;
  high = rw e ok.high;
  sound = λ t. e ∙ ok.sound (sym same ∙ t);
}
Keeps-IsSound c (es, c') (e, inr off) ok = record {
  low = rw e ok.low;
  high = rw e ok.high;
  sound = λ t. absurd (idle-streaming (sym off ∙ t));
}

Moves-IsSound :
    (c : Camera) (st : Option Camera) → Moves (some c) st → IsSound c → IfSome IsSound st
Moves-IsSound c none h ok = absurd h
Moves-IsSound c (some c') h ok =
    let (low, high, sound) = Step-IsSound h ok.low ok.high ok.sound in
    record { low = low; high = high; sound = sound }

Runs-IsSound : {c c'' : Camera} → Runs c c'' → IsSound c → IsSound c''
Runs-IsSound done ok = ok
Runs-IsSound (request dev alloc req cport jpeg n formats {c} {c'} memory m count runs more) ok =
    let a = gb_camera_handler-Answered dev alloc req cport jpeg n formats (some c) memory m count in
    let left : a.left ≡ some c' = some-right a.runs runs in
    Runs-IsSound more (rw left at (Moves-IsSound c a.left a.holds ok))
Runs-IsSound (round dev slab sent frame {c = c} {c' = c'} {es = es} runs more) ok =
    Runs-IsSound more
      (Keeps-IsSound c (es, c') (rw runs at (worker-Keeps dev slab sent frame c)) ok)

-- Once a camera that is ready has been connected, then after any sequence of well-formed
-- requests, with memory for their replies, and of rounds of the frame worker, its state is one of
-- unconfigured, configured and streaming, and its stream runs only while the state is streaming.
pub gb_camera_connected-IsSound :
    (cport : ℕ) (c c' c'' : Camera)
    → gb_camera_connected true cport (some c) ≡ some c'
    → Runs c' c''
    → IsSound c''
unfolding gb_camera_connected gb_camera_data_init
gb_camera_connected-IsSound cport c c' c'' e runs =
    let fresh : IsSound (gb_camera_data_init (record c { state = state_unconfigured }) cport) =
      record { low = omega arith; high = omega arith; sound = λ t. absurd (idle-streaming t) } in
    Runs-IsSound runs (rw (some-inj e) at fresh)
