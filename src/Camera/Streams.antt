-- ===== src/Camera/Streams.antt =====
-- subsys/greybus/camera_data.c: what the start and the end of a stream leave.
use greybus_zephyr.Base.{
  ℕ, zero, suc, ◌+◌, ◌≤◌, ◌≡◌, ◌⊎◌, inl, inr, refl, Bool, true, false, Bool-cases, ℤ, is_nonzero,
  ◌&&◌,
}
use greybus_zephyr.Transport.{Effects}
use greybus_zephyr.Transport.Laws.{OnlyCalls, OnlyCalls-append}
use greybus_zephyr.Camera.{
  StreamState, idle, streaming, is_idle, is_streaming, started, Camera, VideoCall, enqueue_buffers,
  gb_camera_num_buffers, gb_camera_data_start_stream, gb_camera_data_stop_stream,
}
use greybus_zephyr.Camera.Management.{state_configured, state_streaming}
use greybus_zephyr.Camera.Replies.{Step, stays, captures, drops, flushes}

pub and-left : (a b : Bool) → (a && b) ≡ true → a ≡ true
and-left true b e = refl
and-left false b e = e

pub Step-same : {s s' : ℕ} {t t' : StreamState} → s' ≡ s → t' ≡ t → Step s t s' t'
Step-same e k = rw (e, k) stays

pub Step-captures :
    {s s' : ℕ} {t t' : StreamState}
    → s' ≡ state_streaming
    → state_configured ≤ s
    → (t' ≡ streaming) ⊎ (t' ≡ t)
    → Step s t s' t'
Step-captures e h k = rw e (captures h k)

pub Step-drops :
    {s s' : ℕ} {t t' : StreamState} → s' ≡ s → t' ≡ idle → state_configured ≤ s → Step s t s' t'
Step-drops e k h = rw (e, k) (drops h)

pub Step-flushes :
    {s : ℕ} {t t' : StreamState} → t' ≡ idle → state_streaming ≤ s → Step s t state_configured t'
Step-flushes k h = rw k (flushes h)

-- What the start of the stream makes of the camera.
pub record Starts (c : Camera) (r : (Effects VideoCall × ℤ) × Camera) : Type 0 where
  pub only : OnlyCalls r.0.0
  pub state_is : r.1.state ≡ c.state
  pub stream_is : (r.1.stream_state ≡ streaming) ⊎ (r.1.stream_state ≡ c.stream_state)
  pub failed : is_nonzero r.0.1 ≡ true → r.1.stream_state ≡ c.stream_state

enqueue_buffers-only : (dev : VideoCall → ℤ) (left i : ℕ) → OnlyCalls (enqueue_buffers dev left i).0
unfolding enqueue_buffers
enqueue_buffers-only dev zero i = tt
enqueue_buffers-only dev (suc left) i =
    elim (Bool-cases (is_nonzero (dev (VideoCall.buffer_alloc i)))) [
      | inl bad ↦ rw bad tt
      | inr ok ↦ elim (Bool-cases (is_nonzero (dev (VideoCall.enqueue i)))) [
        | inl bad ↦ rw (ok, bad) tt
        | inr fine ↦ rw (ok, fine) (enqueue_buffers-only dev left (i + 1))
      ]
    ]

started-Starts :
    (dev : VideoCall → ℤ) (c : Camera) (target : ℕ) (r : Effects VideoCall × ℤ)
    → OnlyCalls r.0
    → Starts c (started dev (record c { target_frames = target }) r)
started-Starts dev c target (es, ret) h = elim (Bool-cases (is_nonzero ret)) [
  | inl bad ↦
      rw bad (record { only = h; state_is = refl; stream_is = inr refl; failed = λ _. refl })
  | inr ok ↦ rw ok (record {
    only = OnlyCalls-append es _ h tt;
    state_is = refl;
    stream_is = inl refl;
    failed = λ e. absurd (cc e);
  })
]

pub start_stream-Starts :
    (dev : VideoCall → ℤ) (c : Camera) (target : ℕ)
    → Starts c (gb_camera_data_start_stream dev c target)
unfolding gb_camera_data_start_stream
start_stream-Starts dev c target = elim (Bool-cases (is_streaming c.stream_state)) [
  | inl on ↦ rw on (record { only = tt; state_is = refl; stream_is = inr refl; failed = λ _. refl })
  | inr off ↦ rw off (
      started-Starts dev c target (enqueue_buffers dev gb_camera_num_buffers 0)
        (enqueue_buffers-only dev gb_camera_num_buffers 0))
]

pub is_idle-idle : (t : StreamState) → is_idle t ≡ true → t ≡ idle
is_idle-idle idle e = refl
is_idle-idle StreamState.streaming e = absurd (cc e)
is_idle-idle StreamState.stopping e = absurd (cc e)

-- What the end of the stream makes of it.
pub record Stops (c : Camera) (r : (Effects VideoCall × ℤ) × Camera) : Type 0 where
  pub only : OnlyCalls r.0.0
  pub state_is : r.1.state ≡ c.state
  pub stream_is : r.1.stream_state ≡ idle

pub stop_stream-Stops :
    (dev : VideoCall → ℤ) (c : Camera) → Stops c (gb_camera_data_stop_stream dev c)
unfolding gb_camera_data_stop_stream
stop_stream-Stops dev c = elim (Bool-cases (is_idle c.stream_state)) [
  | inl off ↦
      rw off (record { only = tt; state_is = refl; stream_is = is_idle-idle c.stream_state off })
  | inr on ↦ rw on (record { only = tt; state_is = refl; stream_is = refl })
]
