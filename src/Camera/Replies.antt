-- ===== src/Camera/Replies.antt =====
-- subsys/greybus/camera.c: what it means that a request is answered once, and how the loops end.
use greybus_zephyr.Base.{
  ℕ, zero, suc, ◌+◌, ◌*◌, ◌≤◌, ◌≡◌, ◌≢◌, ◌⊎◌, inl, inr, refl, Bool-cases, Option, none, some, List,
  [], ◌∷◌, Bytes, arith, ◌==◌, length, length-append, ◌||◌,
}
use greybus_zephyr.Camera.{StreamState, idle, streaming, Camera}
use greybus_zephyr.Camera.Management.{
  state_configured, state_streaming, FormatCap, count_formats, format_descs, Stream, next_stream,
  Built, stream_config, add_stream, stream_loop,
}

-- The states of the camera and of its stream, before and after a request.
pub data Step : ℕ → StreamState → ℕ → StreamState → Type 0 where
  stays : {s : ℕ} {t : StreamState} → Step s t s t
  configures : {s : ℕ} {t : StreamState} → s ≢ state_streaming → Step s t state_configured t
  captures :
      {s : ℕ} {t t' : StreamState}
      → state_configured ≤ s
      → (t' ≡ streaming) ⊎ (t' ≡ t)
      → Step s t state_streaming t'
  drops : {s : ℕ} {t : StreamState} → state_configured ≤ s → Step s t s idle
  flushes : {s : ℕ} {t : StreamState} → state_streaming ≤ s → Step s t state_configured idle

abbrev pub Moves : Option Camera → Option Camera → Type 0
Moves none none = Unit
Moves (some c) (some c') = Step c.state c.stream_state c'.state c'.stream_state
Moves _ _ = ⊥

-- A count of the formats is at most 255, and the reply has 12 bytes for each.
unfoldable pub Within : Option ℕ → Type 0
Within none = Unit
Within (some n) = n ≤ 255

pub count_formats-Within : (fs : List FormatCap) (k : ℕ) → k ≤ 255 → Within (count_formats fs k)
unfolding count_formats Within
count_formats-Within [] k h = tt
count_formats-Within (f ∷ fs) k h = elim (Bool-cases (f.pixelformat == 0)) [
  | inl end ↦ rw end h
  | inr more ↦ elim (Bool-cases (k == 255)) [
    | inl full ↦ rw (more, full) tt
    | inr room ↦ rw (more, room) (count_formats-Within fs (k + 1) (ground (arith, room, h)))
  ]
]

pub format_descs-len : (jpeg n : ℕ) (fs : List FormatCap) → length (format_descs jpeg n fs) ≤ n * 12
unfolding format_descs
format_descs-len jpeg zero fs = omega arith
format_descs-len jpeg (suc n) [] = omega arith
format_descs-len jpeg (suc n) (f ∷ fs) = omega (arith, format_descs-len jpeg n fs)

-- The loop over the streams ends, for a payload that has them all, and its reply has 16 bytes for each.
unfoldable pub FitsStreams : ℕ → Option Built → Type 0
FitsStreams size none = Unit
FitsStreams size (some b) = length b.configs ≡ size

next_stream-some :
    (config : Bytes)
    → 8 ≤ length config
    → (s : Stream) × (rest : Bytes) × (next_stream config ≡ some (s, rest))
      × (length config ≡ 8 + length rest)
unfolding next_stream
next_stream-some (w0 ∷ w1 ∷ h0 ∷ h1 ∷ f0 ∷ f1 ∷ p0 ∷ p1 ∷ config) h = (_, _, refl, omega arith)
next_stream-some [] h = absurd (omega arith)
next_stream-some (_ ∷ []) h = absurd (omega arith)
next_stream-some (_ ∷ _ ∷ []) h = absurd (omega arith)
next_stream-some (_ ∷ _ ∷ _ ∷ []) h = absurd (omega arith)
next_stream-some (_ ∷ _ ∷ _ ∷ _ ∷ []) h = absurd (omega arith)
next_stream-some (_ ∷ _ ∷ _ ∷ _ ∷ _ ∷ []) h = absurd (omega arith)
next_stream-some (_ ∷ _ ∷ _ ∷ _ ∷ _ ∷ _ ∷ []) h = absurd (omega arith)
next_stream-some (_ ∷ _ ∷ _ ∷ _ ∷ _ ∷ _ ∷ _ ∷ []) h = absurd (omega arith)

add_stream-len :
    (i : ℕ) (s : Stream) (b : Built) → length (add_stream i s b).configs ≡ length b.configs + 16
unfolding add_stream
add_stream-len i s b = omega (arith, length-append b.configs (stream_config s))

pub stream_loop-runs :
    (n i : ℕ) (config : Bytes) (b : Built)
    → n * 8 ≤ length config
    → (built : Option Built) × (stream_loop n i config b ≡ some built)
      × FitsStreams (length b.configs + n * 16) built
unfolding stream_loop FitsStreams
stream_loop-runs zero i config b h = (some b, refl, omega arith)
stream_loop-runs (suc n) i config b h =
    let (s, rest, found, len) = next_stream-some config (omega arith) in
    elim (Bool-cases (s.width == 0 || s.height == 0)) [
      | inl bad ↦ (none, rw (found, bad) refl, tt)
      | inr ok ↦
          let (built, runs, fits) =
            stream_loop-runs n (i + 1) rest (add_stream i s b) (omega (arith, len)) in
          let same : length (add_stream i s b).configs + n * 16 ≡ length b.configs + suc n * 16 =
            omega (arith, add_stream-len i s b) in
          (built, rw (found, ok) runs, rw same at fits)
    ]
