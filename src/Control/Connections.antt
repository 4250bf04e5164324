-- ===== src/Control/Connections.antt =====
-- control-gpb.c: what bringing a cport up and down does to the backend and to the cport's driver.
use greybus_zephyr.Base.{
  ℕ, zero, suc, none, Option, [], ◌∷◌, ◌≡◌, ◌∙◌, refl, sym, inl, inr, false, append-nil, some, List,
  ◌++◌, arith, length, get_elem?, get_elem?-ge, word16, ltb, Bool-cases, pos, is_nonzero,
  if◌then◌else◌,
}
use greybus_zephyr.Core.{gb_errno_to_op_result}
use greybus_zephyr.Core.Cports.{
  Cports, Backend, Driver, CoreCall, listen, connected, gb_cport_get, Event, evt_connected,
  evt_disconnected, notify_driver, gb_listen, gb_stop_listening, gb_notify,
}
use greybus_zephyr.Messages.{Message, gb_message_payload_len, gb_op_success, gb_op_invalid}
use greybus_zephyr.Messages.Laws.{IsMessage, gb_message_payload_len_lem}
use greybus_zephyr.Transport.{Effects, gb_transport_message_empty_response_send}
use greybus_zephyr.Transport.Laws.{
  calls, OnlyCalls, OnlyCalls-append, Answers, Answers-append, calls-append, empty_response-Answers,
}
use greybus_zephyr.Control.{Reaction, gb_control_connected, gb_control_disconnected}

-- The cport that a connected or disconnected request names.
abbrev pub IsTarget : Message → ℕ → Type 0
IsTarget req target =
    (lo : ℕ) × (hi : ℕ) × (get_elem? req.payload 0 ≡ some lo)
    × (get_elem? req.payload 1 ≡ some hi)
    × (target ≡ word16 lo hi)

-- The driver of a cport: none for a number past the last cport, and for a cport without one.
abbrev pub driver_at : Cports → ℕ → Option Driver
driver_at [] target = none
driver_at (driver ∷ cports) zero = driver
driver_at (driver ∷ cports) (suc target) = driver_at cports target

-- The status that a connected request is to be answered with, by the target's driver.
abbrev pub connected_status : Backend → ℕ → Option Driver → ℕ
connected_status backend target none = 0x06
connected_status backend target (some driver) =
    if is_nonzero (backend.on_listen target) then 0x06 else 0x00

-- The calls that it is to make.
abbrev pub connected_calls : Backend → ℕ → Option Driver → List CoreCall
connected_calls backend target none = []
connected_calls backend target (some driver) =
    if is_nonzero (backend.on_listen target)
    then listen target ∷ []
    else if driver.has_connected
    then listen target ∷ connected target ∷ []
    else listen target ∷ []

-- The handler runs, answers with `status`, and calls exactly `made`.
abbrev pub Outcome : Message → ℕ → ℕ → List CoreCall → Reaction → Type 0
Outcome req cport status made r =
    (es : Effects CoreCall) × (r ≡ some es) × Answers req cport status [] es × (calls es ≡ made)

-- The payload's two bytes are there, so that the guard on the size lets the request pass.
long_enough :
    (req : Message)
    → IsMessage req
    → (hi : ℕ) × (get_elem? req.payload 1 ≡ some hi)
    → ltb (gb_message_payload_len req) 2 ≡ false
long_enough req m (hi, at_1) = elim (Bool-cases (ltb (length req.payload) 2)) [
  | inl short ↦ absurd (cc (at_1, get_elem?-ge req.payload 1 (ground (arith, short))))
  | inr long ↦ rw (gb_message_payload_len_lem req m) long
]

-- Calls followed by an empty response.
outcome :
    (ds : Effects CoreCall) {req : Message} {cport status : ℕ} {made : List CoreCall} {r : Reaction}
    → OnlyCalls ds
    → calls ds ≡ made
    → r ≡ some (ds ++ gb_transport_message_empty_response_send req status cport)
    → Outcome req cport status made r
outcome ds {req} {cport} {status} quiet made_is runs = (
  ds ++ gb_transport_message_empty_response_send req status cport,
  runs,
  Answers-append ds quiet (empty_response-Answers req status cport),
  calls-append ds _ ∙ append-nil (calls ds) ∙ made_is,
)

-- The core's lookup leads to the same driver.
driver_at_lem :
    (cports : Cports) (t : ℕ)
    → driver_at cports t ≡ elim (get_elem? cports t) [ none ↦ none | some driver ↦ driver ]
driver_at_lem [] t = refl
driver_at_lem (driver ∷ cports) zero = refl
driver_at_lem (driver ∷ cports) (suc t) = driver_at_lem cports t

module _ (cports : Cports) (backend : Backend) where
  gb_listen-OnlyCalls : (t : ℕ) → OnlyCalls (gb_listen cports backend t).0
  unfolding gb_listen
  gb_listen-OnlyCalls t = ground arith

  gb_stop_listening-OnlyCalls : (t : ℕ) → OnlyCalls (gb_stop_listening cports backend t).0
  unfolding gb_stop_listening
  gb_stop_listening-OnlyCalls t = ground arith

  gb_notify-OnlyCalls : (t : ℕ) (e : Event) → OnlyCalls (gb_notify cports t e).0
  unfolding gb_notify notify_driver
  gb_notify-OnlyCalls t e = ground arith

  -- A cport that was listened on has a driver, so that the notification cannot fail.
  gb_listen-gb_notify :
      (t : ℕ) (e : Event)
      → is_nonzero (gb_listen cports backend t).1 ≡ false
      → (gb_notify cports t e).1 ≡ pos 0
  unfolding gb_listen gb_notify
  gb_listen-gb_notify t e h = ground (arith, h)

  connected_status_lem :
      (t : ℕ)
      → (if is_nonzero (gb_listen cports backend t).1 then gb_op_invalid else gb_op_success)
        ≡ connected_status backend t (driver_at cports t)
  unfolding gb_listen gb_cport_get
  connected_status_lem t = rw (driver_at_lem cports t) (ground arith)

  connected_calls_lem :
      (t : ℕ)
      → calls (gb_listen cports backend t).0
          ++ (if is_nonzero (gb_listen cports backend t).1
              then []
              else calls (gb_notify cports t evt_connected).0)
        ≡ connected_calls backend t (driver_at cports t)
  unfolding gb_listen gb_notify notify_driver gb_cport_get
  connected_calls_lem t = rw (driver_at_lem cports t) (ground arith)

  -- The two calls of the core, one after the other.
  gb_control_connected-runs :
      (req : Message) (cport target : ℕ)
      → IsMessage req
      → IsTarget req target
      → Outcome req cport
          (if is_nonzero (gb_listen cports backend target).1 then gb_op_invalid else gb_op_success)
          (calls (gb_listen cports backend target).0
            ++ (if is_nonzero (gb_listen cports backend target).1
                then []
                else calls (gb_notify cports target evt_connected).0))
          (gb_control_connected cports backend cport req)
  unfolding gb_control_connected
  gb_control_connected-runs req cport target m (lo, hi, at_0, at_1, target_is) =
      let long = long_enough req m (hi, at_1) in
      let quiet = gb_listen-OnlyCalls target in
      elim (Bool-cases (is_nonzero (gb_listen cports backend target).1)) [
        | inl failed ↦ rw failed (
            outcome (gb_listen cports backend target).0 quiet
              (sym (append-nil (calls (gb_listen cports backend target).0)))
              (rw (gb_control_connected, at_0, at_1, long, ← target_is, failed) refl))
        | inr listened ↦
            let notified : is_nonzero (gb_notify cports target evt_connected).1 ≡ false =
              rw (gb_listen-gb_notify target evt_connected listened) refl in
            rw listened (
              outcome
                ((gb_listen cports backend target).0 ++ (gb_notify cports target evt_connected).0)
                (OnlyCalls-append (gb_listen cports backend target).0 _ quiet
                  (gb_notify-OnlyCalls target evt_connected))
                (calls-append (gb_listen cports backend target).0 _)
                (rw (at_0, at_1, long, ← target_is, listened, notified, gb_control_connected) refl))
      ]

  -- A connected request that names a target cport makes exactly these calls, in order: if the
  -- target has no driver, none, and the answer is invalid; otherwise the backend is asked to
  -- listen on the target. If that returns an error nothing follows and the answer is invalid;
  -- if not, the driver's connected callback is called with the target where there is one, and
  -- the answer is success.
  pub gb_control_connected-outcome :
      (req : Message) (cport target : ℕ)
      → IsMessage req
      → IsTarget req target
      → Outcome req cport
          (connected_status backend target (driver_at cports target))
          (connected_calls backend target (driver_at cports target))
          (gb_control_connected cports backend cport req)
  gb_control_connected-outcome req cport target m t =
      rw (← connected_status_lem target, ← connected_calls_lem target)
        (gb_control_connected-runs req cport target m t)

  -- A disconnected request that names a target cport notifies the target's driver and then
  -- stops the listening on the cport that the request came in on, whose result is the status of
  -- the answer.
  pub gb_control_disconnected-outcome :
      (req : Message) (cport target : ℕ)
      → IsMessage req
      → IsTarget req target
      → Outcome req cport
          (gb_errno_to_op_result (gb_stop_listening cports backend cport).1)
          (calls (gb_notify cports target evt_disconnected).0
            ++ calls (gb_stop_listening cports backend cport).0)
          (gb_control_disconnected cports backend cport req)
  unfolding gb_control_disconnected
  gb_control_disconnected-outcome req cport target m (lo, hi, at_0, at_1, target_is) =
      let long = long_enough req m (hi, at_1) in
      outcome
        ((gb_notify cports target evt_disconnected).0 ++ (gb_stop_listening cports backend cport).0)
        (OnlyCalls-append (gb_notify cports target evt_disconnected).0 _
          (gb_notify-OnlyCalls target evt_disconnected) (gb_stop_listening-OnlyCalls cport))
        (calls-append (gb_notify cports target evt_disconnected).0 _)
        (rw (at_0, at_1, long, ← target_is, gb_control_disconnected) refl)
