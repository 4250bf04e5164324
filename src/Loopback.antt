-- ===== src/Loopback.antt =====
-- subsys/greybus/loopback.c and vibrator.c: two protocols with one handler each.
mod Tests
use greybus_zephyr.Base.{
  ℕ, ◌^◌, ◌<◌, ◌≡◌, refl, ap, sym, true, false, Bool, Option, none, some, [], ◌∷◌, ◌++◌, Bytes,
  arith, length, ◌==◌, if◌then◌else◌, ℤ, ==_iff, ne→==, ◌≢◌, Bool-cases, inl, inr,
}
use greybus_zephyr.Core.{gb_errno_to_op_result}
use greybus_zephyr.Messages.{Message, gb_response, gb_message_type, gb_op_success, gb_op_invalid}
use greybus_zephyr.Messages.Laws.{IsMessage}
use greybus_zephyr.Transport.{
  Effects, send, dealloc, device, request, gb_transport_message_send,
  gb_transport_message_empty_response_send,
}
use greybus_zephyr.Transport.Laws.{Answers, Answers-device, empty_response-Answers, calls}

abbrev pub type_ping : ℕ
type_ping = 0x02

abbrev pub type_transfer : ℕ
type_transfer = 0x03

abbrev pub type_sink : ℕ
type_sink = 0x04

-- The driver calls of a vibrator.
pub data Haptics : Type 0 where
  start_output stop_output : Haptics

-- The request itself is sent back.
gb_loopback_transfer_req_cb : Message → ℕ → Effects Haptics
gb_loopback_transfer_req_cb req cport =
    let req' = record req {
      header = record req.header { type = gb_response type_transfer; result = gb_op_success };
    } in
    gb_transport_message_send req' cport ++ dealloc request ∷ []

pub gb_loopback_handler : Message → ℕ → Effects Haptics
unfolding gb_message_type gb_loopback_transfer_req_cb
gb_loopback_handler msg cport =
    if gb_message_type msg == type_ping
    then gb_transport_message_empty_response_send msg gb_op_success cport
    else if gb_message_type msg == type_transfer
    then gb_loopback_transfer_req_cb msg cport
    else if gb_message_type msg == type_sink
    then gb_transport_message_empty_response_send msg gb_op_success cport
    else gb_transport_message_empty_response_send msg gb_op_invalid cport

-- `dev` is the result of the driver call.
pub gb_vibrator_handler : (Haptics → ℤ) → Message → ℕ → Effects Haptics
unfolding gb_message_type
gb_vibrator_handler dev msg cport =
    if gb_message_type msg == 0x02
    then device start_output
      ∷ gb_transport_message_empty_response_send msg (gb_errno_to_op_result (dev start_output))
          cport
    else if gb_message_type msg == 0x03
    then device stop_output
      ∷ gb_transport_message_empty_response_send msg (gb_errno_to_op_result (dev stop_output)) cport
    else gb_transport_message_empty_response_send msg gb_op_invalid cport

-- The status that a request is answered with, and the payload.
abbrev pub status_of : ℕ → ℕ
status_of type =
    if type == type_ping
    then gb_op_success
    else if type == type_transfer
    then gb_op_success
    else if type == type_sink
    then gb_op_success
    else gb_op_invalid

abbrev pub echo : Message → Bytes
echo msg = if msg.header.type == type_transfer then msg.payload else []

-- The loopback handler answers every well-formed request once and frees it once; a transfer comes
-- back with its own payload, and an unknown type is refused as invalid.
pub gb_loopback_handler-Answers :
    (msg : Message) (cport : ℕ)
    → IsMessage msg
    → Answers msg cport (status_of msg.header.type) (echo msg) (gb_loopback_handler msg cport)
unfolding gb_loopback_handler
gb_loopback_handler-Answers msg cport m = elim (Bool-cases (msg.header.type == type_transfer)) [
  | inl transfer ↦
      let is : msg.header.type ≡ type_transfer = (==_iff _ _).0 transfer in
      let no_ping : (msg.header.type == type_ping) ≡ false = ne→== _ _ (omega (arith, is)) in
      rw (no_ping, transfer)
        (record {
          answer = record msg {
            header = record msg.header { type = gb_response type_transfer; result = gb_op_success };
          };
          sent = refl;
          type_is = ap gb_response (sym is);
          id_is = refl;
          result_is = refl;
          payload_is = refl;
          well_formed = record { size_is = m.size_is; size_fits = m.size_fits };
          freed = refl;
        })
  | inr other ↦ rw other (elim (Bool-cases (msg.header.type == type_ping)) [
    | inl ping ↦ rw ping (empty_response-Answers msg gb_op_success cport)
    | inr no_ping ↦ rw no_ping (elim (Bool-cases (msg.header.type == type_sink)) [
      | inl sink ↦ rw sink (empty_response-Answers msg gb_op_success cport)
      | inr unknown ↦ rw unknown (empty_response-Answers msg gb_op_invalid cport)
    ])
  ])
]

-- The vibrator's handler makes the driver call of the request, and answers with its result.
pub gb_vibrator_handler-Answers :
    (dev : Haptics → ℤ) (msg : Message) (cport : ℕ)
    → let es = gb_vibrator_handler dev msg cport in
      ((msg.header.type ≡ 0x02)
        → Answers msg cport (gb_errno_to_op_result (dev start_output)) [] es
          × (calls es ≡ start_output ∷ []))
      × ((msg.header.type ≡ 0x03)
          → Answers msg cport (gb_errno_to_op_result (dev stop_output)) [] es
            × (calls es ≡ stop_output ∷ []))
      × ((msg.header.type ≢ 0x02)
          → (msg.header.type ≢ 0x03)
          → Answers msg cport gb_op_invalid [] es × (calls es ≡ []))
unfolding gb_vibrator_handler
gb_vibrator_handler-Answers dev msg cport = (
  λ is. rw ((==_iff msg.header.type 2).1 is) (
    Answers-device start_output
        (empty_response-Answers msg (gb_errno_to_op_result (dev start_output)) cport),
    refl,
  ),
  λ is.
      rw ((==_iff msg.header.type 3).1 is, ne→== msg.header.type 2 (omega (arith, is)))
        (
          Answers-device stop_output
              (empty_response-Answers msg (gb_errno_to_op_result (dev stop_output)) cport),
          refl,
        ),
  λ no_on no_off.
      rw (ne→== _ _ no_on, ne→== _ _ no_off) (empty_response-Answers msg gb_op_invalid cport, refl),
)
