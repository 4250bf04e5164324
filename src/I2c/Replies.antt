-- ===== src/I2c/Replies.antt =====
-- i2c.c: what the AP sees of a transfer, by the way its loop ends.
use greybus_zephyr.Base.{
  ℕ, ◌+◌, ◌^◌, ◌<◌, ◌≡◌, ◌∙◌, refl, List, [], ◌∷◌, map, Bytes, arith, length, append-nil,
}
use greybus_zephyr.Core.{gb_errno_to_op_result}
use greybus_zephyr.Messages.{Message, header_size, gb_response, gb_op_success}
use greybus_zephyr.Messages.Laws.{IsMessage}
use greybus_zephyr.Transport.{Effects, send, dealloc, device, response}
use greybus_zephyr.Transport.Laws.{
  sends, request_frees, calls, Answers, Answers-append, empty_response-Answers, calls-append,
}
use greybus_zephyr.Transport.Calls.{
  device-OnlyCalls, calls-device, sends-device, request_frees-device,
}
use greybus_zephyr.I2c.{BusCall, Ending, failed, transferred, finish}

-- A filled reply has the size that was allocated.
abbrev pub HasSize : ℕ → Ending → Type 0
HasSize n (failed ret) = Unit
HasSize n (transferred payload) = length payload ≡ n

-- One message is sent, the successful response to the request with this payload, and the request is not freed.
pub record Replies (req : Message) (cport : ℕ) (payload : Bytes) (es : Effects BusCall)
    : Type 0 where
  pub answer : Message
  pub sent : sends es ≡ (cport, answer) ∷ []
  pub type_is : answer.header.type ≡ gb_response req.header.type
  pub id_is : answer.header.operation_id ≡ req.header.operation_id
  pub result_is : answer.header.result ≡ gb_op_success
  pub payload_is : answer.payload ≡ payload
  pub well_formed : IsMessage answer
  pub kept : request_frees es ≡ 0

-- What the AP sees of an ending.
abbrev pub Ends : Message → ℕ → Effects BusCall → Ending → Type 0
Ends req cport es (failed ret) = Answers req cport (gb_errno_to_op_result ret) [] es
Ends req cport es (transferred payload) = Replies req cport payload es

-- The reply that is given up is freed before the request is answered.
freed_first :
    {req : Message} {cport status : ℕ} {payload : Bytes} {es : Effects BusCall}
    → Answers req cport status payload es
    → Answers req cport status payload (dealloc response ∷ es)
freed_first a = record {
  answer = a.answer;
  sent = a.sent;
  type_is = a.type_is;
  id_is = a.id_is;
  result_is = a.result_is;
  payload_is = a.payload_is;
  well_formed = a.well_formed;
  freed = a.freed;
}

pub finish_lem :
    (req : Message) (cport n : ℕ) (r : List BusCall × Ending)
    → header_size + n < 2 ^ 16
    → HasSize n r.1
    → (resp : Message) → resp.header.size ≡ header_size + n
    → resp.header.type ≡ gb_response req.header.type
    → resp.header.operation_id ≡ req.header.operation_id
    → resp.header.result ≡ gb_op_success
    → (calls (finish req cport resp r) ≡ r.0) × Ends req cport (finish req cport resp r) r.1
finish_lem req cport n (cs, failed ret) fits sized resp size_is type_is id_is result_is = (
  calls-append (map device cs) _ ∙ rw (calls-device cs) (append-nil cs),
  Answers-append (map device cs) (device-OnlyCalls cs)
      (freed_first (empty_response-Answers req (gb_errno_to_op_result ret) cport)),
)
finish_lem req cport n (cs, transferred payload) fits sized resp size_is type_is id_is result_is =
    let after = send cport (record resp { payload = payload }) ∷ dealloc response ∷ [] in
    (
      calls-append (map device cs) after ∙ rw (calls-device cs) (append-nil cs),
      record {
        answer = record resp { payload = payload };
        sent = sends-device cs after;
        type_is = type_is;
        id_is = id_is;
        result_is = result_is;
        payload_is = refl;
        well_formed = record {
          size_is = omega (arith, size_is, sized);
          size_fits = omega (arith, size_is);
        };
        kept = request_frees-device cs after;
      },
    )
