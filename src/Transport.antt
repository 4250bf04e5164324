-- ===== src/Transport.antt =====
-- subsys/greybus/greybus_transport.h and .c: sending, and the helpers that answer a request.
-- A handler's effects are a list in order: messages handed to the backend, messages freed, and calls
-- of the peripheral's driver, whose type is the parameter `D`.
pub mod Laws
pub mod Calls
pub mod Stateful
use greybus_zephyr.Base.{ℕ, ◌+◌, ◌%◌, ◌^◌, Option, none, some, List, [], ◌∷◌, ◌++◌, Bytes, ℤ, ◌>>=◌}
use greybus_zephyr.Messages.{
  Message, header_size, gb_response, gb_op_success, gb_message_response_alloc_from_req,
}

-- Which message of a handler is freed.
pub data Owner : Type 0 where
  request response : Owner

pub data Effect (D : Type 0) : Type 0 where
  send : ℕ → Message → Effect D
  dealloc : Owner → Effect D
  device : D → Effect D

abbrev pub Effects : Type 0 → Type 0
Effects D = List (Effect D)

-- The reply is built on the stack.
abbrev pub empty_response : Message → ℕ → Message
empty_response req status = record {
  header = record {
    size = header_size;
    operation_id = req.header.operation_id;
    type = gb_response req.header.type;
    result = status;
    pad = 0 ∷ 0 ∷ [];
  };
  payload = [];
}

module _ {D : Type 0} where
  -- The backend's result is only logged by the callers of this kind, so it is no part of the effect.
  abbrev pub gb_transport_message_send : Message → ℕ → Effects D
  gb_transport_message_send msg cport = send cport msg ∷ []

  abbrev pub gb_transport_message_empty_response_send_no_free : Message → ℕ → ℕ → Effects D
  gb_transport_message_empty_response_send_no_free req status cport =
      gb_transport_message_send (empty_response req status) cport

  abbrev pub gb_transport_message_empty_response_send : Message → ℕ → ℕ → Effects D
  gb_transport_message_empty_response_send req status cport =
      gb_transport_message_empty_response_send_no_free req status cport ++ dealloc request ∷ []

  -- `none` is the copy to NULL of `gb_message_response_alloc`; a NULL reply would not be sent.
  unfoldable pub gb_transport_message_response_success_send :
      (ℕ → Option Bytes) → Message → Bytes → ℕ → Option (Effects D)
  unfolding gb_message_response_alloc_from_req
  gb_transport_message_response_success_send alloc req payload cport = do
    resp ← gb_message_response_alloc_from_req alloc payload req gb_op_success
    some (
        elim resp [ none ↦ [] | some msg ↦ gb_transport_message_send msg cport ]
        ++ dealloc request ∷ dealloc response ∷ [])
