-- ===== src/Messages/Requests.antt =====
-- greybus_messages.c: the requests that the device itself sends.
use greybus_zephyr.Base.{
  ℕ, ◌+◌, ◌%◌, ◌^◌, ◌<◌, ◌≡◌, refl, false, Option, some, [], Bytes, arith, length, length-drop,
  take, drop, drop_all, append-nil, size_mod,
}
use greybus_zephyr.Messages.{Message, header_size, gb_message_alloc}
use greybus_zephyr.Messages.Laws.{HasMemory, IsMessage}
use greybus_zephyr.Messages.Ids.{
  new_operation_id, gb_message_request_alloc, gb_message_request_alloc_with_payload,
}

-- The request is well formed, and carries the type, the payload and the id of the counter.
pub record IsRequest (req : Message) (type : ℕ) (payload : Bytes) (counter : ℕ) : Type 0 where
  pub well_formed : IsMessage req
  pub type_is : req.header.type ≡ type
  pub payload_is : req.payload ≡ payload
  pub id_is : req.header.operation_id ≡ counter % 2 ^ 16

module _ (alloc : ℕ → Option Bytes) (memory : HasMemory alloc) where
  -- With memory, a request is allocated under the counter's id.
  pub request_alloc_lem :
      (payload : Bytes) (type counter : ℕ)
      → header_size + length payload < 2 ^ 16
      → (req : Message) × (gb_message_request_alloc_with_payload alloc payload type false counter
          ≡ (some req, (new_operation_id counter).1))
        × IsRequest req type payload counter
  unfolding gb_message_request_alloc_with_payload gb_message_request_alloc gb_message_alloc
      new_operation_id
  request_alloc_lem payload type counter fits =
      let (block, found, sized) = memory.blocks (header_size + length payload) in
      let small : (header_size + length payload) % size_mod ≡ header_size + length payload =
        omega arith in
      let short : (header_size + length payload) % 2 ^ 16 ≡ header_size + length payload =
        omega arith in
      let rest : drop (length payload) (drop header_size block) ≡ [] =
        drop_all (length payload) (drop header_size block) (omega (arith, length-drop 8 block)) in
      (
        record {
          header = record {
            size = header_size + length payload;
            operation_id = counter % 2 ^ 16;
            type = type;
            result = 0;
            pad = take 2 (drop 6 block);
          };
          payload = payload;
        },
        rw
            (
              small, found, gb_message_request_alloc_with_payload, gb_message_request_alloc,
              gb_message_alloc,
            )
            (rw (short, rest, append-nil) refl),
        record {
          well_formed = record { size_is = refl; size_fits = fits };
          type_is = refl;
          payload_is = refl;
          id_is = refl;
        },
      )
