-- ===== src/Messages/Received.antt =====
-- greybus_messages.h: a message that a transport makes out of the bytes of another one.
use greybus_zephyr.Base.{
  ℕ, ◌+◌, ◌-◌, ◌%◌, ◌^◌, ◌≡◌, ◌∙◌, refl, Option, some, [], Bytes, arith, length, length-drop, take,
  drop, take-length_append, drop_all, append-nil, ◌++◌, overwrite, size_mod,
}
use greybus_zephyr.Messages.{
  Message, header_size, gb_hdr_payload_len, gb_message_payload_len, gb_message_alloc,
}
use greybus_zephyr.Messages.Laws.{IsMessage, gb_message_payload_len_lem}

-- The same message but for the padding of its header.
pub record Same (a b : Message) : Type 0 where
  pub size_is : a.header.size ≡ b.header.size
  pub id_is : a.header.operation_id ≡ b.header.operation_id
  pub type_is : a.header.type ≡ b.header.type
  pub result_is : a.header.result ≡ b.header.result
  pub payload_is : a.payload ≡ b.payload

-- The message that is made in a block.
abbrev pub copy : Bytes → Message → Message
copy block msg = record {
  header = record {
    size = header_size + length msg.payload;
    operation_id = msg.header.operation_id;
    type = msg.header.type;
    result = msg.header.result;
    pad = take 2 (drop 6 block);
  };
  payload = msg.payload;
}

pub copy-Same : (block : Bytes) (msg : Message) → IsMessage msg → Same (copy block msg) msg
copy-Same block msg m = record {
  size_is = omega (arith, m.size_is);
  id_is = refl;
  type_is = refl;
  result_is = refl;
  payload_is = refl;
}

module _ (alloc : ℕ → Option Bytes) (msg : Message) (m : IsMessage msg) (block : Bytes)
    (found : alloc (header_size + length msg.payload) ≡ some block)
    (sized : length block ≡ header_size + length msg.payload) where
  -- Before the copy, the payload is what the block held.
  abbrev pub fresh : Message
  fresh = record (copy block msg) { payload = drop header_size block }

  pub fresh_lem :
      gb_message_alloc alloc
        (gb_hdr_payload_len msg.header)
        msg.header.type
        msg.header.operation_id
        msg.header.result
      ≡ some fresh
  unfolding gb_message_alloc gb_hdr_payload_len
  fresh_lem =
      let len : (msg.header.size + size_mod - header_size) % size_mod ≡ length msg.payload =
        omega (arith, m.size_is, m.size_fits) in
      let small : (header_size + length msg.payload) % size_mod ≡ header_size + length msg.payload =
        omega (arith, m.size_is, m.size_fits) in
      let short : (header_size + length msg.payload) % 2 ^ 16 ≡ header_size + length msg.payload =
        omega (arith, m.size_is, m.size_fits) in
      rw (gb_message_alloc, len, small, found) (rw (len) (rw short refl))

  pub fresh-len : gb_message_payload_len fresh ≡ length msg.payload
  fresh-len =
      gb_message_payload_len_lem fresh (record {
        size_is = omega (arith, length-drop 8 block, sized);
        size_fits = omega (arith, m.size_is, m.size_fits);
      })
      ∙ omega (arith, length-drop 8 block, sized)

  pub fresh-room : length fresh.payload ≡ length msg.payload
  fresh-room = omega (arith, length-drop 8 block, sized)

  -- The copy of the payload leaves nothing of what the block held.
  pub overwrite-fresh : overwrite (drop header_size block) msg.payload ≡ msg.payload
  overwrite-fresh =
      let rest : drop (length msg.payload) (drop header_size block) ≡ [] =
        drop_all (length msg.payload) (drop header_size block)
          (omega (arith, length-drop 8 block, sized)) in
      rw (rest, append-nil) refl

  pub filled :
      (stale : Bytes)
      → overwrite (drop header_size block) (take (length msg.payload) (msg.payload ++ stale))
        ≡ msg.payload
  filled stale = rw (take-length_append msg.payload stale) overwrite-fresh
