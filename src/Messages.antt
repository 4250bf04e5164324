-- ===== src/Messages.antt =====
-- subsys/greybus/greybus_messages.c and include/greybus/greybus_messages.h: Greybus messages.
-- The host is little-endian, so the byte order conversions of the header fields are identities.
-- `gb_alloc` is the parameter `alloc`: for a size, NULL (`none`) or the bytes found in the block.
pub mod Ids
pub mod Laws
pub mod Interleaving
pub mod Received
pub mod Requests
pub mod Wire
mod Tests
use greybus_zephyr.Base.{
  ℕ, ◌+◌, ◌-◌, ◌%◌, ◌^◌, bit_and, bit_or, Bool, true, false, not, Option, none, some, [], ◌∷◌, ◌++◌,
  Bytes, le16, ◌==◌, if◌then◌else◌, take, drop, length, overwrite, size_mod, get_or, word16,
}

abbrev pub response_flag : ℕ
response_flag = 0x80

-- `GB_RESPONSE(req)`
abbrev pub gb_response : ℕ → ℕ
gb_response req = bit_or req response_flag

-- `enum gb_operation_result`
abbrev pub gb_op_success : ℕ
gb_op_success = 0x00

abbrev pub gb_op_interrupted : ℕ
gb_op_interrupted = 0x01

abbrev pub gb_op_timeout : ℕ
gb_op_timeout = 0x02

abbrev pub gb_op_no_memory : ℕ
gb_op_no_memory = 0x03

abbrev pub gb_op_protocol_bad : ℕ
gb_op_protocol_bad = 0x04

abbrev pub gb_op_overflow : ℕ
gb_op_overflow = 0x05

abbrev pub gb_op_invalid : ℕ
gb_op_invalid = 0x06

abbrev pub gb_op_internal : ℕ
gb_op_internal = 0xff

abbrev pub gb_op_retry : ℕ
gb_op_retry = 0x07

abbrev pub gb_op_nonexistent : ℕ
gb_op_nonexistent = 0x08

abbrev pub gb_op_unknown_error : ℕ
gb_op_unknown_error = 0xfe

-- `struct gb_operation_msg_hdr`
pub record Header : Type 0 where
  pub size : ℕ
  pub operation_id : ℕ
  pub type : ℕ
  pub result : ℕ
  pub pad : Bytes

-- `sizeof(struct gb_operation_msg_hdr)`, which is `sizeof(struct gb_message)` too
abbrev pub header_size : ℕ
header_size = 8

-- `struct gb_message`: the payload is the rest of its block.
pub record Message : Type 0 where
  pub header : Header
  pub payload : Bytes

-- The header as it lies in memory, and read back from there.
abbrev pub header_bytes : Header → Bytes
header_bytes h = le16 h.size ++ (le16 h.operation_id ++ h.type ∷ h.result ∷ h.pad)

abbrev pub header_of_bytes : Bytes → Header
header_of_bytes b = record {
  size = word16 (get_or b 0 0) (get_or b 1 0);
  operation_id = word16 (get_or b 2 0) (get_or b 3 0);
  type = get_or b 4 0;
  result = get_or b 5 0;
  pad = take 2 (drop 6 b);
}

unfoldable pub gb_hdr_message_len : Header → ℕ
gb_hdr_message_len hdr = hdr.size

-- The subtraction is of type size_t, and wraps below the header's size.
unfoldable pub gb_hdr_payload_len : Header → ℕ
unfolding gb_hdr_message_len
gb_hdr_payload_len hdr = (gb_hdr_message_len hdr + size_mod - header_size) % size_mod

unfoldable pub gb_message_payload_len : Message → ℕ
unfolding gb_hdr_payload_len
gb_message_payload_len msg = gb_hdr_payload_len msg.header

unfoldable pub gb_message_len : Message → ℕ
unfolding gb_hdr_message_len
gb_message_len msg = gb_hdr_message_len msg.header

unfoldable pub gb_hdr_is_response : Header → Bool
gb_hdr_is_response hdr = not (bit_and hdr.type response_flag == 0)

unfoldable pub gb_hdr_is_success : Header → Bool
gb_hdr_is_success hdr = hdr.result == gb_op_success

unfoldable pub gb_message_is_response : Message → Bool
unfolding gb_hdr_is_response
gb_message_is_response msg = gb_hdr_is_response msg.header

unfoldable pub gb_message_is_success : Message → Bool
unfolding gb_hdr_is_success
gb_message_is_success msg = gb_hdr_is_success msg.header

unfoldable pub gb_message_type : Message → ℕ
gb_message_type msg = msg.header.type

-- The fields set in a fresh block; the padding and the payload are what the block held.
unfoldable pub fresh_message : Bytes → ℕ → ℕ → ℕ → ℕ → Message
fresh_message block payload_len type operation_id status = record {
  header = record {
    size = (header_size + payload_len) % 2 ^ 16;
    operation_id = operation_id;
    type = type;
    result = status;
    pad = take 2 (drop 6 block);
  };
  payload = drop header_size block;
}

module _ (alloc : ℕ → Option Bytes) where
  unfoldable pub gb_message_alloc : ℕ → ℕ → ℕ → ℕ → Option Message
  unfolding fresh_message
  gb_message_alloc payload_len message_type operation_id status =
      elim (alloc ((header_size + payload_len) % size_mod)) [
        | none ↦ none
        | some block ↦ some (fresh_message block payload_len message_type operation_id status)
      ]

  -- The copy into the message is made before any test of the pointer: at NULL it is undefined, which
  -- is the outer `none`. The inner option is the pointer that is returned.
  unfoldable pub gb_message_response_alloc : Bytes → ℕ → ℕ → ℕ → Option (Option Message)
  unfolding gb_message_alloc
  gb_message_response_alloc payload request_type operation_id status =
      elim (gb_message_alloc (length payload) (gb_response request_type) operation_id status) [
        | none ↦ none
        | some msg ↦ some (some (record msg { payload = overwrite msg.payload payload }))
      ]

  unfoldable pub gb_message_response_alloc_from_req : Bytes → Message → ℕ → Option (Option Message)
  unfolding gb_message_response_alloc gb_message_type
  gb_message_response_alloc_from_req payload req status =
      gb_message_response_alloc payload (gb_message_type req) req.header.operation_id status

  -- The payload is as long as the header says, else the read of it is undefined.
  unfoldable pub gb_message_copy : Message → Option (Option Message)
  unfolding gb_message_alloc gb_message_type gb_message_payload_len
  gb_message_copy msg =
      let payload_len = gb_message_payload_len msg in
      elim (gb_message_alloc payload_len (gb_message_type msg) msg.header.operation_id
        msg.header.result) [
          | none ↦ none
          | some resp ↦ some (
              some
                (record resp { payload = overwrite resp.payload (take payload_len msg.payload) }))
        ]
