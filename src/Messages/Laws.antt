-- ===== src/Messages/Laws.antt =====
-- greybus_messages.c and .h: lengths, flags and contents of allocated messages.
use greybus_zephyr.Base.{
  ℕ, ◌+◌, ◌%◌, ◌^◌, ◌<◌, ◌≡◌, refl, bit_and, true, not, Option, none, some, [], ◌++◌, Bytes, arith,
  length, length-drop, drop, drop_all, append-nil, ◌==◌, all_below, all_below_sound, size_mod, take,
  take-length_append, word16, lo8, hi8, word16-lo8, Option-cases, inl, inr,
}
use greybus_zephyr.Messages.{
  Header, Message, header_size, header_bytes, header_of_bytes, gb_response, response_flag,
  gb_message_payload_len, gb_message_alloc, gb_message_response_alloc,
  gb_message_response_alloc_from_req, fresh_message,
}

-- What the code relies on in `gb_alloc`: a block has the size that was asked for.
pub record IsAllocator (alloc : ℕ → Option Bytes) : Type 0 where
  pub block_size : (n : ℕ) (block : Bytes) → alloc n ≡ some block → length block ≡ n

-- An allocator that never runs out.
pub record HasMemory (alloc : ℕ → Option Bytes) : Type 0 where
  pub blocks : (n : ℕ) → (block : Bytes) × (alloc n ≡ some block) × (length block ≡ n)

-- The size field counts the header and the whole payload.
pub record IsMessage (msg : Message) : Type 0 where
  pub size_is : msg.header.size ≡ header_size + length msg.payload
  pub size_fits : msg.header.size < 2 ^ 16

pub gb_message_payload_len_lem :
    (msg : Message) → IsMessage msg → gb_message_payload_len msg ≡ length msg.payload
unfolding gb_message_payload_len
gb_message_payload_len_lem msg m = omega arith

-- The fields of a header are of their widths, with two bytes of padding.
pub record IsHeader (h : Header) : Type 0 where
  pub size_lt : h.size < 2 ^ 16
  pub id_lt : h.operation_id < 2 ^ 16
  pub pad_len : length h.pad ≡ 2

pub header_of_bytes-header_bytes :
    (h : Header) (rest : Bytes) → IsHeader h → header_of_bytes (header_bytes h ++ rest) ≡ h
header_of_bytes-header_bytes h rest i =
    let padding : take 2 (h.pad ++ rest) ≡ h.pad =
      rw (← i.pad_len) (take-length_append h.pad rest) in
    let size_is : word16 (lo8 h.size) (hi8 h.size) ≡ h.size = word16-lo8 h.size i.size_lt in
    let id_is : word16 (lo8 h.operation_id) (hi8 h.operation_id) ≡ h.operation_id =
      word16-lo8 h.operation_id i.id_lt in
    λ k. record {
      size = size_is k;
      operation_id = id_is k;
      type = h.type;
      result = h.result;
      pad = padding k;
    }

response_table : all_below 256 (λ t. not (bit_and (gb_response t) response_flag == 0)) ≡ true
unfolding all_below
response_table = refl

pub gb_response-is_response :
    (t : ℕ) → t < 256 → not (bit_and (gb_response t) response_flag == 0) ≡ true
gb_response-is_response t h = all_below_sound 256 _ t response_table h

module _ (alloc : ℕ → Option Bytes) (allocator : IsAllocator alloc) where
  gb_message_alloc_lem :
      (n type id status : ℕ) {msg : Message}
      → header_size + n < 2 ^ 16
      → gb_message_alloc alloc n type id status ≡ some msg
      → IsMessage msg
        × (length msg.payload ≡ n)
        × (msg.header.type ≡ type)
        × (msg.header.operation_id ≡ id)
        × (msg.header.result ≡ status)
  unfolding gb_message_alloc
  gb_message_alloc_lem n type id status fits e =
      let small : (header_size + n) % size_mod ≡ header_size + n = omega arith in
      elim (Option-cases (alloc ((header_size + n) % size_mod))) [
        | inl null ↦ absurd (cc (rw (null, gb_message_alloc) at e))
        | inr (block, found) ↦
            let sized = allocator.block_size _ block found in
            ground (arith, e, found, sized, length-drop 8 block)
      ]

-- The reply that is built in a block for a request.
abbrev pub reply : Bytes → Message → Bytes → ℕ → Message
reply block req payload status = record {
  header = record {
    size = header_size + length payload;
    operation_id = req.header.operation_id;
    type = gb_response req.header.type;
    result = status;
    pad = take 2 (drop 6 block);
  };
  payload = payload;
}

module _ (alloc : ℕ → Option Bytes) (payload : Bytes) (req : Message) (status : ℕ) where
  -- With memory, the reply carries exactly the payload; without, the copy to NULL is undefined.
  pub gb_message_response_alloc_from_req-some :
      (block : Bytes)
      → header_size + length payload < 2 ^ 16
      → alloc (header_size + length payload) ≡ some block
      → length block ≡ header_size + length payload
      → gb_message_response_alloc_from_req alloc payload req status
        ≡ some (some (reply block req payload status))
  unfolding gb_message_response_alloc_from_req
  gb_message_response_alloc_from_req-some block fits found sized =
      let small : (header_size + length payload) % size_mod ≡ header_size + length payload =
        omega arith in
      let short : (header_size + length payload) % 2 ^ 16 ≡ header_size + length payload =
        omega arith in
      let rest : drop (length payload) (drop header_size block) ≡ [] =
        drop_all (length payload) (drop header_size block) (omega (arith, length-drop 8 block)) in
      rw
        (
          small, found, gb_message_response_alloc_from_req, gb_message_response_alloc,
          gb_message_alloc,
        )
        (rw (short, rest, append-nil))

  pub gb_message_response_alloc_from_req-none :
      header_size + length payload < 2 ^ 16
      → alloc (header_size + length payload) ≡ none
      → gb_message_response_alloc_from_req alloc payload req status ≡ none
  unfolding gb_message_response_alloc_from_req
  gb_message_response_alloc_from_req-none fits null =
      let small : (header_size + length payload) % size_mod ≡ header_size + length payload =
        omega arith in
      rw
        (
          small, null, gb_message_response_alloc_from_req, gb_message_response_alloc,
          gb_message_alloc,
        )
        refl

pub gb_message_alloc-some :
    (alloc : ℕ → Option Bytes) (n type id status : ℕ) (block : Bytes)
    → header_size + n < 2 ^ 16
    → alloc (header_size + n) ≡ some block
    → gb_message_alloc alloc n type id status ≡ some (fresh_message block n type id status)
unfolding gb_message_alloc
gb_message_alloc-some alloc n type id status block fits found =
    let small : (header_size + n) % size_mod ≡ header_size + n = omega arith in
    rw (small, found, gb_message_alloc) refl
