-- ===== src/I2cTarget/Reassembly.antt =====
-- transport/i2c.c: messages are taken out of the ring buffer whole and in order, however they came in.
use greybus_zephyr.Base.{
  ℕ, zero, suc, ◌+◌, ◌≤◌, ◌<◌, ◌≡◌, ◌∙◌, inl, inr, refl, sym, ap, true, false, Bool-cases, Option,
  some, List, [], ◌∷◌, ◌++◌, Bytes, le16, lo8, hi8, word16, word16-lo8, arith, ltb, ltb→lt, lt→ltb,
  ge→ltb, cut, take, drop, take-length_append, take-append, take-append_exact, drop-append_exact,
  drop-length_append, length, length-append, append-nil, append_assoc, neg, enodata,
}
use greybus_zephyr.Messages.{
  Header, Message, header_size, header_bytes, header_of_bytes, gb_hdr_message_len,
}
use greybus_zephyr.Messages.Laws.{HasMemory, header_of_bytes-header_bytes}
use greybus_zephyr.Messages.Wire.{wire_bytes, all_bytes, IsSendable, AllSendable}
use greybus_zephyr.I2cTarget.{
  RingBuf, IsRingBuf, failed, taken, take_message, gb_msg_rx_take, process_loop,
}

length-zero {ℓ} : {A : Type ℓ} (xs : List A) → length xs ≡ 0 → xs ≡ []
length-zero [] e = refl
length-zero (x ∷ xs) e = absurd (omega arith)

module _ (m : ℕ × Message) (h : IsSendable m) where
  length-wire_bytes : length (wire_bytes m) ≡ 2 + m.1.header.size
  length-wire_bytes =
      omega
        (arith, length-append m.1.header.pad m.1.payload, h.is_header.pad_len, h.is_message.size_is)

  -- The cport and the header stand at the start.
  take-wire_bytes :
      (rest : Bytes) → take 10 (wire_bytes m ++ rest) ≡ le16 m.0 ++ header_bytes m.1.header
  take-wire_bytes rest =
      let pad : take 2 (m.1.header.pad ++ (m.1.payload ++ rest)) ≡ m.1.header.pad =
        rw (← h.is_header.pad_len) (take-length_append m.1.header.pad (m.1.payload ++ rest)) in
      rw (append_assoc m.1.header.pad m.1.payload rest) (rw pad refl)

  header_is : header_of_bytes (header_bytes m.1.header) ≡ m.1.header
  header_is =
      let raw = header_of_bytes-header_bytes m.1.header [] h.is_header in rw append-nil at raw

  message_header : (rest : Bytes) → header_of_bytes (header_bytes m.1.header ++ rest) ≡ m.1.header
  message_header rest = header_of_bytes-header_bytes m.1.header rest h.is_header

  body : Bytes
  body = header_bytes m.1.header ++ m.1.payload

  length-body : length body ≡ m.1.header.size
  unfolding body
  length-body =
      omega
        (arith, length-append m.1.header.pad m.1.payload, h.is_header.pad_len, h.is_message.size_is)

  drop-body : drop header_size body ≡ m.1.payload
  unfolding body
  drop-body =
      let split = drop-length_append m.1.header.pad m.1.payload in rw h.is_header.pad_len at split

  message_is : record { header = header_of_bytes body; payload = drop header_size body } ≡ m.1
  unfolding body
  message_is = λ i. record { header = message_header m.1.payload i; payload = drop-body i }

-- The messages that are still to come out, of which the first is not there as a whole.
abbrev pub Waiting : Bytes → List (ℕ × Message) → Type 0
Waiting c [] = c ≡ []
Waiting c (m ∷ ms) = length c < length (wire_bytes m)

-- When nothing more is to come, a message of which a part is there cannot be waited for.
pub not-Waiting :
    (todo : List (ℕ × Message)) (c : Bytes)
    → c ≡ all_bytes todo
    → Waiting c todo
    → (todo ≡ []) × (c ≡ [])
not-Waiting [] c e w = (refl, e)
not-Waiting (m ∷ ms) c e w =
    absurd (omega (arith, w, ap length e, length-append (wire_bytes m) (all_bytes ms)))

module _ {R : Type 0} (ring : RingBuf R) (contents : R → Bytes) (capacity : ℕ)
    (k : IsRingBuf ring contents capacity) (alloc : ℕ → Option Bytes) where
  -- With a header in the buffer, the message is looked for under it.
  gb_msg_rx_take-header :
      (m : ℕ × Message) (h : IsSendable m) (rest : Bytes) (r : R)
      → 10 ≤ length (contents r)
      → take 10 (contents r) ≡ le16 m.0 ++ header_bytes m.1.header
      → gb_msg_rx_take ring alloc r ≡ take_message ring alloc m.0 m.1.header r
  unfolding gb_msg_rx_take
  gb_msg_rx_take-header m h rest r enough e =
      let there : ltb (ring.size_get r) 10 ≡ false = rw (k.size_is r) (ge→ltb _ _ enough) in
      let hdr_is : ring.peek r 10 ≡ le16 m.0 ++ header_bytes m.1.header = k.peek_is r 10 ∙ e in
      let long : ltb (length (le16 m.0 ++ header_bytes m.1.header)) 10 ≡ false =
        ge→ltb _ _ (omega (arith, h.is_header.pad_len)) in
      let cport_is : word16 (lo8 m.0) (hi8 m.0) ≡ m.0 = word16-lo8 m.0 h.cport_lt in
      rw (there, hdr_is, long)
        (rw cport_is (ap (λ (hd : Header). take_message ring alloc m.0 hd r) (header_is m h)))

  -- A message of which a part is still to come is left in the buffer.
  pub gb_msg_rx_take-part :
      (m : ℕ × Message) (h : IsSendable m) (future rest : Bytes) (r : R)
      → contents r ++ future ≡ wire_bytes m ++ rest
      → length (contents r) < length (wire_bytes m)
      → gb_msg_rx_take ring alloc r ≡ some (failed (neg enodata), r)
  unfolding gb_msg_rx_take take_message gb_hdr_message_len
  gb_msg_rx_take-part m h future rest r e short = elim (Bool-cases (ltb (length (contents r)) 10)) [
    | inl few ↦
        let few' : ltb (ring.size_get r) 10 ≡ true = rw (k.size_is r) few in
        rw (few', gb_msg_rx_take) refl
    | inr enough ↦
        let head : take 10 (contents r) ≡ le16 m.0 ++ header_bytes m.1.header =
          sym (take-append 10 (contents r) future (ground (arith, enough)))
          ∙ (ap (take 10) e ∙ take-wire_bytes m h rest) in
        let wants : ltb (ring.size_get r) (2 + m.1.header.size) ≡ true =
          rw (k.size_is r) (lt→ltb _ _ (omega (arith, short, length-wire_bytes m h))) in
        gb_msg_rx_take-header m h rest r (ground (arith, enough)) head
        ∙ (rw (take_message, wants) refl)
  ]

  -- A message that is all there is taken as it was sent, and what lies behind it stays.
  gb_msg_rx_take-whole :
      HasMemory alloc
      → (m : ℕ × Message) (h : IsSendable m) (rest : Bytes) (r : R)
      → contents r ≡ wire_bytes m ++ rest
      → (r' : R) × (gb_msg_rx_take ring alloc r ≡ some (taken m.0 m.1, r')) × (contents r' ≡ rest)
  unfolding take_message gb_hdr_message_len body
  gb_msg_rx_take-whole memory m h rest r e =
      let (block, found, sized) = memory.blocks m.1.header.size in
      let len : length (contents r) ≡ 2 + m.1.header.size + length rest =
        omega (arith, ap length e, length-append (wire_bytes m) rest, length-wire_bytes m h) in
      let there : ltb (ring.size_get r) (2 + m.1.header.size) ≡ false =
        rw (k.size_is r) (ge→ltb _ _ (omega (arith, len))) in
      let big : ltb m.1.header.size header_size ≡ false =
        ge→ltb _ _ (omega (arith, h.is_message.size_is)) in
      let r1 = (ring.get r 2).1 in
      let c1 : contents r1 ≡ body m h ++ rest = (k.get_is r 2).1 ∙ ap (drop 2) e in
      let got_is : (ring.get r1 m.1.header.size).0 ≡ body m h =
        (k.get_is r1 m.1.header.size).0
        ∙ (ap (take m.1.header.size) c1
            ∙ take-append_exact m.1.header.size (body m h) rest (length-body m h)) in
      let left_is : contents (ring.get r1 m.1.header.size).1 ≡ rest =
        (k.get_is r1 m.1.header.size).1
        ∙ (ap (drop m.1.header.size) c1
            ∙ drop-append_exact m.1.header.size (body m h) rest (length-body m h)) in
      let msg_is : record {
        header = header_of_bytes (ring.get r1 m.1.header.size).0;
        payload = drop header_size (ring.get r1 m.1.header.size).0;
      }
          ≡ m.1 =
        ap (λ (b : Bytes). record { header = header_of_bytes b; payload = drop header_size b })
          got_is
        ∙ message_is m h in
      (
        (ring.get r1 m.1.header.size).1,
        gb_msg_rx_take-header m h rest r (omega (arith, len, h.is_message.size_is))
              (ap (take 10) e ∙ take-wire_bytes m h rest)
            ∙ (rw (take_message, there, found, big)
                (ap (λ (a : Message). some (taken m.0 a, (ring.get r1 m.1.header.size).1)) msg_is)),
        left_is,
      )

  -- The loop takes all messages that are there, and leaves the rest.
  pub process_loop_lem :
      HasMemory alloc
      → (ms : List (ℕ × Message)) (fuel : ℕ) (future : Bytes) (r : R) → AllSendable ms
      → length (contents r) < fuel
      → contents r ++ future ≡ all_bytes ms
      → (done : List (ℕ × Message)) × (todo : List (ℕ × Message)) × (r' : R) × (process_loop ring
            alloc fuel r
          ≡ some (done, r'))
        × (ms ≡ done ++ todo)
        × (contents r' ++ future ≡ all_bytes todo)
        × Waiting (contents r') todo
        × AllSendable todo
  unfolding process_loop gb_msg_rx_take
  process_loop_lem memory ms zero future r h f e = absurd (omega arith)
  process_loop_lem memory [] (suc fuel) future r h f e =
      let len : length (contents r) ≡ 0 =
        omega (arith, ap length e, length-append (contents r) future) in
      let few : ltb (ring.size_get r) 10 ≡ true =
        rw (k.size_is r) (lt→ltb _ _ (omega (arith, len))) in
      ([], [], r, rw (few, gb_msg_rx_take) refl, refl, e, length-zero (contents r) len, tt)
  process_loop_lem memory (m ∷ ms) (suc fuel) future r (h, hs) f e =
      elim (Bool-cases (ltb (length (contents r)) (length (wire_bytes m)))) [
        | inl short ↦ (
          [],
          m ∷ ms,
          r,
          rw (gb_msg_rx_take-part m h future (all_bytes ms) r e (ltb→lt _ _ short)) refl,
          refl,
          e,
          ltb→lt _ _ short,
          (h, hs),
        )
        | inr long ↦
            let (ws, front, back) =
              cut (wire_bytes m) (all_bytes ms) (contents r) future (sym e)
                (ground (arith, long)) in
            let (r1, took, left) = gb_msg_rx_take-whole memory m h ws r front in
            let (done, todo, r2, runs, split, after, waits, hs') =
              process_loop_lem memory ms fuel future r1 hs
                (omega (
                  arith,
                  ap length left,
                  ap length front,
                  length-append (wire_bytes m) ws,
                  length-wire_bytes m h,
                ))
                (rw left (sym back)) in
            (m ∷ done, todo, r2, rw took (rw runs refl), ap (◌∷◌ m) split, after, waits, hs')
      ]
