-- ===== src/Tcpip/Exchange.antt =====
-- tcpip.c: what one side sends the other receives, message by message, however the network cuts it up.
use greybus_zephyr.Base.{
  ℕ, zero, suc, ◌+◌, ◌^◌, ◌<◌, ◌≡◌, ◌∙◌, refl, sym, ap, true, Option, none, some, List, [], ◌∷◌,
  ◌++◌, Bytes, le16, word16, lo8, hi8, word16-lo8, arith, leb, le→leb, ◌==◌, take, take_all, drop,
  length, length-append, append-nil, append_assoc, ℤ, pos, negsuc, ◌>>=◌,
}
use greybus_zephyr.Messages.{Header, Message, header_size, header_bytes, header_of_bytes}
use greybus_zephyr.Messages.Laws.{HasMemory, IsMessage, IsHeader, header_of_bytes-header_bytes}
use greybus_zephyr.Messages.Received.{
  copy, copy-Same, fresh_lem, fresh-len, fresh-room, overwrite-fresh,
}
use greybus_zephyr.Messages.Wire.{
  wire_bytes, wire_bytes_lem, all_bytes, IsSendable, AllSendable, AllSame,
}
use greybus_zephyr.Tcpip.{
  Recv, message, nothing, receive_payload, receive_header, gb_message_receive, gb_trans_send,
}
use greybus_zephyr.Tcpip.Loops.{Delivers, read_data-stream, Takes, write_data-wire}

module _ {S : Type 0} (send : S → Bytes → ℤ × S) (wire : S → Bytes) (t : Takes send wire) where
  pub gb_trans_send-wire :
      (m : ℕ × Message) (s : S)
      → IsSendable m
      → (s' : S) × (gb_trans_send send m.0 m.1 s ≡ some (pos 0, s'))
        × (wire s' ≡ wire s ++ wire_bytes m)
  unfolding gb_trans_send
  gb_trans_send-wire (cport, msg) s h =
      let (s1, first, out1) = write_data-wire send wire t (le16 cport) s in
      let (s2, second, out2) =
        write_data-wire send wire t (header_bytes msg.header ++ msg.payload) s1 in
      let whole : take msg.header.size (header_bytes msg.header ++ msg.payload)
          ≡ header_bytes msg.header ++ msg.payload =
        take_all _ _ (
          omega (
            arith,
            length-append msg.header.pad msg.payload,
            h.is_header.pad_len,
            h.is_message.size_is,
          )) in
      let fits : leb msg.header.size (header_size + length msg.payload) ≡ true =
        le→leb _ _ (omega (arith, h.is_message.size_is)) in
      (
        s2,
        rw (first, fits, whole, second) refl,
        out2
            ∙ (rw out1
                (append_assoc (wire s) (le16 cport) (header_bytes msg.header ++ msg.payload))),
      )

module _ {S : Type 0} (recv : S → ℕ → Recv × S) (alloc : ℕ → Option Bytes) where
  -- Calls of `gb_message_receive` one after another, each of which brings a message.
  pub receive_all : ℕ → S → Option (List (ℕ × Message) × S)
  receive_all zero s = some ([], s)
  receive_all (suc n) s = gb_message_receive recv alloc s >>= λ r. elim r.0 [
    | nothing closed ↦ none
    | message cport msg ↦ receive_all n r.1 >>= λ rest. some ((cport, msg) ∷ rest.0, rest.1)
  ]

module _ {S : Type 0} (recv : S → ℕ → Recv × S) (stream : S → Bytes) (d : Delivers recv stream)
    (alloc : ℕ → Option Bytes) where
  receive_payload-copy :
      (cport : ℕ) (msg : Message) (m : IsMessage msg) (block rest : Bytes) (s : S)
      → alloc (header_size + length msg.payload) ≡ some block
      → length block ≡ header_size + length msg.payload
      → stream s ≡ msg.payload ++ rest
      → (s' : S) × (receive_payload recv alloc cport msg.header s
          ≡ some (message cport (copy block msg), s'))
        × (stream s' ≡ rest)
  unfolding receive_payload
  receive_payload-copy cport msg m block rest s found sized e =
      let (s', runs, after) =
        read_data-stream recv stream d msg.payload rest (length msg.payload) s refl e in
      let room : leb (length msg.payload) (length (drop header_size block)) ≡ true =
        le→leb _ _ (omega (arith, fresh-room alloc msg m block found sized)) in
      let same_len : (length msg.payload == length msg.payload) ≡ true = ground arith in
      (
        s',
        rw (fresh_lem alloc msg m block found sized, receive_payload)
            (rw (fresh-len alloc msg m block found sized, room, runs)
              (rw (same_len, overwrite-fresh alloc msg m block found sized) refl)),
        after,
      )

  -- The cport and the header are read as they were sent; what follows is left to the payload's read.
  pub gb_message_receive-prefix :
      (cport : ℕ) (hdr : Header) (rest : Bytes) (s : S)
      → cport < 2 ^ 16
      → IsHeader hdr
      → stream s ≡ le16 cport ++ (header_bytes hdr ++ rest)
      → (s' : S) × (gb_message_receive recv alloc s ≡ receive_payload recv alloc cport hdr s')
        × (stream s' ≡ rest)
  unfolding gb_message_receive receive_header
  gb_message_receive-prefix cport hdr rest s c i e =
      let (s1, runs, after) =
        read_data-stream recv stream d (le16 cport) (header_bytes hdr ++ rest) 2 s refl e in
      let (s2, runs2, after2) =
        read_data-stream recv stream d (header_bytes hdr) rest header_size s1
          (omega (arith, i.pad_len)) after in
      let raw = header_of_bytes-header_bytes hdr [] i in
      let header_is : header_of_bytes (header_bytes hdr) ≡ hdr = rw append-nil at raw in
      let cport_is : word16 (lo8 cport) (hi8 cport) ≡ cport = word16-lo8 cport c in
      (
        s2,
        rw runs (
            rw (cport_is, receive_header, runs2)
              (ap (λ (h : Header). receive_payload recv alloc cport h s2) header_is)),
        after2,
      )

  gb_message_receive-copy :
      (m : ℕ × Message) (h : IsSendable m) (block rest : Bytes) (s : S)
      → alloc (header_size + length m.1.payload) ≡ some block
      → length block ≡ header_size + length m.1.payload
      → stream s ≡ wire_bytes m ++ rest
      → (s' : S) × (gb_message_receive recv alloc s ≡ some (message m.0 (copy block m.1), s'))
        × (stream s' ≡ rest)
  gb_message_receive-copy (cport, msg) h block rest s found sized e =
      let (s1, runs, after) =
        gb_message_receive-prefix cport msg.header (msg.payload ++ rest) s h.cport_lt h.is_header
          (e ∙ wire_bytes_lem cport msg rest) in
      let (s2, runs2, after2) =
        receive_payload-copy cport msg h.is_message block rest s1 found sized after in
      (s2, runs ∙ runs2, after2)

  receive_all-same :
      HasMemory alloc
      → (ms : List (ℕ × Message)) (rest : Bytes) (s : S) → AllSendable ms
      → stream s ≡ all_bytes ms ++ rest
      → (got : List (ℕ × Message)) × (s' : S) × (receive_all recv alloc (length ms) s
          ≡ some (got, s'))
        × AllSame got ms
        × (stream s' ≡ rest)
  unfolding receive_all
  receive_all-same memory [] rest s h e = ([], s, refl, tt, e)
  receive_all-same memory (m ∷ ms) rest s (h, hs) e =
      let (block, found, sized) = memory.blocks (header_size + length m.1.payload) in
      let (s1, runs, after) =
        gb_message_receive-copy m h block (all_bytes ms ++ rest) s found sized
          (e ∙ append_assoc (wire_bytes m) (all_bytes ms) rest) in
      let (got, s2, runs2, same, after2) = receive_all-same memory ms rest s1 hs after in
      (
        (m.0, copy block m.1) ∷ got,
        s2,
        rw runs (rw runs2 refl),
        (refl, copy-Same block m.1 h.is_message, same),
        after2,
      )

module _ {S : Type 0} (send : S → Bytes → ℤ × S) where
  -- Calls of `gb_trans_send` one after another, each of which succeeds.
  pub send_all : List (ℕ × Message) → S → Option S
  send_all [] s = some s
  send_all (m ∷ ms) s =
      gb_trans_send send m.0 m.1 s >>= λ r. elim r.0 [ pos n ↦ send_all ms r.1 | negsuc n ↦ none ]

  send_all-wire :
      (wire : S → Bytes)
      → Takes send wire
      → (ms : List (ℕ × Message)) (s : S) → AllSendable ms
      → (s' : S) × (send_all ms s ≡ some s') × (wire s' ≡ wire s ++ all_bytes ms)
  unfolding send_all
  send_all-wire wire t [] s h = (s, refl, sym (append-nil (wire s)))
  send_all-wire wire t (m ∷ ms) s (h, hs) =
      let (s1, runs, out) = gb_trans_send-wire send wire t m s h in
      let (s2, runs2, out2) = send_all-wire wire t ms s1 hs in
      (s2, rw runs runs2, out2 ∙ (rw out (append_assoc (wire s) (wire_bytes m) (all_bytes ms))))

-- Over a connection that takes at least one byte in each send and brings at least one in each
-- receive while some are left, however it cuts them up, and with memory: sending well-formed
-- messages one after another succeeds and puts their wire form on the connection, and as many
-- rounds of gb_message_receive on that stream bring the same messages (size, id, type, result and
-- payload) on the same cports, in order, and leave no byte unread.
pub receive_all-send_all :
    {W R : Type 0} (send : W → Bytes → ℤ × W) (wire : W → Bytes) (recv : R → ℕ → Recv × R)
    (stream : R → Bytes) (alloc : ℕ → Option Bytes)
    → Takes send wire
    → Delivers recv stream
    → HasMemory alloc
    → (ms : List (ℕ × Message)) (w : W) (r : R) → AllSendable ms
    → wire w ≡ []
    → stream r ≡ all_bytes ms
    → (w' : W) × (got : List (ℕ × Message)) × (r' : R) × (send_all send ms w ≡ some w')
      × (wire w' ≡ stream r)
      × (receive_all recv alloc (length ms) r ≡ some (got, r'))
      × AllSame got ms
      × (stream r' ≡ [])
receive_all-send_all send wire recv stream alloc t d memory ms w r h empty e =
    let (w', sent, out) = send_all-wire send wire t ms w h in
    let (got, r', runs, same, after) =
      receive_all-same recv stream d alloc memory ms [] r h (e ∙ sym (append-nil (all_bytes ms))) in
    let fed : wire w' ≡ stream r = out ∙ (ap (λ b. b ++ all_bytes ms) empty ∙ sym e) in
    (w', got, r', sent, fed, runs, same, after)
