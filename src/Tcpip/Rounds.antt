-- ===== src/Tcpip/Rounds.antt =====
-- tcpip.c: what a round of the receiving thread does with the client's socket.
use greybus_zephyr.Base.{
  ℕ, ◌+◌, ◌<◌, ◌≡◌, ◌∙◌, refl, false, Option, none, some, [], ◌++◌, Bytes, arith, ◌^◌, le16, length,
  length-drop, drop, leb, gt→leb, size_mod, ◌-◌, ◌%◌,
}
use greybus_zephyr.Messages.{
  Header, Message, header_size, header_bytes, gb_message_alloc, gb_hdr_payload_len,
  gb_message_payload_len, fresh_message,
}
use greybus_zephyr.Messages.Laws.{IsHeader}
use greybus_zephyr.Core.Cports.{Cports, Queue}
use greybus_zephyr.Tcpip.{
  Recv, got, readable, read_loop, read_data, receive_payload, gb_message_receive, gb_trans_rx,
}
use greybus_zephyr.Tcpip.Loops.{Delivers}
use greybus_zephyr.Messages.Wire.{IsSendable, wire_bytes, wire_bytes_lem}
use greybus_zephyr.Tcpip.Exchange.{gb_message_receive-prefix}

module _ {S : Type 0} (recv : S → ℕ → Recv × S) (alloc : ℕ → Option Bytes) (cports : Cports)
    (queue : Queue) where
  -- A peer that has closed the connection, before a message, makes the round close the socket.
  pub gb_trans_rx-closed :
      (s : S)
      → (recv s 2).0 ≡ got []
      → gb_trans_rx recv alloc cports readable s queue
        ≡ some (record { client = none; handed = none })
  unfolding gb_trans_rx gb_message_receive read_data read_loop
  gb_trans_rx-closed s e = rw (e, gb_message_receive, read_data, read_loop) refl

  module _ (stream : S → Bytes) (d : Delivers recv stream) where
    -- If there is no memory for a well-formed message that the peer has sent, the round hands
    -- on nothing and keeps the connection, with the message's payload still unread in front
    -- of the next message.
    pub gb_trans_rx-no_memory :
        (m : ℕ × Message) (rest : Bytes) (s : S)
        → IsSendable m
        → alloc (header_size + length m.1.payload) ≡ none
        → stream s ≡ wire_bytes m ++ rest
        → (s' : S) × (gb_trans_rx recv alloc cports readable s queue
            ≡ some (record { client = some s'; handed = none }))
          × (stream s' ≡ m.1.payload ++ rest)
    unfolding gb_trans_rx receive_payload gb_message_alloc gb_hdr_payload_len
    gb_trans_rx-no_memory (cport, msg) rest s h null e =
        let (s1, runs, after) =
          gb_message_receive-prefix recv stream d alloc cport msg.header (msg.payload ++ rest) s
            h.cport_lt h.is_header (e ∙ wire_bytes_lem cport msg rest) in
        let asks : (header_size + (msg.header.size + size_mod - header_size) % size_mod) % size_mod
            ≡ header_size + length msg.payload =
          omega (arith, h.is_message.size_is, h.is_message.size_fits) in
        (
          s1,
          rw runs (rw (receive_payload, gb_message_alloc, gb_hdr_payload_len, asks, null) refl),
          after,
        )

    -- A round on a header whose size field is below the size of a header.
    gb_trans_rx-undersized :
        (cport : ℕ) (hdr : Header) (rest block : Bytes) (s : S)
        → cport < 2 ^ 16
        → IsHeader hdr
        → hdr.size < header_size
        → alloc hdr.size ≡ some block
        → length block ≡ hdr.size
        → stream s ≡ le16 cport ++ (header_bytes hdr ++ rest)
        → gb_trans_rx recv alloc cports readable s queue ≡ none
    unfolding gb_trans_rx receive_payload gb_message_alloc gb_hdr_payload_len gb_message_payload_len
    gb_trans_rx-undersized cport hdr rest block s c i small found sized e =
        let (s1, runs, after) =
          gb_message_receive-prefix recv stream d alloc cport hdr rest s c i e in
        let asks : (header_size + (hdr.size + size_mod - header_size) % size_mod) % size_mod
            ≡ hdr.size =
          omega arith in
        let msg =
          fresh_message block (gb_hdr_payload_len hdr) hdr.type hdr.operation_id hdr.result in
        let long : leb (gb_message_payload_len msg) (length (drop header_size block)) ≡ false =
          gt→leb _ _ (omega (arith, length-drop 8 block, sized)) in
        rw runs
          (rw (receive_payload, gb_message_alloc, gb_hdr_payload_len, asks, found) (rw long refl))
