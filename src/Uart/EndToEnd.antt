-- ===== src/Uart/EndToEnd.antt =====
-- uart.c with hdlc.c and greybus-core.c: a message sent by one side is received by the other.
use greybus_zephyr.Base.{
  ℕ, ◌+◌, ◌-◌, ◌%◌, ◌^◌, ◌≤◌, ◌<◌, ◌≡◌, ◌∙◌, refl, ap, true, false, Option, some, List, [], ◌∷◌,
  ◌++◌, Bytes, word16, word16-lo8, arith, ltb, leb, ge→ltb, le→leb, get_or, take, drop, take_all,
  drop-length_append, length, length-append, append_assoc, size_mod, pos,
}
use greybus_zephyr.Messages.{
  Header, Message, header_size, header_of_bytes, gb_hdr_message_len, gb_message_payload_len,
}
use greybus_zephyr.Messages.Laws.{
  HasMemory, IsMessage, IsHeader, header_of_bytes-header_bytes, gb_message_payload_len_lem,
}
use greybus_zephyr.Messages.Received.{Same, copy, copy-Same, fresh_lem, fresh-len, filled}
use greybus_zephyr.Core.Cports.{Cports, Queue, Received, greybus_rx_handler}
use greybus_zephyr.Hdlc.{Frame, Driver, CrcCcitt, hdlc_process_buffer, hdlc_block_send_sync}
use greybus_zephyr.Hdlc.RoundTrip.{Holds, hdlc_process_buffer-hdlc_block_send_sync}
use greybus_zephyr.Uart.{
  address_greybus, frame_bytes, gb_message_hdlc_send, process_frame, hdlc_process_frame_cb,
}

module _ (msg : Message) (cport : ℕ) (m : IsMessage msg) (i : IsHeader msg.header) where
  -- The frame's bytes are the cport, the header and the whole payload.
  whole_payload : take (gb_message_payload_len msg) msg.payload ≡ msg.payload
  whole_payload = take_all _ msg.payload (omega (arith, gb_message_payload_len_lem msg m))

  length-frame_bytes : length (frame_bytes msg cport) ≡ msg.header.size + 2
  length-frame_bytes =
      rw whole_payload
        (omega (arith, length-append msg.header.pad msg.payload, i.pad_len, m.size_is))

  frame_body : (rest : Bytes) → drop 10 (frame_bytes msg cport ++ rest) ≡ msg.payload ++ rest
  frame_body rest =
      let split = drop-length_append msg.header.pad (msg.payload ++ rest) in
      rw (whole_payload, append_assoc) (rw i.pad_len at split)

  frame_header :
      (rest : Bytes) → header_of_bytes (drop 2 (frame_bytes msg cport ++ rest)) ≡ msg.header
  frame_header rest = rw append_assoc (
      header_of_bytes-header_bytes msg.header
        (take (gb_message_payload_len msg) msg.payload ++ rest) i)

  -- What is sent is one frame with the message in it.
  hdlc_send_lem :
      (crc16 : ℕ → ℕ → ℕ)
      → msg.header.size ≤ 506
      → gb_message_hdlc_send crc16 msg cport
        ≡ some (hdlc_block_send_sync crc16 (frame_bytes msg cport) address_greybus)
  unfolding gb_message_hdlc_send
  hdlc_send_lem crc16 small =
      let len = gb_message_payload_len_lem msg m in
      let fits : leb (gb_message_payload_len msg + 10) 512 ≡ true =
        le→leb _ _ (omega (arith, len, m.size_is)) in
      let there : leb (gb_message_payload_len msg) (length msg.payload) ≡ true =
        le→leb _ _ (omega (arith, len)) in
      let all : take (msg.header.size + 2) (frame_bytes msg cport) ≡ frame_bytes msg cport =
        take_all _ (frame_bytes msg cport) (omega (arith, length-frame_bytes)) in
      rw (fits, there) (rw all refl)

module _ (alloc : ℕ → Option Bytes) (msg : Message) (m : IsMessage msg) (block : Bytes)
    (found : alloc (header_size + length msg.payload) ≡ some block)
    (sized : length block ≡ header_size + length msg.payload) where
  cb_lem :
      (cports : Cports) (queue : Queue) (cport : ℕ) (buffer stale : Bytes) {received : Received}
      → header_of_bytes (drop 2 buffer) ≡ msg.header
      → drop 10 buffer ≡ msg.payload ++ stale
      → word16 (get_or buffer 0 0) (get_or buffer 1 0) ≡ cport
      → msg.header.size + 2 ≤ length buffer
      → greybus_rx_handler cports cport (copy block msg) queue ≡ some received
      → hdlc_process_frame_cb alloc cports queue buffer (msg.header.size + 2)
        ≡ some (record { ret = pos 0; handed = some received })
  unfolding hdlc_process_frame_cb process_frame gb_hdr_message_len
  cb_lem cports queue cport buffer stale hdr_is body_is cport_is long handed =
      let guard : ltb ((msg.header.size + 2 + size_mod - 2) % size_mod) msg.header.size ≡ false =
        ge→ltb _ _ (omega (arith, m.size_fits)) in
      let there : leb (length msg.payload + 10) (length buffer) ≡ true =
        le→leb _ _ (omega (arith, long, m.size_is)) in
      let guarded : ltb ((msg.header.size + 2 + size_mod - 2) % size_mod)
            (gb_hdr_message_len msg.header)
          ≡ false =
        guard in
      ap (λ (h : Header). process_frame alloc cports queue buffer (msg.header.size + 2) h) hdr_is
      ∙ rw
          (
            guarded,
            fresh_lem alloc msg m block found sized,
            fresh-len alloc msg m block found sized,
            there,
            body_is,
            cport_is,
          )
          (rw (filled alloc msg m block found sized stale, handed) refl)

-- What the receiver has made of the bytes: it is ready again, and the frame that it delivered hands a
-- copy of the message to the receive queue, whatever lies behind the frame in the buffer.
pub record ReceivedAs (alloc : ℕ → Option Bytes) (msg : Message) (cport : ℕ) (out : List Frame)
    (drv' : Driver) : Type 0 where
  pub frame : Frame
  pub ready : Holds drv' [] 0xffff (out ++ frame ∷ [])
  pub address_is : frame.address ≡ address_greybus
  pub copied : Message
  pub same : Same copied msg
  pub handed :
      (cports : Cports) (queue : Queue) (stale : Bytes) (received : Received)
      → greybus_rx_handler cports cport copied queue ≡ some received
      → hdlc_process_frame_cb alloc cports queue (frame.payload ++ stale) (length frame.payload)
        ≡ some (record { ret = pos 0; handed = some received })

-- A well-formed message of at most 506 bytes that is sent over the UART makes an idle receiver
-- deliver one frame; the frame callback then hands greybus_rx_handler a message with the same
-- size, id, type, result and payload on the same cport, and the receiver is idle again.
pub gb_message_hdlc_send-received :
    (crc16 : ℕ → ℕ → ℕ) (alloc : ℕ → Option Bytes) (msg : Message) (cport : ℕ) (drv : Driver)
    (out : List Frame)
    → CrcCcitt crc16
    → HasMemory alloc
    → IsMessage msg
    → IsHeader msg.header
    → msg.header.size ≤ 506
    → cport < 2 ^ 16
    → Holds drv [] 0xffff out
    → (bytes : Bytes) × (gb_message_hdlc_send crc16 msg cport ≡ some (pos 0, bytes))
      × (drv' : Driver) × (hdlc_process_buffer crc16 drv bytes ≡ some drv')
      × ReceivedAs alloc msg cport out drv'
unfolding hdlc_block_send_sync
gb_message_hdlc_send-received crc16 alloc msg cport drv out ccitt memory m i small in_range idle =
    let (block, found, sized) = memory.blocks (header_size + length msg.payload) in
    let sent = hdlc_send_lem msg cport m i crc16 small in
    let len = length-frame_bytes msg cport m i in
    let (drv', run, ready) =
      hdlc_process_buffer-hdlc_block_send_sync crc16 ccitt (frame_bytes msg cport) address_greybus
        drv out (omega (arith, len)) idle in
    (
      (hdlc_block_send_sync crc16 (frame_bytes msg cport) address_greybus).1,
      sent,
      drv',
      run,
      record {
        frame = record { payload = frame_bytes msg cport; address = address_greybus };
        ready = ready;
        address_is = refl;
        copied = copy block msg;
        same = copy-Same block msg m;
        handed = λ cports queue stale received h. rw len (
            cb_lem alloc msg m block found sized cports queue cport (frame_bytes msg cport ++ stale)
              stale (frame_header msg cport m i stale) (frame_body msg cport m i stale)
              (word16-lo8 cport in_range)
              (omega (arith, len, length-append (frame_bytes msg cport) stale)) h);
      },
    )
