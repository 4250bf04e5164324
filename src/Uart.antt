-- ===== src/Uart.antt =====
-- subsys/greybus/transport/uart.c: Greybus messages in HDLC frames over a UART.
-- `none` is undefined behaviour: the copy past the 512-byte buffer on the stack, or past what is received.
pub mod EndToEnd
mod Tests
use greybus_zephyr.Base.{
  ℕ, ◌+◌, ◌-◌, ◌%◌, ◌≤◌, Bool, ◌&&◌, Option, none, some, List, [], ◌∷◌, ◌++◌, Bytes, le16, word16,
  ltb, leb, if◌then◌else◌, get_or, take, drop, length, overwrite, size_mod, ℤ, pos, negsuc, ◌>>=◌,
}
use greybus_zephyr.Messages.{
  Header, Message, header_size, header_bytes, header_of_bytes, gb_hdr_message_len,
  gb_hdr_payload_len, gb_message_payload_len, gb_message_alloc,
}
use greybus_zephyr.Core.Cports.{Cports, Queue, Received, greybus_rx_handler}
use greybus_zephyr.Hdlc.{hdlc_max_block_size, hdlc_block_send_sync}

abbrev pub address_greybus : ℕ
address_greybus = 0x01

-- What is copied into the buffer before it is sent: the fields of `struct hdlc_greybus_frame`.
abbrev pub frame_bytes : Message → ℕ → Bytes
frame_bytes msg cport =
    le16 cport ++ (header_bytes msg.header ++ take (gb_message_payload_len msg) msg.payload)

-- The result, and the bytes that go to the UART.
unfoldable pub gb_message_hdlc_send : (ℕ → ℕ → ℕ) → Message → ℕ → Option (ℤ × Bytes)
gb_message_hdlc_send crc16 msg cport =
    if leb (gb_message_payload_len msg + 10) hdlc_max_block_size
      && leb (gb_message_payload_len msg) (length msg.payload)
    then some (
        hdlc_block_send_sync crc16 (take (msg.header.size + 2) (frame_bytes msg cport))
          address_greybus)
    else none

-- The message is handed to `greybus_rx_handler`, or nothing is.
pub record Outcome : Type 0 where
  pub ret : ℤ
  pub handed : Option Received

-- What the frame callback does with a frame, once its header is read.
unfoldable pub process_frame :
    (ℕ → Option Bytes) → Cports → Queue → Bytes → ℕ → Header → Option Outcome
process_frame alloc cports queue buffer buffer_len hdr =
    let msg_len = (buffer_len + size_mod - 2) % size_mod in
    if ltb msg_len (gb_hdr_message_len hdr)
    then some (record { ret = negsuc 0; handed = none })
    else elim (gb_message_alloc alloc (gb_hdr_payload_len hdr) hdr.type hdr.operation_id
        hdr.result) [
          | none ↦ some (record { ret = negsuc 0; handed = none })
          | some msg ↦
              if leb (gb_message_payload_len msg + 10) (length buffer)
              then (do
                received ←
                    greybus_rx_handler cports (word16 (get_or buffer 0 0) (get_or buffer 1 0))
                      (record msg {
                        payload =
                            overwrite msg.payload
                              (take (gb_message_payload_len msg) (drop 10 buffer));
                      })
                      queue
                some (record { ret = pos 0; handed = some received }))
              else none
        ]

-- The frame starts at `buffer`, which goes on to the end of the receive buffer; only its first
-- `buffer_len` bytes are the frame's. `greybus_rx_handler` returns 0 in every case.
unfoldable pub hdlc_process_frame_cb :
    (ℕ → Option Bytes) → Cports → Queue → Bytes → ℕ → Option Outcome
hdlc_process_frame_cb alloc cports queue buffer buffer_len =
    process_frame alloc cports queue buffer buffer_len (header_of_bytes (drop 2 buffer))

-- The bytes are polled out one by one; the count of them is returned.
pub hdlc_send_frame_cb : Bytes → ℤ × Bytes
hdlc_send_frame_cb buffer = (pos (length buffer), buffer)
