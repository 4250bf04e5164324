-- ===== src/Hdlc.antt =====
-- subsys/greybus/transport/hdlc/hdlc.c: byte-stuffed frames with a CRC over a serial line.
-- `crc16_ccitt` is Zephyr's; the model takes its effect on one byte as the parameter `crc16`.
-- The callbacks are kept as logs: the frames handed to `process_callback_frame_cb`, and the bytes
-- handed to `send_frame_cb`. `none` is a failed assert, which stops the firmware.
pub mod Bounds
pub mod Receive
pub mod RoundTrip
pub mod Crc
mod Tests
use greybus_zephyr.Base.{
  ℕ, ◌+◌, ◌-◌, ◌/◌, ◌%◌, ◌^◌, bit_xor, ◌<◌, ◌≡◌, Bool, true, false, ◌&&◌, ◌||◌, Option, none, some,
  List, [], ◌∷◌, ◌++◌, Bytes, lo8, ltb, leb, ◌==◌, if◌then◌else◌, get_or, set, take, drop, ℤ, pos,
  ◌>>=◌,
}

abbrev pub hdlc_frame : ℕ
hdlc_frame = 0x7e

abbrev pub hdlc_esc : ℕ
hdlc_esc = 0x7d

abbrev pub hdlc_uframe : ℕ
hdlc_uframe = 0x03

abbrev pub hdlc_max_block_size : ℕ
hdlc_max_block_size = 512

-- The arguments of one call of the frame callback; its length argument is that of `payload`.
pub record Frame : Type 0 where
  pub payload : Bytes
  pub address : ℕ

-- `struct hdlc_driver`, and the frames delivered so far, oldest first.
pub record Driver : Type 0 where
  pub crc : ℕ
  pub rx_buffer_len : ℕ
  pub rx_buffer : Bytes
  pub next_escaped : Bool
  pub delivered : List Frame

-- What `hdlc_init` leaves; the buffer's contents are whatever they were.
pub hdlc_init : Bytes → Driver
hdlc_init buffer = record {
  crc = 0xffff;
  rx_buffer_len = 0;
  rx_buffer = buffer;
  next_escaped = false;
  delivered = [];
}

-- The call is logged; a negative result of the callback only writes to the system's log.
pub hdlc_process_complete_frame : Driver → Driver
hdlc_process_complete_frame drv = record drv {
  delivered =
      drv.delivered
      ++ (record {
        payload = take (drv.rx_buffer_len - 4) (drop 2 drv.rx_buffer);
        address = get_or drv.rx_buffer 0 0;
      }
          ∷ []);
}

pub hdlc_reset : Driver → Driver
hdlc_reset drv = record drv { crc = 0xffff; rx_buffer_len = 0 }

pub hdlc_process_frame : Driver → Option Driver
hdlc_process_frame drv =
    if ltb 3 drv.rx_buffer_len && drv.crc == 0xf0b8
    then if get_or drv.rx_buffer 1 0 == hdlc_uframe
      then some (hdlc_reset (hdlc_process_complete_frame drv))
      else none
    else some (hdlc_reset drv)

-- The store `rx_buffer[rx_buffer_len++] = byte`; the length is a uint16_t.
pub hdlc_store_byte : Driver → ℕ → Driver
hdlc_store_byte drv byte = record drv {
  rx_buffer = set drv.rx_buffer drv.rx_buffer_len byte;
  rx_buffer_len = (drv.rx_buffer_len + 1) % 2 ^ 16;
}

pub hdlc_save_byte : Driver → ℕ → Driver
unfolding hdlc_store_byte hdlc_reset
hdlc_save_byte drv byte =
    hdlc_store_byte (if leb hdlc_max_block_size drv.rx_buffer_len then hdlc_reset drv else drv) byte

-- The bytes that `uart_poll_out_crc` sends for one byte; `temp` is the escape byte.
abbrev pub stuffed : ℕ → Bytes
stuffed byte =
    if byte == hdlc_frame || byte == hdlc_esc then hdlc_esc ∷ bit_xor byte 0x20 ∷ [] else byte ∷ []

-- What the code relies on in `crc16_ccitt` on one byte: it returns a uint16_t, and running it over
-- the complemented checksum, low byte first, leaves the residue of CRC-16/X-25.
pub record CrcCcitt (crc16 : ℕ → ℕ → ℕ) : Type 0 where
  pub in_range : (crc byte : ℕ) → crc16 crc byte < 2 ^ 16
  pub residue :
      (crc : ℕ)
      → crc < 2 ^ 16
      → crc16 (crc16 crc (lo8 (bit_xor crc 0xffff))) (lo8 (bit_xor crc 0xffff / 2 ^ 8)) ≡ 0xf0b8

module _ (crc16 : ℕ → ℕ → ℕ) where
  -- The default case of the switch, on the byte with its escape taken off.
  pub hdlc_accept_byte : Driver → ℕ → Driver
  hdlc_accept_byte drv byte = hdlc_save_byte (record drv { crc = crc16 drv.crc byte }) byte

  pub hdlc_rx_input_byte : Driver → ℕ → Option Driver
  unfolding hdlc_accept_byte
  hdlc_rx_input_byte drv byte =
      if byte == hdlc_frame
      then if drv.rx_buffer_len == 0 then some drv else hdlc_process_frame drv
      else if byte == hdlc_esc
      then some (record drv { next_escaped = true })
      else if drv.next_escaped
      then some (hdlc_accept_byte (record drv { next_escaped = false }) (bit_xor byte 0x20))
      else some (hdlc_accept_byte drv byte)

  pub hdlc_process_buffer : Driver → Bytes → Option Driver
  hdlc_process_buffer drv [] = some drv
  hdlc_process_buffer drv (b ∷ bs) = do drv' ← hdlc_rx_input_byte drv b; hdlc_process_buffer drv' bs

  pub uart_poll_out_crc : ℕ → ℕ → ℕ × Bytes
  uart_poll_out_crc byte crc = (crc16 crc byte, stuffed byte)

  -- The loop over the buffer: the checksum after it, and what it sends.
  pub send_bytes : Bytes → ℕ → ℕ × Bytes
  unfolding uart_poll_out_crc
  send_bytes [] crc = (crc, [])
  send_bytes (b ∷ bs) crc =
      let (crc', out) = uart_poll_out_crc b crc in
      let (crc'', rest) = send_bytes bs crc' in (crc'', out ++ rest)

  unfoldable pub hdlc_block_send_sync : Bytes → ℕ → ℤ × Bytes
  hdlc_block_send_sync buffer address =
      let (crc, head) = send_bytes (address ∷ hdlc_uframe ∷ []) 0xffff in
      let (crc', body) = send_bytes buffer crc in
      let crc_calc = bit_xor crc' 0xffff in
      let (_, tail) = send_bytes (lo8 crc_calc ∷ lo8 (crc_calc / 2 ^ 8) ∷ []) crc' in
      (pos 0, hdlc_frame ∷ (head ++ (body ++ (tail ++ hdlc_frame ∷ []))))
