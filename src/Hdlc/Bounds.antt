-- ===== src/Hdlc/Bounds.antt =====
-- hdlc.c: the receive buffer is never overrun.
use greybus_zephyr.Base.{
  ◌⊎◌, false, bit_xor, ℕ, ◌≤◌, ◌<◌, ◌≡◌, Bytes, [], ◌∷◌, arith, length, length-set, IfSome,
  IfSome-bind,
}
use greybus_zephyr.Hdlc.{
  Driver, hdlc_max_block_size, hdlc_process_complete_frame, hdlc_reset, hdlc_process_frame,
  hdlc_save_byte, hdlc_rx_input_byte, hdlc_process_buffer,
}

-- The array has its declared size, the length stays within it, and with no byte stored the
-- checksum is at its start.
pub record IsValid (drv : Driver) : Type 0 where
  pub size : length drv.rx_buffer ≡ hdlc_max_block_size
  pub len_in : drv.rx_buffer_len ≤ hdlc_max_block_size
  pub fresh : (0 < drv.rx_buffer_len) ⊎ (drv.crc ≡ 0xffff)

pub hdlc_save_byte-IsValid :
    (drv : Driver) (b : ℕ)
    → length drv.rx_buffer ≡ hdlc_max_block_size
    → drv.rx_buffer_len ≤ hdlc_max_block_size
    → IsValid (hdlc_save_byte drv b)
unfolding hdlc_save_byte
hdlc_save_byte-IsValid drv b size len_in =
    ground (arith, length-set drv.rx_buffer drv.rx_buffer_len b, length-set drv.rx_buffer 0 b)

module _ (crc16 : ℕ → ℕ → ℕ) where
  pub hdlc_rx_input_byte-IsValid :
      (drv : Driver) (b : ℕ) → IsValid drv → IfSome IsValid (hdlc_rx_input_byte crc16 drv b)
  unfolding hdlc_rx_input_byte hdlc_process_frame hdlc_reset hdlc_process_complete_frame
  hdlc_rx_input_byte-IsValid drv b v = ground (
    arith,
    hdlc_save_byte-IsValid (record drv { crc = crc16 drv.crc b }) b,
    hdlc_save_byte-IsValid
        (record drv { next_escaped = false; crc = crc16 drv.crc (bit_xor b 0x20) })
        (bit_xor b 0x20),
  )

  -- Whatever bytes arrive, the receiver's length stays within its 512-byte buffer, and its
  -- checksum is fresh whenever no byte is stored.
  pub hdlc_process_buffer-IsValid :
      (bs : Bytes) (drv : Driver) → IsValid drv → IfSome IsValid (hdlc_process_buffer crc16 drv bs)
  unfolding hdlc_process_buffer
  hdlc_process_buffer-IsValid [] drv v = v
  hdlc_process_buffer-IsValid (b ∷ bs) drv v =
      IfSome-bind IsValid IsValid (hdlc_rx_input_byte crc16 drv b)
        (λ d. hdlc_process_buffer crc16 d bs) (hdlc_rx_input_byte-IsValid drv b v)
        (λ d w. hdlc_process_buffer-IsValid bs d w)
