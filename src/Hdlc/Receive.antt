-- ===== src/Hdlc/Receive.antt =====
-- hdlc.c: how the receiver starts over, what it drops, and what an aborted escape leaves behind.
use greybus_zephyr.Base.{
  ℕ, ◌+◌, ◌≤◌, ◌<◌, ◌≡◌, ◌≢◌, ◌↔◌, ◌⊎◌, inl, inr, bit_xor, false, ◌||◌, none, some, [], ◌∷◌, ◌++◌,
  Bytes, arith, ℤ, ◌*◌, ap, length, length-append, get_or, ◌==◌, ==_iff, Bool-cases,
}
use greybus_zephyr.Hdlc.{
  Driver, CrcCcitt, hdlc_frame, hdlc_esc, hdlc_uframe, hdlc_process_complete_frame, hdlc_reset,
  hdlc_process_frame, hdlc_accept_byte, hdlc_rx_input_byte, hdlc_process_buffer, stuffed,
  hdlc_block_send_sync,
}
use greybus_zephyr.Hdlc.Bounds.{IsValid}
use greybus_zephyr.Hdlc.RoundTrip.{Holds, stuffed_all, trailer, hdlc_block_send_sync_lem}

-- The bytes kept so far would be accepted as a frame.
abbrev pub IsAccepted : Driver → Type 0
IsAccepted drv = (3 < drv.rx_buffer_len) × (drv.crc ≡ 0xf0b8)

-- A frame stops the firmware exactly when it is accepted and its control byte is not that of an
-- unnumbered frame.
pub hdlc_process_frame-eq-none :
    (drv : Driver)
    → (hdlc_process_frame drv ≡ none) ↔ (IsAccepted drv × (get_or drv.rx_buffer 1 0 ≢ hdlc_uframe))
unfolding hdlc_process_frame
hdlc_process_frame-eq-none drv = (ground arith, ground arith)

-- Too few bytes, or a bad checksum: the receiver starts over.
pub hdlc_process_frame-drops :
    (drv : Driver)
    → (drv.rx_buffer_len ≤ 3) ⊎ (drv.crc ≢ 0xf0b8)
    → hdlc_process_frame drv ≡ some (hdlc_reset drv)
unfolding hdlc_process_frame
hdlc_process_frame-drops drv h = ground arith

module _ (crc16 : ℕ → ℕ → ℕ) where
  -- After a flag that is not refused, the receiver holds no bytes and its checksum is fresh.
  pub hdlc_rx_input_byte-frame :
      (drv : Driver) {drv' : Driver}
      → IsValid drv
      → drv.next_escaped ≡ false
      → hdlc_rx_input_byte crc16 drv hdlc_frame ≡ some drv'
      → Holds drv' [] 0xffff drv'.delivered
  unfolding hdlc_rx_input_byte hdlc_process_frame hdlc_reset hdlc_process_complete_frame
  hdlc_rx_input_byte-frame drv v plain e = ground arith

  -- An escape byte right before a flag is not forgotten: the first byte of the next frame,
  -- neither a flag nor an escape, is stored with its bit 5 flipped.
  hdlc_process_buffer-abort :
      (drv : Driver) (b : ℕ)
      → drv.rx_buffer_len ≡ 0
      → (b == hdlc_frame || b == hdlc_esc) ≡ false
      → hdlc_process_buffer crc16 drv (hdlc_esc ∷ hdlc_frame ∷ hdlc_frame ∷ b ∷ [])
        ≡ some (hdlc_accept_byte crc16 (record drv { next_escaped = false }) (bit_xor b 0x20))
  unfolding hdlc_process_buffer hdlc_rx_input_byte
  hdlc_process_buffer-abort drv b len plain = ground (arith, len, plain)

-- No byte is a flag.
abbrev pub FlagFree : Bytes → Type 0
FlagFree [] = Unit
FlagFree (b ∷ bs) = (b ≢ hdlc_frame) × FlagFree bs

FlagFree-append : (xs ys : Bytes) → FlagFree xs → FlagFree ys → FlagFree (xs ++ ys)
FlagFree-append [] ys h k = k
FlagFree-append (x ∷ xs) ys h k = (h.0, FlagFree-append xs ys h.1 k)

stuffed-FlagFree : (b : ℕ) → FlagFree (stuffed b)
stuffed-FlagFree b = elim (Bool-cases (b == hdlc_frame)) [
  | inl f ↦ let f' : b ≡ hdlc_frame = (==_iff b hdlc_frame).0 f in rw f' (omega arith)
  | inr nf ↦ elim (Bool-cases (b == hdlc_esc)) [
    | inl s ↦ let s' : b ≡ hdlc_esc = (==_iff b hdlc_esc).0 s in rw s' (omega arith)
    | inr ns ↦ rw (nf, ns) (ground arith)
  ]
]

stuffed_all-FlagFree : (bs : Bytes) → FlagFree (stuffed_all bs)
unfolding stuffed_all
stuffed_all-FlagFree [] = tt
stuffed_all-FlagFree (b ∷ bs) =
    FlagFree-append (stuffed b) (stuffed_all bs) (stuffed-FlagFree b) (stuffed_all-FlagFree bs)

-- A stuffed byte takes one byte or two.
length-stuffed_all :
    (bs : Bytes) → (length bs ≤ length (stuffed_all bs)) × (length (stuffed_all bs) ≤ 2 * length bs)
unfolding stuffed_all
length-stuffed_all [] = (omega arith, omega arith)
length-stuffed_all (b ∷ bs) =
    ground (arith, length-append (stuffed b) (stuffed_all bs), length-stuffed_all bs)

-- What is sent for a block is one flag at each end and no flag in between; the part between has
-- at least the four bytes of address, control and checksum more than the block, and at most twice
-- that.
pub hdlc_block_send_sync-FlagFree :
    (crc16 : ℕ → ℕ → ℕ) (payload : Bytes) (address : ℕ)
    → CrcCcitt crc16
    → (body : Bytes) × ((hdlc_block_send_sync crc16 payload address).1
        ≡ hdlc_frame ∷ (body ++ hdlc_frame ∷ []))
      × FlagFree body
      × (length payload + 4 ≤ length body)
      × (length body ≤ 2 * (length payload + 4))
hdlc_block_send_sync-FlagFree crc16 payload address ccitt =
    let framed = address ∷ hdlc_uframe ∷ payload in
    let all = framed ++ trailer crc16 ccitt framed in
    let count : length all ≡ length payload + 4 =
      omega (arith, length-append payload (trailer crc16 ccitt framed)) in
    let (low, high) = length-stuffed_all all in
    (
      stuffed_all all,
      ap (λ (r : ℤ × Bytes). r.1) (hdlc_block_send_sync_lem crc16 ccitt payload address),
      stuffed_all-FlagFree all,
      omega (arith, count, low),
      omega (arith, count, high),
    )
