-- ===== src/Hdlc/RoundTrip.antt =====
-- hdlc.c: the receiver undoes what `hdlc_block_send_sync` sends.
use greybus_zephyr.Base.{
  ℕ, suc, ◌+◌, ◌-◌, ◌/◌, ◌^◌, ◌≤◌, ◌<◌, ◌≡◌, ◌≢◌, refl, ap, ◌∙◌, inl, inr, bit_xor, true, false,
  some, List, [], ◌∷◌, ◌++◌, append-nil, append_assoc, Bytes, arith, length, length-append,
  length-set, take, drop, take-set, take_prefix, lt→ltb, get_or, set, ltb, ◌==◌, ==_iff, Bool-cases,
  lo8, pos,
}
use greybus_zephyr.Hdlc.{
  Frame, Driver, CrcCcitt, hdlc_frame, hdlc_esc, hdlc_uframe, hdlc_max_block_size,
  hdlc_process_complete_frame, hdlc_reset, hdlc_process_frame, hdlc_save_byte, hdlc_accept_byte,
  hdlc_rx_input_byte, hdlc_process_buffer, stuffed, send_bytes, hdlc_block_send_sync,
}

-- What the received part of a frame amounts to: its bytes and their checksum.
pub record Holds (drv : Driver) (bytes : Bytes) (crc : ℕ) (out : List Frame) : Type 0 where
  pub size : length drv.rx_buffer ≡ hdlc_max_block_size
  pub len : drv.rx_buffer_len ≡ length bytes
  pub stored : take (length bytes) drv.rx_buffer ≡ bytes
  pub checksum : drv.crc ≡ crc
  pub plain : drv.next_escaped ≡ false
  pub log : drv.delivered ≡ out

hdlc_save_byte_lem :
    (drv : Driver) (b : ℕ)
    → drv.rx_buffer_len < hdlc_max_block_size
    → hdlc_save_byte drv b ≡ record drv {
      rx_buffer = set drv.rx_buffer drv.rx_buffer_len b;
      rx_buffer_len = suc drv.rx_buffer_len;
    }
unfolding hdlc_save_byte
hdlc_save_byte_lem drv b h = ground arith

-- A run of bytes with each one stuffed.
unfoldable pub stuffed_all : Bytes → Bytes
stuffed_all [] = []
stuffed_all (b ∷ bs) = stuffed b ++ stuffed_all bs

pub stuffed_all-append : (xs ys : Bytes) → stuffed_all (xs ++ ys) ≡ stuffed_all xs ++ stuffed_all ys
unfolding stuffed_all
stuffed_all-append [] ys = refl
stuffed_all-append (x ∷ xs) ys = simp (stuffed_all-append xs, append_assoc)

module _ (crc16 : ℕ → ℕ → ℕ) where
  -- The checksum of a run of bytes.
  pub crc_of : ℕ → Bytes → ℕ
  crc_of crc [] = crc
  crc_of crc (b ∷ bs) = crc_of (crc16 crc b) bs

  pub crc_of-append : (c : ℕ) (xs ys : Bytes) → crc_of c (xs ++ ys) ≡ crc_of (crc_of c xs) ys
  unfolding crc_of
  crc_of-append c [] ys = refl
  crc_of-append c (x ∷ xs) ys = crc_of-append (crc16 c x) xs ys

  pub send_bytes_lem :
      (bs : Bytes) (crc : ℕ) → send_bytes crc16 bs crc ≡ (crc_of crc bs, stuffed_all bs)
  unfolding send_bytes crc_of stuffed_all
  send_bytes_lem [] crc = refl
  send_bytes_lem (b ∷ bs) crc = rw (send_bytes_lem bs (crc16 crc b))

  hdlc_process_buffer-stuffed :
      (drv : Driver) (b : ℕ) (rest : Bytes)
      → drv.next_escaped ≡ false
      → hdlc_process_buffer crc16 drv (stuffed b ++ rest)
        ≡ hdlc_process_buffer crc16 (hdlc_accept_byte crc16 drv b) rest
  unfolding hdlc_process_buffer hdlc_rx_input_byte
  hdlc_process_buffer-stuffed drv b rest e = elim (Bool-cases (b == hdlc_frame)) [
    | inl f ↦ let f' : b ≡ hdlc_frame = (==_iff b hdlc_frame).0 f in rw f' (ground (arith, e))
    | inr nf ↦ elim (Bool-cases (b == hdlc_esc)) [
      | inl s ↦ let s' : b ≡ hdlc_esc = (==_iff b hdlc_esc).0 s in rw s' (ground (arith, e))
      | inr ns ↦ rw (nf, ns) (ground (arith, e, nf, ns))
    ]
  ]

  hdlc_accept_byte-Holds :
      (drv : Driver) (bytes : Bytes) (crc : ℕ) (out : List Frame) (b : ℕ)
      → Holds drv bytes crc out
      → length bytes < hdlc_max_block_size
      → Holds (hdlc_accept_byte crc16 drv b) (bytes ++ b ∷ []) (crc16 crc b) out
  unfolding hdlc_accept_byte
  hdlc_accept_byte-Holds drv bytes crc out b h fits =
      let drv' = record drv { crc = crc16 drv.crc b } in
      let saved = hdlc_save_byte_lem drv' b (omega arith) in
      let stored = take-set drv.rx_buffer (length bytes) b (omega arith) in
      let grown : length (bytes ++ b ∷ []) ≡ suc (length bytes) =
        omega (arith, length-append bytes (b ∷ [])) in
      rw saved (record {
        size = length-set drv.rx_buffer drv.rx_buffer_len b ∙ h.size;
        len = omega (arith, length-append bytes (b ∷ []));
        stored = rw (grown, h.len) (stored ∙ ap (λ l. l ++ b ∷ []) h.stored);
        checksum = rw h.checksum;
        plain = h.plain;
        log = h.log;
      })

  -- Stuffed bytes are stored and counted as they were before stuffing.
  pub hdlc_process_buffer-stuffed_all :
      (bs : Bytes) (drv : Driver) (bytes : Bytes) (crc : ℕ) (out : List Frame) (rest : Bytes)
      → Holds drv bytes crc out
      → length bytes + length bs ≤ hdlc_max_block_size
      → (drv' : Driver) × (hdlc_process_buffer crc16 drv (stuffed_all bs ++ rest)
          ≡ hdlc_process_buffer crc16 drv' rest)
        × Holds drv' (bytes ++ bs) (crc_of crc bs) out
  unfolding stuffed_all crc_of
  hdlc_process_buffer-stuffed_all [] drv bytes crc out rest h fits = (drv, refl, rw append-nil h)
  hdlc_process_buffer-stuffed_all (b ∷ bs) drv bytes crc out rest h fits =
      let drv' = hdlc_accept_byte crc16 drv b in
      let h' = hdlc_accept_byte-Holds drv bytes crc out b h (omega arith) in
      let (last, run, hl) =
        hdlc_process_buffer-stuffed_all bs drv' (bytes ++ b ∷ []) (crc16 crc b) out rest h'
          (omega (arith, length-append bytes (b ∷ []))) in
      (
        last,
        rw append_assoc (hdlc_process_buffer-stuffed drv b (stuffed_all bs ++ rest) h.plain ∙ run),
        rw append_assoc at hl,
      )

-- Where the three parts of a stored frame are found.
stored_parts :
    (buf payload : Bytes) (address c d : ℕ)
    → take (suc (suc (length (payload ++ c ∷ d ∷ [])))) buf
      ≡ address ∷ hdlc_uframe ∷ (payload ++ c ∷ d ∷ [])
    → (get_or buf 0 0 ≡ address)
      × (get_or buf 1 0 ≡ hdlc_uframe)
      × (take (length payload) (drop 2 buf) ≡ payload)
stored_parts [] payload address c d h = cc
stored_parts (x ∷ []) payload address c d h = cc
stored_parts (x ∷ y ∷ buf) payload address c d h = (cc, cc, take_prefix payload (c ∷ d ∷ []) buf cc)

-- A complete frame with a good checksum is delivered, and the receiver is ready again.
hdlc_process_frame-good :
    (drv : Driver) (payload : Bytes) (address c d : ℕ) (out : List Frame)
    → Holds drv (address ∷ hdlc_uframe ∷ (payload ++ c ∷ d ∷ [])) 0xf0b8 out
    → (drv' : Driver) × (hdlc_process_frame drv ≡ some drv')
      × Holds drv' [] 0xffff (out ++ (record { payload = payload; address = address }) ∷ [])
unfolding hdlc_process_frame hdlc_reset hdlc_process_complete_frame
hdlc_process_frame-good drv payload address c d out h =
    let count : length (payload ++ c ∷ d ∷ []) ≡ length payload + 2 =
      length-append payload (c ∷ d ∷ []) in
    let len : drv.rx_buffer_len - 4 ≡ length payload = omega (arith, h.len, count) in
    let long : ltb 3 drv.rx_buffer_len ≡ true = lt→ltb 3 _ (omega (arith, h.len, count)) in
    let (address_is, ctrl_is, payload_is) =
      stored_parts drv.rx_buffer payload address c d h.stored in
    (
      record {
        crc = 0xffff;
        rx_buffer_len = 0;
        rx_buffer = drv.rx_buffer;
        next_escaped = drv.next_escaped;
        delivered = drv.delivered ++ record { payload = payload; address = address } ∷ [];
      },
      rw (long, h.checksum, ctrl_is, len, address_is, payload_is),
      record {
        size = h.size;
        len = refl;
        stored = refl;
        checksum = refl;
        plain = h.plain;
        log = rw h.log;
      },
    )

module _ (crc16 : ℕ → ℕ → ℕ) where
  -- The opening flag does nothing, and the closing one ends the frame.
  hdlc_process_buffer-first :
      (drv : Driver) (rest : Bytes)
      → drv.rx_buffer_len ≡ 0
      → hdlc_process_buffer crc16 drv (hdlc_frame ∷ rest) ≡ hdlc_process_buffer crc16 drv rest
  unfolding hdlc_process_buffer hdlc_rx_input_byte
  hdlc_process_buffer-first drv rest h = ground arith

  hdlc_process_buffer-last :
      (drv : Driver) {drv' : Driver}
      → drv.rx_buffer_len ≢ 0
      → hdlc_process_frame drv ≡ some drv'
      → hdlc_process_buffer crc16 drv (hdlc_frame ∷ []) ≡ some drv'
  unfolding hdlc_process_buffer hdlc_rx_input_byte
  hdlc_process_buffer-last drv h e = ground arith

module _ (crc16 : ℕ → ℕ → ℕ) (ccitt : CrcCcitt crc16) where
  crc_of-lt : (bs : Bytes) (crc : ℕ) → crc < 2 ^ 16 → crc_of crc16 crc bs < 2 ^ 16
  unfolding crc_of
  crc_of-lt [] crc h = h
  crc_of-lt (b ∷ bs) crc h = crc_of-lt bs (crc16 crc b) (ccitt.in_range crc b)

  abbrev pub trailer : Bytes → Bytes
  trailer bytes =
      let crc_calc = bit_xor (crc_of crc16 0xffff bytes) 0xffff in
      lo8 crc_calc ∷ lo8 (crc_calc / 2 ^ 8) ∷ []

  pub hdlc_block_send_sync_lem :
      (payload : Bytes) (address : ℕ)
      → let framed = address ∷ hdlc_uframe ∷ payload in
        hdlc_block_send_sync crc16 payload address
        ≡ (pos 0, hdlc_frame ∷ (stuffed_all (framed ++ trailer framed) ++ hdlc_frame ∷ []))
  unfolding hdlc_block_send_sync
  hdlc_block_send_sync_lem payload address =
      simp (send_bytes_lem crc16, stuffed_all-append, append_assoc)
        (unfold crc_of stuffed_all in simp append_assoc)

  -- For a checksum with the residue of CRC-16/X-25: an idle receiver that is fed what
  -- hdlc_block_send_sync sends for a block of at most 508 bytes delivers one frame with exactly
  -- that block and address, and is idle again.
  pub hdlc_process_buffer-hdlc_block_send_sync :
      (payload : Bytes) (address : ℕ) (drv : Driver) (out : List Frame)
      → length payload + 4 ≤ hdlc_max_block_size
      → Holds drv [] 0xffff out
      → (drv' : Driver) × (hdlc_process_buffer crc16 drv
            (hdlc_block_send_sync crc16 payload address).1
          ≡ some drv')
        × Holds drv' [] 0xffff (out ++ (record { payload = payload; address = address }) ∷ [])
  hdlc_process_buffer-hdlc_block_send_sync payload address drv out fits h =
      let framed = address ∷ hdlc_uframe ∷ payload in
      let crc_calc = bit_xor (crc_of crc16 0xffff framed) 0xffff in
      let (last, run, held) =
        hdlc_process_buffer-stuffed_all crc16 (framed ++ trailer framed) drv [] 0xffff out
          (hdlc_frame ∷ []) h (omega (arith, length-append payload (trailer framed))) in
      let crc_is : crc_of crc16 0xffff (framed ++ trailer framed) ≡ 0xf0b8 =
        crc_of-append crc16 0xffff framed (trailer framed)
        ∙ (unfold crc_of in
            ccitt.residue (crc_of crc16 0xffff framed) (crc_of-lt framed 0xffff (omega arith))) in
      let (drv', done, ready) =
        hdlc_process_frame-good last payload address (lo8 crc_calc) (lo8 (crc_calc / 2 ^ 8)) out
          (rw crc_is at held) in
      (
        drv',
        rw hdlc_block_send_sync_lem (
            hdlc_process_buffer-first crc16 drv _ h.len
            ∙ run
            ∙ hdlc_process_buffer-last crc16 last (omega (arith, held.len)) done),
        ready,
      )
