-- ===== src/Hdlc/Tests.antt =====
-- Runs of the HDLC model, and its theorems at concrete inputs.
use greybus_zephyr.Base.{
  ℕ, ◌+◌, ◌*◌, ◌≤◌, ◌≡◌, refl, inr, some, [], ◌∷◌, ◌++◌, false, arith, replicate, Bytes, length,
  length-replicate, IfSome,
}
use greybus_zephyr.Hdlc.{Driver, hdlc_frame, hdlc_process_buffer, send_bytes, hdlc_block_send_sync}
use greybus_zephyr.Hdlc.Bounds.{IsValid, hdlc_process_buffer-IsValid}
use greybus_zephyr.Hdlc.Crc.{ccitt, ccitt-CrcCcitt}
use greybus_zephyr.Hdlc.Receive.{FlagFree, hdlc_block_send_sync-FlagFree}
use greybus_zephyr.Hdlc.RoundTrip.{Holds, hdlc_process_buffer-hdlc_block_send_sync}

abbrev idle : Driver
idle = record {
  crc = 0xffff;
  rx_buffer_len = 0;
  rx_buffer = replicate 512 0;
  next_escaped = false;
  delivered = [];
}

-- A byte that is stuffed, and one that is not.
abbrev block : Bytes
block = 1 ∷ 0x7e ∷ []

sent :
    (hdlc_block_send_sync ccitt block 1).1 ≡ 0x7e ∷ 1 ∷ 3 ∷ 1 ∷ 0x7d ∷ 0x5e ∷ 32 ∷ 140 ∷ 0x7e ∷ []
unfolding hdlc_block_send_sync send_bytes ccitt
sent = refl

idle-Holds : Holds idle [] 0xffff []
idle-Holds = record {
  size = length-replicate {A = ℕ} 512 0;
  len = refl;
  stored = refl;
  checksum = refl;
  plain = refl;
  log = refl;
}

idle-IsValid : IsValid idle
idle-IsValid = record {
  size = length-replicate {A = ℕ} 512 0;
  len_in = omega arith;
  fresh = inr refl;
}

hdlc_process_buffer-IsValid_example :
    IfSome IsValid (hdlc_process_buffer ccitt idle (0x7e ∷ 0x7d ∷ 5 ∷ []))
hdlc_process_buffer-IsValid_example =
    hdlc_process_buffer-IsValid ccitt (0x7e ∷ 0x7d ∷ 5 ∷ []) idle idle-IsValid

hdlc_process_buffer-hdlc_block_send_sync_example :
    (drv' : Driver) × (hdlc_process_buffer ccitt idle (hdlc_block_send_sync ccitt block 1).1
      ≡ some drv')
    × Holds drv' [] 0xffff ([] ++ (record { payload = block; address = 1 }) ∷ [])
hdlc_process_buffer-hdlc_block_send_sync_example =
    hdlc_process_buffer-hdlc_block_send_sync ccitt ccitt-CrcCcitt block 1 idle [] (omega arith)
      idle-Holds

hdlc_block_send_sync-FlagFree_example :
    (body : Bytes) × ((hdlc_block_send_sync ccitt block 1).1
      ≡ hdlc_frame ∷ (body ++ hdlc_frame ∷ []))
    × FlagFree body
    × (length block + 4 ≤ length body)
    × (length body ≤ 2 * (length block + 4))
hdlc_block_send_sync-FlagFree_example = hdlc_block_send_sync-FlagFree ccitt block 1 ccitt-CrcCcitt
