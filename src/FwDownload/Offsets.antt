-- ===== src/FwDownload/Offsets.antt =====
-- fw_download.c: beyond 64 KiB, the requests for blocks start over from the image's beginning.
use greybus_zephyr.Base.{
  ℕ, ◌+◌, ◌-◌, ◌%◌, ◌^◌, ◌≤◌, ◌<◌, ◌≡◌, refl, min, false, Option, some, [], ◌∷◌, Bytes, arith,
}
use greybus_zephyr.Messages.Ids.{new_operation_id}
use greybus_zephyr.Transport.{send}
use greybus_zephyr.FwDownload.{
  Platform, Fw, data_size_max, fetch_request, gb_fw_download_fetch_firmware, next_request,
}

-- At an offset from 64 KiB up to 128 KiB, with a whole block still to come, the next block is
-- asked for at an offset that is 64 KiB too low.
next_request-offset :
    (alloc : ℕ → Option Bytes) (fw_mgmt cport : ℕ) (platform : Platform) (fw : Fw)
    → 2 ^ 16 ≤ fw.offset
    → fw.offset < 2 ^ 17
    → fw.offset + data_size_max ≤ fw.fw_size
    → fw.fw_size < 2 ^ 32
    → (operation_id counter : ℕ) × (next_request alloc fw_mgmt platform cport false fw
        ≡ some (
          send cport (fetch_request operation_id fw.fw_id (fw.offset - 2 ^ 16) data_size_max) ∷ [],
          record fw { counter = counter },
        ))
unfolding next_request gb_fw_download_fetch_firmware
next_request-offset alloc fw_mgmt cport platform fw far near more size =
    let o : fw.offset % 2 ^ 16 ≡ fw.offset - 2 ^ 16 = omega arith in
    let s : min ((fw.fw_size + 2 ^ 32 - fw.offset) % 2 ^ 32) data_size_max ≡ data_size_max =
      omega arith in
    ((new_operation_id fw.counter).0, (new_operation_id fw.counter).1, rw (o, s) refl)
