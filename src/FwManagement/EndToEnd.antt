-- ===== src/FwManagement/EndToEnd.antt =====
-- fw_management.c with fw_download.c: from the request to load a firmware to the report that it is loaded.
use greybus_zephyr.Base.{
  ℕ, ◌%◌, ◌^◌, ◌≤◌, ◌<◌, ◌≡◌, refl, Option, some, [], ◌∷◌, ◌++◌, Bytes, arith, le32, ltb, ge→ltb,
  take, length, replicate, length-take, take_all, ℤ, true, false, pos, negsuc,
}
use greybus_zephyr.Messages.{Message, gb_message_type, gb_message_is_success, gb_op_success}
use greybus_zephyr.Messages.Laws.{HasMemory}
use greybus_zephyr.Messages.Ids.{new_operation_id}
use greybus_zephyr.Messages.Requests.{IsRequest}
use greybus_zephyr.Transport.{Effects, send, dealloc, request, response, empty_response}
use greybus_zephyr.Transport.Laws.{sends}
use greybus_zephyr.FwDownload.{
  FwCall, Platform, Fw, gb_fw_download_find_firmware, gb_fw_download_find_firmware_response_handler,
}
use greybus_zephyr.FwDownload.Download.{
  written, fetch_of, serve, Works, Reports, fw_request_lem, serve-image,
}
use greybus_zephyr.FwManagement.{
  c_string, load, fw_mgmt_interface_fw_load_and_validate, op_handler, load_method_unipro,
}

-- The tag of the request in the ten bytes of the request for the firmware: after its end there are zeros.
abbrev pub tag_bytes : Bytes → Bytes
tag_bytes tag = take 10 (c_string tag ++ replicate 10 0)

module _ (alloc : ℕ → Option Bytes) (memory : HasMemory alloc) (fw_download cport : ℕ)
    (req : Message) (fw : Fw) (read_header : ℤ) (major minor : ℕ) where
  -- The request is answered and freed, and the firmware is asked for under the request's id.
  op_handler-load :
      (id : ℕ) (tag : Bytes)
      → gb_message_type req ≡ 0x02
      → req.payload ≡ id ∷ load_method_unipro ∷ tag
      → length tag ≡ 10
      → id < 256
      → (find : Message) × IsRequest find 0x01 (tag_bytes tag) fw.counter
        × (op_handler alloc fw_download cport req read_header major minor fw
            ≡ some (
              send cport (empty_response req gb_op_success)
                  ∷ dealloc request
                  ∷ send fw_download find
                  ∷ dealloc response
                  ∷ [],
              record fw { req_id = pos id; counter = (new_operation_id fw.counter).1 },
            ))
  unfolding op_handler fw_mgmt_interface_fw_load_and_validate load gb_fw_download_find_firmware
  op_handler-load id tag type_is payload_is len small =
      let (find, is, sent) =
        fw_request_lem alloc memory (tag_bytes tag) 0x01 fw_download (record fw { req_id = pos id })
          (omega (arith, length-take 10 (c_string tag ++ replicate 10 0))) in
      let id_is : id % 256 ≡ id = omega arith in
      let whole : take 10 tag ≡ tag = take_all 10 tag (omega (arith, len)) in
      let enough : ltb (length (id ∷ load_method_unipro ∷ tag)) 12 ≡ false =
        ge→ltb _ _ (omega (arith, len)) in
      (find, is, rw type_is (rw payload_is (rw (enough, whole, id_is, sent) refl)))

  -- With memory and a platform on which nothing fails: a request to load a firmware over
  -- UniPro, with an id and a tag of ten bytes, is answered with success, and the firmware of
  -- that tag is asked for on the download cport. After a response that announces an image of 1
  -- to 65536 bytes, an AP that answers each request for a block brings the download to its end
  -- within as many rounds as the image has bytes: the blocks written to flash are the image, in
  -- order, no download is pending any more, and the last message sent reports, under the id of
  -- the request, that the firmware is loaded and valid.
  pub op_handler-serve :
      (fw_mgmt : ℕ) (platform : Platform)
      → Works platform
      → (image : Bytes) (stale id firmware_id : ℕ) (tag : Bytes) (found : Message)
      → gb_message_type req ≡ 0x02
      → req.payload ≡ id ∷ load_method_unipro ∷ tag
      → length tag ≡ 10
      → id < 256
      → 0 < length image
      → length image ≤ 2 ^ 16
      → gb_message_is_success found ≡ true
      → found.payload ≡ firmware_id ∷ le32 (length image)
      → (find : Message) × IsRequest find 0x01 (tag_bytes tag) fw.counter
        × (es : Effects FwCall) × (fw1 : Fw) × (op_handler alloc fw_download cport req read_header
              major minor fw
            ≡ some (es, fw1))
        × (sends es ≡ (cport, empty_response req gb_op_success) ∷ (fw_download, find) ∷ [])
        × (fs : Effects FwCall) × (fetch : Message) × (fw2 : Fw)
        × (gb_fw_download_find_firmware_response_handler stale fw_download found fw1
            ≡ some (fs, fw2))
        × (fetch_of fs ≡ some fetch)
        × (gs : Effects FwCall) × (fw3 : Fw) × (serve alloc fw_mgmt platform image fw_download
              (length image)
              fetch
              fw2
            ≡ some (gs, fw3))
        × (written gs ≡ image)
        × Reports fw_mgmt platform (pos id) gs
        × (fw3.req_id ≡ negsuc 0)
  op_handler-serve fw_mgmt platform works image stale id firmware_id tag found type_is payload_is
        len small some_image fits good found_is =
      let (find, is, runs) = op_handler-load id tag type_is payload_is len small in
      let fw1 = record fw { req_id = pos id; counter = (new_operation_id fw.counter).1 } in
      let (fs, fetch, fw2, gs, fw3, runs2, asks, runs3, wrote, ended, reports) =
        serve-image alloc memory fw_mgmt platform works image fw_download stale firmware_id found
          fw1 some_image fits good found_is in
      (
        find, is, _, fw1, runs, refl, fs, fetch, fw2, runs2, asks, gs, fw3, runs3, wrote, reports,
        ended,
      )
