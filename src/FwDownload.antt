-- ===== src/FwDownload.antt =====
-- subsys/greybus/fw_download.c, and of fw_management.c the report that a download ends with: firmware is
-- fetched from the AP in blocks, and written to flash.
-- Flash and bootloader are Zephyr's and MCUboot's: the results of their calls are the record `Platform`.
-- `none` is undefined behaviour: a NULL message written to, or a read past a payload.
pub mod Download
pub mod Offsets
use greybus_zephyr.Base.{
  ℕ, zero, suc, ◌+◌, ◌-◌, ◌*◌, ◌%◌, ◌^◌, min, Bool, true, false, Option, none, some, List, [], ◌∷◌,
  ◌++◌, Bytes, le16, le32, leb, ◌==◌, if◌then◌else◌, get_elem?, take, replicate, length, ℤ, pos,
  negsuc, is_neg, ◌>>=◌,
}
use greybus_zephyr.Messages.{Message, gb_message_type, gb_message_is_success, gb_op_protocol_bad}
use greybus_zephyr.Messages.Ids.{new_operation_id, gb_message_request_alloc_with_payload}
use greybus_zephyr.Transport.{
  Effects, send, dealloc, device, request, response, gb_transport_message_send,
  gb_transport_message_empty_response_send,
}

-- Calls of the flash writer and of the bootloader.
pub data FwCall : Type 0 where
  flash_img_init read_bank_header request_upgrade : FwCall
  flash_write : Bytes → Bool → FwCall

-- What the calls return; the version is that of the new image's header.
pub record Platform : Type 0 where
  pub on_write : Bytes → Bool → ℤ
  pub on_read_header : ℤ
  pub on_upgrade : ℤ
  pub major : ℕ
  pub minor : ℕ

-- `struct fw_download_priv_data`, and the counter of operation ids.
pub record Fw : Type 0 where
  pub fw_size : ℕ
  pub offset : ℕ
  pub req_id : ℤ
  pub fw_id : ℕ
  pub counter : ℕ

abbrev pub Reaction : Type 0
Reaction = Option (Effects FwCall × Fw)

abbrev pub data_size_max : ℕ
data_size_max = 64

-- A conversion of an `int` to uint8_t.
abbrev pub to_u8 : ℤ → ℕ
to_u8 (pos n) = n % 256
to_u8 (negsuc n) = 255 - n % 256

-- The request that `gb_fw_download_fetch_firmware` builds on its stack.
abbrev pub fetch_request : ℕ → ℕ → ℕ → ℕ → Message
fetch_request operation_id id offset size = record {
  header = record {
    size = 17;
    operation_id = operation_id;
    type = 0x02;
    result = 0;
    pad = 0 ∷ 0 ∷ [];
  };
  payload = id ∷ (le32 offset ++ le32 size);
}

-- The parameters `offset` and `size` are of type uint16_t.
unfoldable pub gb_fw_download_fetch_firmware : ℕ → ℕ → ℕ → ℕ → Fw → Effects FwCall × Fw
gb_fw_download_fetch_firmware cport id offset size fw =
    let (operation_id, counter) = new_operation_id fw.counter in
    (
      gb_transport_message_send (fetch_request operation_id id (offset % 2 ^ 16) (size % 2 ^ 16))
          cport,
      record fw { counter = counter },
    )

-- `stale` is the byte that is found for the firmware id after the response was freed.
unfoldable pub gb_fw_download_find_firmware_response_handler : ℕ → ℕ → Message → Fw → Reaction
unfolding gb_fw_download_fetch_firmware
gb_fw_download_find_firmware_response_handler stale cport resp fw =
    if gb_message_is_success resp
    then (do
      firmware_id ← get_elem? resp.payload 0
      b0 ← get_elem? resp.payload 1
      b1 ← get_elem? resp.payload 2
      b2 ← get_elem? resp.payload 3
      b3 ← get_elem? resp.payload 4
      let fw' = record fw {
        fw_id = firmware_id;
        fw_size = b0 + b1 * 2 ^ 8 + b2 * 2 ^ 16 + b3 * 2 ^ 24;
        offset = 0;
      }
      let (es, fw'') = gb_fw_download_fetch_firmware cport stale 0 data_size_max fw'
      some (device flash_img_init ∷ dealloc request ∷ es, fw''))
    else some (dealloc request ∷ [], fw)

module _ (alloc : ℕ → Option Bytes) where
  -- Allocate a request, fill its payload without a test for NULL, send and free it.
  unfoldable pub fw_request : Bytes → ℕ → ℕ → Fw → Reaction
  fw_request payload type cport fw =
      let (req, counter) =
        gb_message_request_alloc_with_payload alloc payload type false fw.counter in
      (do
        msg ← req
        some (
          gb_transport_message_send msg cport ++ dealloc response ∷ [],
          record fw { counter = counter },
        ))

  unfoldable pub gb_fw_release_firmware : ℕ → ℕ → Fw → Reaction
  gb_fw_release_firmware cport firmware_id fw = fw_request (firmware_id ∷ []) 0x03 cport fw

  -- `fw_mgmt` is the cport of the firmware management protocol.
  module _ (fw_mgmt : ℕ) where
    unfoldable pub gb_fw_mgmt_interface_fw_loaded : ℕ → ℕ → ℕ → ℕ → Fw → Reaction
    gb_fw_mgmt_interface_fw_loaded id status major minor fw =
        fw_request (id ∷ status ∷ (le16 major ++ le16 minor)) 0x03 fw_mgmt fw

    unfoldable pub gb_fw_download_early_fail : ℕ → ℕ → ℕ → Fw → Reaction
    gb_fw_download_early_fail cport firmware_id req_id fw = do
      (es, fw') ← gb_fw_release_firmware cport firmware_id fw
      (fs, fw'') ← gb_fw_mgmt_interface_fw_loaded req_id 0x00 0 0 fw'
      some (es ++ fs, fw'')

    module _ (platform : Platform) where
      unfoldable pub gb_fw_download_fetch_final : ℕ → ℕ → ℕ → Fw → Reaction
      gb_fw_download_fetch_final cport firmware_id req_id fw =
          if is_neg platform.on_read_header
          then (do
            (es, fw') ← gb_fw_mgmt_interface_fw_loaded req_id 0x00 0 0 fw
            some (device read_bank_header ∷ es, fw'))
          else if is_neg platform.on_upgrade
          then (do
            (es, fw') ← gb_fw_mgmt_interface_fw_loaded req_id 0x00 0 0 fw
            some (device read_bank_header ∷ device request_upgrade ∷ es, fw'))
          else (do
            (es, fw') ← gb_fw_mgmt_interface_fw_loaded req_id 0x02 platform.major platform.minor fw
            some (device read_bank_header ∷ device request_upgrade ∷ es, fw'))

      -- The last block releases the firmware, any other asks for the next one.
      unfoldable pub next_request : ℕ → Bool → Fw → Reaction
      next_request cport true fw = gb_fw_release_firmware cport fw.fw_id fw
      next_request cport false fw = some (
          gb_fw_download_fetch_firmware cport fw.fw_id fw.offset
            (min ((fw.fw_size + 2 ^ 32 - fw.offset) % 2 ^ 32) data_size_max) fw)

      -- What follows a block that was written.
      unfoldable pub finish : ℕ → Bool → Fw → Reaction
      finish cport false fw = some (dealloc request ∷ [], fw)
      finish cport true fw = do
        (es, fw') ← gb_fw_download_fetch_final cport fw.fw_id (to_u8 fw.req_id) fw
        some (dealloc request ∷ es, record fw' { req_id = negsuc 0 })

      unfoldable pub gb_fw_download_fetch_firmware_response_handler : ℕ → Message → Fw → Reaction
      gb_fw_download_fetch_firmware_response_handler cport resp fw =
          let cur_data_size = min ((fw.fw_size + 2 ^ 32 - fw.offset) % 2 ^ 32) data_size_max in
          let is_final_write = leb fw.fw_size ((fw.offset + cur_data_size) % 2 ^ 32) in
          if gb_message_is_success resp
          then (do
            (es, fw') ←
                next_request cport is_final_write
                  (record fw { offset = (fw.offset + cur_data_size) % 2 ^ 32 })
            if leb cur_data_size (length resp.payload)
                then (let block = take cur_data_size resp.payload in
                    if is_neg (platform.on_write block is_final_write)
                    then (do
                      (fs, fw'') ← gb_fw_download_early_fail cport fw'.fw_id (fw'.fw_size % 256) fw'
                      some (
                        es
                            ++ device (flash_write block is_final_write)
                              ∷ (fs ++ dealloc request ∷ []),
                        fw'',
                      ))
                    else (do
                      (fs, fw'') ← finish cport is_final_write fw'
                      some (es ++ device (flash_write block is_final_write) ∷ fs, fw'')))
                else none)
          else some (dealloc request ∷ [], fw)

      pub op_handler : ℕ → Message → ℕ → Fw → Reaction
      unfolding gb_message_type
      op_handler stale msg cport fw =
          let type = gb_message_type msg in
          if type == 0x81
          then gb_fw_download_find_firmware_response_handler stale cport msg fw
          else if type == 0x82
          then gb_fw_download_fetch_firmware_response_handler cport msg fw
          else if type == 0x83
          then some (dealloc request ∷ [], fw)
          else some (gb_transport_message_empty_response_send msg gb_op_protocol_bad cport, fw)

  -- The tag's buffer has ten bytes; `firmware_tag` are those before the string's end.
  unfoldable pub gb_fw_download_find_firmware : ℕ → ℕ → Bytes → Fw → Reaction
  gb_fw_download_find_firmware fw_download req_id firmware_tag fw =
      fw_request (take 10 (firmware_tag ++ replicate 10 0)) 0x01 fw_download
        (record fw { req_id = pos (req_id % 256) })
