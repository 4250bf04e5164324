-- ===== src/FwManagement.antt =====
-- subsys/greybus/fw_management.c: the requests of the firmware management protocol. Its report of a loaded
-- firmware, with which a download ends, is in FwDownload.antt.
-- The result of the bootloader's call and the version of the running image are parameters.
-- `none` is undefined behaviour: a read past the payload, the copy of a reply to NULL.
pub mod EndToEnd
mod Tests
use greybus_zephyr.Base.{
  ℕ, ◌+◌, ◌%◌, ◌^◌, Option, none, some, List, [], ◌∷◌, ◌++◌, Bytes, le16, ltb, ◌==◌, if◌then◌else◌,
  get_elem?, take, drop, length, replicate, ℤ, is_neg, ◌>>=◌,
}
use greybus_zephyr.Messages.{
  gb_op_internal, Message, gb_message_type, gb_op_success, gb_op_invalid, gb_op_protocol_bad,
}
use greybus_zephyr.Transport.{
  Effects, dealloc, device, request, gb_transport_message_empty_response_send,
}
use greybus_zephyr.Transport.Stateful.{Outcome, refuse, after_calls, succeed}
use greybus_zephyr.FwDownload.{FwCall, Fw, Reaction, gb_fw_download_find_firmware}

-- `GB_FW_LOAD_METHOD_UNIPRO`
abbrev pub load_method_unipro : ℕ
load_method_unipro = 0x01

-- The bytes before the end of a string.
abbrev pub c_string : Bytes → Bytes
c_string [] = []
c_string (b ∷ bs) = let rest = c_string bs in if b == 0 then [] else b ∷ rest

-- "gb_bcf" in the ten bytes of a tag
abbrev pub firmware_tag : Bytes
firmware_tag = 0x67 ∷ 0x62 ∷ 0x5f ∷ 0x62 ∷ 0x63 ∷ 0x66 ∷ 0 ∷ 0 ∷ 0 ∷ 0 ∷ []

module _ (alloc : ℕ → Option Bytes) (fw_download : ℕ) (cport : ℕ) (req : Message) where
  unfoldable pub fw_mgmt_interface_fw_version : ℤ → ℕ → ℕ → Fw → Reaction
  fw_mgmt_interface_fw_version read_header major minor fw =
      after_calls (device FwCall.read_bank_header ∷ []) (
        if is_neg read_header
        then refuse req cport gb_op_internal fw
        else succeed alloc req cport (firmware_tag ++ le16 major ++ le16 minor) fw)

  -- What follows the request's fields: the answer, and the start of the download.
  unfoldable pub load : ℕ → Bytes → Fw → Reaction
  load req_id tag fw =
      after_calls (gb_transport_message_empty_response_send req gb_op_success cport)
        (gb_fw_download_find_firmware alloc fw_download req_id (c_string tag) fw)

  unfoldable pub fw_mgmt_interface_fw_load_and_validate : Fw → Reaction
  fw_mgmt_interface_fw_load_and_validate fw = do
    load_method ← get_elem? req.payload 1
    if load_method == load_method_unipro
        then (do
          req_id ← get_elem? req.payload 0
          if ltb (length req.payload) 12
              then none
              else load req_id (take 10 (drop 2 req.payload)) fw)
        else refuse req cport gb_op_invalid fw

  unfoldable pub op_handler : ℤ → ℕ → ℕ → Fw → Reaction
  op_handler read_header major minor fw =
      let type = gb_message_type req in
      if type == 0x01
      then fw_mgmt_interface_fw_version read_header major minor fw
      else if type == 0x02
      then fw_mgmt_interface_fw_load_and_validate fw
      else if type == 0x83
      then some (dealloc request ∷ [], fw)
      else refuse req cport gb_op_protocol_bad fw
