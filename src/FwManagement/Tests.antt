-- ===== src/FwManagement/Tests.antt =====
-- The firmware "fw" is loaded under the request id 4.
use greybus_zephyr.Base.{◌≡◌, refl, some, [], ◌∷◌, Bytes, arith, le32, pos, negsuc, true}
use greybus_zephyr.Messages.{Message, gb_message_type, gb_message_is_success, gb_op_success}
use greybus_zephyr.Messages.Requests.{IsRequest}
use greybus_zephyr.Samples.{zeroed, zeroed-HasMemory, message}
use greybus_zephyr.Transport.{Effects, empty_response}
use greybus_zephyr.Transport.Laws.{sends}
use greybus_zephyr.FwDownload.{FwCall, Platform, Fw, gb_fw_download_find_firmware_response_handler}
use greybus_zephyr.FwDownload.Download.{written, fetch_of, serve, Works, Reports}
use greybus_zephyr.FwManagement.{op_handler}
use greybus_zephyr.FwManagement.EndToEnd.{op_handler-serve}

abbrev platform : Platform
platform = record {
  on_write = λ b f. pos 0;
  on_read_header = pos 0;
  on_upgrade = pos 0;
  major = 1;
  minor = 2;
}

platform-Works : Works platform
platform-Works = record { writes = λ b f. refl; reads = refl; upgrades = refl }

abbrev image : Bytes
image = 7 ∷ 8 ∷ 9 ∷ []

abbrev resting : Fw
resting = record { fw_size = 0; offset = 0; req_id = negsuc 0; fw_id = 0; counter = 1 }

abbrev tag : Bytes
tag = 0x66 ∷ 0x77 ∷ 0 ∷ 0 ∷ 0 ∷ 0 ∷ 0 ∷ 0 ∷ 0 ∷ 0 ∷ []

abbrev load_request : Message
load_request = message 0x02 (4 ∷ 1 ∷ tag)

abbrev found : Message
found = message 0x81 (1 ∷ le32 3)

load_request_is : gb_message_type load_request ≡ 0x02
unfolding gb_message_type
load_request_is = refl

found_is : gb_message_is_success found ≡ true
unfolding gb_message_is_success
found_is = refl

op_handler-serve_example :
    (find : Message) × IsRequest find 0x01 (0x66 ∷ 0x77 ∷ 0 ∷ 0 ∷ 0 ∷ 0 ∷ 0 ∷ 0 ∷ 0 ∷ 0 ∷ []) 1
    × (es : Effects FwCall) × (fw1 : Fw) × (op_handler zeroed 2 3 load_request (pos 0) 1 0 resting
        ≡ some (es, fw1))
    × (sends es ≡ (3, empty_response load_request gb_op_success) ∷ (2, find) ∷ [])
    × (fs : Effects FwCall) × (fetch : Message) × (fw2 : Fw)
    × (gb_fw_download_find_firmware_response_handler 1 2 found fw1 ≡ some (fs, fw2))
    × (fetch_of fs ≡ some fetch)
    × (gs : Effects FwCall) × (fw3 : Fw) × (serve zeroed 1 platform image 2 3 fetch fw2
        ≡ some (gs, fw3))
    × (written gs ≡ image)
    × Reports 1 platform (pos 4) gs
    × (fw3.req_id ≡ negsuc 0)
op_handler-serve_example =
    op_handler-serve zeroed zeroed-HasMemory 2 3 load_request resting (pos 0) 1 0 1 platform
      platform-Works image 1 4 1 tag found load_request_is refl refl (omega arith) (omega arith)
      (omega arith) found_is refl
