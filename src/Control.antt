-- ===== src/Control.antt =====
-- subsys/greybus/control-gpb.c: the control protocol, which brings cports up and down and hands out the
-- manifest. The manifest that `manifest_create` writes is the parameter `manifest`, as long as
-- `manifest_size` says.
-- `none` is undefined behaviour: a read past the payload, or a write to a NULL message.
pub mod Answers
pub mod Connections
mod Tests
use greybus_zephyr.Base.{
  ℕ, ◌+◌, ◌%◌, ◌^◌, Bool, true, false, Option, none, some, List, [], ◌∷◌, ◌++◌, Bytes, le16, word16,
  ltb, ◌==◌, if◌then◌else◌, get_elem?, length, overwrite, ℤ, pos, negsuc, is_nonzero, ◌>>=◌,
}
use greybus_zephyr.Core.{gb_errno_to_op_result}
use greybus_zephyr.Core.Cports.{
  Cports, Backend, CoreCall, evt_connected, evt_disconnected, gb_listen, gb_stop_listening,
  gb_notify,
}
use greybus_zephyr.Messages.{
  Message, gb_response, gb_message_type, gb_message_payload_len, gb_message_alloc, gb_op_success,
  gb_op_invalid,
}
use greybus_zephyr.Transport.{
  Effects, send, dealloc, response, gb_transport_message_send,
  gb_transport_message_empty_response_send, gb_transport_message_response_success_send,
}

-- The cases of the switch in `gb_control_handler`, those with one body in one.
pub data Operation : Type 0 where
  version get_manifest_size get_manifest connect disconnect disconnecting pm_stub timesync :
      Operation

unfoldable pub operation_of : ℕ → Option Operation
operation_of type =
    if type == 0x01
    then some version
    else if type == 0x03
    then some get_manifest_size
    else if type == 0x04
    then some get_manifest
    else if type == 0x05
    then some connect
    else if type == 0x06
    then some disconnect
    else if type == 0x0c
    then some disconnecting
    else if type == 0x12
    then some pm_stub
    else if type == 0x0f
    then some pm_stub
    else if type == 0x10
    then some pm_stub
    else if type == 0x11
    then some pm_stub
    else if type == 0x13
    then some pm_stub
    else if type == 0x14
    then some pm_stub
    else if type == 0x07
    then some timesync
    else if type == 0x08
    then some timesync
    else if type == 0x09
    then some timesync
    else if type == 0x0d
    then some timesync
    else none

abbrev pub Reaction : Type 0
Reaction = Option (Effects CoreCall)

-- `sizeof` of the connected and disconnected requests.
abbrev pub cport_request_size : ℕ
cport_request_size = 2

module _ (alloc : ℕ → Option Bytes) where
  gb_control_protocol_version : ℕ → Message → Reaction
  gb_control_protocol_version cport req =
      gb_transport_message_response_success_send alloc req (0 ∷ 1 ∷ []) cport

module _ (alloc : ℕ → Option Bytes) (manifest : Bytes) where
  gb_control_get_manifest_size : ℕ → Message → Reaction
  gb_control_get_manifest_size cport req =
      gb_transport_message_response_success_send alloc req (le16 (length manifest)) cport

  -- The manifest is written into the message without a test for NULL, and the request is not freed.
  unfoldable pub gb_control_get_manifest : ℕ → Message → Reaction
  unfolding gb_message_alloc
  gb_control_get_manifest cport req = do
    msg ←
        gb_message_alloc alloc (length manifest) (gb_response req.header.type)
          req.header.operation_id gb_op_success
    some (
        gb_transport_message_send (record msg { payload = overwrite msg.payload manifest }) cport
        ++ dealloc response ∷ [])

module _ (cports : Cports) (backend : Backend) where
  -- The cport is read before the size is tested.
  unfoldable pub gb_control_connected : ℕ → Message → Reaction
  unfolding gb_message_payload_len
  gb_control_connected cport req = do
    lo ← get_elem? req.payload 0
    hi ← get_elem? req.payload 1
    let target_cport = word16 lo hi
    if ltb (gb_message_payload_len req) cport_request_size
        then some (gb_transport_message_empty_response_send req gb_op_invalid cport)
        else (let (listening, listened) = gb_listen cports backend target_cport in
            if is_nonzero listened
            then some
                (listening ++ gb_transport_message_empty_response_send req gb_op_invalid cport)
            else (let (notifying, notified) = gb_notify cports target_cport evt_connected in
                if is_nonzero notified
                then some (
                    listening
                    ++ notifying
                    ++ (gb_stop_listening cports backend cport).0
                    ++ gb_transport_message_empty_response_send req (gb_errno_to_op_result notified)
                        cport)
                else some (
                    listening
                    ++ notifying
                    ++ gb_transport_message_empty_response_send req gb_op_success cport)))

  -- It is the cport of the request itself that is no longer listened on; a failed notification is
  -- only logged.
  unfoldable pub gb_control_disconnected : ℕ → Message → Reaction
  unfolding gb_message_payload_len
  gb_control_disconnected cport req =
      if ltb (gb_message_payload_len req) cport_request_size
      then some (gb_transport_message_empty_response_send req gb_op_invalid cport)
      else (do
        lo ← get_elem? req.payload 0
        hi ← get_elem? req.payload 1
        let (stopping, stopped) = gb_stop_listening cports backend cport
        some (
            (gb_notify cports (word16 lo hi) evt_disconnected).0
            ++ stopping
            ++ gb_transport_message_empty_response_send req (gb_errno_to_op_result stopped) cport))

gb_control_disconnecting : ℕ → Message → Reaction
gb_control_disconnecting cport req =
    some (gb_transport_message_empty_response_send req gb_op_success cport)

module _ (alloc : ℕ → Option Bytes) where
  gb_control_pm_stub : ℕ → Message → Reaction
  gb_control_pm_stub cport req = gb_transport_message_response_success_send alloc req (0 ∷ []) cport

module _ (alloc : ℕ → Option Bytes) (manifest : Bytes) (cports : Cports) (backend : Backend) where
  pub control_dispatch : Operation → Message → ℕ → Reaction
  control_dispatch version msg cport = gb_control_protocol_version alloc cport msg
  control_dispatch get_manifest_size msg cport =
      gb_control_get_manifest_size alloc manifest cport msg
  control_dispatch get_manifest msg cport = gb_control_get_manifest alloc manifest cport msg
  control_dispatch connect msg cport = gb_control_connected cports backend cport msg
  control_dispatch disconnect msg cport = gb_control_disconnected cports backend cport msg
  control_dispatch disconnecting msg cport = gb_control_disconnecting cport msg
  control_dispatch pm_stub msg cport = gb_control_pm_stub alloc cport msg
  control_dispatch timesync msg cport =
      some (gb_transport_message_empty_response_send msg gb_op_success cport)

  pub gb_control_handler : Message → ℕ → Reaction
  unfolding gb_message_type
  gb_control_handler msg cport = elim (operation_of (gb_message_type msg)) [
    | none ↦ some (gb_transport_message_empty_response_send msg gb_op_invalid cport)
    | some op ↦ control_dispatch op msg cport
  ]
