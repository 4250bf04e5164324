-- ===== src/Svc.antt =====
-- subsys/greybus/svc.c: the SVC, which lives on the device itself: its answers to the AP, the requests it
-- sends, and its start. The AP and the nodes are reached through the bridge of apbridge.c.
-- `none` is undefined behaviour: a read past a request's payload (the sizes of requests are not tested),
-- the reply's copy to NULL, or what the bridge reports as such.
pub mod Answers
pub mod Requests
pub mod Start
mod Tests
use greybus_zephyr.Base.{
  ℕ, ◌+◌, Bool, true, false, ◌&&◌, Option, none, some, List, [], ◌∷◌, ◌++◌, Bytes, le16, le32,
  word16, ◌==◌, if◌then◌else◌, get_elem?, ℤ, pos, negsuc, neg, is_neg, enomem, ◌>>=◌,
}
use greybus_zephyr.Messages.{
  Message, gb_message_type, gb_message_response_alloc, gb_message_is_success,
}
use greybus_zephyr.Messages.Ids.{gb_message_request_alloc_with_payload}
use greybus_zephyr.Interfaces.{
  Registry, svc_inf_id, ap_inf_id, gb_interface_add, gb_interface_remove,
}
use greybus_zephyr.Apbridge.{
  Bridge, gb_apbridge_send, gb_apbridge_connection_create, gb_apbridge_connection_destroy,
}

-- The bridge, the counter of operation ids, the count of the semaphore `svc_init`, and how many requests
-- were freed.
pub record Svc : Type 0 where
  pub bridge : Bridge
  pub counter : ℕ
  pub svc_init : ℕ
  pub frees : ℕ

abbrev pub gb_svc_op_success : ℕ
gb_svc_op_success = 0x00

abbrev pub gb_svc_op_unknown_error : ℕ
gb_svc_op_unknown_error = 0x01

abbrev pub unipro_hibernate_mode : ℕ
unipro_hibernate_mode = 0x11

-- The cases of the switch in `gb_handle_msg`, those with one body in one.
pub data Operation : Type 0 where
  acknowledge conn_create conn_destroy dme_peer_get dme_peer_set set_pwrm rail_count : Operation
  vsys refclk unipro activate resume : Operation
  version_response hello_response inserted_response removed_response : Operation

unfoldable pub operation_of : ℕ → Option Operation
operation_of type =
    if type == 0x03
    then some acknowledge
    else if type == 0x0b
    then some acknowledge
    else if type == 0x0c
    then some acknowledge
    else if type == 0x13
    then some acknowledge
    else if type == 0x07
    then some conn_create
    else if type == 0x08
    then some conn_destroy
    else if type == 0x09
    then some dme_peer_get
    else if type == 0x0a
    then some dme_peer_set
    else if type == 0x10
    then some set_pwrm
    else if type == 0x14
    then some rail_count
    else if type == 0x21
    then some vsys
    else if type == 0x22
    then some vsys
    else if type == 0x23
    then some refclk
    else if type == 0x24
    then some refclk
    else if type == 0x25
    then some unipro
    else if type == 0x26
    then some unipro
    else if type == 0x27
    then some activate
    else if type == 0x28
    then some resume
    else if type == 0x81
    then some version_response
    else if type == 0x82
    then some hello_response
    else if type == 0x9f
    then some inserted_response
    else if type == 0xa0
    then some removed_response
    else none

-- The ends that a conn_create or conn_destroy request names.
unfoldable pub conn_request : Bytes → Option (ℕ × ℕ × ℕ × ℕ)
conn_request payload = do
  intf1_id ← get_elem? payload 0
  cport1_lo ← get_elem? payload 1
  cport1_hi ← get_elem? payload 2
  intf2_id ← get_elem? payload 3
  cport2_lo ← get_elem? payload 4
  cport2_hi ← get_elem? payload 5
  some (intf1_id, word16 cport1_lo cport1_hi, intf2_id, word16 cport2_lo cport2_hi)

-- The payload of the answer to set_pwrm, by the two modes of the request.
abbrev pub pwrm_result : ℕ → ℕ → ℕ
pwrm_result tx_mode rx_mode =
    if tx_mode == unipro_hibernate_mode && rx_mode == unipro_hibernate_mode then 0x00 else 0x01

module _ (on_write : ℕ → Message → ℕ → ℤ) where
  unfoldable pub gb_svc_msg_send : Message → Svc → Option (ℤ × Svc)
  gb_svc_msg_send msg svc = do
    (ret, b) ← gb_apbridge_send on_write svc_inf_id 0 msg svc.bridge
    some (ret, record svc { bridge = b })

-- `k_sem_give` on a semaphore with the limit 1.
give : Svc → Svc
give svc = record svc { svc_init = 1 }

pub gb_svc_deinit : Svc → Option Svc
gb_svc_deinit svc = do
  r ← gb_interface_remove svc_inf_id svc.bridge.registry
  some (record svc { bridge = record svc.bridge { registry = r } })

module _ (alloc : ℕ → Option Bytes) (on_write : ℕ → Message → ℕ → ℤ) where
  -- A failure to send is only logged.
  unfoldable pub svc_response_helper : Message → Bytes → ℕ → Svc → Option Svc
  unfolding gb_svc_msg_send
  svc_response_helper msg payload status svc = do
    made ← gb_message_response_alloc alloc payload msg.header.type msg.header.operation_id status
    elim made [
      | none ↦ some svc
      | some resp ↦ (do (_, svc') ← gb_svc_msg_send on_write resp svc; some svc')
    ]

  svc_intf_set_pwrm_handler : Message → Svc → Option Svc
  svc_intf_set_pwrm_handler msg svc = do
    tx_mode ← get_elem? msg.payload 2
    rx_mode ← get_elem? msg.payload 7
    svc_response_helper msg (pwrm_result tx_mode rx_mode ∷ []) gb_svc_op_success svc

  unfoldable pub svc_connection_destroy_handler : Message → Svc → Option Svc
  svc_connection_destroy_handler msg svc = do
    (intf1_id, cport1_id, intf2_id, cport2_id) ← conn_request msg.payload
    (ret, b) ← gb_apbridge_connection_destroy intf1_id cport1_id intf2_id cport2_id svc.bridge
    let svc' = record svc { bridge = b }
    if is_neg ret
        then svc_response_helper msg [] gb_svc_op_unknown_error svc'
        else svc_response_helper msg [] gb_svc_op_success svc'

  -- Allocate a request with a payload, and send it.
  unfoldable pub svc_request : Bytes → ℕ → Svc → Option (ℤ × Svc)
  svc_request payload type svc =
      let (req, counter) =
        gb_message_request_alloc_with_payload alloc payload type false svc.counter in
      let svc' = record svc { counter = counter } in
      elim req [ none ↦ some (neg enomem, svc') | some msg ↦ gb_svc_msg_send on_write msg svc' ]

  -- endo_id and interface_id
  svc_send_hello : Svc → Option (ℤ × Svc)
  svc_send_hello svc = svc_request (le16 0x4755 ++ ap_inf_id ∷ []) 0x02 svc

  svc_version_response_handler : Message → Svc → Option Svc
  svc_version_response_handler msg svc = do (_, svc') ← svc_send_hello svc; some svc'

  pub gb_svc_send_version : Svc → Option (ℤ × Svc)
  gb_svc_send_version svc = svc_request (0x00 ∷ 0x01 ∷ []) 0x01 svc

  pub gb_svc_send_module_inserted : ℕ → ℕ → ℕ → Svc → Option (ℤ × Svc)
  gb_svc_send_module_inserted primary_intf_id intf_count flags svc =
      svc_request (primary_intf_id ∷ intf_count ∷ le16 flags) 0x1f svc

  pub gb_svc_send_module_removed : ℕ → Svc → Option (ℤ × Svc)
  gb_svc_send_module_removed primary_intf_id svc = svc_request (primary_intf_id ∷ []) 0x20 svc

module _ (alloc : ℕ → Option Bytes) (on_create : ℕ → ℕ → ℤ) (on_write : ℕ → Message → ℕ → ℤ) where
  unfoldable pub svc_connection_create_handler : Message → Svc → Option Svc
  svc_connection_create_handler msg svc = do
    (intf1_id, cport1_id, intf2_id, cport2_id) ← conn_request msg.payload
    if intf1_id == intf2_id && cport1_id == cport2_id
        then svc_response_helper alloc on_write msg [] gb_svc_op_unknown_error svc
        else (do
          (ret, b) ←
              gb_apbridge_connection_create on_create intf1_id cport1_id intf2_id cport2_id
                svc.bridge
          let svc' = record svc { bridge = b }
          if is_neg ret
              then svc_response_helper alloc on_write msg [] gb_svc_op_unknown_error svc'
              else svc_response_helper alloc on_write msg [] gb_svc_op_success svc')

  pub svc_dispatch : Operation → Message → Svc → Option Svc
  svc_dispatch acknowledge msg svc = svc_response_helper alloc on_write msg [] 0x00 svc
  svc_dispatch conn_create msg svc = svc_connection_create_handler msg svc
  svc_dispatch conn_destroy msg svc = svc_connection_destroy_handler alloc on_write msg svc
  svc_dispatch dme_peer_get msg svc =
      svc_response_helper alloc on_write msg (le16 0 ++ le32 0x0126) gb_svc_op_success svc
  svc_dispatch dme_peer_set msg svc =
      svc_response_helper alloc on_write msg (le16 0) gb_svc_op_success svc
  svc_dispatch set_pwrm msg svc = svc_intf_set_pwrm_handler alloc on_write msg svc
  svc_dispatch rail_count msg svc =
      svc_response_helper alloc on_write msg (0 ∷ []) gb_svc_op_success svc
  svc_dispatch vsys msg svc = svc_response_helper alloc on_write msg (0 ∷ []) gb_svc_op_success svc
  svc_dispatch refclk msg svc =
      svc_response_helper alloc on_write msg (0 ∷ []) gb_svc_op_success svc
  svc_dispatch unipro msg svc =
      svc_response_helper alloc on_write msg (0 ∷ []) gb_svc_op_success svc
  svc_dispatch activate msg svc =
      svc_response_helper alloc on_write msg (0 ∷ 0x03 ∷ []) gb_svc_op_success svc
  svc_dispatch resume msg svc =
      svc_response_helper alloc on_write msg (0 ∷ []) gb_svc_op_success svc
  svc_dispatch version_response msg svc = svc_version_response_handler alloc on_write msg svc
  svc_dispatch hello_response msg svc = some (give svc)
  svc_dispatch inserted_response msg svc = some svc
  svc_dispatch removed_response msg svc = some svc

  -- An unknown type is only logged.
  pub gb_handle_msg : Message → Svc → Option Svc
  unfolding gb_message_type
  gb_handle_msg msg svc = elim (operation_of (gb_message_type msg)) [
    | none ↦ some svc
    | some op ↦ svc_dispatch op msg svc
  ]

  pub gb_svc_intf_write : Message → Svc → Option (ℤ × Svc)
  gb_svc_intf_write msg svc = do
    svc' ← gb_handle_msg msg svc
    some (pos 0, record svc' { frees = svc'.frees + 1 })

  -- `busy` and `p` are those of `gb_interface_add` for the SVC's own interface, whose result is not
  -- looked at; `taken` is what the wait for the AP's hello returns.
  pub gb_svc_init : Bool → ℕ → ℤ → Svc → Option (ℤ × Svc)
  gb_svc_init busy p taken svc = do
    (_, r) ← gb_interface_add busy p svc.bridge.registry
    (ret, b) ←
        gb_apbridge_connection_create on_create ap_inf_id 0 svc_inf_id 0
          (record svc.bridge { registry = r })
    let svc' = record svc { bridge = b }
    if is_neg ret then some (ret, svc') else (do
      (sent, svc'') ← gb_svc_send_version alloc on_write svc'
      if is_neg sent
          then some (sent, svc'')
          else if is_neg taken
          then some (taken, svc'')
          else some (pos 0, svc''))
