-- ===== src/Svc/Answers.antt =====
-- svc.c: the SVC's answers reach the AP.
use greybus_zephyr.Base.{
  ℕ, ◌+◌, ◌≤◌, ◌<◌, ◌≡◌, ◌≢◌, ◌∙◌, refl, sym, ap, inl, inr, ◌⊎◌, true, false, ◌&&◌, Option, some,
  [], ◌∷◌, Bytes, arith, length, get_elem?-lt, get_or, get_or-get_elem?, ◌==◌, ne→==, ℤ, pos,
}
use greybus_zephyr.Messages.{
  Message, header_size, gb_message_response_alloc, gb_message_response_alloc_from_req,
}
use greybus_zephyr.Messages.Laws.{HasMemory, reply, gb_message_response_alloc_from_req-some}
use greybus_zephyr.Interfaces.{Interface, svc_inf_id, ap_inf_id, gb_interface_get}
use greybus_zephyr.Apbridge.{
  Bridge, node_to_ap_cport, connection_ends, gb_apbridge_connection_create,
}
use greybus_zephyr.Apbridge.Routing.{create-Connected}
use greybus_zephyr.Apbridge.Delivery.{
  IsNamed, connection_ends-lt, logged, gb_apbridge_send-found, node_to_ap_cport-other,
}
use greybus_zephyr.Svc.Requests.{
  case_answer, Request, type_of, answer_of, IsLong, case_of, case_of_lem, case_answer_lem,
  long_enough,
}
use greybus_zephyr.Svc.{
  Svc, Operation, acknowledge, dme_peer_get, dme_peer_set, set_pwrm, rail_count, vsys, refclk,
  unipro, activate, resume, operation_of, conn_request, pwrm_result, gb_svc_msg_send,
  svc_response_helper, svc_intf_set_pwrm_handler, svc_connection_create_handler, svc_dispatch,
  gb_handle_msg, gb_svc_intf_write, gb_svc_op_success, gb_svc_op_unknown_error,
}

-- The SVC is connected to the AP's cport `k`, and `a` points to the AP's interface.
pub record Linked (b : Bridge) (a k : ℕ) : Type 0 where
  pub intf : Interface
  pub ap_is : gb_interface_get ap_inf_id b.registry ≡ some (some a)
  pub alive : b.registry.heap a ≡ some intf
  pub found : node_to_ap_cport svc_inf_id 0 b ≡ some (pos k)

-- A connection of another node leaves that of the SVC as it was.
Linked-create :
    (on_create : ℕ → ℕ → ℤ) (a k i1 c1 i2 c2 node_id node_cport ap_cport n : ℕ) (b b' : Bridge)
    → connection_ends i1 c1 i2 c2 ≡ some (node_id, node_cport, ap_cport)
    → gb_apbridge_connection_create on_create i1 c1 i2 c2 b ≡ some (pos n, b')
    → IsNamed b.registry
    → node_id ≢ svc_inf_id
    → Linked b a k
    → Linked b' a k
Linked-create on_create a k i1 c1 i2 c2 node_id node_cport ap_cport n b b' ends e names other l =
    let c = create-Connected on_create i1 c1 i2 c2 node_id node_cport ap_cport n b b' ends e in
    let small = connection_ends-lt i1 c1 i2 c2 node_id node_cport ap_cport ends in
    let (intf, alive, id_is) = names.named node_id c.node small c.node_is in
    let differs : (intf.id == svc_inf_id && node_cport == 0) ≡ false =
      rw (ne→== intf.id svc_inf_id (λ same. other (cc))) refl in
    record {
      intf = l.intf;
      ap_is = ap (λ (x : Bridge). gb_interface_get ap_inf_id x.registry) c.added.becomes ∙ l.ap_is;
      alive = ap (λ (x : Bridge). x.registry.heap a) c.added.becomes ∙ l.alive;
      found =
          node_to_ap_cport-other svc_inf_id 0 ap_cport c.node node_cport k intf c.log b b' alive
            differs l.found c.added;
    }

module _ (alloc : ℕ → Option Bytes) (memory : HasMemory alloc) (on_write : ℕ → Message → ℕ → ℤ)
    (a k : ℕ) where
  gb_svc_msg_send-Linked :
      (msg : Message) (svc : Svc)
      → Linked svc.bridge a k
      → gb_svc_msg_send on_write msg svc
        ≡ some (on_write a msg k, record svc { bridge = logged svc.bridge a msg k })
  unfolding gb_svc_msg_send
  gb_svc_msg_send-Linked msg svc l =
      rw
        (gb_apbridge_send-found on_write svc_inf_id 0 k a msg svc.bridge (omega arith) (omega arith)
          l.found l.ap_is l.alive)
        refl

  svc_response_helper-Linked :
      (msg : Message) (payload : Bytes) (status : ℕ) (svc : Svc)
      → length payload < 256
      → Linked svc.bridge a k
      → (block : Bytes) × (svc_response_helper alloc on_write msg payload status svc
          ≡ some (record svc { bridge = logged svc.bridge a (reply block msg payload status) k }))
  unfolding svc_response_helper gb_message_response_alloc_from_req
  svc_response_helper-Linked msg payload status svc short l =
      let (block, found, sized) = memory.blocks (header_size + length payload) in
      let made : gb_message_response_alloc alloc payload msg.header.type msg.header.operation_id
            status
          ≡ some (some (reply block msg payload status)) =
        gb_message_response_alloc_from_req-some alloc payload msg status block
          (omega (arith, short)) found sized in
      let sent = gb_svc_msg_send-Linked (reply block msg payload status) svc l in
      (block, rw (made, sent) refl)

  -- A payload that does not depend on the state.
  fixed :
      (msg : Message) (svc : Svc) (p payload : Bytes)
      → length p < 256
      → some p ≡ some payload
      → Linked svc.bridge a k
      → (block : Bytes) × (svc_response_helper alloc on_write msg p gb_svc_op_success svc
          ≡ some (record svc {
            bridge = logged svc.bridge a (reply block msg payload gb_svc_op_success) k;
          }))
  fixed msg svc p payload short is l =
      let e : p ≡ payload = cc is in
      rw (← e) (svc_response_helper-Linked msg p gb_svc_op_success svc short l)

  dispatch-Linked :
      (on_create : ℕ → ℕ → ℤ) (op : Operation) (msg : Message) (svc : Svc) (payload : Bytes)
      → 8 ≤ length msg.payload ⊎ (op ≢ set_pwrm)
      → case_answer op msg.payload ≡ some payload
      → Linked svc.bridge a k
      → (block : Bytes) × (svc_dispatch alloc on_create on_write op msg svc
          ≡ some (record svc {
            bridge = logged svc.bridge a (reply block msg payload gb_svc_op_success) k;
          }))
  unfolding svc_dispatch svc_intf_set_pwrm_handler
  dispatch-Linked on_create acknowledge msg svc payload long is l =
      fixed msg svc [] payload (omega arith) is l
  dispatch-Linked on_create dme_peer_get msg svc payload long is l =
      fixed msg svc (0 ∷ 0 ∷ 0x26 ∷ 0x01 ∷ 0 ∷ 0 ∷ []) payload (omega arith) is l
  dispatch-Linked on_create dme_peer_set msg svc payload long is l =
      fixed msg svc (0 ∷ 0 ∷ []) payload (omega arith) is l
  dispatch-Linked on_create rail_count msg svc payload long is l =
      fixed msg svc (0 ∷ []) payload (omega arith) is l
  dispatch-Linked on_create vsys msg svc payload long is l =
      fixed msg svc (0 ∷ []) payload (omega arith) is l
  dispatch-Linked on_create refclk msg svc payload long is l =
      fixed msg svc (0 ∷ []) payload (omega arith) is l
  dispatch-Linked on_create unipro msg svc payload long is l =
      fixed msg svc (0 ∷ []) payload (omega arith) is l
  dispatch-Linked on_create activate msg svc payload long is l =
      fixed msg svc (0 ∷ 3 ∷ []) payload (omega arith) is l
  dispatch-Linked on_create resume msg svc payload long is l =
      fixed msg svc (0 ∷ []) payload (omega arith) is l
  dispatch-Linked on_create set_pwrm msg svc payload long is l =
      let enough : 8 ≤ length msg.payload = elim long [
        | inl h ↦ h
        | inr other ↦ absurd (other refl)
      ] in
      let (tx_mode, tx_found) = get_elem?-lt msg.payload 2 (omega arith) in
      let (rx_mode, rx_found) = get_elem?-lt msg.payload 7 (omega arith) in
      let (block, e) =
        fixed msg svc (pwrm_result tx_mode rx_mode ∷ []) payload (omega arith)
          (ap (λ b. some (b ∷ []))
              (ap (λ t. pwrm_result t rx_mode) (sym (get_or-get_elem? _ 2 0 tx_found))
                ∙ ap (λ t. pwrm_result (get_or msg.payload 2 0) t)
                    (sym (get_or-get_elem? _ 7 0 rx_found)))
            ∙ is)
          l in
      (block, rw (tx_found, rx_found, svc_intf_set_pwrm_handler) e)
  dispatch-Linked on_create _ msg svc payload long is l = absurd (cc is)

  -- The case is known.
  handled :
      (on_create : ℕ → ℕ → ℤ) (op : Operation) (msg : Message) (svc : Svc) (payload : Bytes)
      → operation_of msg.header.type ≡ some op
      → 8 ≤ length msg.payload ⊎ (op ≢ set_pwrm)
      → case_answer op msg.payload ≡ some payload
      → Linked svc.bridge a k
      → (block : Bytes) × (gb_svc_intf_write alloc on_create on_write msg svc
          ≡ some (
            pos 0,
            record svc {
              bridge = logged svc.bridge a (reply block msg payload gb_svc_op_success) k;
              frees = svc.frees + 1;
            },
          ))
  unfolding gb_svc_intf_write gb_handle_msg
  handled on_create op msg svc payload op_is long is l =
      let (block, e) = dispatch-Linked on_create op msg svc payload long is l in
      (block, rw (op_is, e, gb_svc_intf_write, gb_handle_msg) refl)

  -- With memory, and while the SVC is connected to the AP's cport k: each request of the
  -- protocol that the SVC serves without a change of its state (all it serves but conn_create
  -- and conn_destroy), known by its type, is answered over the bridge with the status 0 and the
  -- payload that `answer_of` states for it, and is then freed. The answer to intf_set_pwrm is 0
  -- if both modes are hibernation and 1 otherwise; such a request is taken to have at least 8
  -- bytes.
  pub gb_svc_intf_write-answers :
      (on_create : ℕ → ℕ → ℤ) (rq : Request) (msg : Message) (svc : Svc)
      → msg.header.type ≡ type_of rq
      → IsLong rq msg.payload
      → Linked svc.bridge a k
      → (block : Bytes) × (gb_svc_intf_write alloc on_create on_write msg svc
          ≡ some (
            pos 0,
            record svc {
              bridge = logged svc.bridge a (reply block msg (answer_of rq msg.payload) 0x00) k;
              frees = svc.frees + 1;
            },
          ))
  gb_svc_intf_write-answers on_create rq msg svc is long l =
      handled on_create (case_of rq) msg svc (answer_of rq msg.payload)
        (ap operation_of is ∙ case_of_lem rq) (long_enough rq msg.payload long)
        (case_answer_lem rq msg.payload) l

  -- With memory, and while the SVC is connected to the AP's cport k, a request to connect a
  -- cport to itself is answered with an unknown error, and the bridge's connections stay as
  -- they were.
  svc_connection_create_handler-loop :
      (on_create : ℕ → ℕ → ℤ) (i c : ℕ) (msg : Message) (svc : Svc)
      → conn_request msg.payload ≡ some (i, c, i, c)
      → Linked svc.bridge a k
      → (block : Bytes) × (svc_connection_create_handler alloc on_create on_write msg svc
          ≡ some (record svc {
            bridge = logged svc.bridge a (reply block msg [] gb_svc_op_unknown_error) k;
          }))
  unfolding svc_connection_create_handler
  svc_connection_create_handler-loop on_create i c msg svc is l =
      let same_i : (i == i) ≡ true = ground arith in
      let same_c : (c == c) ≡ true = ground arith in
      let (block, e) =
        svc_response_helper-Linked msg [] gb_svc_op_unknown_error svc (omega arith) l in
      (block, rw (is, same_i, same_c, e) refl)

  -- With memory, and while the SVC is connected to the AP's cport k, a request that makes a
  -- connection between the AP and a node other than the SVC is answered with success through
  -- the new bridge, in which the SVC is still connected to that cport.
  pub svc_connection_create_handler-created :
      (on_create : ℕ → ℕ → ℤ) (i1 c1 i2 c2 node_id node_cport ap_cport n : ℕ) (msg : Message)
      (svc : Svc) (b' : Bridge)
      → conn_request msg.payload ≡ some (i1, c1, i2, c2)
      → i1 ≢ i2
      → connection_ends i1 c1 i2 c2 ≡ some (node_id, node_cport, ap_cport)
      → node_id ≢ svc_inf_id
      → IsNamed svc.bridge.registry
      → gb_apbridge_connection_create on_create i1 c1 i2 c2 svc.bridge ≡ some (pos n, b')
      → Linked svc.bridge a k
      → Linked b' a k
        × (block : Bytes) × (svc_connection_create_handler alloc on_create on_write msg svc
            ≡ some (record svc { bridge = logged b' a (reply block msg [] gb_svc_op_success) k }))
  unfolding svc_connection_create_handler
  svc_connection_create_handler-created on_create i1 c1 i2 c2 node_id node_cport ap_cport n msg svc
        b' is apart ends other names e l =
      let l' =
        Linked-create on_create a k i1 c1 i2 c2 node_id node_cport ap_cport n svc.bridge b' ends e
          names other l in
      let (block, sent) =
        svc_response_helper-Linked msg [] gb_svc_op_success (record svc { bridge = b' })
          (omega arith) l' in
      (l', block, rw (is, ne→== i1 i2 apart, e, sent) refl)
