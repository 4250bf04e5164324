-- ===== src/Svc/Start.antt =====
-- svc.c: the start of the SVC, and the requests that it sends.
use greybus_zephyr.Base.{
  ℕ, ◌≡◌, refl, Bool, Bool-cases, inl, inr, false, Option, some, [], ◌∷◌, Bytes, arith,
  if◌then◌else◌, ℤ, pos, neg, is_neg, einval,
}
use greybus_zephyr.Messages.{Message}
use greybus_zephyr.Messages.Laws.{HasMemory}
use greybus_zephyr.Messages.Ids.{new_operation_id, gb_message_request_alloc_with_payload}
use greybus_zephyr.Messages.Requests.{IsRequest, request_alloc_lem}
use greybus_zephyr.Interfaces.{Registry, svc_inf_id, ap_inf_id, gb_interface_get, gb_interface_add}
use greybus_zephyr.Apbridge.{
  Bridge, node_to_ap_cport, connection_ends, gb_apbridge_connection_create, gb_apbridge_send,
}
use greybus_zephyr.Apbridge.Delivery.{IsNamed, logged, gb_apbridge_send-to_ap}
use greybus_zephyr.Svc.{Svc, gb_svc_msg_send, svc_request, gb_svc_send_version, gb_svc_init}

module _ (alloc : ℕ → Option Bytes) (on_create : ℕ → ℕ → ℤ) (on_write : ℕ → Message → ℕ → ℤ) where
  svc_request_lem :
      (payload : Bytes) (type counter : ℕ) (req : Message) (ret : ℤ) (svc : Svc) (b : Bridge)
      → gb_message_request_alloc_with_payload alloc payload type false svc.counter
        ≡ (some req, counter)
      → gb_apbridge_send on_write svc_inf_id 0 req svc.bridge ≡ some (ret, b)
      → svc_request alloc on_write payload type svc
        ≡ some (ret, record svc { bridge = b; counter = counter })
  unfolding svc_request gb_svc_msg_send
  svc_request_lem payload type counter req ret svc b made sent =
      rw (made, sent, svc_request, gb_svc_msg_send) (rw made refl)

  -- The results of the three steps, in their order.
  init_lem :
      (busy : Bool) (p n : ℕ) (added taken ret : ℤ) (svc svc' : Svc) (r : Registry) (b' : Bridge)
      → gb_interface_add busy p svc.bridge.registry ≡ some (added, r)
      → gb_apbridge_connection_create on_create ap_inf_id 0 svc_inf_id 0
          (record svc.bridge { registry = r })
        ≡ some (pos n, b')
      → svc_request alloc on_write (0x00 ∷ 0x01 ∷ []) 0x01 (record svc { bridge = b' })
        ≡ some (ret, svc')
      → gb_svc_init alloc on_create on_write busy p taken svc
        ≡ some (if is_neg ret then ret else if is_neg taken then taken else pos 0, svc')
  unfolding gb_svc_init gb_svc_send_version
  init_lem busy p n added taken ret svc svc' r b' add create sent = elim (Bool-cases (is_neg ret)) [
    | inl unsent ↦ rw (add, create, sent, unsent, gb_svc_init, gb_svc_send_version) refl
    | inr went ↦ elim (Bool-cases (is_neg taken)) [
      | inl late ↦ rw (add, create, sent, went, late, gb_svc_init, gb_svc_send_version) refl
      | inr in_time ↦ rw (add, create, sent, went, in_time, gb_svc_init, gb_svc_send_version) refl
    ]
  ]

  -- With memory, if the SVC's interface is entered in the table and its connection is made,
  -- gb_svc_init sends the AP one protocol version request, version 0.1 under the counter's id,
  -- and returns the first error of the send and of the wait, or 0.
  gb_svc_init-version :
      HasMemory alloc
      → (busy : Bool) (p n a : ℕ) (added taken : ℤ) (svc : Svc) (r : Registry) (b' : Bridge)
      → gb_interface_add busy p svc.bridge.registry ≡ some (added, r)
      → gb_apbridge_connection_create on_create ap_inf_id 0 svc_inf_id 0
          (record svc.bridge { registry = r })
        ≡ some (pos n, b')
      → IsNamed r
      → gb_interface_get ap_inf_id r ≡ some (some a)
      → node_to_ap_cport svc_inf_id 0 (record svc.bridge { registry = r }) ≡ some (neg einval)
      → (req : Message) × IsRequest req 0x01 (0 ∷ 1 ∷ []) svc.counter
        × (gb_svc_init alloc on_create on_write busy p taken svc
            ≡ some (
              (if is_neg (on_write a req 0)
                  then on_write a req 0
                  else if is_neg taken
                  then taken
                  else pos 0),
              record svc { bridge = logged b' a req 0; counter = (new_operation_id svc.counter).1 },
            ))
  unfolding connection_ends
  gb_svc_init-version memory busy p n a added taken svc r b' add create names ap_is free =
      let (req, made, is) =
        request_alloc_lem alloc memory (0 ∷ 1 ∷ []) 0x01 svc.counter (omega arith) in
      let sent =
        gb_apbridge_send-to_ap on_write on_create ap_inf_id 0 svc_inf_id 0 svc_inf_id 0 0 n
          (record svc.bridge { registry = r }) b' req a refl create names (omega arith) ap_is
          free in
      (
        req,
        is,
        init_lem busy p n added taken (on_write a req 0) svc
            (record svc { bridge = logged b' a req 0; counter = (new_operation_id svc.counter).1 })
            r b' add create
            (svc_request_lem (0 ∷ 1 ∷ []) 0x01 _ req _ (record svc { bridge = b' }) _ made sent),
      )
