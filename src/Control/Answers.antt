-- ===== src/Control/Answers.antt =====
-- control-gpb.c: the control handler answers every request; the manifest request is not freed.
use greybus_zephyr.Base.{
  ℕ, ◌+◌, ◌%◌, ◌^◌, ◌≤◌, ◌<◌, ◌≡◌, ◌≢◌, refl, inl, inr, Option, none, some, List, [], ◌∷◌, Bytes,
  arith, length, length-drop, drop, drop_all, append-nil, get_elem?-lt, le16, word16, ltb, size_mod,
  Bool-cases,
}
use greybus_zephyr.Core.Cports.{Cports, Backend, CoreCall}
use greybus_zephyr.Messages.{
  Message, header_size, gb_message_alloc, gb_message_payload_len, gb_op_success, gb_op_invalid,
}
use greybus_zephyr.Messages.Laws.{IsMessage, HasMemory, reply, gb_message_payload_len_lem}
use greybus_zephyr.Transport.{Effects, send, dealloc, response}
use greybus_zephyr.Transport.Laws.{Handled, empty-Handled, success-Handled, sends, request_frees}
use greybus_zephyr.Control.{
  Operation, version, get_manifest_size, get_manifest, connect, disconnect, disconnecting, pm_stub,
  timesync, operation_of, gb_control_protocol_version, gb_control_get_manifest_size,
  gb_control_disconnecting, gb_control_pm_stub, gb_control_get_manifest, gb_control_handler,
  control_dispatch, gb_control_disconnected,
}
use greybus_zephyr.Control.Connections.{
  gb_control_connected-outcome, gb_control_disconnected-outcome, IsTarget, Outcome,
}

Outcome-Handled :
    {req : Message} {cport status : ℕ} {made : List CoreCall} {r : Option (Effects CoreCall)}
    → Outcome req cport status made r
    → Handled req cport r
Outcome-Handled {status = status} (es, runs, answers, _) = record {
  status = status;
  payload = [];
  effects = es;
  runs = runs;
  answers = answers;
}

payload-IsTarget : (req : Message) → 2 ≤ length req.payload → (target : ℕ) × IsTarget req target
payload-IsTarget req long =
    let (lo, at_0) = get_elem?-lt req.payload 0 (omega arith) in
    let (hi, at_1) = get_elem?-lt req.payload 1 long in (word16 lo hi, (lo, hi, at_0, at_1, refl))

module _ (alloc : ℕ → Option Bytes) (manifest : Bytes) (cports : Cports) (backend : Backend)
    (req : Message) (cport : ℕ) where
  disconnected-Handled :
      IsMessage req → Handled req cport (gb_control_disconnected cports backend cport req)
  unfolding gb_control_disconnected
  disconnected-Handled m = elim (Bool-cases (ltb (gb_message_payload_len req) 2)) [
    | inl short ↦ rw (short, gb_control_disconnected) (empty-Handled req cport gb_op_invalid)
    | inr long ↦
        let enough : 2 ≤ length req.payload =
          ground (arith, long, gb_message_payload_len_lem req m) in
        let (target, named) = payload-IsTarget req enough in
        Outcome-Handled (gb_control_disconnected-outcome cports backend req cport target m named)
  ]

  module _ (memory : HasMemory alloc) (m : IsMessage req) where
    dispatch-Handled :
        (op : Operation)
        → op ≢ get_manifest
        → (op ≡ connect → 2 ≤ length req.payload)
        → Handled req cport (control_dispatch alloc manifest cports backend op req cport)
    unfolding control_dispatch gb_control_protocol_version gb_control_get_manifest_size
        gb_control_disconnecting gb_control_pm_stub
    dispatch-Handled version other readable =
        success-Handled alloc req (0 ∷ 1 ∷ []) cport memory (omega arith)
    dispatch-Handled get_manifest_size other readable =
        success-Handled alloc req (le16 (length manifest)) cport memory (omega arith)
    dispatch-Handled get_manifest other readable = absurd (other refl)
    dispatch-Handled connect other readable =
        let (target, named) = payload-IsTarget req (readable refl) in
        Outcome-Handled (gb_control_connected-outcome cports backend req cport target m named)
    dispatch-Handled disconnect other readable = disconnected-Handled m
    dispatch-Handled disconnecting other readable = empty-Handled req cport gb_op_success
    dispatch-Handled pm_stub other readable =
        success-Handled alloc req (0 ∷ []) cport memory (omega arith)
    dispatch-Handled timesync other readable = empty-Handled req cport gb_op_success

    handler-cases :
        (o : Option Operation)
        → operation_of req.header.type ≡ o
        → req.header.type ≢ 0x04
        → (req.header.type ≡ 0x05 → 2 ≤ length req.payload)
        → Handled req cport (gb_control_handler alloc manifest cports backend req cport)
    unfolding gb_control_handler operation_of
    handler-cases none e other readable =
        rw (e, gb_control_handler) (empty-Handled req cport gb_op_invalid)
    handler-cases (some op) e other readable =
        rw (e, gb_control_handler)
          (dispatch-Handled op (λ is. other (ground (arith, e, is)))
            (λ is. readable (ground (arith, e, is))))

    -- With memory, a manifest that fits a message, and a well-formed request: the control
    -- handler runs to its end, answers the request once and frees it once, for every type but
    -- get_manifest; a connected request is taken to have its two bytes.
    pub gb_control_handler-Handled :
        req.header.type ≢ 0x04
        → (req.header.type ≡ 0x05 → 2 ≤ length req.payload)
        → Handled req cport (gb_control_handler alloc manifest cports backend req cport)
    gb_control_handler-Handled = handler-cases (operation_of req.header.type) refl

  -- With memory, the manifest is sent, and only the reply is freed.
  get_manifest_lem :
      (block : Bytes)
      → header_size + length manifest < 2 ^ 16
      → alloc (header_size + length manifest) ≡ some block
      → length block ≡ header_size + length manifest
      → gb_control_get_manifest alloc manifest cport req
        ≡ some (send cport (reply block req manifest gb_op_success) ∷ dealloc response ∷ [])
  unfolding gb_control_get_manifest gb_message_alloc
  get_manifest_lem block fits found sized =
      let small : (header_size + length manifest) % size_mod ≡ header_size + length manifest =
        omega arith in
      let short : (header_size + length manifest) % 2 ^ 16 ≡ header_size + length manifest =
        omega arith in
      let rest : drop (length manifest) (drop header_size block) ≡ [] =
        drop_all (length manifest) (drop header_size block) (omega (arith, length-drop 8 block)) in
      rw (small, found, gb_control_get_manifest, gb_message_alloc) (rw (short, rest, append-nil))

  manifest_type : req.header.type ≡ 0x04 → operation_of req.header.type ≡ some get_manifest
  unfolding operation_of
  manifest_type is = rw is refl

  -- With memory for it, a get_manifest request is answered with exactly the manifest and
  -- success, and the request is never freed.
  gb_control_handler-get_manifest :
      (block : Bytes)
      → req.header.type ≡ 0x04
      → header_size + length manifest < 2 ^ 16
      → alloc (header_size + length manifest) ≡ some block
      → length block ≡ header_size + length manifest
      → (es : Effects CoreCall) × (gb_control_handler alloc manifest cports backend req cport
          ≡ some es)
        × (sends es ≡ (cport, reply block req manifest gb_op_success) ∷ [])
        × (request_frees es ≡ 0)
  unfolding gb_control_handler control_dispatch
  gb_control_handler-get_manifest block is fits found sized = (
    send cport (reply block req manifest gb_op_success) ∷ dealloc response ∷ [],
    rw (manifest_type is, gb_control_handler, control_dispatch)
        (get_manifest_lem block fits found sized),
    refl,
    refl,
  )
