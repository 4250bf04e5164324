-- ===== src/Core/Worker.antt =====
-- greybus-core.c: the receive queue between `greybus_rx_handler`, which the transport's thread calls, and
-- the worker thread. A step is one call of the handler that does not wait, or one round of the worker.
use greybus_zephyr.Base.{
  ℕ, suc, ◌*◌, ◌≤◌, ◌<◌, ◌≡◌, ◌∙◌, refl, sym, ap, inl, inr, true, none, some, [], ◌∷◌, ◌++◌, arith,
  length, length-append, append_assoc, get_elem?, ◌==◌, ltb, ltb→lt, Bool-cases, Option-cases,
}
use greybus_zephyr.Messages.{Message, gb_op_success}
use greybus_zephyr.Transport.{Effects, device, gb_transport_message_empty_response_send}
use greybus_zephyr.Core.Cports.{
  Cports, Driver, CoreCall, op_handler, Queue, accepted, dropped, queue_size, gb_process_msg,
  greybus_rx_handler,
}

-- The queue, and what was put into it and taken from it so far, oldest first.
pub record Rx : Type 0 where
  pub queue : Queue
  pub received : Queue
  pub processed : Queue

abbrev pub empty_rx : Rx
empty_rx = record { queue = []; received = []; processed = [] }

module _ (cports : Cports) where
  pub data Step : Rx → Rx → Type 0 where
    receive :
        (s : Rx) (cport : ℕ) (msg : Message) (q : Queue)
        → greybus_rx_handler cports cport msg s.queue ≡ some (accepted q)
        → Step s (record s { queue = q; received = s.received ++ (cport, msg) ∷ [] })
    refuse :
        (s : Rx) (cport : ℕ) (msg : Message) (es : Effects CoreCall)
        → greybus_rx_handler cports cport msg s.queue ≡ some (dropped es)
        → Step s s
    process :
        (s : Rx) (cport : ℕ) (msg : Message) (q : Queue) (es : Effects CoreCall)
        → s.queue ≡ (cport, msg) ∷ q
        → gb_process_msg cports msg cport ≡ some es
        → Step s (record s { queue = q; processed = s.processed ++ (cport, msg) ∷ [] })

  pub data Reach : Rx → Type 0 where
    start : Reach empty_rx
    next : {s t : Rx} → Reach s → Step s t → Reach t

  -- A cport whose driver has a handler.
  abbrev pub HasHandler : ℕ → Type 0
  HasHandler cport =
      (d : Driver) × (get_elem? cports cport ≡ some (some d)) × (d.has_op_handler ≡ true)

  abbrev AllHandled : Queue → Type 0
  AllHandled [] = Unit
  AllHandled (m ∷ q) = HasHandler m.0 × AllHandled q

  AllHandled-snoc :
      (q : Queue) (m : ℕ × Message) → AllHandled q → HasHandler m.0 → AllHandled (q ++ m ∷ [])
  AllHandled-snoc [] m h k = (k, tt)
  AllHandled-snoc (x ∷ q) m h k = (h.0, AllHandled-snoc q m h.1 k)

  -- A message of a cport with a handler is processed.
  process_msg_lem :
      (cport : ℕ) (msg : Message) (d : Driver)
      → get_elem? cports cport ≡ some (some d)
      → d.has_op_handler ≡ true
      → (es : Effects CoreCall) × (gb_process_msg cports msg cport ≡ some es)
  unfolding gb_process_msg
  process_msg_lem cport msg d found on = elim (Bool-cases (msg.header.type == 0)) [
    | inl ping ↦ (
      gb_transport_message_empty_response_send msg gb_op_success cport,
      rw (ping, gb_process_msg) refl,
    )
    | inr other ↦ (device (op_handler cport msg) ∷ [], rw (other, found, on, gb_process_msg) refl)
  ]

  record Inv (s : Rx) : Type 0 where
    bounded : length s.queue ≤ queue_size cports
    fifo : s.received ≡ s.processed ++ s.queue
    handled : AllHandled s.queue

  -- What an accepted message says of its cport and of the queue.
  accepted_lem :
      (cport : ℕ) (msg : Message) (queue q : Queue)
      → greybus_rx_handler cports cport msg queue ≡ some (accepted q)
      → HasHandler cport × (q ≡ queue ++ (cport, msg) ∷ []) × (length queue < queue_size cports)
  unfolding greybus_rx_handler
  accepted_lem cport msg queue q e = elim (Option-cases (get_elem? cports cport)) [
    | inl out ↦ absurd (cc (rw (out, greybus_rx_handler) at e))
    | inr (none, found) ↦ absurd (cc (rw (found, greybus_rx_handler) at e))
    | inr (some d, found) ↦ elim (Bool-cases d.has_op_handler) [
      | inr off ↦ absurd (cc (rw (found, off, greybus_rx_handler) at e))
      | inl on ↦ elim (Bool-cases (ltb (length queue) (queue_size cports))) [
        | inr full ↦ absurd (cc (rw (found, on, full, greybus_rx_handler) at e))
        | inl room ↦
            let put = rw (found, on, room, greybus_rx_handler) at e in
            ((d, found, on), cc put, ltb→lt _ _ room)
      ]
    ]
  ]

  Inv-Step : {s t : Rx} → Inv s → Step s t → Inv t
  Inv-Step i (receive s cport msg q e) =
      let (served, q_is, room) = accepted_lem cport msg s.queue q e in
      rw q_is (record {
        bounded = omega (arith, room, length-append s.queue ((cport, msg) ∷ []));
        fifo = ap (λ l. l ++ (cport, msg) ∷ []) i.fifo ∙ append_assoc s.processed s.queue _;
        handled = AllHandled-snoc s.queue (cport, msg) i.handled served;
      })
  Inv-Step i (refuse s cport msg es e) = i
  Inv-Step i (process s cport msg q es head e) =
      let shorter : length s.queue ≡ suc (length q) = ap length head in
      record {
        bounded = omega (arith, shorter, i.bounded);
        fifo =
            i.fifo
            ∙ ap (λ l. s.processed ++ l) head
            ∙ sym (append_assoc s.processed ((cport, msg) ∷ []) q);
        handled = (rw head at i.handled).1;
      }

  Reach-Inv : {s : Rx} → Reach s → Inv s
  Reach-Inv start = record { bounded = omega arith; fifo = refl; handled = tt }
  Reach-Inv (next r step) = Inv-Step (Reach-Inv r) step

  -- However calls of greybus_rx_handler and rounds of the worker alternate: the queue holds at
  -- most two messages per cport, messages are processed in the order in which they were
  -- received, and the message at the head of the queue can always be processed, since its cport
  -- has a driver with a handler.
  pub Reach-served :
      (s : Rx)
      → Reach s
      → (length s.queue ≤ length cports * 2)
        × (s.received ≡ s.processed ++ s.queue)
        × ((cport : ℕ) (msg : Message) (q : Queue)
            → s.queue ≡ (cport, msg) ∷ q
            → (es : Effects CoreCall) × (gb_process_msg cports msg cport ≡ some es)
              × Step s (record s { queue = q; processed = s.processed ++ (cport, msg) ∷ [] }))
  unfolding gb_process_msg
  Reach-served s r =
      let i = Reach-Inv r in
      (
        i.bounded,
        i.fifo,
        λ cport msg q head.
            let (d, found, on) = (rw head at i.handled).0 in
            let (es, runs) = process_msg_lem cport msg d found on in
            (es, runs, process s cport msg q es head runs),
      )
