-- ===== src/I2cTarget/Events.antt =====
-- transport/i2c.c: what the controller writes, byte by byte, with its stops in between.
use greybus_zephyr.Base.{
  ℕ, suc, ◌≤◌, ◌<◌, ◌≡◌, ◌∙◌, refl, sym, ap, Bool-cases, inl, inr, Option, some, List, [], ◌∷◌,
  ◌++◌, Bytes, arith, ltb, ltb→lt, take, drop, length, append-nil, append_assoc, pos, ◌>>=◌, IfSome,
  take-append-drop, length-take,
}
use greybus_zephyr.Messages.{Message}
use greybus_zephyr.Messages.Laws.{HasMemory}
use greybus_zephyr.Messages.Wire.{wire_bytes, all_bytes, IsSendable, AllSendable}
use greybus_zephyr.I2cTarget.{
  RingBuf, IsRingBuf, process_loop, gb_msg_process_cb, i2c_target_write_received_cb,
  i2c_target_stop_cb,
}
use greybus_zephyr.I2cTarget.Reassembly.{process_loop_lem, gb_msg_rx_take-part, not-Waiting}

-- A byte that the controller writes, and its stop.
pub data BusEvent : Type 0 where
  writes : ℕ → BusEvent
  stops : BusEvent

abbrev pub written : List BusEvent → Bytes
written [] = []
written (writes b ∷ es) = b ∷ written es
written (stops ∷ es) = written es

module _ {R : Type 0} (ring : RingBuf R) (alloc : ℕ → Option Bytes) where
  -- The callbacks of a sequence of events, and the messages handed on, oldest first.
  pub serve : List BusEvent → R → Option (List (ℕ × Message) × R)
  serve [] r = some ([], r)
  serve (writes b ∷ es) r = serve es (i2c_target_write_received_cb ring r b).1
  serve (stops ∷ es) r =
      i2c_target_stop_cb ring alloc r >>= λ d. serve es d.1 >>= λ rest. some (d.0 ++ rest.0, rest.1)

  -- No byte finds the buffer full.
  abbrev pub NoneDropped : List BusEvent → R → Type 0
  NoneDropped [] r = Unit
  NoneDropped (writes b ∷ es) r =
      (i2c_target_write_received_cb ring r b).0 ≡ pos 0
      × NoneDropped es (i2c_target_write_received_cb ring r b).1
  NoneDropped (stops ∷ es) r = IfSome (λ d. NoneDropped es d.1) (i2c_target_stop_cb ring alloc r)

module _ {R : Type 0} (ring : RingBuf R) (contents : R → Bytes) (capacity : ℕ)
    (k : IsRingBuf ring contents capacity) (alloc : ℕ → Option Bytes) where
  stored :
      (r : R) (b : ℕ)
      → (i2c_target_write_received_cb ring r b).0 ≡ pos 0
      → contents (i2c_target_write_received_cb ring r b).1 ≡ contents r ++ b ∷ []
  unfolding i2c_target_write_received_cb
  stored r b e = elim (Bool-cases (ltb (length (contents r)) capacity)) [
    | inl room ↦
        let (yes_put, now) = k.put_room r b (ltb→lt _ _ room) in
        rw (yes_put, i2c_target_write_received_cb) now
    | inr full ↦
        let (no_put, _) = k.put_full r b (ground (arith, full)) in
        absurd (cc (rw (no_put, i2c_target_write_received_cb) at e))
  ]

  serve_lem :
      HasMemory alloc
      → (es : List BusEvent) (ms : List (ℕ × Message)) (r : R) → AllSendable ms
      → contents r ++ written es ≡ all_bytes ms
      → NoneDropped ring alloc es r
      → (r' : R) × (serve ring alloc (es ++ stops ∷ []) r ≡ some (ms, r')) × (contents r' ≡ [])
  unfolding serve i2c_target_stop_cb gb_msg_process_cb
  serve_lem memory [] ms r h e ok =
      let (done, todo, r', runs, split, after, waits, _) =
        process_loop_lem ring contents capacity k alloc memory ms (suc (ring.size_get r)) [] r h
          (omega (arith, k.size_is r)) e in
      let (nothing_left, all_done) =
        not-Waiting todo (contents r') (sym (append-nil (contents r')) ∙ after) waits in
      (
        r',
        rw runs (ap (λ l. some (l, r')) (sym (split ∙ ap (λ t. done ++ t) nothing_left))),
        all_done,
      )
  serve_lem memory (writes b ∷ es) ms r h e (ok, oks) =
      serve_lem memory es ms (i2c_target_write_received_cb ring r b).1 h
        (rw (stored r b ok) (append_assoc (contents r) (b ∷ []) (written es) ∙ e)) oks
  serve_lem memory (stops ∷ es) ms r h e ok =
      let (done, todo, r1, runs, split, after, _, hs) =
        process_loop_lem ring contents capacity k alloc memory ms (suc (ring.size_get r))
          (written es) r h (omega (arith, k.size_is r)) e in
      let ok0 : IfSome (λ (d : List (ℕ × Message) × R). NoneDropped ring alloc es d.1)
          (process_loop ring alloc (suc (ring.size_get r)) r) =
        ok in
      let ok' : NoneDropped ring alloc es r1 = rw runs at ok0 in
      let (r2, runs2, empty) = serve_lem memory es todo r1 hs after ok' in
      (r2, rw runs (rw runs2 (ap (λ l. some (l, r2)) (sym split))), empty)

  -- With memory, and from an empty ring buffer that no byte finds full: if the bytes that the
  -- controller writes are the wire form of well-formed messages, then wherever its stops fall
  -- in between, with one at the end, exactly these messages are handed on, in order, and the
  -- ring buffer is empty again.
  pub serve-messages :
      HasMemory alloc
      → (es : List BusEvent) (ms : List (ℕ × Message)) (r : R) → AllSendable ms
      → contents r ≡ []
      → written es ≡ all_bytes ms
      → NoneDropped ring alloc es r
      → (r' : R) × (serve ring alloc (es ++ stops ∷ []) r ≡ some (ms, r')) × (contents r' ≡ [])
  serve-messages memory es ms r h empty e ok =
      serve_lem memory es ms r h (ap (λ c. c ++ written es) empty ∙ e) ok

  -- If the ring buffer is full of the beginning of a well-formed message that is longer than
  -- its capacity, then whatever the controller writes and however often it stops, no message is
  -- handed on any more and the buffer stays as it is.
  pub serve-stuck :
      (es : List BusEvent) (m : ℕ × Message) (r : R)
      → IsSendable m
      → capacity < length (wire_bytes m)
      → contents r ≡ take capacity (wire_bytes m)
      → (r' : R) × (serve ring alloc es r ≡ some ([], r'))
        × (contents r' ≡ take capacity (wire_bytes m))
  unfolding serve i2c_target_stop_cb gb_msg_process_cb i2c_target_write_received_cb process_loop
  serve-stuck [] m r h big e = (r, refl, e)
  serve-stuck (writes b ∷ es) m r h big e =
      let full : capacity ≤ length (contents r) =
        omega (arith, ap length e, length-take capacity (wire_bytes m)) in
      let (no_put, same) = k.put_full r b full in
      rw (no_put) (serve-stuck es m (ring.put r b).1 h big (same ∙ e))
  serve-stuck (stops ∷ es) m r h big e =
      let whole : contents r ++ drop capacity (wire_bytes m) ≡ wire_bytes m ++ [] =
        ap (λ c. c ++ drop capacity (wire_bytes m)) e
        ∙ (take-append-drop capacity (wire_bytes m) ∙ sym (append-nil (wire_bytes m))) in
      let part =
        gb_msg_rx_take-part ring contents capacity k alloc m h (drop capacity (wire_bytes m)) [] r
          whole (omega (arith, ap length e, length-take capacity (wire_bytes m), big)) in
      let (r', runs, after) = serve-stuck es m r h big e in (r', rw part (rw runs refl), after)
