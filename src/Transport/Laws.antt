-- ===== src/Transport/Laws.antt =====
-- greybus_transport.h: what it means that a request is answered once, and that the helpers do it.
use greybus_zephyr.Base.{
  ℕ, suc, ◌+◌, ◌^◌, ◌<◌, ◌≡◌, refl, ap, ◌⊎◌, inl, inr, Option-cases, Option, none, some, List, [],
  ◌∷◌, ◌++◌, Bytes, arith, length,
}
use greybus_zephyr.Messages.{Message, header_size, gb_response, gb_op_success}
use greybus_zephyr.Messages.Laws.{
  IsMessage, IsAllocator, HasMemory, reply, gb_message_response_alloc_from_req-some,
  gb_message_response_alloc_from_req-none,
}
use greybus_zephyr.Transport.{
  request, response, send, dealloc, device, Effects, empty_response,
  gb_transport_message_empty_response_send, gb_transport_message_response_success_send,
}

module _ {D : Type 0} where
  -- The messages sent, with their cports, in order.
  abbrev pub sends : Effects D → List (ℕ × Message)
  sends [] = []
  sends (send cport msg ∷ es) = (cport, msg) ∷ sends es
  sends (dealloc _ ∷ es) = sends es
  sends (device _ ∷ es) = sends es

  -- How often the request is freed.
  abbrev pub request_frees : Effects D → ℕ
  request_frees [] = 0
  request_frees (dealloc request ∷ es) = suc (request_frees es)
  request_frees (dealloc response ∷ es) = request_frees es
  request_frees (send _ _ ∷ es) = request_frees es
  request_frees (device _ ∷ es) = request_frees es

  -- The driver calls made, in order.
  abbrev pub calls : Effects D → List D
  calls [] = []
  calls (device d ∷ es) = d ∷ calls es
  calls (dealloc _ ∷ es) = calls es
  calls (send _ _ ∷ es) = calls es

  -- One message is sent, it is the response to the request on its cport, and the request is freed once.
  pub record Answers (req : Message) (cport status : ℕ) (payload : Bytes) (es : Effects D)
      : Type 0 where
    pub answer : Message
    pub sent : sends es ≡ (cport, answer) ∷ []
    pub type_is : answer.header.type ≡ gb_response req.header.type
    pub id_is : answer.header.operation_id ≡ req.header.operation_id
    pub result_is : answer.header.result ≡ status
    pub payload_is : answer.payload ≡ payload
    pub well_formed : IsMessage answer
    pub freed : request_frees es ≡ 1

  pub empty_response-Answers :
      (req : Message) (status cport : ℕ)
      → Answers req cport status [] (gb_transport_message_empty_response_send req status cport)
  empty_response-Answers req status cport = record {
    answer = empty_response req status;
    sent = refl;
    type_is = refl;
    id_is = refl;
    result_is = refl;
    payload_is = refl;
    well_formed = record { size_is = omega arith; size_fits = omega arith };
    freed = refl;
  }

  pub Answers-device :
      (d : D) {req : Message} {cport status : ℕ} {payload : Bytes} {es : Effects D}
      → Answers req cport status payload es
      → Answers req cport status payload (device d ∷ es)
  Answers-device d a = record {
    answer = a.answer;
    sent = a.sent;
    type_is = a.type_is;
    id_is = a.id_is;
    result_is = a.result_is;
    payload_is = a.payload_is;
    well_formed = a.well_formed;
    freed = a.freed;
  }

  -- Effects that are driver calls only.
  abbrev pub OnlyCalls : Effects D → Type 0
  OnlyCalls [] = Unit
  OnlyCalls (device d ∷ es) = OnlyCalls es
  OnlyCalls (send _ _ ∷ es) = ⊥
  OnlyCalls (dealloc _ ∷ es) = ⊥

  pub OnlyCalls-append :
      (ds : Effects D) (es : Effects D) → OnlyCalls ds → OnlyCalls es → OnlyCalls (ds ++ es)
  OnlyCalls-append [] es h k = k
  OnlyCalls-append (device d ∷ ds) es h k = OnlyCalls-append ds es h k
  OnlyCalls-append (send _ _ ∷ ds) es h k = absurd h
  OnlyCalls-append (dealloc _ ∷ ds) es h k = absurd h

  pub Answers-append :
      (ds : Effects D) {req : Message} {cport status : ℕ} {payload : Bytes} {es : Effects D}
      → OnlyCalls ds
      → Answers req cport status payload es
      → Answers req cport status payload (ds ++ es)
  Answers-append [] h a = a
  Answers-append (device d ∷ ds) h a = Answers-device d (Answers-append ds h a)
  Answers-append (send _ _ ∷ ds) h a = absurd h
  Answers-append (dealloc _ ∷ ds) h a = absurd h

  pub calls-append : (ds es : Effects D) → calls (ds ++ es) ≡ calls ds ++ calls es
  calls-append [] es = refl
  calls-append (device d ∷ ds) es = ap (◌∷◌ d) (calls-append ds es)
  calls-append (send _ _ ∷ ds) es = calls-append ds es
  calls-append (dealloc _ ∷ ds) es = calls-append ds es

  -- The handler runs to its end and answers the request once.
  pub record Handled (req : Message) (cport : ℕ) (r : Option (Effects D)) : Type 0 where
    pub status : ℕ
    pub payload : Bytes
    pub effects : Effects D
    pub runs : r ≡ some effects
    pub answers : Answers req cport status payload effects

  pub empty-Handled :
      (req : Message) (cport status : ℕ)
      → Handled req cport (some (gb_transport_message_empty_response_send req status cport))
  empty-Handled req cport status = record {
    status = status;
    payload = [];
    effects = gb_transport_message_empty_response_send req status cport;
    runs = refl;
    answers = empty_response-Answers req status cport;
  }

  module _ (alloc : ℕ → Option Bytes) (req : Message) (payload : Bytes) (cport : ℕ) where
    -- With memory for the reply, it is sent.
    pub success_send-some :
        (block : Bytes)
        → header_size + length payload < 2 ^ 16
        → alloc (header_size + length payload) ≡ some block
        → length block ≡ header_size + length payload
        → (es : Effects D) × (gb_transport_message_response_success_send alloc req payload cport
            ≡ some es)
          × Answers req cport gb_op_success payload es
          × (calls es ≡ [])
    unfolding gb_transport_message_response_success_send
    success_send-some block fits found sized = (
      send cport (reply block req payload gb_op_success) ∷ dealloc request ∷ dealloc response ∷ [],
      rw (
          gb_message_response_alloc_from_req-some alloc payload req gb_op_success block fits found
            sized),
      record {
        answer = reply block req payload gb_op_success;
        sent = refl;
        type_is = refl;
        id_is = refl;
        result_is = refl;
        payload_is = refl;
        well_formed = record { size_is = refl; size_fits = fits };
        freed = refl;
      },
      refl,
    )

    -- Without memory for it, the payload is copied to NULL.
    pub success_send-none :
        header_size + length payload < 2 ^ 16
        → alloc (header_size + length payload) ≡ none
        → gb_transport_message_response_success_send {D = D} alloc req payload cport ≡ none
    unfolding gb_transport_message_response_success_send
    success_send-none fits null =
        rw (gb_message_response_alloc_from_req-none alloc payload req gb_op_success fits null)

    pub success-Handled :
        HasMemory alloc
        → header_size + length payload < 2 ^ 16
        → Handled req cport (gb_transport_message_response_success_send alloc req payload cport)
    success-Handled memory fits =
        let (block, found, sized) = memory.blocks (header_size + length payload) in
        let (es, runs, answers, _) = success_send-some block fits found sized in
        record {
          status = gb_op_success;
          payload = payload;
          effects = es;
          runs = runs;
          answers = answers;
        }

    -- For a payload that fits a message: if the reply can be allocated, the request is
    -- answered once with it and freed once; if not, the reply's bytes are copied to NULL.
    success_send-cases :
        IsAllocator alloc
        → header_size + length payload < 2 ^ 16
        → ((es : Effects D) × (gb_transport_message_response_success_send alloc req payload cport
              ≡ some es)
            × Answers req cport gb_op_success payload es
            × (calls es ≡ []))
          ⊎ ((alloc (header_size + length payload) ≡ none)
              × (gb_transport_message_response_success_send {D = D} alloc req payload cport ≡ none))
    success_send-cases allocator fits = elim (Option-cases (alloc (header_size + length payload))) [
      | inl null ↦ inr (null, success_send-none fits null)
      | inr (block, found) ↦
          inl (success_send-some block fits found (allocator.block_size _ block found))
    ]
