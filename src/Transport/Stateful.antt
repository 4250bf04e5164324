-- ===== src/Transport/Stateful.antt =====
-- Handlers that keep a state: what they send, free and call, and the state that they leave.
use greybus_zephyr.Base.{
  ℕ, ◌+◌, ◌^◌, ◌<◌, ◌≡◌, refl, Bool, true, false, Option, none, some, [], ◌++◌, Bytes, length,
  if◌then◌else◌, ◌>>=◌,
}
use greybus_zephyr.Messages.{Message, header_size}
use greybus_zephyr.Messages.Laws.{HasMemory}
use greybus_zephyr.Transport.{
  Effects, gb_transport_message_empty_response_send, gb_transport_message_response_success_send,
}
use greybus_zephyr.Transport.Laws.{
  Answers, empty_response-Answers, OnlyCalls, Answers-append, success-Handled,
}

-- `none` is undefined behaviour.
abbrev pub Outcome : Type 0 → Type 0 → Type 0
Outcome D S = Option (Effects D × S)

module _ {D S : Type 0} where
  -- An answer without a payload, and the state that is left.
  abbrev pub refuse : Message → ℕ → ℕ → S → Outcome D S
  refuse req cport status st = some (gb_transport_message_empty_response_send req status cport, st)

  -- The calls of a handler before what follows them.
  abbrev pub after_calls : Effects D → Outcome D S → Outcome D S
  after_calls es none = none
  after_calls es (some (fs, st)) = some (es ++ fs, st)

  -- The reply of a handler that succeeds.
  unfoldable pub succeed : (ℕ → Option Bytes) → Message → ℕ → Bytes → S → Outcome D S
  succeed alloc req cport payload st =
      gb_transport_message_response_success_send alloc req payload cport >>= λ es. some (es, st)

  -- The handler runs to its end and answers the request once; `P` holds of what it leaves.
  pub record Answered (req : Message) (cport : ℕ) (P : S → Type 0) (r : Outcome D S) : Type 0 where
    pub effects : Effects D
    pub left : S
    pub status : ℕ
    pub payload : Bytes
    pub runs : r ≡ some (effects, left)
    pub answers : Answers req cport status payload effects
    pub holds : P left

  module _ (req : Message) (cport : ℕ) (P : S → Type 0) where
    pub refuse-Answered :
        (status : ℕ) (st : S) → P st → Answered req cport P (refuse req cport status st)
    refuse-Answered status st p = record {
      effects = gb_transport_message_empty_response_send req status cport;
      left = st;
      status = status;
      payload = [];
      runs = refl;
      answers = empty_response-Answers req status cport;
      holds = p;
    }

    pub after_calls-Answered :
        (es : Effects D) (r : Outcome D S)
        → OnlyCalls es
        → Answered req cport P r
        → Answered req cport P (after_calls es r)
    after_calls-Answered es r only a = record {
      effects = es ++ a.effects;
      left = a.left;
      status = a.status;
      payload = a.payload;
      runs = rw a.runs refl;
      answers = Answers-append es only a.answers;
      holds = a.holds;
    }

    pub branch-Answered :
        (b : Bool) {x y : Outcome D S}
        → (b ≡ true → Answered req cport P x)
        → (b ≡ false → Answered req cport P y)
        → Answered req cport P (if b then x else y)
    branch-Answered true h k = h refl
    branch-Answered false h k = k refl

    pub succeed-Answered :
        (alloc : ℕ → Option Bytes) (payload : Bytes) (st : S)
        → HasMemory alloc
        → header_size + length payload < 2 ^ 16
        → P st
        → Answered req cport P (succeed alloc req cport payload st)
    unfolding succeed
    succeed-Answered alloc payload st memory fits p =
        let h = success-Handled {D = D} alloc req payload cport memory fits in
        record {
          effects = h.effects;
          left = st;
          status = h.status;
          payload = h.payload;
          runs = rw h.runs refl;
          answers = h.answers;
          holds = p;
        }
