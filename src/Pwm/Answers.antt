-- ===== src/Pwm/Answers.antt =====
-- pwm-protocol.c: the handlers keep what Pwm/Settings.antt states.
use greybus_zephyr.Base.{
  ℕ, ◌+◌, ◌*◌, ◌%◌, ◌/◌, ◌^◌, ◌<◌, ◌≡◌, ◌≢◌, ◌∙◌, refl, inl, inr, Bool, true, false, Bool-cases,
  Option, some, [], ◌∷◌, Bytes, arith, ltb, ltb→lt, leb, ◌==◌, if◌then◌else◌, get_elem?,
  get_elem?-set_self, get_elem?-set_ne, length, length-set, ℤ,
}
use greybus_zephyr.Core.{gb_errno_to_op_result}
use greybus_zephyr.Messages.{Message, header_size, gb_message_type, gb_op_success, gb_op_invalid}
use greybus_zephyr.Messages.Laws.{HasMemory}
use greybus_zephyr.Transport.{Effects}
use greybus_zephyr.Transport.Laws.{
  calls, Answers, empty_response-Answers, Answers-device, success_send-some,
}
use greybus_zephyr.Pwm.{
  Channel, Pwm, PwmCall, pwm_set, Reaction, answer, pwm_guard, with_channel, gb_pwm_protocol_count,
  gb_pwm_protocol_config, gb_pwm_protocol_polarity, reply_call, gb_pwm_protocol_enable,
  gb_pwm_protocol_disable, gb_pwm_handler,
}
use greybus_zephyr.Pwm.Settings.{
  Command, count, activate, deactivate, enable, disable, configure, polarise, type_of, IsRequest,
  after, calls_of, status_of, reply_of, Holds,
}

-- The handler runs to its end and does what the command promises.
pub record Done (dev : PwmCall → ℤ) (req : Message) (cport : ℕ) (pwm : Pwm) (s : ℕ → Channel)
    (c : Command) (r : Reaction) : Type 0 where
  pub effects : Effects PwmCall
  pub left : Pwm
  pub runs : r ≡ some (effects, left)
  pub answers :
      Answers req cport (status_of dev pwm.channel_num s c) (reply_of pwm.channel_num c) effects
  pub called : calls effects ≡ calls_of pwm.channel_num s c
  pub kept : left.channel_num ≡ pwm.channel_num
  pub holds : Holds left (after c s)

-- Writing the settings of one generator.
with_channel-Holds :
    (pwm : Pwm) (s : ℕ → Channel) (which : ℕ) (chan : Channel)
    → which < pwm.channel_num
    → Holds pwm s
    → Holds (with_channel pwm which chan) (λ v. if v == which then chan else s v)
with_channel-Holds pwm s which chan lt h = record {
  size = length-set pwm.channel_data which chan ∙ h.size;
  settings = λ v k. elim (Bool-cases (v == which)) [
    | inl same ↦
        let e : v ≡ which = ground (arith, same) in
        rw (same, e) (get_elem?-set_self pwm.channel_data which chan (omega (arith, lt, h.size)))
    | inr other ↦
        let ne : which ≢ v = λ e. ground (arith, other, e) in
        rw other (get_elem?-set_ne pwm.channel_data chan ne ∙ h.settings v k)
  ];
}

-- The guard lets a generator through that there is, with its settings.
pwm_guard-in :
    (cport : ℕ) (req : Message) (pwm : Pwm) (s : ℕ → Channel) (which : ℕ)
    (act : ℕ → Channel → Reaction)
    → get_elem? req.payload 0 ≡ some which
    → Holds pwm s
    → ltb which pwm.channel_num ≡ true
    → pwm_guard cport req pwm act ≡ act which (s which)
unfolding pwm_guard
pwm_guard-in cport req pwm s which act e h lt =
    let low : leb pwm.channel_num which ≡ false = ground (arith, lt) in
    rw (e, low, h.settings which (ltb→lt _ _ lt)) refl

pwm_guard-out :
    (cport : ℕ) (req : Message) (pwm : Pwm) (which : ℕ) (act : ℕ → Channel → Reaction)
    → get_elem? req.payload 0 ≡ some which
    → ltb which pwm.channel_num ≡ false
    → pwm_guard cport req pwm act ≡ some (answer req cport pwm gb_op_invalid)
unfolding pwm_guard
pwm_guard-out cport req pwm which act e out =
    let high : leb pwm.channel_num which ≡ true = ground (arith, out) in rw (e, high) refl

-- A uint32_t is read as it was laid out.
word32_at-le32 :
    (x : ℕ)
    → x < 2 ^ 32
    → x % 256 + x / 256 % 256 * 2 ^ 8 + x / 2 ^ 16 % 256 * 2 ^ 16 + x / 2 ^ 24 % 256 * 2 ^ 24 ≡ x
word32_at-le32 x h = omega arith

-- Settings of a generator that there is not are none.
out-Holds :
    (pwm : Pwm) (s : ℕ → Channel) (which : ℕ) (chan : Channel)
    → ltb which pwm.channel_num ≡ false
    → Holds pwm s
    → Holds pwm (λ v. if v == which then chan else s v)
out-Holds pwm s which chan out h = record {
  size = h.size;
  settings =
      λ v k. let other : (v == which) ≡ false = ground (arith, k, out) in rw other (h.settings v k);
}

type-IsRequest : {c : Command} {req : Message} → IsRequest c req → gb_message_type req ≡ type_of c
unfolding gb_message_type
type-IsRequest i = i.type_is

bit_is : (b : Bool) → ((if b then 1 else 0) == 1) ≡ b
bit_is true = refl
bit_is false = refl

module _ (dev : PwmCall → ℤ) (req : Message) (cport : ℕ) (pwm : Pwm) (s : ℕ → Channel)
    (h : Holds pwm s) where
  -- An answer without a driver call, which may write settings.
  answer-Done :
      (c : Command) (left : Pwm) (status : ℕ) {r : Reaction}
      → r ≡ some (answer req cport left status)
      → status_of dev pwm.channel_num s c ≡ status
      → reply_of pwm.channel_num c ≡ []
      → calls_of pwm.channel_num s c ≡ []
      → left.channel_num ≡ pwm.channel_num
      → Holds left (after c s)
      → Done dev req cport pwm s c r
  answer-Done c left status runs e k none_called kept holds = record {
    effects = (answer req cport left status).0;
    left = left;
    runs = runs;
    answers = rw (e, k) (empty_response-Answers req status cport);
    called = rw none_called refl;
    kept = kept;
    holds = holds;
  }

  -- A driver call, and the answer with its result.
  call-Done :
      (c : Command) (call : PwmCall) {r : Reaction}
      → r ≡ some (reply_call dev cport req pwm call)
      → status_of dev pwm.channel_num s c ≡ gb_errno_to_op_result (dev call)
      → reply_of pwm.channel_num c ≡ []
      → calls_of pwm.channel_num s c ≡ call ∷ []
      → Holds pwm (after c s)
      → Done dev req cport pwm s c r
  call-Done c call runs e k called holds = record {
    effects = (reply_call dev cport req pwm call).0;
    left = pwm;
    runs = runs;
    answers = rw (e, k) (Answers-device call (empty_response-Answers req _ cport));
    called = rw called refl;
    kept = refl;
    holds = holds;
  }

  config-Done :
      (which duty period : ℕ)
      → IsRequest (configure which duty period) req
      → Done dev req cport pwm s
          (configure which duty period)
          (gb_pwm_protocol_config cport req pwm)
  unfolding gb_pwm_protocol_config
  config-Done which duty period i =
      let first : get_elem? req.payload 0 ≡ some which = rw i.payload_is refl in
      let (d, p) = i.fits in
      elim (Bool-cases (ltb which pwm.channel_num)) [
        | inl lt ↦
            answer-Done (configure which duty period)
              (with_channel pwm which (record (s which) { duty = duty; period = period }))
              gb_op_success
              (pwm_guard-in cport req pwm s which _ first h lt
                ∙ (rw (i.payload_is, word32_at-le32 duty d, word32_at-le32 period p) refl))
              (rw lt refl) refl refl refl (with_channel-Holds pwm s which _ (ltb→lt _ _ lt) h)
        | inr out ↦
            answer-Done (configure which duty period) pwm gb_op_invalid
              (pwm_guard-out cport req pwm which _ first out) (rw out refl) refl refl refl
              (out-Holds pwm s which _ out h)
      ]

  polarity-Done :
      (which : ℕ) (inverted : Bool)
      → IsRequest (polarise which inverted) req
      → Done dev req cport pwm s (polarise which inverted) (gb_pwm_protocol_polarity cport req pwm)
  unfolding gb_pwm_protocol_polarity
  polarity-Done which inverted i =
      let first : get_elem? req.payload 0 ≡ some which = rw i.payload_is refl in
      let sign : ((if inverted then 1 else 0) == 1) ≡ inverted = bit_is inverted in
      elim (Bool-cases (ltb which pwm.channel_num)) [
        | inl lt ↦
            answer-Done (polarise which inverted)
              (with_channel pwm which (record (s which) { polarity = inverted })) gb_op_success
              (pwm_guard-in cport req pwm s which _ first h lt ∙ (rw (i.payload_is, sign) refl))
              (rw lt refl) refl refl refl (with_channel-Holds pwm s which _ (ltb→lt _ _ lt) h)
        | inr out ↦
            answer-Done (polarise which inverted) pwm gb_op_invalid
              (pwm_guard-out cport req pwm which _ first out) (rw out refl) refl refl refl
              (out-Holds pwm s which _ out h)
      ]

  enable-Done :
      (which : ℕ)
      → IsRequest (enable which) req
      → Done dev req cport pwm s (enable which) (gb_pwm_protocol_enable dev cport req pwm)
  unfolding gb_pwm_protocol_enable
  enable-Done which i =
      let first : get_elem? req.payload 0 ≡ some which = rw i.payload_is refl in
      elim (Bool-cases (ltb which pwm.channel_num)) [
        | inl lt ↦
            call-Done (enable which)
              (pwm_set which (s which).period (s which).duty (s which).polarity)
              (pwm_guard-in cport req pwm s which _ first h lt) (rw lt refl) refl (rw lt refl) h
        | inr out ↦
            answer-Done (enable which) pwm gb_op_invalid
              (pwm_guard-out cport req pwm which _ first out) (rw out refl) refl (rw out refl) refl
              h
      ]

  disable-Done :
      (which : ℕ)
      → IsRequest (disable which) req
      → Done dev req cport pwm s (disable which) (gb_pwm_protocol_disable dev cport req pwm)
  unfolding gb_pwm_protocol_disable
  disable-Done which i =
      let first : get_elem? req.payload 0 ≡ some which = rw i.payload_is refl in
      elim (Bool-cases (ltb which pwm.channel_num)) [
        | inl lt ↦
            call-Done (disable which) (pwm_set which (s which).period 0 false)
              (pwm_guard-in cport req pwm s which _ first h lt) (rw lt refl) refl (rw lt refl) h
        | inr out ↦
            answer-Done (disable which) pwm gb_op_invalid
              (pwm_guard-out cport req pwm which _ first out) (rw out refl) refl (rw out refl) refl
              h
      ]

  count-Done :
      (alloc : ℕ → Option Bytes)
      → HasMemory alloc
      → Done dev req cport pwm s count (gb_pwm_protocol_count alloc cport req pwm)
  unfolding gb_pwm_protocol_count
  count-Done alloc memory =
      let reply = (pwm.channel_num + 255) % 256 ∷ [] in
      let (block, found, sized) = memory.blocks (header_size + length reply) in
      let (es, runs, answers, none_called) =
        success_send-some {D = PwmCall} alloc req reply cport block (omega arith) found sized in
      record {
        effects = es;
        left = pwm;
        runs = rw runs refl;
        answers = answers;
        called = none_called;
        kept = refl;
        holds = h;
      }

  -- Each command of the settings model, by the case of the handler that its request leads to.
  pub gb_pwm_handler-Done :
      (alloc : ℕ → Option Bytes)
      → HasMemory alloc
      → (c : Command) → IsRequest c req
      → Done dev req cport pwm s c (gb_pwm_handler dev alloc req cport pwm)
  unfolding gb_pwm_handler
  gb_pwm_handler-Done alloc memory count i = rw (type-IsRequest i) (count-Done alloc memory)
  gb_pwm_handler-Done alloc memory (activate which) i =
      answer-Done (activate which) pwm gb_op_success (rw (type-IsRequest i) refl) refl refl refl
        refl h
  gb_pwm_handler-Done alloc memory (deactivate which) i =
      answer-Done (deactivate which) pwm gb_op_success (rw (type-IsRequest i) refl) refl refl refl
        refl h
  gb_pwm_handler-Done alloc memory (configure which duty period) i =
      rw (type-IsRequest i) (config-Done which duty period i)
  gb_pwm_handler-Done alloc memory (polarise which inverted) i =
      rw (type-IsRequest i) (polarity-Done which inverted i)
  gb_pwm_handler-Done alloc memory (enable which) i = rw (type-IsRequest i) (enable-Done which i)
  gb_pwm_handler-Done alloc memory (disable which) i = rw (type-IsRequest i) (disable-Done which i)
