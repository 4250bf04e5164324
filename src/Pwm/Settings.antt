-- ===== src/Pwm/Settings.antt =====
-- pwm-protocol.c: what the protocol promises, stated on the settings of the generators alone.
use greybus_zephyr.Base.{
  ℕ, ◌+◌, ◌%◌, ◌^◌, ◌<◌, ◌≡◌, Bool, false, some, List, [], ◌∷◌, ◌++◌, Bytes, ltb, ◌==◌,
  if◌then◌else◌, get_elem?, length, le32, ℤ,
}
use greybus_zephyr.Core.{gb_errno_to_op_result}
use greybus_zephyr.Messages.{Message, gb_op_success, gb_op_invalid}
use greybus_zephyr.Pwm.{
  Channel, Pwm, PwmCall, pwm_set, type_pwm_count, type_activate, type_deactivate, type_config,
  type_polarity, type_enable, type_disable,
}

-- The requests of the protocol; a generator is named by its number.
pub data Command : Type 0 where
  count : Command
  activate deactivate enable disable : ℕ → Command
  configure : ℕ → ℕ → ℕ → Command
  polarise : ℕ → Bool → Command

abbrev pub type_of : Command → ℕ
type_of count = type_pwm_count
type_of (activate _) = type_activate
type_of (deactivate _) = type_deactivate
type_of (configure _ _ _) = type_config
type_of (polarise _ _) = type_polarity
type_of (enable _) = type_enable
type_of (disable _) = type_disable

abbrev pub payload_of : Command → Bytes
payload_of count = []
payload_of (activate which) = which ∷ []
payload_of (deactivate which) = which ∷ []
payload_of (configure which duty period) = which ∷ le32 duty ++ le32 period
payload_of (polarise which inverted) = which ∷ (if inverted then 1 else 0) ∷ []
payload_of (enable which) = which ∷ []
payload_of (disable which) = which ∷ []

-- The fields of a request fit their widths.
abbrev pub Fits : Command → Type 0
Fits (configure _ duty period) = (duty < 2 ^ 32) × (period < 2 ^ 32)
Fits _ = Unit

-- The message of a request.
pub record IsRequest (c : Command) (req : Message) : Type 0 where
  pub type_is : req.header.type ≡ type_of c
  pub payload_is : req.payload ≡ payload_of c
  pub fits : Fits c

-- The settings that a request leaves: the duty and the period, or the polarity, of one generator.
abbrev pub after : Command → (ℕ → Channel) → ℕ → Channel
after (configure which duty period) s v =
    if v == which then record (s which) { duty = duty; period = period } else s v
after (polarise which inverted) s v =
    if v == which then record (s which) { polarity = inverted } else s v
after _ s v = s v

-- The driver calls of a request, with `n` generators: enabling one starts it with its settings, and
-- disabling it gives it a pulse of no length.
abbrev pub calls_of : ℕ → (ℕ → Channel) → Command → List PwmCall
calls_of n s (enable which) =
    if ltb which n
    then pwm_set which (s which).period (s which).duty (s which).polarity ∷ []
    else []
calls_of n s (disable which) =
    if ltb which n then pwm_set which (s which).period 0 false ∷ [] else []
calls_of n s _ = []

-- The status of the answer.
abbrev pub status_of : (PwmCall → ℤ) → ℕ → (ℕ → Channel) → Command → ℕ
status_of dev n s count = gb_op_success
status_of dev n s (activate _) = gb_op_success
status_of dev n s (deactivate _) = gb_op_success
status_of dev n s (configure which _ _) = if ltb which n then gb_op_success else gb_op_invalid
status_of dev n s (polarise which _) = if ltb which n then gb_op_success else gb_op_invalid
status_of dev n s (enable which) =
    if ltb which n
    then gb_errno_to_op_result
        (dev (pwm_set which (s which).period (s which).duty (s which).polarity))
    else gb_op_invalid
status_of dev n s (disable which) =
    if ltb which n
    then gb_errno_to_op_result (dev (pwm_set which (s which).period 0 false))
    else gb_op_invalid

-- The payload of the answer: for a count, one less than the number of generators.
abbrev pub reply_of : ℕ → Command → Bytes
reply_of n count = (n + 255) % 256 ∷ []
reply_of n _ = []

-- The driver data holds these settings.
pub record Holds (pwm : Pwm) (s : ℕ → Channel) : Type 0 where
  pub size : length pwm.channel_data ≡ pwm.channel_num
  pub settings : (v : ℕ) → v < pwm.channel_num → get_elem? pwm.channel_data v ≡ some (s v)

-- The calls of a list of requests, one after another.
abbrev pub all_calls : ℕ → (ℕ → Channel) → List Command → List PwmCall
all_calls n s [] = []
all_calls n s (c ∷ cs) = calls_of n s c ++ all_calls n (after c s) cs

-- A list of messages with these requests.
abbrev pub AllRequests : List Command → List Message → Type 0
AllRequests [] [] = Unit
AllRequests (c ∷ cs) (req ∷ reqs) = IsRequest c req × AllRequests cs reqs
AllRequests _ _ = ⊥
