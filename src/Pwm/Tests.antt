-- ===== src/Pwm/Tests.antt =====
-- Two generators: the second is configured, inverted and enabled, and a third that is not there is enabled.
use greybus_zephyr.Base.{
  ℕ, ◌≡◌, refl, true, false, some, List, [], ◌∷◌, arith, ℤ, pos, zero, suc, ◌<◌, get_elem?,
}
use greybus_zephyr.Messages.{Message}
use greybus_zephyr.Samples.{zeroed, zeroed-HasMemory, message}
use greybus_zephyr.Transport.{Effects}
use greybus_zephyr.Transport.Laws.{calls}
use greybus_zephyr.Pwm.{Channel, Pwm, PwmCall, pwm_set, gb_pwm_handler}
use greybus_zephyr.Pwm.Settings.{Command, configure, polarise, enable, payload_of, type_of, Holds}
use greybus_zephyr.Pwm.Answers.{Done, gb_pwm_handler-Done}
use greybus_zephyr.Pwm.Sessions.{serve, serve-all_calls}

abbrev dev : PwmCall → ℤ
dev call = pos 0

abbrev resting : Channel
resting = record { duty = 0; period = 0; polarity = false }

abbrev pwm : Pwm
pwm = record { channel_data = resting ∷ resting ∷ []; channel_num = 2 }

all_resting : (v : ℕ) → v < 2 → get_elem? pwm.channel_data v ≡ some resting
all_resting zero h = refl
all_resting (suc zero) h = refl
all_resting (suc (suc v)) h = absurd (omega arith)

pwm-Holds : Holds pwm (λ v. resting)
pwm-Holds = record { size = refl; settings = all_resting }

abbrev commands : List Command
commands = configure 1 500 2000 ∷ polarise 1 true ∷ enable 1 ∷ enable 2 ∷ []

abbrev request : Command → Message
request c = message (type_of c) (payload_of c)

gb_pwm_handler-Done_example :
    Done dev
      (request (configure 1 500 2000))
      4
      pwm
      (λ v. resting)
      (configure 1 500 2000)
      (gb_pwm_handler dev zeroed (request (configure 1 500 2000)) 4 pwm)
gb_pwm_handler-Done_example =
    gb_pwm_handler-Done dev (request (configure 1 500 2000)) 4 pwm (λ v. resting) pwm-Holds zeroed
      zeroed-HasMemory (configure 1 500 2000)
      (record { type_is = refl; payload_is = refl; fits = (omega arith, omega arith) })

serve-all_calls_example :
    (es : Effects PwmCall) × (pwm' : Pwm) × (serve dev zeroed 4
        (request (configure 1 500 2000)
          ∷ request (polarise 1 true)
          ∷ request (enable 1)
          ∷ request (enable 2)
          ∷ [])
        pwm
      ≡ some (es, pwm'))
    × (calls es ≡ pwm_set 1 2000 500 true ∷ [])
serve-all_calls_example =
    serve-all_calls dev zeroed 4 zeroed-HasMemory commands
      (request (configure 1 500 2000)
        ∷ request (polarise 1 true)
        ∷ request (enable 1)
        ∷ request (enable 2)
        ∷ [])
      pwm (λ v. resting)
      (
        record { type_is = refl; payload_is = refl; fits = (omega arith, omega arith) },
        (
          record { type_is = refl; payload_is = refl; fits = tt },
          (
            record { type_is = refl; payload_is = refl; fits = tt },
            (record { type_is = refl; payload_is = refl; fits = tt }, tt),
          ),
        ),
      )
      pwm-Holds
