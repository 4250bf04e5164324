-- ===== src/Pwm/Sessions.antt =====
-- pwm-protocol.c: requests one after another; an enabled generator runs with what was set for it last.
use greybus_zephyr.Base.{ℕ, ◌≡◌, ◌∙◌, ap, refl, Option, some, List, [], ◌∷◌, ◌++◌, Bytes, ◌>>=◌, ℤ}
use greybus_zephyr.Messages.{Message}
use greybus_zephyr.Messages.Laws.{HasMemory}
use greybus_zephyr.Transport.{Effects}
use greybus_zephyr.Transport.Laws.{calls, calls-append}
use greybus_zephyr.Pwm.{Channel, Pwm, PwmCall, gb_pwm_handler}
use greybus_zephyr.Pwm.Settings.{Command, after, calls_of, Holds, all_calls, AllRequests}
use greybus_zephyr.Pwm.Answers.{gb_pwm_handler-Done}

-- Requests handled one after another; the effects of each follow those of the one before.
pub serve :
    (PwmCall → ℤ) → (ℕ → Option Bytes) → ℕ → List Message → Pwm → Option (Effects PwmCall × Pwm)
serve dev alloc cport [] pwm = some ([], pwm)
serve dev alloc cport (req ∷ reqs) pwm = gb_pwm_handler dev alloc req cport pwm >>= λ r.
    serve dev alloc cport reqs r.1 >>= λ rest. some (r.0 ++ rest.0, rest.1)

-- With memory, and from driver data with one entry for each generator: for any sequence of count,
-- activate, deactivate, config, polarity, enable and disable requests, the handlers run to their
-- end and call the driver exactly for the enable and disable requests that name a generator that
-- there is, in order; an enabled generator gets the period and the duty of the last config and
-- the polarity of the last polarity request for it before, or what the driver data held if there
-- was none, and a disabled one that period with a pulse of length 0.
pub serve-all_calls :
    (dev : PwmCall → ℤ) (alloc : ℕ → Option Bytes) (cport : ℕ)
    → HasMemory alloc
    → (cs : List Command) (reqs : List Message) (pwm : Pwm) (s : ℕ → Channel) → AllRequests cs reqs
    → Holds pwm s
    → (es : Effects PwmCall) × (pwm' : Pwm) × (serve dev alloc cport reqs pwm ≡ some (es, pwm'))
      × (calls es ≡ all_calls pwm.channel_num s cs)
unfolding serve
serve-all_calls dev alloc cport memory [] [] pwm s i h = ([], pwm, refl, refl)
serve-all_calls dev alloc cport memory [] (req ∷ reqs) pwm s i h = absurd i
serve-all_calls dev alloc cport memory (c ∷ cs) [] pwm s i h = absurd i
serve-all_calls dev alloc cport memory (c ∷ cs) (req ∷ reqs) pwm s (i, is) h =
    let d = gb_pwm_handler-Done dev req cport pwm s h alloc memory c i in
    let (es, pwm', runs, called) =
      serve-all_calls dev alloc cport memory cs reqs d.left (after c s) is d.holds in
    (
      d.effects ++ es,
      pwm',
      rw (d.runs, runs) refl,
      calls-append d.effects es
          ∙ (ap (λ l. l ++ calls es) d.called
              ∙ (ap (λ l. calls_of pwm.channel_num s c ++ l) called
                  ∙ ap (λ n. calls_of pwm.channel_num s c ++ all_calls n (after c s) cs) d.kept)),
    )
