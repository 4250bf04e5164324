-- ===== src/Messages/Interleaving.antt =====
-- greybus_messages.c, `new_operation_id` called by two threads: the increment and the reset of the
-- counter are two atomic operations, and other calls may come between them.
use greybus_zephyr.Base.{ℕ, ◌+◌, ◌%◌, ◌^◌, ◌≡◌, ◌≢◌, ◌<◌, ◌⊎◌, refl, arith}
use greybus_zephyr.Messages.Ids.{operation_id_start, uint16_max}

-- Where a thread stands in the function.
pub data Place : Type 0 where
  start : Place
  incremented : ℕ → Place
  returned : ℕ → Place

pub record Calls : Type 0 where
  pub counter : ℕ
  pub left : Place
  pub right : Place

-- One atomic operation of one thread: `atomic_inc`, or the test with `atomic_set` and the return.
pub data Advance : ℕ → Place → ℕ → Place → Type 0 where
  increment : (c : ℕ) → Advance c start ((c + 1) % 2 ^ 32) (incremented c)
  reset :
      (c temp : ℕ)
      → temp ≡ uint16_max
      → Advance c (incremented temp) operation_id_start (returned (temp % 2 ^ 16))
  keep :
      (c temp : ℕ) → temp ≢ uint16_max → Advance c (incremented temp) c (returned (temp % 2 ^ 16))

pub data Step : Calls → Calls → Type 0 where
  by_left :
      (s : Calls) {c : ℕ} {p : Place}
      → Advance s.counter s.left c p
      → Step s (record s { counter = c; left = p })
  by_right :
      (s : Calls) {c : ℕ} {p : Place}
      → Advance s.counter s.right c p
      → Step s (record s { counter = c; right = p })

pub data Reach (s : Calls) : Calls → Type 0 where
  here : Reach s s
  next : {t u : Calls} → Reach s t → Step t u → Reach s u

-- What the threads hold, when the counter stood at `c` before either of them.
abbrev Took : ℕ → ℕ → Place → Place → Type 0
Took c k start start = k ≡ c
Took c k (incremented a) start = (a ≡ c) × (k ≡ c + 1)
Took c k (returned a) start = (a ≡ c) × (k ≡ c + 1)
Took c k start (incremented b) = (b ≡ c) × (k ≡ c + 1)
Took c k start (returned b) = (b ≡ c) × (k ≡ c + 1)
Took c k (incremented a) (incremented b) = ((a ≡ c) × (b ≡ c + 1)) ⊎ ((a ≡ c + 1) × (b ≡ c))
Took c k (incremented a) (returned b) = ((a ≡ c) × (b ≡ c + 1)) ⊎ ((a ≡ c + 1) × (b ≡ c))
Took c k (returned a) (incremented b) = ((a ≡ c) × (b ≡ c + 1)) ⊎ ((a ≡ c + 1) × (b ≡ c))
Took c k (returned a) (returned b) = ((a ≡ c) × (b ≡ c + 1)) ⊎ ((a ≡ c + 1) × (b ≡ c))

abbrev Held : ℕ → Calls → Type 0
Held c s = Took c s.counter s.left s.right

module _ (c : ℕ) (below : c < uint16_max) where
  Advance-left :
      {k k' : ℕ} {p p' : Place} (q : Place) → Advance k p k' p' → Took c k p q → Took c k' p' q
  Advance-left start (increment k) h = omega arith
  Advance-left (incremented b) (increment k) h = omega arith
  Advance-left (returned b) (increment k) h = omega arith
  Advance-left start (reset k temp e) h = omega arith
  Advance-left (incremented b) (reset k temp e) h = omega arith
  Advance-left (returned b) (reset k temp e) h = omega arith
  Advance-left start (keep k temp e) h = omega arith
  Advance-left (incremented b) (keep k temp e) h = omega arith
  Advance-left (returned b) (keep k temp e) h = omega arith

  Advance-right :
      {k k' : ℕ} {p p' : Place} (q : Place) → Advance k p k' p' → Took c k q p → Took c k' q p'
  Advance-right start (increment k) h = omega arith
  Advance-right (incremented b) (increment k) h = omega arith
  Advance-right (returned b) (increment k) h = omega arith
  Advance-right start (reset k temp e) h = omega arith
  Advance-right (incremented b) (reset k temp e) h = omega arith
  Advance-right (returned b) (reset k temp e) h = omega arith
  Advance-right start (keep k temp e) h = omega arith
  Advance-right (incremented b) (keep k temp e) h = omega arith
  Advance-right (returned b) (keep k temp e) h = omega arith

  Step-Held : {s t : Calls} → Step s t → Held c s → Held c t
  Step-Held (by_left s a) h = Advance-left s.right a h
  Step-Held (by_right s a) h = Advance-right s.left a h

  Reach-Held : {s t : Calls} → Reach s t → Held c s → Held c t
  Reach-Held here h = h
  Reach-Held (next r st) h = Step-Held st (Reach-Held r h)

  returned_pair :
      (k a b : ℕ) (p q : Place)
      → Took c k p q
      → p ≡ returned a
      → q ≡ returned b
      → ((a ≡ c) × (b ≡ c + 1)) ⊎ ((a ≡ c + 1) × (b ≡ c))
  returned_pair k a b (returned x) (returned y) h l r = ground arith
  returned_pair k a b start q h l r = cc
  returned_pair k a b (incremented x) q h l r = cc
  returned_pair k a b (returned x) start h l r = cc
  returned_pair k a b (returned x) (incremented y) h l r = cc

  -- Two threads that call new_operation_id at a counter c below 65535 get the ids c and c + 1,
  -- one each, however their atomic operations are interleaved.
  pub Reach-ids :
      {s t : Calls} (a b : ℕ)
      → s.counter ≡ c
      → s.left ≡ start
      → s.right ≡ start
      → Reach s t
      → t.left ≡ returned a
      → t.right ≡ returned b
      → ((a ≡ c) × (b ≡ c + 1)) ⊎ ((a ≡ c + 1) × (b ≡ c))
  Reach-ids {s} {t} a b k l r run x y =
      returned_pair t.counter a b t.left t.right (Reach-Held run (rw (l, r) k)) x y

-- The counter at its maximum when both threads come in.
racing : Calls
racing = record { counter = uint16_max; left = start; right = start }

racing-Reach :
    Reach racing
      (record { counter = operation_id_start; left = returned uint16_max; right = returned 0 })
unfolding racing
racing-Reach =
    next
      (next
        (next (next here (by_left racing (increment uint16_max))) (
          by_right (record { counter = 65536; left = incremented uint16_max; right = start })
            (increment 65536)))
        (by_right
          (record { counter = 65537; left = incremented uint16_max; right = incremented 65536 })
          (keep 65537 65536 (omega arith))))
      (by_left (record { counter = 65537; left = incremented uint16_max; right = returned 0 })
        (reset 65537 uint16_max refl))
