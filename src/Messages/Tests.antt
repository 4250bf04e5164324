-- ===== src/Messages/Tests.antt =====
-- Operation ids at concrete counters.
use greybus_zephyr.Base.{ℕ, ◌+◌, ◌≡◌, ◌≢◌, ◌⊎◌, refl, arith}
use greybus_zephyr.Messages.Ids.{nth_id, nth_id-distinct}
use greybus_zephyr.Messages.Interleaving.{
  start, incremented, returned, Calls, increment, keep, by_left, by_right, Reach, here, next,
  Reach-ids,
}

nth_id-distinct_example : nth_id 65535 0 ≢ nth_id 65535 1
nth_id-distinct_example = nth_id-distinct 65535 0 1 (omega arith) (omega arith) (omega arith)

-- Both threads increment before either returns.
abbrev two : Calls
two = record { counter = 5; left = start; right = start }

two-Reach : Reach two (record { counter = 7; left = returned 5; right = returned 6 })
two-Reach =
    next
      (next
        (next (next here (by_left two (increment 5)))
          (by_right (record { counter = 6; left = incremented 5; right = start }) (increment 6)))
        (by_right (record { counter = 7; left = incremented 5; right = incremented 6 })
          (keep 7 6 (omega arith))))
      (by_left (record { counter = 7; left = incremented 5; right = returned 6 })
        (keep 7 5 (omega arith)))

abbrev first_id : ℕ
first_id = 5

abbrev second_id : ℕ
second_id = 6

Reach-ids_example :
    ((first_id ≡ first_id) × (second_id ≡ first_id + 1))
    ⊎ ((first_id ≡ first_id + 1) × (second_id ≡ first_id))
Reach-ids_example =
    Reach-ids first_id (omega arith) first_id second_id refl refl refl two-Reach refl refl
