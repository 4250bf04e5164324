-- ===== src/Messages/Ids.antt =====
-- greybus_messages.c, `new_operation_id` and the request allocators: operation ids, one call after
-- another. The counter is the state; `Messages/Interleaving.antt` has the calls of two threads.
use greybus_zephyr.Base.{
  ℕ, zero, suc, ◌+◌, ◌-◌, ◌%◌, ◌^◌, ◌≤◌, ◌<◌, ◌≡◌, ◌≢◌, Bool, Option, none, some, Bytes, arith,
  ◌==◌, if◌then◌else◌, length, overwrite,
}
use greybus_zephyr.Messages.{Message, gb_message_alloc}

abbrev pub operation_id_start : ℕ
operation_id_start = 1

abbrev pub uint16_max : ℕ
uint16_max = 65535

-- The id, and the counter after the call. `atomic_inc` wraps at 32 bits.
unfoldable pub new_operation_id : ℕ → ℕ × ℕ
new_operation_id counter =
    (counter % 2 ^ 16, if counter == uint16_max then operation_id_start else (counter + 1) % 2 ^ 32)

-- The counter after `n` calls, and the id that the call after them gets.
pub counter_after : ℕ → ℕ → ℕ
counter_after counter zero = counter
counter_after counter (suc n) = counter_after (new_operation_id counter).1 n

abbrev pub nth_id : ℕ → ℕ → ℕ
nth_id counter n = (new_operation_id (counter_after counter n)).0

abbrev pub IsCounter : ℕ → Type 0
IsCounter c = (1 ≤ c) × (c ≤ uint16_max)

new_operation_id_lem :
    (c : ℕ)
    → IsCounter c
    → ((new_operation_id c).0 ≡ c) × ((new_operation_id c).1 ≡ 1 + c % uint16_max)
unfolding new_operation_id
new_operation_id_lem c h = ground arith

-- The counter runs through 1 .. 65535 round and round.
counter_after_lem : (n c : ℕ) → IsCounter c → counter_after c n ≡ 1 + (c - 1 + n) % uint16_max
unfolding counter_after
counter_after_lem zero c h = omega arith
counter_after_lem (suc n) c h =
    let (_, next) = new_operation_id_lem c h in
    omega (arith, next, counter_after_lem n (new_operation_id c).1 (omega (arith, next)))

-- From a counter in 1..65535, the n-th call of new_operation_id returns 1 + (c - 1 + n) mod
-- 65535; in particular never 0.
nth_id_lem :
    (c n : ℕ) → IsCounter c → (nth_id c n ≡ 1 + (c - 1 + n) % uint16_max) × IsCounter (nth_id c n)
nth_id_lem c n h =
    let after = counter_after_lem n c h in
    let range : IsCounter (counter_after c n) = omega (arith, after) in
    omega (arith, after, new_operation_id_lem (counter_after c n) range)

-- From a counter in 1..65535, any 65535 calls of new_operation_id in a row return different ids.
pub nth_id-distinct :
    (c m n : ℕ) → IsCounter c → m < n → n < m + uint16_max → nth_id c m ≢ nth_id c n
nth_id-distinct c m n h lt near = omega (arith, nth_id_lem c m h, nth_id_lem c n h)

module _ (alloc : ℕ → Option Bytes) where
  -- The allocated request, and the counter after it; a one-shot request takes no id.
  unfoldable pub gb_message_request_alloc : ℕ → ℕ → Bool → ℕ → Option Message × ℕ
  unfolding new_operation_id gb_message_alloc
  gb_message_request_alloc payload_len request_type is_oneshot counter =
      let (operation_id, counter') =
        if is_oneshot then (0, counter) else new_operation_id counter in
      (gb_message_alloc alloc payload_len request_type operation_id 0, counter')

  unfoldable pub gb_message_request_alloc_with_payload : Bytes → ℕ → Bool → ℕ → Option Message × ℕ
  unfolding gb_message_request_alloc
  gb_message_request_alloc_with_payload payload request_type is_oneshot counter =
      let (req, counter') =
        gb_message_request_alloc (length payload) request_type is_oneshot counter in
      (
        elim req [
          | none ↦ none
          | some msg ↦ some (record msg { payload = overwrite msg.payload payload })
        ],
        counter',
      )
