-- ===== src/I2cTarget.antt =====
-- subsys/greybus/transport/i2c.c: the device as a target on an I2C bus. The bytes that the controller
-- writes go to a ring buffer, out of which messages are taken when it stops; what is sent goes to a pipe.
-- Zephyr's ring buffer and pipe are the parameters `RingBuf` and `Pipe`.
-- `none` is undefined behaviour: a block that is too short for the header that is read from it.
pub mod Reassembly
pub mod Events
mod Tests
use greybus_zephyr.Base.{
  ℕ, zero, suc, ◌+◌, ◌<◌, ◌≤◌, ◌≡◌, Bool, true, false, Option, none, some, List, [], ◌∷◌, ◌++◌,
  Bytes, le16, word16, ltb, ◌==◌, if◌then◌else◌, get_or, take, drop, length, ℤ, pos, neg, enodata,
  enomem, eio, ◌>>=◌,
}
use greybus_zephyr.Messages.{
  Header, Message, header_size, header_bytes, header_of_bytes, gb_hdr_message_len, gb_message_len,
}

-- `ring_buf_put` of one byte (whether it was stored), `ring_buf_size_get`, `ring_buf_peek`, `ring_buf_get`.
pub record RingBuf (R : Type 0) : Type 0 where
  pub put : R → ℕ → Bool × R
  pub size_get : R → ℕ
  pub peek : R → ℕ → Bytes
  pub get : R → ℕ → Bytes × R

-- What the code relies on in it: a queue of bytes with a capacity.
pub record IsRingBuf {R : Type 0} (ring : RingBuf R) (contents : R → Bytes) (capacity : ℕ)
    : Type 0 where
  pub put_room :
      (r : R) (b : ℕ)
      → length (contents r) < capacity
      → ((ring.put r b).0 ≡ true) × (contents (ring.put r b).1 ≡ contents r ++ b ∷ [])
  pub put_full :
      (r : R) (b : ℕ)
      → capacity ≤ length (contents r)
      → ((ring.put r b).0 ≡ false) × (contents (ring.put r b).1 ≡ contents r)
  pub size_is : (r : R) → ring.size_get r ≡ length (contents r)
  pub peek_is : (r : R) (n : ℕ) → ring.peek r n ≡ take n (contents r)
  pub get_is :
      (r : R) (n : ℕ)
      → ((ring.get r n).0 ≡ take n (contents r)) × (contents (ring.get r n).1 ≡ drop n (contents r))

-- `k_pipe_write` that waits for room for ever, with its int result, and `k_pipe_read` of one byte.
pub record Pipe (P : Type 0) : Type 0 where
  pub write : P → Bytes → ℤ × P
  pub read : P → Option ℕ × P

-- What was taken: an error, or a message with its cport.
pub data Taken : Type 0 where
  failed : ℤ → Taken
  taken : ℕ → Message → Taken

-- The int result of a callback, and the byte that it stores.
module _ {R : Type 0} (ring : RingBuf R) where
  -- What is taken once the header is read: the message, if it is all there, is read from its block, which
  -- is as long as its header says.
  unfoldable pub take_message : (ℕ → Option Bytes) → ℕ → Header → R → Option (Taken × R)
  take_message alloc cport hdr r =
      let data_len = gb_hdr_message_len hdr in
      if ltb (ring.size_get r) (2 + data_len)
      then some (failed (neg enodata), r)
      else elim (alloc data_len) [
        | none ↦ some (failed (neg enomem), r)
        | some block ↦
            let got = ring.get (ring.get r 2).1 data_len in
            if ltb data_len header_size
            then none
            else some (
              taken cport
                  (record { header = header_of_bytes got.0; payload = drop header_size got.0 }),
              got.1,
            )
      ]

  unfoldable pub gb_msg_rx_take : (ℕ → Option Bytes) → R → Option (Taken × R)
  gb_msg_rx_take alloc r =
      if ltb (ring.size_get r) 10
      then some (failed (neg enodata), r)
      else (let hdr = ring.peek r 10 in
          if ltb (length hdr) 10
          then some (failed (neg enodata), r)
          else take_message alloc (word16 (get_or hdr 0 0) (get_or hdr 1 0))
              (header_of_bytes (drop 2 hdr)) r)

  -- The loop, with rounds as fuel, and the messages handed to `greybus_rx_handler`, oldest first; its
  -- result is only logged. A round that goes on takes two bytes or more out of the buffer.
  unfoldable pub process_loop : (ℕ → Option Bytes) → ℕ → R → Option (List (ℕ × Message) × R)
  process_loop alloc zero r = none
  process_loop alloc (suc fuel) r = gb_msg_rx_take alloc r >>= λ t. elim t.0 [
    | failed e ↦ some ([], t.1)
    | taken cport msg ↦ process_loop alloc fuel t.1 >>= λ rest. some ((cport, msg) ∷ rest.0, rest.1)
  ]

  unfoldable pub gb_msg_process_cb : (ℕ → Option Bytes) → R → Option (List (ℕ × Message) × R)
  gb_msg_process_cb alloc r = process_loop alloc (suc (ring.size_get r)) r

  unfoldable pub i2c_target_write_requested_cb : R → ℤ × R
  i2c_target_write_requested_cb r = (pos 0, r)

  unfoldable pub i2c_target_write_received_cb : R → ℕ → ℤ × R
  i2c_target_write_received_cb r val =
      let put = ring.put r val in if put.0 then (pos 0, put.1) else (neg enomem, put.1)

  -- The work that it submits runs before the next byte is written.
  unfoldable pub i2c_target_stop_cb : (ℕ → Option Bytes) → R → Option (List (ℕ × Message) × R)
  i2c_target_stop_cb alloc r = gb_msg_process_cb alloc r

-- The test `ret != n` of an int result.
abbrev is_int : ℤ → ℕ → Bool
is_int (pos m) n = m == n
is_int _ n = false

module _ {P : Type 0} (pipe : Pipe P) where
  -- The result, and the byte for the controller.
  unfoldable pub i2c_target_read_cb : P → (ℤ × Option ℕ) × P
  i2c_target_read_cb p =
      let r = pipe.read p in
      elim r.0 [ none ↦ ((neg enodata, none), r.1) | some val ↦ ((pos 0, some val), r.1) ]

  -- A size field beyond the message's memory would send what lies behind it.
  unfoldable pub gb_trans_send : ℕ → Message → P → Option (ℤ × P)
  unfolding gb_message_len
  gb_trans_send cport msg p =
      let first = pipe.write p (le16 cport) in
      if is_int first.0 2
      then if ltb (header_size + length msg.payload) (gb_message_len msg)
        then none
        else (let second =
              pipe.write first.1
                (take (gb_message_len msg) (header_bytes msg.header ++ msg.payload)) in
            if is_int second.0 (gb_message_len msg)
            then some (pos 0, second.1)
            else some (neg eio, second.1))
      else some (neg eio, first.1)
