-- ===== src/Tcpip.antt =====
-- subsys/greybus/transport/tcpip.c: Greybus messages over one TCP connection.
-- The sockets are Zephyr's: `recv` and `send` are parameters over a state of the connection, and what a
-- poll or an accept brings is an argument. `none` is undefined behaviour, or a loop that is still running.
pub mod Loops
pub mod Exchange
pub mod Rounds
mod Tests
use greybus_zephyr.Base.{
  ℕ, zero, suc, ◌-◌, ◌+◌, Bool, true, false, Option, none, some, [], ◌∷◌, ◌++◌, Bytes, le16, word16,
  ltb, leb, ◌==◌, if◌then◌else◌, get_or, take, drop, length, overwrite, ℤ, pos, negsuc, is_neg,
  ◌>>=◌,
}
use greybus_zephyr.Messages.{
  Header, Message, header_size, header_bytes, header_of_bytes, gb_hdr_payload_len,
  gb_message_payload_len, gb_message_alloc,
}
use greybus_zephyr.Core.Cports.{Cports, Queue, Received, greybus_rx_handler}

-- What `zsock_recv` brings: bytes, of which none means that the peer has closed, or -(n + 1).
pub data Recv : Type 0 where
  got : Bytes → Recv
  fails : ℕ → Recv

-- The test `ret == n` of an int result.
abbrev pub is_int : ℤ → ℕ → Bool
is_int (pos m) n = m == n
is_int (negsuc m) n = false

-- `struct gb_msg_with_cport`, or the NULL message with the flag that the peer has closed.
pub data Reception : Type 0 where
  message : ℕ → Message → Reception
  nothing : Bool → Reception

module _ {S : Type 0} (recv : S → ℕ → Recv × S) where
  -- The result of `zsock_recv` in the loop: its two returns, and its next round.
  abbrev pub after_recv :
      Recv → Bytes → S → (Bytes → Option ((ℤ × Bytes) × S)) → Option ((ℤ × Bytes) × S)
  after_recv (fails n) received s next = some ((negsuc n, received), s)
  after_recv (got []) received s next = some ((pos 0, received), s)
  after_recv (got (b ∷ bs)) received s next = next (received ++ b ∷ bs)

  -- The loop, with rounds as fuel, what is received so far and what is wanted in all.
  unfoldable pub read_loop : ℕ → Bytes → ℕ → S → Option ((ℤ × Bytes) × S)
  read_loop zero received len s = none
  read_loop (suc fuel) received len s = elim (ltb (length received) len) [
    | false ↦ some ((pos (length received), received), s)
    | true ↦
        let r = recv s (len - length received) in
        after_recv r.0 received r.1 (λ received'. read_loop fuel received' len r.1)
  ]

  -- The int result, and what was written to the buffer. Each round brings a byte or ends the loop.
  unfoldable pub read_data : ℕ → S → Option ((ℤ × Bytes) × S)
  read_data len s = read_loop (suc len) [] len s

  -- The payload is read into the fresh message; past its end, the read is undefined.
  unfoldable pub receive_payload : (ℕ → Option Bytes) → ℕ → Header → S → Option (Reception × S)
  receive_payload alloc cport hdr s =
      elim (gb_message_alloc alloc (gb_hdr_payload_len hdr) hdr.type hdr.operation_id hdr.result) [
        | none ↦ some (nothing false, s)
        | some msg ↦
            if leb (gb_message_payload_len msg) (length msg.payload)
            then (do
              p ← read_data (gb_message_payload_len msg) s
              some (
                if is_int p.0.0 (gb_message_payload_len msg)
                    then message cport (record msg { payload = overwrite msg.payload p.0.1 })
                    else nothing (is_int p.0.0 0),
                p.1,
              ))
            else none
      ]

  unfoldable pub receive_header : (ℕ → Option Bytes) → ℕ → S → Option (Reception × S)
  receive_header alloc cport s = do
    h ← read_data header_size s
    if is_int h.0.0 header_size
        then receive_payload alloc cport (header_of_bytes h.0.1) h.1
        else some (nothing (is_int h.0.0 0), h.1)

  unfoldable pub gb_message_receive : (ℕ → Option Bytes) → S → Option (Reception × S)
  gb_message_receive alloc s = do
    c ← read_data 2 s
    if is_int c.0.0 2
        then receive_header alloc (word16 (get_or c.0.1 0 0) (get_or c.0.1 1 0)) c.1
        else some (nothing (is_int c.0.0 0), c.1)

module _ {S : Type 0} (send : S → Bytes → ℤ × S) where
  -- The result of `zsock_send` in the loop: its return, and its next round.
  abbrev pub after_send : ℤ → Bytes → ℕ → S → (Bytes → ℕ → Option (ℤ × S)) → Option (ℤ × S)
  after_send (negsuc n) left transmitted s next = some (negsuc n, s)
  after_send (pos k) left transmitted s next = next (drop k left) (transmitted + k)

  -- The loop, with rounds as fuel, the bytes left and the number of those sent.
  unfoldable pub write_loop : ℕ → Bytes → ℕ → S → Option (ℤ × S)
  write_loop zero left transmitted s = none
  write_loop (suc fuel) [] transmitted s = some (pos transmitted, s)
  write_loop (suc fuel) (b ∷ left) transmitted s =
      let r = send s (b ∷ left) in
      after_send r.0 (b ∷ left) transmitted r.1
        (λ left' transmitted'. write_loop fuel left' transmitted' r.1)

  unfoldable pub write_data : Bytes → S → Option (ℤ × S)
  write_data bytes s = write_loop (suc (length bytes)) bytes 0 s

  -- `MIN(0, ret)`
  abbrev min_zero : ℤ → ℤ
  min_zero (pos n) = pos 0
  min_zero (negsuc n) = negsuc n

  -- A size field beyond the message's memory would send what lies behind it.
  unfoldable pub gb_trans_send : ℕ → Message → S → Option (ℤ × S)
  gb_trans_send cport msg s = do
    c ← write_data (le16 cport) s
    if is_neg c.0
        then some c
        else (if leb msg.header.size (header_size + length msg.payload)
            then (do
              m ← write_data (take msg.header.size (header_bytes msg.header ++ msg.payload)) c.1
              some (min_zero m.0, m.1))
            else none)

-- What a poll of one socket reports.
pub data Poll : Type 0 where
  poll_fails quiet readable : Poll

-- The client's socket after the wait for one, -1 being `none`: the second argument is what accept brings.
unfoldable pub gb_trans_accept {ℓ} : {S : Type ℓ} → Poll → Option S → Option S
gb_trans_accept readable accepted = accepted
gb_trans_accept _ accepted = none

-- The client's socket after the round, -1 being `none`, and what was handed to the receive queue.
pub record Round (S : Type 0) : Type 0 where
  pub client : Option S
  pub handed : Option Received

module _ {S : Type 0} (recv : S → ℕ → Recv × S) (alloc : ℕ → Option Bytes) (cports : Cports) where
  -- `greybus_rx_handler` returns 0 in every case.
  unfoldable pub after_receive : Queue → Reception × S → Option (Round S)
  after_receive queue (nothing true, s) = some (record { client = none; handed = none })
  after_receive queue (nothing false, s) = some (record { client = some s; handed = none })
  after_receive queue (message cport msg, s) = do
    received ← greybus_rx_handler cports cport msg queue
    some (record { client = some s; handed = some received })

  unfoldable pub gb_trans_rx : Poll → S → Queue → Option (Round S)
  unfolding after_receive
  gb_trans_rx readable s queue = gb_message_receive recv alloc s >>= after_receive queue
  gb_trans_rx _ s queue = some (record { client = some s; handed = none })

  -- One round of the thread: it waits for a client, or serves it.
  unfoldable pub gb_trans_rx_thread_round : Poll → Option S → Option S → Queue → Option (Round S)
  unfolding gb_trans_rx gb_trans_accept
  gb_trans_rx_thread_round poll accepted none queue =
      some (record { client = gb_trans_accept poll accepted; handed = none })
  gb_trans_rx_thread_round poll accepted (some s) queue = gb_trans_rx poll s queue
