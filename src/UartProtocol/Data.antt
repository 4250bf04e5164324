-- ===== src/UartProtocol/Data.antt =====
-- subsys/greybus/uart.c: the data in both directions.
use greybus_zephyr.Base.{
  ℕ, ◌+◌, ◌-◌, ◌%◌, ◌^◌, ◌≤◌, ◌<◌, ◌≡◌, refl, true, false, Option, none, some, [], ◌∷◌, ◌++◌, Bytes,
  arith, word16, word16-lo8, lo8, hi8, le16, ltb, ge→ltb, lt→ltb, ◌==◌, length, length-drop, take,
  drop, drop_all, overwrite, take-append_exact, size_mod,
}
use greybus_zephyr.Messages.{
  Message, header_size, gb_message_payload_len, gb_message_alloc, gb_op_success,
}
use greybus_zephyr.Messages.Laws.{HasMemory, IsMessage}
use greybus_zephyr.Messages.Ids.{gb_message_request_alloc}
use greybus_zephyr.Transport.{Effects, send, dealloc, device, request, response, empty_response}
use greybus_zephyr.UartProtocol.{
  UartCall, poll_out, irq_update, max_rx_buf_size, gb_uart_receive_credits, poll_loop,
  gb_uart_send_data, received, uart_irq_cb,
}

-- The bytes, one call for each.
abbrev pub polls : Bytes → Effects UartCall
polls [] = []
polls (b ∷ bytes) = device (poll_out b) ∷ polls bytes

poll_loop_lem : (bytes : Bytes) → poll_loop (length bytes) bytes ≡ some (polls bytes)
unfolding poll_loop
poll_loop_lem [] = refl
poll_loop_lem (b ∷ bytes) = rw (poll_loop_lem bytes) refl

-- A one-shot message: the id is 0, and the payload is what the block held.
abbrev one_shot : Bytes → ℕ → ℕ → Message
one_shot block n type = record {
  header = record {
    size = header_size + n;
    operation_id = 0;
    type = type;
    result = 0;
    pad = take 2 (drop 6 block);
  };
  payload = drop header_size block;
}

module _ (alloc : ℕ → Option Bytes) (memory : HasMemory alloc) where
  one_shot_lem :
      (n type : ℕ)
      → header_size + n < 2 ^ 16
      → (block : Bytes) × (length block ≡ header_size + n)
        × ((gb_message_request_alloc alloc n type true 0).0 ≡ some (one_shot block n type))
  unfolding gb_message_request_alloc gb_message_alloc
  one_shot_lem n type fits =
      let (block, found, sized) = memory.blocks (header_size + n) in
      let asks : (header_size + n) % size_mod ≡ header_size + n = omega arith in
      let short : (header_size + n) % 2 ^ 16 ≡ header_size + n = omega arith in
      (block, sized, rw (asks, found, gb_message_alloc) (rw short refl))

  -- With memory, a send_data request that holds as many bytes as its size says is answered with
  -- success, its bytes are put out on the UART in order, then one one-shot message gives the AP
  -- as many credits as there were bytes, and the message and the request are freed once each.
  pub gb_uart_send_data-polls :
      (cport : ℕ) (req : Message) (data_bytes : Bytes)
      → length data_bytes < 2 ^ 16
      → req.payload ≡ le16 (length data_bytes) ++ data_bytes
      → (credits : Message) × (gb_uart_send_data alloc cport req
          ≡ some (
              send cport (empty_response req gb_op_success)
              ∷ (polls data_bytes ++ send cport credits ∷ dealloc response ∷ dealloc request ∷ [])))
        × IsMessage credits
        × (credits.header.type ≡ 0x08)
        × (credits.header.operation_id ≡ 0)
        × (credits.payload ≡ le16 (length data_bytes))
  unfolding gb_uart_send_data gb_uart_receive_credits
  gb_uart_send_data-polls cport req data_bytes short payload_is =
      let (block, sized, made) = one_shot_lem 2 0x08 (omega arith) in
      let size_is : word16 (lo8 (length data_bytes)) (hi8 (length data_bytes)) ≡ length data_bytes =
        word16-lo8 (length data_bytes) short in
      let rest : drop 2 (drop header_size block) ≡ [] =
        drop_all 2 (drop header_size block) (omega (arith, length-drop 8 block, sized)) in
      let credits = record (one_shot block 2 0x08) { payload = le16 (length data_bytes) } in
      (
        credits,
        rw payload_is (rw (size_is, poll_loop_lem data_bytes, made) (rw rest refl)),
        record { size_is = refl; size_fits = omega arith },
        refl,
        refl,
        refl,
      )

  -- With memory, an interrupt that finds 1 to 61 bytes in the FIFO sends one one-shot message
  -- on the UART's cport whose payload is their number, no flags, and the bytes in order, and
  -- frees it.
  pub uart_irq_cb-received :
      (cport : ℕ) (bytes : Bytes)
      → 0 < length bytes
      → length bytes ≤ 61
      → (msg : Message) × (uart_irq_cb alloc cport true (some bytes)
          ≡ some (device irq_update ∷ send cport msg ∷ dealloc response ∷ []))
        × (gb_message_payload_len msg ≡ 3 + length bytes)
        × (take (gb_message_payload_len msg) msg.payload ≡ le16 (length bytes) ++ 0 ∷ bytes)
        × (msg.header.type ≡ 0x03)
        × (msg.header.operation_id ≡ 0)
  unfolding uart_irq_cb received gb_message_payload_len
  uart_irq_cb-received cport bytes some_bytes fits =
      let (block, sized, made) = one_shot_lem max_rx_buf_size 0x03 (omega arith) in
      let room : ltb max_rx_buf_size (3 + length bytes) ≡ false =
        ge→ltb _ _ (omega (arith, fits)) in
      let more : (length bytes == 0) ≡ false = ground (arith, some_bytes) in
      let size : (length bytes + header_size + 3) % 2 ^ 16 ≡ length bytes + 11 =
        omega (arith, fits) in
      let len : (length bytes + 11 + size_mod - header_size) % size_mod ≡ 3 + length bytes =
        omega (arith, fits) in
      let laid = le16 (length bytes) ++ 0 ∷ bytes in
      (
        record {
          header = record (one_shot block max_rx_buf_size 0x03).header { size = length bytes + 11 };
          payload = overwrite (drop header_size block) laid;
        },
        rw (made, received) (rw (room, more, size) refl),
        len,
        rw len (take-append_exact (3 + length bytes) laid _ (omega arith)),
        refl,
        refl,
      )

  -- With more than 61 bytes to read, the message is written past its end.
  uart_irq_cb-overflow :
      (cport : ℕ) (bytes : Bytes)
      → 61 < length bytes
      → uart_irq_cb alloc cport true (some bytes) ≡ none
  unfolding uart_irq_cb received
  uart_irq_cb-overflow cport bytes many =
      let (block, sized, made) = one_shot_lem max_rx_buf_size 0x03 (omega arith) in
      let full : ltb max_rx_buf_size (3 + length bytes) ≡ true = lt→ltb _ _ (omega (arith, many)) in
      rw (made, received) (rw full refl)
