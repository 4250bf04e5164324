-- ===== src/Spi/Transfer.antt =====
-- spi.c: a transfer makes the driver calls of its list, in order, and answers with what was read.
use greybus_zephyr.Base.{
  ℕ, ◌+◌, ◌%◌, ◌^◌, ◌<◌, ◌≡◌, ◌∙◌, refl, sym, ap, Option, some, List, [], ◌∷◌, ◌++◌, map, Bytes,
  arith, word16-lo8, lo8, hi8, get_elem?, drop, length, length-drop, append-nil, bit_and, ℤ,
}
use greybus_zephyr.Messages.{Message, header_size, gb_response, gb_op_success, fresh_message}
use greybus_zephyr.Messages.Laws.{HasMemory, gb_message_alloc-some}
use greybus_zephyr.Transport.{
  gb_transport_message_empty_response_send, Effects, send, dealloc, device, request, response,
}
use greybus_zephyr.Transport.Laws.{
  calls, Answers, Answers-append, empty_response-Answers, calls-append,
}
use greybus_zephyr.Transport.Calls.{device-OnlyCalls, calls-device}
use greybus_zephyr.Spi.Requests.{
  Step, read_total, transfers_bytes, written, request_bytes, AllFit, response_size-transfers_bytes,
  drop-transfers_bytes,
}
use greybus_zephyr.Spi.{
  SpiCall, SpiConfig, Ending, failed, transferred, finish, transfer, gb_spi_protocol_transfer,
}
use greybus_zephyr.Spi.Loop.{HasSize, Fills, perform, transfer_loop-perform, perform-HasSize}

-- What the AP sees of an ending.
abbrev pub Ends : Message → ℕ → Effects SpiCall → Ending → Type 0
Ends req cport es (failed status) = Answers req cport status [] es
Ends req cport es (transferred payload) = Answers req cport gb_op_success payload es

-- The transfer ran to its end, made these calls, and answered as this ending says.
abbrev pub Finished : Message → ℕ → Option (Effects SpiCall) → List SpiCall × Ending → Type 0
Finished req cport r (cs, ending) =
    (es : Effects SpiCall) × (r ≡ some es) × (calls es ≡ cs) × Ends req cport es ending

-- The reply that is given up is freed after the request is answered.
refused-Answers :
    (req : Message) (status cport : ℕ)
    → Answers {D = SpiCall} req cport status []
        (gb_transport_message_empty_response_send req status cport ++ dealloc response ∷ [])
refused-Answers req status cport =
    let a = empty_response-Answers {D = SpiCall} req status cport in
    record {
      answer = a.answer;
      sent = a.sent;
      type_is = a.type_is;
      id_is = a.id_is;
      result_is = a.result_is;
      payload_is = a.payload_is;
      well_formed = a.well_formed;
      freed = a.freed;
    }

-- A reply of the allocated size is well-formed once it is filled.
filled-Answers :
    (req resp : Message) (cport n : ℕ) (payload : Bytes)
    → header_size + n < 2 ^ 16
    → length payload ≡ n
    → resp.header.size ≡ header_size + n
    → resp.header.type ≡ gb_response req.header.type
    → resp.header.operation_id ≡ req.header.operation_id
    → resp.header.result ≡ gb_op_success
    → Answers {D = SpiCall} req cport gb_op_success payload
        (send cport (record resp { payload = payload }) ∷ dealloc request ∷ dealloc response ∷ [])
filled-Answers req resp cport n payload fits sized size_is type_is id_is result_is = record {
  answer = record resp { payload = payload };
  sent = refl;
  type_is = type_is;
  id_is = id_is;
  result_is = result_is;
  payload_is = refl;
  well_formed = record {
    size_is = omega (arith, size_is, sized);
    size_fits = omega (arith, size_is);
  };
  freed = refl;
}

finish_lem :
    (req resp : Message) (cport n : ℕ) (r : List SpiCall × Ending)
    → header_size + n < 2 ^ 16
    → HasSize n r.1
    → resp.header.size ≡ header_size + n
    → resp.header.type ≡ gb_response req.header.type
    → resp.header.operation_id ≡ req.header.operation_id
    → resp.header.result ≡ gb_op_success
    → Finished req cport (finish req cport (some resp) r) r
finish_lem req resp cport n (cs, failed status) fits sized size_is type_is id_is result_is = (
  _,
  refl,
  calls-append (map device cs) _ ∙ rw (calls-device cs) (append-nil cs),
  Answers-append (map device cs) (device-OnlyCalls cs) (refused-Answers req status cport),
)
finish_lem req resp cport n (cs, transferred payload) fits sized size_is type_is id_is result_is = (
  _,
  refl,
  calls-append (map device cs) _ ∙ rw (calls-device cs) (append-nil cs),
  Answers-append (map device cs) (device-OnlyCalls cs)
      (filled-Answers req resp cport n payload fits sized size_is type_is id_is result_is),
)

-- The configuration before the first transfer.
abbrev pub initial : ℕ → ℕ → SpiConfig
initial chip_select mode = record {
  slave = chip_select;
  mode = bit_and mode 0x2f;
  frequency = 0;
  word = 0;
}

module _ {S : Type 0} (bus : S → SpiCall → (ℤ × Bytes) × S) (alloc : ℕ → Option Bytes) where
  -- With memory for the reply, a driver whose successful reads bring all their bytes, a mode
  -- that is supported, and a request that lays out a list of reads, writes and exchanges within
  -- the protocol's fields (fewer than 2^16 of them, and a reply that fits a message): the
  -- transfer runs to its end and makes exactly the driver calls of that list, in order, each
  -- with the request's chip select and mode, its step's clock, and the word sizes of all steps
  -- so far or-ed together, and each followed by its pause, up to the first that fails. The
  -- request is answered once, with the operation's internal error after a failure and otherwise
  -- with what was read, in order, and freed once.
  pub gb_spi_protocol_transfer-perform :
      HasMemory alloc
      → Fills bus
      → (steps : List Step) → AllFit steps
      → length steps < 2 ^ 16
      → header_size + read_total steps < 2 ^ 16
      → (chip_select mode : ℕ) → bit_and mode 0xd0 ≡ 0
      → (req : Message) → req.header.type ≡ 0x04
      → req.payload ≡ request_bytes chip_select mode steps
      → (cport : ℕ) (s : S)
      → Finished req cport
          (gb_spi_protocol_transfer bus alloc cport req s)
          (perform bus s (initial chip_select mode) [] steps)
  unfolding gb_spi_protocol_transfer transfer fresh_message
  gb_spi_protocol_transfer-perform memory f steps fit few fits chip_select mode ok req t p cport s =
      let total = read_total steps in
      let (block, found, sized) = memory.blocks (header_size + total) in
      let resp =
        fresh_message block total (gb_response 0x04) req.header.operation_id gb_op_success in
      let r = perform bus s (initial chip_select mode) [] steps in
      let size_is : (header_size + total) % 2 ^ 16 ≡ header_size + total = omega arith in
      let from_zero : 0 + total ≡ total = omega arith in
      let raw = perform-HasSize bus f steps [] (initial chip_select mode) s in
      let sized_r : HasSize total r.1 = rw from_zero at raw in
      let done =
        finish_lem req resp cport total r fits sized_r size_is (ap gb_response (sym t)) refl refl in
      let after_fields : drop 4 req.payload ≡ transfers_bytes steps ++ written steps =
        ap (drop 4) p in
      let chip_is : get_elem? req.payload 0 ≡ some chip_select = ap (λ x. get_elem? x 0) p in
      let mode_is : get_elem? req.payload 1 ≡ some mode = ap (λ x. get_elem? x 1) p in
      let low_is : get_elem? req.payload 2 ≡ some (lo8 (length steps)) =
        ap (λ x. get_elem? x 2) p in
      let high_is : get_elem? req.payload 3 ≡ some (hi8 (length steps)) =
        ap (λ x. get_elem? x 3) p in
      rw
        (
          chip_is,
          mode_is,
          low_is,
          high_is,
          word16-lo8 (length steps) few,
          ok,
          after_fields,
          response_size-transfers_bytes steps (written steps) 0 fit (omega arith),
          from_zero,
          drop-transfers_bytes steps (written steps),
          gb_message_alloc-some alloc total (gb_response 0x04) req.header.operation_id gb_op_success
              block fits found,
          transfer_loop-perform bus f steps (written steps) [] (drop header_size block)
              (initial chip_select mode) s fit (omega (arith, length-drop 8 block, sized)),
        )
        done
