-- ===== src/I2c/Transfer.antt =====
-- i2c.c: a transfer makes the driver calls of its operations, in order, and answers with what was read.
use greybus_zephyr.Base.{
  ℕ, ◌+◌, ◌%◌, ◌^◌, ◌<◌, ◌≡◌, ◌∙◌, refl, sym, ap, false, Bool-cases, inl, inr, Option, some, List,
  [], ◌∷◌, ◌++◌, Bytes, arith, word16, word16-lo8, ltb, ge→ltb, if◌then◌else◌, take, drop, get_or,
  length, length-append, length-drop, append_assoc, append-nil, take-length_append,
  drop-length_append, overwrite, ℤ, is_neg, ◌>>=◌,
}
use greybus_zephyr.Messages.{Message, header_size, gb_response, gb_op_success, fresh_message}
use greybus_zephyr.Messages.Laws.{HasMemory, gb_message_alloc-some}
use greybus_zephyr.Transport.{Effects}
use greybus_zephyr.Transport.Laws.{calls}
use greybus_zephyr.I2c.Requests.{
  Step, read, write, call_of, read_total, ops_bytes, written, request_bytes, AllFit, flags_of,
  op_of, next_op-op_bytes, response_size-ops_bytes, drop-ops_bytes,
}
use greybus_zephyr.I2c.Replies.{HasSize, Ends, finish_lem}
use greybus_zephyr.I2c.{
  BusCall, i2c_read, i2c_write, Ending, failed, transferred, transfer_ops, finish,
  gb_i2c_protocol_transfer,
}

module _ {S : Type 0} (bus : S → BusCall → (ℤ × Bytes) × S) where
  -- A driver that reports no error to a read has brought all its bytes.
  pub record Fills : Type 0 where
    pub fills :
        (s : S) (n addr : ℕ)
        → is_neg (bus s (i2c_read n addr)).0.0 ≡ false
        → length (bus s (i2c_read n addr)).0.1 ≡ n

  -- What a step adds to the reply.
  abbrev pub brought : S → Step → Bytes
  brought s (read n addr) = (bus s (i2c_read n addr)).0.1
  brought s (write bytes addr) = []

  -- The steps on the bus, one after another up to the first error: the calls made, and how they end.
  unfoldable pub perform : S → Bytes → List Step → List BusCall × Ending
  perform s reply [] = ([], transferred reply)
  perform s reply (step ∷ steps) =
      let got = bus s (call_of step) in
      let rest = perform got.1 (reply ++ brought s step) steps in
      if is_neg got.0.0
      then (call_of step ∷ [], failed got.0.0)
      else (call_of step ∷ rest.0, rest.1)

  transfer_ops-perform :
      Fills
      → (steps : List Step) (rest filled room : Bytes) (s : S) → AllFit steps
      → length room ≡ read_total steps
      → transfer_ops bus (length steps) (ops_bytes steps ++ rest) (written steps) filled room s
        ≡ some (perform s filled steps)
  unfolding transfer_ops perform op_of flags_of
  transfer_ops-perform f [] rest filled [] s h e = rw append-nil refl
  transfer_ops-perform f [] rest filled (x ∷ room) s h e = absurd (omega (arith, e))
  transfer_ops-perform f (write bytes addr ∷ steps) rest filled room s (h, k, hs) e =
      let enough : ltb (length (bytes ++ written steps)) (length bytes) ≡ false =
        ge→ltb _ _ (omega (arith, length-append bytes (written steps))) in
      let got = bus s (i2c_write bytes addr) in
      rw
        (
          append_assoc,
          next_op-op_bytes (write bytes addr) (ops_bytes steps ++ rest) h k,
          take-length_append bytes (written steps),
          drop-length_append bytes (written steps),
          enough,
          append-nil,
          transfer_ops-perform f steps rest filled room got.1 hs e,
        )
        (elim (Bool-cases (is_neg got.0.0)) [ inl bad ↦ rw bad refl | inr good ↦ rw good refl ])
  transfer_ops-perform f (read n addr ∷ steps) rest filled room s (h, k, hs) e =
      let enough : ltb (length room) n ≡ false = ge→ltb _ _ (omega (arith, e)) in
      let got = bus s (i2c_read n addr) in
      rw (next_op-op_bytes (read n addr) (ops_bytes steps ++ rest) h k, enough)
        (elim (Bool-cases (is_neg got.0.0)) [
          | inl bad ↦ rw bad refl
          | inr good ↦
              let data_is : take n (overwrite room got.0.1) ≡ got.0.1 =
                ap (λ m. take m (overwrite room got.0.1)) (sym (f.fills s n addr good))
                ∙ take-length_append got.0.1 (drop (length got.0.1) room) in
              rw
                (
                  good,
                  data_is,
                  transfer_ops-perform f steps rest (filled ++ got.0.1) (drop n room) got.1 hs
                      (omega (arith, e, length-drop n room)),
                )
                refl
        ])

  perform-HasSize :
      Fills
      → (steps : List Step) (filled : Bytes) (s : S)
      → HasSize (length filled + read_total steps) (perform s filled steps).1
  unfolding perform
  perform-HasSize f [] filled s = omega arith
  perform-HasSize f (write bytes addr ∷ steps) filled s =
      elim (Bool-cases (is_neg (bus s (i2c_write bytes addr)).0.0)) [
        | inl bad ↦ rw bad tt
        | inr good ↦
            rw (good, append-nil) (perform-HasSize f steps filled (bus s (i2c_write bytes addr)).1)
      ]
  perform-HasSize f (read n addr ∷ steps) filled s =
      let got = bus s (i2c_read n addr) in
      elim (Bool-cases (is_neg got.0.0)) [
        | inl bad ↦ rw bad tt
        | inr good ↦
            let total : length filled + (n + read_total steps)
                ≡ length (filled ++ got.0.1) + read_total steps =
              omega (arith, length-append filled got.0.1, f.fills s n addr good) in
            rw (good, total) (perform-HasSize f steps (filled ++ got.0.1) got.1)
      ]

module _ {S : Type 0} (bus : S → BusCall → (ℤ × Bytes) × S) (alloc : ℕ → Option Bytes) where
  -- With memory for the reply, a driver whose successful reads bring all their bytes, and a
  -- request that lays out a list of reads and writes within the protocol's fields (fewer than
  -- 2^16 of them, and a reply that fits a message): the transfer runs to its end and makes
  -- exactly the driver calls of that list, in order, up to the first that fails. A failure is
  -- answered with its status and the request is freed once; otherwise the reply carries what
  -- the reads brought, in order, and the request is not freed.
  pub gb_i2c_protocol_transfer-perform :
      HasMemory alloc
      → Fills bus
      → (steps : List Step) → AllFit steps
      → length steps < 2 ^ 16
      → header_size + read_total steps < 2 ^ 16
      → (req : Message) → req.payload ≡ request_bytes steps
      → (cport : ℕ) (s : S)
      → (es : Effects BusCall) × (gb_i2c_protocol_transfer bus alloc cport req s ≡ some es)
        × (calls es ≡ (perform bus s [] steps).0)
        × Ends req cport es (perform bus s [] steps).1
  unfolding gb_i2c_protocol_transfer fresh_message
  gb_i2c_protocol_transfer-perform memory f steps fit few fits req p cport s =
      let total = read_total steps in
      let (block, found, sized) = memory.blocks (header_size + total) in
      let long : ltb (length req.payload) 2 ≡ false = rw p (ge→ltb _ _ (omega arith)) in
      let count : word16 (get_or req.payload 0 0) (get_or req.payload 1 0) ≡ length steps =
        rw p (word16-lo8 (length steps) few) in
      let ops_are : drop 2 req.payload ≡ ops_bytes steps ++ written steps = ap (drop 2) p in
      let resp =
        fresh_message block total (gb_response req.header.type) req.header.operation_id
          gb_op_success in
      let from_zero : 0 + total ≡ total = omega arith in
      let raw = perform-HasSize bus f steps [] s in
      let filled : HasSize total (perform bus s [] steps).1 = rw from_zero at raw in
      let size_is : (header_size + total) % 2 ^ 16 ≡ header_size + total = omega arith in
      let (called, ended) =
        finish_lem req cport total (perform bus s [] steps) fits filled resp size_is refl refl
          refl in
      (
        finish req cport resp (perform bus s [] steps),
        rw (long, count, ops_are, response_size-ops_bytes steps (written steps) 0 fit, from_zero)
            (rw
              (
                ◌>>=◌,
                gb_message_alloc-some alloc total (gb_response req.header.type)
                    req.header.operation_id gb_op_success block fits found,
              )
              (rw
                (
                  count,
                  ops_are,
                  drop-ops_bytes steps (written steps),
                  transfer_ops-perform bus f steps (written steps) [] (drop header_size block) s fit
                      (omega (arith, length-drop 8 block, sized)),
                )
                refl)),
        called,
        ended,
      )
