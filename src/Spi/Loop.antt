-- ===== src/Spi/Loop.antt =====
-- spi.c: the loop over the transfers makes the driver calls of its list, in order.
use greybus_zephyr.Base.{
  ℕ, ◌+◌, ◌≡◌, ◌∙◌, refl, sym, ap, false, Bool-cases, inl, inr, some, List, [], ◌∷◌, ◌++◌, Bytes,
  arith, ltb, ge→ltb, if◌then◌else◌, take, drop, length, length-append, length-drop, append-nil,
  take-length_append, drop-length_append, overwrite, ℤ, is_neg,
}
use greybus_zephyr.Spi.Requests.{
  Step, read, write, exchange, settings_of, call_of, read_total, transfers_bytes, written, AllFit,
  chosen, next_transfer-transfer_bytes,
}
use greybus_zephyr.Spi.{
  SpiCall, SpiConfig, spi_read, spi_write, spi_transceive, k_sleep, Ending, failed, transferred,
  transfer_loop,
}

-- A filled reply has the size that was allocated.
abbrev pub HasSize : ℕ → Ending → Type 0
HasSize n (failed status) = Unit
HasSize n (transferred payload) = length payload ≡ n

take-overwrite : (room got : Bytes) (n : ℕ) → length got ≡ n → take n (overwrite room got) ≡ got
take-overwrite room got n e =
    ap (λ m. take m (overwrite room got)) (sym e) ∙ take-length_append got (drop (length got) room)

module _ {S : Type 0} (bus : S → SpiCall → (ℤ × Bytes) × S) where
  -- A driver that reports no error has brought all the bytes to read.
  pub record Fills : Type 0 where
    pub fills :
        (s : S) (conf : SpiConfig) (n : ℕ)
        → is_neg (bus s (spi_read conf n)).0.0 ≡ false
        → length (bus s (spi_read conf n)).0.1 ≡ n
    pub exchanges :
        (s : S) (conf : SpiConfig) (bytes : Bytes)
        → is_neg (bus s (spi_transceive conf bytes)).0.0 ≡ false
        → length (bus s (spi_transceive conf bytes)).0.1 ≡ length bytes

  -- What a step adds to the reply.
  abbrev pub brought : S → SpiConfig → Step → Bytes
  brought s conf (read p n) = (bus s (spi_read conf n)).0.1
  brought s conf (write p bytes) = []
  brought s conf (exchange p bytes) = (bus s (spi_transceive conf bytes)).0.1

  -- The steps on the bus, one after another up to the first error, with a pause after each: the calls made,
  -- and how they end.
  unfoldable pub perform : S → SpiConfig → Bytes → List Step → List SpiCall × Ending
  perform s conf reply [] = ([], transferred reply)
  perform s conf reply (step ∷ steps) =
      let conf' = chosen conf (settings_of step) in
      let got = bus s (call_of conf' step) in
      let rest = perform got.1 conf' (reply ++ brought s conf' step) steps in
      if is_neg got.0.0
      then (call_of conf' step ∷ [], failed 0xff)
      else (call_of conf' step ∷ k_sleep (settings_of step).delay_usecs ∷ rest.0, rest.1)

  pub transfer_loop-perform :
      Fills
      → (steps : List Step) (rest filled room : Bytes) (conf : SpiConfig) (s : S) → AllFit steps
      → length room ≡ read_total steps
      → transfer_loop bus
          (length steps)
          (transfers_bytes steps ++ rest)
          (written steps)
          filled
          room
          conf
          s
        ≡ some (perform s conf filled steps)
  unfolding transfer_loop perform
  transfer_loop-perform f [] rest filled [] conf s h e = rw append-nil refl
  transfer_loop-perform f [] rest filled (x ∷ room) conf s h e = absurd (omega (arith, e))
  transfer_loop-perform f (write p bytes ∷ steps) rest filled room conf s (h, hs) e =
      let enough : ltb (length (bytes ++ written steps)) (length bytes) ≡ false =
        ge→ltb _ _ (omega (arith, length-append bytes (written steps))) in
      let conf' = chosen conf p in
      let got = bus s (spi_write conf' bytes) in
      rw
        (
          next_transfer-transfer_bytes (write p bytes) (transfers_bytes steps ++ rest) h,
          take-length_append bytes (written steps),
          drop-length_append bytes (written steps),
          enough,
          append-nil,
          transfer_loop-perform f steps rest filled room conf' got.1 hs e,
        )
        (elim (Bool-cases (is_neg got.0.0)) [ inl bad ↦ rw bad refl | inr good ↦ rw good refl ])
  transfer_loop-perform f (read p n ∷ steps) rest filled room conf s (h, hs) e =
      let enough : ltb (length room) n ≡ false = ge→ltb _ _ (omega (arith, e)) in
      let conf' = chosen conf p in
      let got = bus s (spi_read conf' n) in
      rw (next_transfer-transfer_bytes (read p n) (transfers_bytes steps ++ rest) h, enough)
        (elim (Bool-cases (is_neg got.0.0)) [
          | inl bad ↦ rw bad refl
          | inr good ↦
              rw
                (
                  good,
                  take-overwrite room got.0.1 n (f.fills s conf' n good),
                  transfer_loop-perform f steps rest (filled ++ got.0.1) (drop n room) conf' got.1
                      hs (omega (arith, e, length-drop n room)),
                )
                refl
        ])
  transfer_loop-perform f (exchange p bytes ∷ steps) rest filled room conf s (h, hs) e =
      let enough : ltb (length (bytes ++ written steps)) (length bytes) ≡ false =
        ge→ltb _ _ (omega (arith, length-append bytes (written steps))) in
      let space : ltb (length room) (length bytes) ≡ false = ge→ltb _ _ (omega (arith, e)) in
      let conf' = chosen conf p in
      let got = bus s (spi_transceive conf' bytes) in
      rw
        (
          next_transfer-transfer_bytes (exchange p bytes) (transfers_bytes steps ++ rest) h,
          take-length_append bytes (written steps),
          drop-length_append bytes (written steps),
          enough,
          space,
        )
        (elim (Bool-cases (is_neg got.0.0)) [
          | inl bad ↦ rw bad refl
          | inr good ↦
              rw
                (
                  good,
                  take-overwrite room got.0.1 (length bytes) (f.exchanges s conf' bytes good),
                  transfer_loop-perform f steps rest (filled ++ got.0.1) (drop (length bytes) room)
                      conf' got.1 hs (omega (arith, e, length-drop (length bytes) room)),
                )
                refl
        ])

  pub perform-HasSize :
      Fills
      → (steps : List Step) (filled : Bytes) (conf : SpiConfig) (s : S)
      → HasSize (length filled + read_total steps) (perform s conf filled steps).1
  unfolding perform
  perform-HasSize f [] filled conf s = omega arith
  perform-HasSize f (write p bytes ∷ steps) filled conf s =
      let conf' = chosen conf p in
      elim (Bool-cases (is_neg (bus s (spi_write conf' bytes)).0.0)) [
        | inl bad ↦ rw bad tt
        | inr good ↦
            rw (good, append-nil)
              (perform-HasSize f steps filled conf' (bus s (spi_write conf' bytes)).1)
      ]
  perform-HasSize f (read p n ∷ steps) filled conf s =
      let conf' = chosen conf p in
      let got = bus s (spi_read conf' n) in
      elim (Bool-cases (is_neg got.0.0)) [
        | inl bad ↦ rw bad tt
        | inr good ↦
            let total : length filled + (n + read_total steps)
                ≡ length (filled ++ got.0.1) + read_total steps =
              omega (arith, length-append filled got.0.1, f.fills s conf' n good) in
            rw (good, total) (perform-HasSize f steps (filled ++ got.0.1) conf' got.1)
      ]
  perform-HasSize f (exchange p bytes ∷ steps) filled conf s =
      let conf' = chosen conf p in
      let got = bus s (spi_transceive conf' bytes) in
      elim (Bool-cases (is_neg got.0.0)) [
        | inl bad ↦ rw bad tt
        | inr good ↦
            let total : length filled + (length bytes + read_total steps)
                ≡ length (filled ++ got.0.1) + read_total steps =
              omega (arith, length-append filled got.0.1, f.exchanges s conf' bytes good) in
            rw (good, total) (perform-HasSize f steps (filled ++ got.0.1) conf' got.1)
      ]
