-- ===== src/Spi/Requests.antt =====
-- spi.c: what a transfer request lays out, and that the handler's reader finds it.
use greybus_zephyr.Base.{
  bit_or, ℕ, ◌+◌, ◌*◌, ◌^◌, ◌<◌, ◌≡◌, ◌∙◌, refl, sym, ap, some, List, [], ◌∷◌, ◌++◌, Bytes, arith,
  le16, le32, word16-lo8, lo8, hi8, ◌/◌, ◌%◌, drop, length, drop-length_append,
}
use greybus_zephyr.Spi.{
  SpiTransfer, SpiConfig, SpiCall, spi_read, spi_write, spi_transceive, next_transfer,
  response_size, word32,
}

-- The clock, the pause and the word size of a step.
pub record Settings : Type 0 where
  pub speed_hz : ℕ
  pub delay_usecs : ℕ
  pub bits_per_word : ℕ

-- What the AP asks for: to read so many bytes, to write these, or to write these while as many are read.
pub data Step : Type 0 where
  read : Settings → ℕ → Step
  write : Settings → Bytes → Step
  exchange : Settings → Bytes → Step

abbrev pub settings_of : Step → Settings
settings_of (read p n) = p
settings_of (write p bytes) = p
settings_of (exchange p bytes) = p

abbrev pub size_of : Step → ℕ
size_of (read p n) = n
size_of (write p bytes) = length bytes
size_of (exchange p bytes) = length bytes

abbrev pub flags_of : Step → ℕ
flags_of (read p n) = 1
flags_of (write p bytes) = 2
flags_of (exchange p bytes) = 3

abbrev pub call_of : SpiConfig → Step → SpiCall
call_of conf (read p n) = spi_read conf n
call_of conf (write p bytes) = spi_write conf bytes
call_of conf (exchange p bytes) = spi_transceive conf bytes

-- What the driver is told for a step: its clock, and, since the sizes of all transfers so far are or-ed together,
-- the bits of its word size added to those of the steps before it. The rest is as it was.
abbrev pub chosen : SpiConfig → Settings → SpiConfig
chosen before p = record {
  slave = before.slave;
  mode = before.mode;
  frequency = p.speed_hz;
  word = bit_or before.word p.bits_per_word;
}

-- The size of the reply.
abbrev pub read_total : List Step → ℕ
read_total [] = 0
read_total (read p n ∷ steps) = n + read_total steps
read_total (write p bytes ∷ steps) = read_total steps
read_total (exchange p bytes ∷ steps) = length bytes + read_total steps

-- The request, as the protocol lays it out.
abbrev pub transfer_bytes : Step → Bytes
transfer_bytes step =
    le32 (settings_of step).speed_hz
    ++ le32 (size_of step)
    ++ le16 (settings_of step).delay_usecs
    ++ 0 ∷ (settings_of step).bits_per_word ∷ flags_of step ∷ []

abbrev pub transfers_bytes : List Step → Bytes
transfers_bytes [] = []
transfers_bytes (step ∷ steps) = transfer_bytes step ++ transfers_bytes steps

abbrev pub written : List Step → Bytes
written [] = []
written (read p n ∷ steps) = written steps
written (write p bytes ∷ steps) = bytes ++ written steps
written (exchange p bytes ∷ steps) = bytes ++ written steps

abbrev pub request_bytes : ℕ → ℕ → List Step → Bytes
request_bytes chip_select mode steps =
    chip_select ∷ mode ∷ le16 (length steps) ++ (transfers_bytes steps ++ written steps)

-- A step's numbers fit their fields.
pub record Fits (step : Step) : Type 0 where
  pub speed_lt : (settings_of step).speed_hz < 2 ^ 32
  pub size_lt : size_of step < 2 ^ 32
  pub delay_lt : (settings_of step).delay_usecs < 2 ^ 16

abbrev pub AllFit : List Step → Type 0
AllFit [] = Unit
AllFit (step ∷ steps) = Fits step × AllFit steps

abbrev pub transfer_of : Step → SpiTransfer
transfer_of step = record {
  speed_hz = (settings_of step).speed_hz;
  len = size_of step;
  delay_usecs = (settings_of step).delay_usecs;
  cs_change = 0;
  bits_per_word = (settings_of step).bits_per_word;
  xfer_flags = flags_of step;
}

word32-le32 :
    (x : ℕ) → x < 2 ^ 32 → word32 (lo8 x) (hi8 x) (x / 2 ^ 16 % 256) (x / 2 ^ 24 % 256) ≡ x
word32-le32 x h = omega arith

pub next_transfer-transfer_bytes :
    (step : Step) (rest : Bytes)
    → Fits step
    → next_transfer (transfer_bytes step ++ rest) ≡ some (transfer_of step, rest)
unfolding next_transfer
next_transfer-transfer_bytes step rest f =
    rw (word32-le32 _ f.speed_lt, word32-le32 _ f.size_lt, word16-lo8 _ f.delay_lt) refl

length-transfers_bytes : (steps : List Step) → length (transfers_bytes steps) ≡ 13 * length steps
length-transfers_bytes [] = refl
length-transfers_bytes (step ∷ steps) = omega (arith, length-transfers_bytes steps)

pub drop-transfers_bytes :
    (steps : List Step) (rest : Bytes)
    → drop (13 * length steps) (transfers_bytes steps ++ rest) ≡ rest
drop-transfers_bytes steps rest =
    ap (λ n. drop n (transfers_bytes steps ++ rest)) (sym (length-transfers_bytes steps))
    ∙ drop-length_append (transfers_bytes steps) rest

pub response_size-transfers_bytes :
    (steps : List Step) (rest : Bytes) (acc : ℕ)
    → AllFit steps
    → acc + read_total steps < 2 ^ 32
    → response_size (length steps) (transfers_bytes steps ++ rest) acc
      ≡ some (acc + read_total steps)
unfolding response_size
response_size-transfers_bytes [] rest acc h k = ap some (omega arith)
response_size-transfers_bytes (read p n ∷ steps) rest acc (h, hs) k =
    let small : (acc + n) % 2 ^ 32 ≡ acc + n = omega (arith, k) in
    rw (next_transfer-transfer_bytes (read p n) (transfers_bytes steps ++ rest) h, small)
      (response_size-transfers_bytes steps rest (acc + n) hs (omega (arith, k))
        ∙ ap some (omega arith))
response_size-transfers_bytes (write p bytes ∷ steps) rest acc (h, hs) k =
    rw (next_transfer-transfer_bytes (write p bytes) (transfers_bytes steps ++ rest) h)
      (response_size-transfers_bytes steps rest acc hs k)
response_size-transfers_bytes (exchange p bytes ∷ steps) rest acc (h, hs) k =
    let small : (acc + length bytes) % 2 ^ 32 ≡ acc + length bytes = omega (arith, k) in
    rw (next_transfer-transfer_bytes (exchange p bytes) (transfers_bytes steps ++ rest) h, small)
      (response_size-transfers_bytes steps rest (acc + length bytes) hs (omega (arith, k))
        ∙ ap some (omega arith))
