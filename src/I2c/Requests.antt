-- ===== src/I2c/Requests.antt =====
-- i2c.c: what a transfer request lays out, and that the handler's reader finds it.
use greybus_zephyr.Base.{
  ℕ, ◌+◌, ◌*◌, ◌^◌, ◌<◌, ◌≡◌, ◌∙◌, refl, sym, ap, some, List, [], ◌∷◌, ◌++◌, Bytes, arith, le16,
  word16-lo8, drop, length, append_assoc, drop-length_append,
}
use greybus_zephyr.I2c.{TransferOp, BusCall, i2c_read, i2c_write, next_op, response_size}

-- What the AP asks for: to read so many bytes from an address, or to write these bytes to one.
pub data Step : Type 0 where
  read : ℕ → ℕ → Step
  write : Bytes → ℕ → Step

abbrev pub call_of : Step → BusCall
call_of (read n addr) = i2c_read n addr
call_of (write bytes addr) = i2c_write bytes addr

abbrev pub size_of : Step → ℕ
size_of (read n addr) = n
size_of (write bytes addr) = length bytes

-- The size of the reply.
abbrev pub read_total : List Step → ℕ
read_total [] = 0
read_total (read n addr ∷ steps) = n + read_total steps
read_total (write bytes addr ∷ steps) = read_total steps

-- The request, as the protocol lays it out.
abbrev pub op_bytes : Step → Bytes
op_bytes (read n addr) = le16 addr ++ 1 ∷ 0 ∷ le16 n
op_bytes (write bytes addr) = le16 addr ++ 0 ∷ 0 ∷ le16 (length bytes)

abbrev pub ops_bytes : List Step → Bytes
ops_bytes [] = []
ops_bytes (step ∷ steps) = op_bytes step ++ ops_bytes steps

abbrev pub written : List Step → Bytes
written [] = []
written (read n addr ∷ steps) = written steps
written (write bytes addr ∷ steps) = bytes ++ written steps

abbrev pub request_bytes : List Step → Bytes
request_bytes steps = le16 (length steps) ++ (ops_bytes steps ++ written steps)

abbrev pub addr_of : Step → ℕ
addr_of (read n addr) = addr
addr_of (write bytes addr) = addr

-- Addresses and sizes fit their fields.
abbrev pub AllFit : List Step → Type 0
AllFit [] = Unit
AllFit (step ∷ steps) = (addr_of step < 2 ^ 16) × (size_of step < 2 ^ 16) × AllFit steps

unfoldable pub flags_of : Step → ℕ
flags_of (read n addr) = 1
flags_of (write bytes addr) = 0

unfoldable pub op_of : Step → TransferOp
unfolding flags_of
op_of step = record { addr = addr_of step; flags = flags_of step; size = size_of step }

pub next_op-op_bytes :
    (step : Step) (rest : Bytes)
    → addr_of step < 2 ^ 16
    → size_of step < 2 ^ 16
    → next_op (op_bytes step ++ rest) ≡ some (op_of step, rest)
unfolding next_op op_of
next_op-op_bytes (read n addr) rest h k = rw (word16-lo8 addr h, word16-lo8 n k) refl
next_op-op_bytes (write bytes addr) rest h k =
    rw (word16-lo8 addr h, word16-lo8 (length bytes) k) refl

pub response_size-ops_bytes :
    (steps : List Step) (rest : Bytes) (acc : ℕ)
    → AllFit steps
    → response_size (length steps) (ops_bytes steps ++ rest) acc ≡ some (acc + read_total steps)
unfolding response_size op_of
response_size-ops_bytes [] rest acc h = ap some (omega arith)
response_size-ops_bytes (read n addr ∷ steps) rest acc (h, k, hs) =
    rw (next_op-op_bytes (read n addr) (ops_bytes steps ++ rest) h k)
      (response_size-ops_bytes steps rest (acc + n) hs ∙ ap some (omega arith))
response_size-ops_bytes (write bytes addr ∷ steps) rest acc (h, k, hs) =
    rw (append_assoc, next_op-op_bytes (write bytes addr) (ops_bytes steps ++ rest) h k)
      (response_size-ops_bytes steps rest acc hs)

length-ops_bytes : (steps : List Step) → length (ops_bytes steps) ≡ 6 * length steps
length-ops_bytes [] = refl
length-ops_bytes (read n addr ∷ steps) = omega (arith, length-ops_bytes steps)
length-ops_bytes (write bytes addr ∷ steps) = omega (arith, length-ops_bytes steps)

pub drop-ops_bytes :
    (steps : List Step) (rest : Bytes) → drop (6 * length steps) (ops_bytes steps ++ rest) ≡ rest
drop-ops_bytes steps rest =
    ap (λ n. drop n (ops_bytes steps ++ rest)) (sym (length-ops_bytes steps))
    ∙ drop-length_append (ops_bytes steps) rest
