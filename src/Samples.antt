-- ===== src/Samples.antt =====
-- Concrete values for the tests: an allocator that hands out zeroed blocks, and messages.
use greybus_zephyr.Base.{
  ℕ, ◌+◌, ◌^◌, ◌<◌, refl, Option, none, some, [], ◌∷◌, Bytes, length, replicate, length-replicate,
  arith,
}
use greybus_zephyr.Messages.{Message, header_size}
use greybus_zephyr.Messages.Wire.{IsSendable}
use greybus_zephyr.Messages.Laws.{HasMemory, IsMessage}

abbrev pub zeroed : ℕ → Option Bytes
zeroed n = some (replicate n 0)

pub zeroed-HasMemory : HasMemory zeroed
zeroed-HasMemory = record { blocks = λ n. (replicate n 0, refl, length-replicate n 0) }

-- An allocator that has run out.
abbrev pub exhausted : ℕ → Option Bytes
exhausted n = none

-- A well-formed message with the operation id 7.
abbrev pub message : ℕ → Bytes → Message
message type payload = record {
  header = record {
    size = header_size + length payload;
    operation_id = 7;
    type = type;
    result = 0;
    pad = 0 ∷ 0 ∷ [];
  };
  payload = payload;
}

pub message-IsMessage :
    (type : ℕ) (payload : Bytes)
    → header_size + length payload < 2 ^ 16
    → IsMessage (message type payload)
message-IsMessage type payload h = record { size_is = refl; size_fits = h }

pub message-IsSendable :
    (type : ℕ) (payload : Bytes) (cport : ℕ)
    → cport < 256
    → length payload < 256
    → IsSendable (cport, message type payload)
message-IsSendable type payload cport c h = record {
  cport_lt = omega arith;
  is_message = message-IsMessage type payload (omega arith);
  is_header = record { size_lt = omega arith; id_lt = omega arith; pad_len = refl };
}
