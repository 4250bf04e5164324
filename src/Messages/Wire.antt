-- ===== src/Messages/Wire.antt =====
-- greybus_messages.h: messages with their cports, as the transports lay them out one after another.
use greybus_zephyr.Base.{ℕ, ◌^◌, ◌<◌, ◌≡◌, refl, List, [], ◌∷◌, ◌++◌, Bytes, le16, append_assoc}
use greybus_zephyr.Messages.{Message, header_bytes}
use greybus_zephyr.Messages.Laws.{IsMessage, IsHeader}
use greybus_zephyr.Messages.Received.{Same}

-- A message as it goes over the connection.
abbrev pub wire_bytes : ℕ × Message → Bytes
wire_bytes (cport, msg) = le16 cport ++ (header_bytes msg.header ++ msg.payload)

pub wire_bytes_lem :
    (cport : ℕ) (msg : Message) (rest : Bytes)
    → wire_bytes (cport, msg) ++ rest
      ≡ le16 cport ++ (header_bytes msg.header ++ (msg.payload ++ rest))
wire_bytes_lem cport msg rest = rw (append_assoc msg.header.pad msg.payload rest) refl

abbrev pub all_bytes : List (ℕ × Message) → Bytes
all_bytes [] = []
all_bytes (m ∷ ms) = wire_bytes m ++ all_bytes ms

-- The fields of the cport and of the header have their widths, and the size counts the payload.
pub record IsSendable (m : ℕ × Message) : Type 0 where
  pub cport_lt : m.0 < 2 ^ 16
  pub is_message : IsMessage m.1
  pub is_header : IsHeader m.1.header

abbrev pub AllSendable : List (ℕ × Message) → Type 0
AllSendable [] = Unit
AllSendable (m ∷ ms) = IsSendable m × AllSendable ms

-- The same messages on the same cports, in the same order.
abbrev pub AllSame : List (ℕ × Message) → List (ℕ × Message) → Type 0
AllSame [] [] = Unit
AllSame ((c, a) ∷ got) ((e, b) ∷ ms) = (c ≡ e) × Same a b × AllSame got ms
AllSame _ _ = ⊥
