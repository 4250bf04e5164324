-- ===== src/Tcpip/Tests.antt =====
-- A network that brings and takes one byte at a time.
use greybus_zephyr.Base.{
  ℕ, zero, ◌<◌, suc, ◌≡◌, refl, none, some, List, [], ◌∷◌, ◌++◌, Bytes, arith, length, ℤ, pos, ◌≤◌,
}
use greybus_zephyr.Messages.{Message}
use greybus_zephyr.Samples.{zeroed, zeroed-HasMemory, message, message-IsSendable, exhausted}
use greybus_zephyr.Tcpip.{Recv, got, readable, read_data, gb_trans_rx}
use greybus_zephyr.Tcpip.Loops.{IsSocket, Ends, Delivers, Takes, read_data-Ends}
use greybus_zephyr.Messages.Wire.{wire_bytes, AllSame, all_bytes}
use greybus_zephyr.Tcpip.Exchange.{receive_all, send_all, receive_all-send_all}
use greybus_zephyr.Tcpip.Rounds.{gb_trans_rx-no_memory}

abbrev recv : Bytes → ℕ → Recv × Bytes
recv r zero = (got [], r)
recv [] (suc n) = (got [], [])
recv (b ∷ r) (suc n) = (got (b ∷ []), r)

abbrev send : Bytes → Bytes → ℤ × Bytes
send w [] = (pos 0, w)
send w (b ∷ bs) = (pos 1, w ++ b ∷ [])

bounded : (s : Bytes) (n : ℕ) (bytes : Bytes) → (recv s n).0 ≡ got bytes → length bytes ≤ n
bounded s zero bytes e = ground (arith, e)
bounded [] (suc n) bytes e = ground (arith, e)
bounded (b ∷ s) (suc n) bytes e = ground (arith, e)

recv-IsSocket : IsSocket recv
recv-IsSocket = record { bounded = bounded }

delivers :
    (s : Bytes) (n : ℕ)
    → 0 < n
    → 0 < length s
    → (b : ℕ) × (bs : Bytes) × ((recv s n).0 ≡ got (b ∷ bs))
      × (length (b ∷ bs) ≤ n)
      × (s ≡ b ∷ bs ++ (recv s n).1)
delivers s zero h k = absurd (omega arith)
delivers [] (suc n) h k = absurd (omega arith)
delivers (b ∷ s) (suc n) h k = (b, [], refl, omega arith, refl)

recv-Delivers : Delivers recv (λ s. s)
recv-Delivers = record { delivers = delivers }

send-Takes : Takes send (λ s. s)
send-Takes = record { takes = λ s b bs. (1, refl, omega arith, omega arith, refl) }

abbrev ms : List (ℕ × Message)
ms = (1, message 0x02 []) ∷ (2, message 0x03 (7 ∷ 8 ∷ 9 ∷ [])) ∷ []

read_data-Ends_example : Ends 3 (read_data recv 3 (1 ∷ 2 ∷ []))
read_data-Ends_example = read_data-Ends recv recv-IsSocket 3 (1 ∷ 2 ∷ [])

receive_all-send_all_example :
    (w' : Bytes) × (got : List (ℕ × Message)) × (r' : Bytes) × (send_all send ms [] ≡ some w')
    × (w' ≡ all_bytes ms)
    × (receive_all recv zeroed 2 (all_bytes ms) ≡ some (got, r'))
    × AllSame got ms
    × (r' ≡ [])
receive_all-send_all_example =
    receive_all-send_all send (λ w. w) recv (λ r. r) zeroed send-Takes recv-Delivers
      zeroed-HasMemory ms [] (all_bytes ms)
      (
        message-IsSendable 0x02 [] 1 (omega arith) (omega arith),
        (message-IsSendable 0x03 (7 ∷ 8 ∷ 9 ∷ []) 2 (omega arith) (omega arith), tt),
      )
      refl refl

abbrev stranded : ℕ × Message
stranded = (2, message 0x03 (7 ∷ 8 ∷ 9 ∷ []))

gb_trans_rx-no_memory_example :
    (s' : Bytes) × (gb_trans_rx recv exhausted [] readable (wire_bytes stranded) []
      ≡ some (record { client = some s'; handed = none }))
    × (s' ≡ 7 ∷ 8 ∷ 9 ∷ [])
gb_trans_rx-no_memory_example =
    gb_trans_rx-no_memory recv exhausted [] [] (λ s. s) recv-Delivers stranded []
      (wire_bytes stranded) (message-IsSendable 0x03 (7 ∷ 8 ∷ 9 ∷ []) 2 (omega arith) (omega arith))
      refl refl
