-- ===== src/UartProtocol/Lines.antt =====
-- subsys/greybus/uart.c: the settings of the line that a request can name, and those that are refused.
use greybus_zephyr.Base.{
  ℕ, ◌+◌, ◌*◌, ◌%◌, ◌/◌, ◌^◌, ◌≤◌, ◌<◌, ◌≡◌, refl, Bool-cases, inl, inr, some, [], ◌∷◌, ◌++◌, Bytes,
  arith, le32, le→leb, ◌==◌, if◌then◌else◌, ℤ,
}
use greybus_zephyr.Core.{gb_errno_to_op_result}
use greybus_zephyr.Messages.{Message, gb_op_invalid}
use greybus_zephyr.Transport.{Effects, device, gb_transport_message_empty_response_send}
use greybus_zephyr.UartProtocol.{
  StopBits, one, one_and_half, two, Parity, no_parity, odd, even, mark, space, UartConfig, UartCall,
  configure, stop_bits_of, parity_of, data_bits_of, config_of, gb_uart_set_line_coding,
}

-- The codes of the protocol.
abbrev pub stop_code : StopBits → ℕ
stop_code one = 0
stop_code one_and_half = 1
stop_code two = 2

abbrev pub parity_code : Parity → ℕ
parity_code no_parity = 0
parity_code odd = 1
parity_code even = 2
parity_code mark = 3
parity_code space = 4

-- The payload of a request for these settings and this flow control.
abbrev pub coding_bytes : UartConfig → ℕ → Bytes
coding_bytes conf flow_control =
    le32 conf.baudrate
    ++ stop_code conf.stop_bits ∷ parity_code conf.parity ∷ conf.data_bits ∷ flow_control ∷ []

-- What is done about it: the line is set exactly so, unless the request asks for a flow control.
abbrev pub line_set : (UartCall → ℤ) → ℕ → Message → UartConfig → ℕ → Effects UartCall
line_set dev cport req conf flow_control =
    if flow_control == 0
    then device (configure conf)
      ∷ gb_transport_message_empty_response_send req (gb_errno_to_op_result (dev (configure conf)))
          cport
    else gb_transport_message_empty_response_send req gb_op_invalid cport

stop_code_lem : (s : StopBits) → stop_bits_of (stop_code s) ≡ some s
unfolding stop_bits_of
stop_code_lem one = refl
stop_code_lem one_and_half = refl
stop_code_lem two = refl

parity_code_lem : (p : Parity) → parity_of (parity_code p) ≡ some p
unfolding parity_of
parity_code_lem no_parity = refl
parity_code_lem odd = refl
parity_code_lem even = refl
parity_code_lem mark = refl
parity_code_lem space = refl

data_bits_lem : (n : ℕ) → 5 ≤ n → n ≤ 9 → data_bits_of n ≡ some n
unfolding data_bits_of
data_bits_lem n h k = rw (le→leb 5 n h, le→leb n 9 k) refl

-- For every rate of 32 bits, every stop bits and parity that the protocol names, and 5 to 9 data
-- bits: a line coding request with no flow control sets the UART to exactly these settings and is
-- answered with the driver's result; one with any flow control, RTS and CTS included, is refused
-- as invalid and sets nothing.
pub gb_uart_set_line_coding-line_set :
    (dev : UartCall → ℤ) (cport : ℕ) (req : Message) (conf : UartConfig) (flow_control : ℕ)
    → conf.baudrate < 2 ^ 32
    → 5 ≤ conf.data_bits
    → conf.data_bits ≤ 9
    → req.payload ≡ coding_bytes conf flow_control
    → gb_uart_set_line_coding dev cport req ≡ some (line_set dev cport req conf flow_control)
unfolding gb_uart_set_line_coding config_of
gb_uart_set_line_coding-line_set dev cport req conf flow_control small low high payload_is =
    let rate_is : conf.baudrate % 256
          + conf.baudrate / 256 % 256 * 2 ^ 8
          + conf.baudrate / 2 ^ 16 % 256 * 2 ^ 16
          + conf.baudrate / 2 ^ 24 % 256 * 2 ^ 24
        ≡ conf.baudrate =
      omega (arith, small) in
    elim (Bool-cases (flow_control == 0)) [
      | inl none_asked ↦ rw payload_is (
          rw
            (
              rate_is,
              config_of,
              stop_code_lem conf.stop_bits,
              parity_code_lem conf.parity,
              data_bits_lem conf.data_bits low high,
              none_asked,
            )
            refl)
      | inr some_asked ↦ rw payload_is (
          rw
            (
              rate_is,
              config_of,
              stop_code_lem conf.stop_bits,
              parity_code_lem conf.parity,
              data_bits_lem conf.data_bits low high,
              some_asked,
            )
            refl)
    ]
