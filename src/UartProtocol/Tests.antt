-- ===== src/UartProtocol/Tests.antt =====
-- A UART on which nothing fails.
use greybus_zephyr.Base.{◌+◌, ◌≡◌, refl, true, some, [], ◌∷◌, arith, take, ℤ, pos}
use greybus_zephyr.Messages.{Message, gb_message_payload_len, gb_op_success, gb_op_invalid}
use greybus_zephyr.Messages.Laws.{IsMessage}
use greybus_zephyr.Samples.{zeroed, zeroed-HasMemory, message}
use greybus_zephyr.Transport.{
  send, dealloc, device, request, response, empty_response,
  gb_transport_message_empty_response_send,
}
use greybus_zephyr.UartProtocol.{
  two, even, UartConfig, UartCall, poll_out, irq_update, gb_uart_send_data, gb_uart_set_line_coding,
  uart_irq_cb,
}
use greybus_zephyr.UartProtocol.Data.{gb_uart_send_data-polls, uart_irq_cb-received}
use greybus_zephyr.UartProtocol.Lines.{coding_bytes, gb_uart_set_line_coding-line_set}

abbrev dev : UartCall → ℤ
dev call = pos 0

abbrev send_request : Message
send_request = message 0x02 (2 ∷ 0 ∷ 0x68 ∷ 0x69 ∷ [])

gb_uart_send_data-polls_example :
    (credits : Message) × (gb_uart_send_data zeroed 4 send_request
      ≡ some (
          send 4 (empty_response send_request gb_op_success)
          ∷ device (poll_out 0x68)
          ∷ device (poll_out 0x69)
          ∷ send 4 credits
          ∷ dealloc response
          ∷ dealloc request
          ∷ []))
    × IsMessage credits
    × (credits.header.type ≡ 0x08)
    × (credits.header.operation_id ≡ 0)
    × (credits.payload ≡ 2 ∷ 0 ∷ [])
gb_uart_send_data-polls_example =
    gb_uart_send_data-polls zeroed zeroed-HasMemory 4 send_request (0x68 ∷ 0x69 ∷ []) (omega arith)
      refl

uart_irq_cb-received_example :
    (msg : Message) × (uart_irq_cb zeroed 4 true (some (7 ∷ 8 ∷ []))
      ≡ some (device irq_update ∷ send 4 msg ∷ dealloc response ∷ []))
    × (gb_message_payload_len msg ≡ 3 + 2)
    × (take (gb_message_payload_len msg) msg.payload ≡ 2 ∷ 0 ∷ 0 ∷ 7 ∷ 8 ∷ [])
    × (msg.header.type ≡ 0x03)
    × (msg.header.operation_id ≡ 0)
uart_irq_cb-received_example =
    uart_irq_cb-received zeroed zeroed-HasMemory 4 (7 ∷ 8 ∷ []) (omega arith) (omega arith)

-- 9600 baud, two stop bits, even parity, seven bits, and RTS with CTS.
abbrev conf : UartConfig
conf = record { baudrate = 9600; stop_bits = two; parity = even; data_bits = 7 }

abbrev coding : Message
coding = message 0x04 (coding_bytes conf 1)

gb_uart_set_line_coding-line_set_example :
    gb_uart_set_line_coding dev 4 coding
    ≡ some (gb_transport_message_empty_response_send coding gb_op_invalid 4)
gb_uart_set_line_coding-line_set_example =
    gb_uart_set_line_coding-line_set dev 4 coding conf 1 (omega arith) (omega arith) (omega arith)
      refl
