-- ===== src/UartProtocol.antt =====
-- subsys/greybus/uart.c: the UART protocol over a UART of Zephyr's, whose calls are the parameter `dev`.
-- `none` is undefined behaviour: a read past the payload, a write through NULL or past a message.
pub mod Data
pub mod Lines
mod Tests
use greybus_zephyr.Base.{
  ℕ, zero, suc, ◌+◌, ◌*◌, ◌%◌, ◌^◌, bit_and, Bool, true, false, Option, none, some, List, [], ◌∷◌,
  ◌++◌, map, Bytes, word16, le16, word32_at, ltb, leb, ◌==◌, if◌then◌else◌, get_elem?, take, drop,
  length, overwrite, ℤ, is_neg, ◌>>=◌,
}
use greybus_zephyr.Core.{gb_errno_to_op_result}
use greybus_zephyr.Messages.{
  Message, header_size, gb_message_type, gb_op_success, gb_op_invalid, gb_op_protocol_bad,
}
use greybus_zephyr.Messages.Ids.{gb_message_request_alloc}
use greybus_zephyr.Transport.{
  Effect, Effects, send, dealloc, device, request, response, gb_transport_message_send,
  gb_transport_message_empty_response_send, gb_transport_message_empty_response_send_no_free,
}

abbrev pub max_rx_buf_size : ℕ
max_rx_buf_size = 64

-- The choices of `struct uart_config` that the protocol can name.
pub data StopBits : Type 0 where
  one one_and_half two : StopBits

pub data Parity : Type 0 where
  no_parity odd even mark space : Parity

-- `struct uart_config` without flow control.
pub record UartConfig : Type 0 where
  pub baudrate : ℕ
  pub stop_bits : StopBits
  pub parity : Parity
  pub data_bits : ℕ

pub data Line : Type 0 where
  dtr rts : Line

pub data UartCall : Type 0 where
  poll_out : ℕ → UartCall
  configure : UartConfig → UartCall
  line_ctrl_set : Line → ℕ → UartCall
  irq_update : UartCall
  irq_rx_enable : ℕ → UartCall
  irq_rx_disable : UartCall

abbrev pub Reaction : Type 0
Reaction = Option (Effects UartCall)

-- The message is one-shot, so that its id takes nothing from the counter of ids.
unfoldable pub gb_uart_receive_credits : (ℕ → Option Bytes) → ℕ → ℕ → Reaction
gb_uart_receive_credits alloc cport count = do
  msg ← (gb_message_request_alloc alloc 2 0x08 true 0).0
  some (
      gb_transport_message_send (record msg { payload = overwrite msg.payload (le16 count) }) cport
      ++ dealloc response ∷ [])

-- The loop over the data, with the bytes left to send.
unfoldable pub poll_loop : ℕ → Bytes → Reaction
poll_loop zero bytes = some []
poll_loop (suc n) [] = none
poll_loop (suc n) (b ∷ bytes) = do es ← poll_loop n bytes; some (device (poll_out b) ∷ es)

unfoldable pub gb_uart_send_data : (ℕ → Option Bytes) → ℕ → Message → Reaction
gb_uart_send_data alloc cport req = do
  s0 ← get_elem? req.payload 0
  s1 ← get_elem? req.payload 1
  polled ← poll_loop (word16 s0 s1) (drop 2 req.payload)
  credits ← gb_uart_receive_credits alloc cport (word16 s0 s1)
  some (
      gb_transport_message_empty_response_send_no_free req gb_op_success cport
      ++ (polled ++ (credits ++ dealloc request ∷ [])))

-- The three switches that fill the configuration.
unfoldable pub stop_bits_of : ℕ → Option StopBits
stop_bits_of format =
    if format == 0
    then some one
    else if format == 1
    then some one_and_half
    else if format == 2
    then some two
    else none

unfoldable pub parity_of : ℕ → Option Parity
parity_of parity =
    if parity == 0
    then some no_parity
    else if parity == 1
    then some odd
    else if parity == 2
    then some even
    else if parity == 3
    then some mark
    else if parity == 4
    then some space
    else none

unfoldable pub data_bits_of : ℕ → Option ℕ
data_bits_of data_bits =
    if leb 5 data_bits then if leb data_bits 9 then some data_bits else none else none

-- The configuration of a request, `none` where a switch refuses it. The case for RTS and CTS falls
-- through to the default, so that every flow control but 0 is refused.
unfoldable pub config_of : ℕ → ℕ → ℕ → ℕ → ℕ → Option UartConfig
config_of rate format parity data_bits flow_control = do
  s ← stop_bits_of format
  p ← parity_of parity
  d ← data_bits_of data_bits
  if flow_control == 0
      then some (record { baudrate = rate; stop_bits = s; parity = p; data_bits = d })
      else none

module _ (dev : UartCall → ℤ) where
  unfoldable pub gb_uart_set_line_coding : ℕ → Message → Reaction
  gb_uart_set_line_coding cport req = do
    rate ← word32_at req.payload 0
    format ← get_elem? req.payload 4
    parity ← get_elem? req.payload 5
    data_bits ← get_elem? req.payload 6
    flow_control ← get_elem? req.payload 7
    some (elim (config_of rate format parity data_bits flow_control) [
      | none ↦ gb_transport_message_empty_response_send req gb_op_invalid cport
      | some conf ↦
          device (configure conf)
          ∷ gb_transport_message_empty_response_send req
              (gb_errno_to_op_result (dev (configure conf))) cport
    ])

  unfoldable pub gb_uart_set_control_line_state : ℕ → Message → Reaction
  gb_uart_set_control_line_state cport req = get_elem? req.payload 0 >>= λ control.
      let set_dtr = line_ctrl_set dtr (bit_and control 0x01) in
      let set_rts = line_ctrl_set rts (bit_and control 0x02) in
      some (
        if is_neg (dev set_dtr)
        then device set_dtr
          ∷ gb_transport_message_empty_response_send req (gb_errno_to_op_result (dev set_dtr)) cport
        else device set_dtr
          ∷ device set_rts
          ∷ gb_transport_message_empty_response_send req (gb_errno_to_op_result (dev set_rts))
              cport)

  unfoldable pub gb_uart_send_break : ℕ → Message → Effects UartCall
  gb_uart_send_break cport req = gb_transport_message_empty_response_send req gb_op_success cport

  unfoldable pub gb_uart_handler : (ℕ → Option Bytes) → Message → ℕ → Reaction
  gb_uart_handler alloc msg cport =
      let type = gb_message_type msg in
      if type == 0x02
      then gb_uart_send_data alloc cport msg
      else if type == 0x04
      then gb_uart_set_line_coding cport msg
      else if type == 0x05
      then gb_uart_set_control_line_state cport msg
      else if type == 0x06
      then some (gb_uart_send_break cport msg)
      else if type == 0x09
      then some (gb_transport_message_empty_response_send msg gb_op_success cport)
      else some (gb_transport_message_empty_response_send msg gb_op_protocol_bad cport)

-- What `uart_fifo_read` brings: bytes, or a failure.
-- The bytes are read behind the three of the request's fields, into a payload of 64 bytes.
unfoldable pub received : ℕ → Message → Option Bytes → Reaction
received cport req none = some (dealloc response ∷ [])
received cport req (some bytes) =
    if ltb max_rx_buf_size (3 + length bytes)
    then none
    else if length bytes == 0
    then some (dealloc response ∷ [])
    else some (
        send cport (record {
          header = record req.header { size = (length bytes + header_size + 3) % 2 ^ 16 };
          payload = overwrite req.payload (le16 (length bytes) ++ 0 ∷ bytes);
        })
        ∷ dealloc response
        ∷ [])

unfoldable pub uart_irq_cb : (ℕ → Option Bytes) → ℕ → Bool → Option Bytes → Reaction
uart_irq_cb alloc cport rx_ready fifo =
    if rx_ready
    then elim (gb_message_request_alloc alloc max_rx_buf_size 0x03 true 0).0 [
      | none ↦ some (device irq_update ∷ [])
      | some req ↦ received cport req fifo >>= λ es. some (device irq_update ∷ es)
    ]
    else some (device irq_update ∷ [])

-- The interrupt's callback is given the cport.
unfoldable pub gb_uart_connected : ℕ → Effects UartCall
gb_uart_connected cport = device (irq_rx_enable cport) ∷ []

unfoldable pub gb_uart_disconnected : Effects UartCall
gb_uart_disconnected = device irq_rx_disable ∷ []
