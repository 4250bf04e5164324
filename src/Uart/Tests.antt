-- ===== src/Uart/Tests.antt =====
-- A message over the UART.
use greybus_zephyr.Base.{
  ℕ, ◌≡◌, refl, some, [], ◌∷◌, Bytes, false, arith, replicate, length-replicate, pos,
}
use greybus_zephyr.Messages.{Message}
use greybus_zephyr.Messages.Laws.{IsHeader}
use greybus_zephyr.Samples.{zeroed, zeroed-HasMemory, message, message-IsMessage}
use greybus_zephyr.Hdlc.{Driver, hdlc_process_buffer}
use greybus_zephyr.Hdlc.Crc.{ccitt, ccitt-CrcCcitt}
use greybus_zephyr.Hdlc.RoundTrip.{Holds}
use greybus_zephyr.Uart.{gb_message_hdlc_send}
use greybus_zephyr.Uart.EndToEnd.{ReceivedAs, gb_message_hdlc_send-received}

abbrev idle : Driver
idle = record {
  crc = 0xffff;
  rx_buffer_len = 0;
  rx_buffer = replicate 512 0;
  next_escaped = false;
  delivered = [];
}

idle-Holds : Holds idle [] 0xffff []
idle-Holds = record {
  size = length-replicate {A = ℕ} 512 0;
  len = refl;
  stored = refl;
  checksum = refl;
  plain = refl;
  log = refl;
}

abbrev transfer : Message
transfer = message 0x03 (1 ∷ 0x7e ∷ 3 ∷ [])

transfer-IsHeader : IsHeader transfer.header
transfer-IsHeader = record { size_lt = omega arith; id_lt = omega arith; pad_len = refl }

gb_message_hdlc_send-received_example :
    (bytes : Bytes) × (gb_message_hdlc_send ccitt transfer 4 ≡ some (pos 0, bytes))
    × (drv' : Driver) × (hdlc_process_buffer ccitt idle bytes ≡ some drv')
    × ReceivedAs zeroed transfer 4 [] drv'
gb_message_hdlc_send-received_example =
    gb_message_hdlc_send-received ccitt zeroed transfer 4 idle [] ccitt-CrcCcitt zeroed-HasMemory
      (message-IsMessage 0x03 (1 ∷ 0x7e ∷ 3 ∷ []) (omega arith)) transfer-IsHeader (omega arith)
      (omega arith) idle-Holds
