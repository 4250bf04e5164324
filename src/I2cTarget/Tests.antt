-- ===== src/I2cTarget/Tests.antt =====
-- A ring buffer that is a list, and a controller that stops in the middle of a message.
use greybus_zephyr.Base.{
  ℕ, ◌≡◌, refl, true, false, some, List, [], ◌∷◌, ◌++◌, Bytes, arith, ltb, lt→ltb, ge→ltb,
  if◌then◌else◌, take, drop, length,
}
use greybus_zephyr.Messages.{Message}
use greybus_zephyr.Messages.Wire.{wire_bytes}
use greybus_zephyr.Samples.{zeroed, zeroed-HasMemory, message, message-IsSendable}
use greybus_zephyr.I2cTarget.{
  RingBuf, IsRingBuf, i2c_target_write_received_cb, i2c_target_stop_cb, gb_msg_process_cb,
  process_loop, gb_msg_rx_take,
}
use greybus_zephyr.I2cTarget.Events.{
  BusEvent, writes, stops, serve, NoneDropped, serve-messages, serve-stuck,
}

abbrev ring : ℕ → RingBuf Bytes
ring capacity = record {
  put = λ r b. if ltb (length r) capacity then (true, r ++ b ∷ []) else (false, r);
  size_get = λ r. length r;
  peek = λ r n. take n r;
  get = λ r n. (take n r, drop n r);
}

ring-IsRingBuf : (capacity : ℕ) → IsRingBuf (ring capacity) (λ r. r) capacity
ring-IsRingBuf capacity = record {
  put_room = λ r b h. rw (lt→ltb _ _ h) (refl, refl);
  put_full = λ r b h. rw (ge→ltb _ _ h) (refl, refl);
  size_is = λ r. refl;
  peek_is = λ r n. refl;
  get_is = λ r n. (refl, refl);
}

abbrev all_written : Bytes → List BusEvent
all_written [] = []
all_written (b ∷ bs) = writes b ∷ all_written bs

abbrev ping : ℕ × Message
ping = (1, message 0x02 (7 ∷ []))

abbrev events : List BusEvent
events = all_written (take 4 (wire_bytes ping)) ++ stops ∷ all_written (drop 4 (wire_bytes ping))

events-NoneDropped : NoneDropped (ring 256) zeroed events []
unfolding i2c_target_write_received_cb i2c_target_stop_cb gb_msg_process_cb process_loop
    gb_msg_rx_take
events-NoneDropped =
    (refl, (refl, (refl, (refl, (refl, (refl, (refl, (refl, (refl, (refl, (refl, tt)))))))))))

serve-messages_example :
    (r' : Bytes) × (serve (ring 256) zeroed (events ++ stops ∷ []) [] ≡ some (ping ∷ [], r'))
    × (r' ≡ [])
serve-messages_example =
    serve-messages (ring 256) (λ r. r) 256 (ring-IsRingBuf 256) zeroed zeroed-HasMemory events
      (ping ∷ []) [] (message-IsSendable 0x02 (7 ∷ []) 1 (omega arith) (omega arith), tt) refl refl
      events-NoneDropped

serve-stuck_example :
    (r' : Bytes) × (serve (ring 10) zeroed (writes 5 ∷ stops ∷ []) (take 10 (wire_bytes ping))
      ≡ some ([], r'))
    × (r' ≡ take 10 (wire_bytes ping))
serve-stuck_example =
    serve-stuck (ring 10) (λ r. r) 10 (ring-IsRingBuf 10) zeroed (writes 5 ∷ stops ∷ []) ping
      (take 10 (wire_bytes ping)) (message-IsSendable 0x02 (7 ∷ []) 1 (omega arith) (omega arith))
      (omega arith) refl
