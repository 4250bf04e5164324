-- ===== src/I2c.antt =====
-- subsys/greybus/i2c.c: the I2C protocol. A transfer is a list of operations, `struct gb_i2c_transfer_op`,
-- followed by the bytes of its writes. The host is little-endian, so the fields are used as they are.
pub mod Replies
pub mod Requests
pub mod Transfer
mod Tests
use greybus_zephyr.Base.{
  ℕ, zero, suc, ◌+◌, ◌*◌, bit_and, Option, none, some, List, [], ◌∷◌, ◌++◌, map, Bytes, le32,
  word16, ltb, Bool, ◌==◌, if◌then◌else◌, get_or, take, drop, length, overwrite, ℤ, is_neg, ◌>>=◌,
}
use greybus_zephyr.Core.{gb_errno_to_op_result}
use greybus_zephyr.Messages.{
  Message, gb_response, gb_message_type, gb_op_success, gb_op_no_memory, gb_op_invalid,
  gb_message_alloc,
}
use greybus_zephyr.Transport.{
  Effects, dealloc, device, response, gb_transport_message_send,
  gb_transport_message_empty_response_send, gb_transport_message_response_success_send,
}

-- `struct gb_i2c_transfer_op`
pub record TransferOp : Type 0 where
  pub addr : ℕ
  pub flags : ℕ
  pub size : ℕ

-- The calls of the bus driver: a read of so many bytes, and a write of these bytes, each with the address.
pub data BusCall : Type 0 where
  i2c_read : ℕ → ℕ → BusCall
  i2c_write : Bytes → ℕ → BusCall

-- How the loop ends: with the error of a driver call, or with the reply's payload filled.
pub data Ending : Type 0 where
  failed : ℤ → Ending
  transferred : Bytes → Ending

-- `GB_I2C_FUNC_I2C` and the eight functions of SMBus.
abbrev pub functionality : ℕ
functionality = 0x0c7e0001

unfoldable pub gb_i2c_protocol_functionality :
    (ℕ → Option Bytes) → ℕ → Message → Option (Effects BusCall)
gb_i2c_protocol_functionality alloc cport req =
    gb_transport_message_response_success_send alloc req (le32 functionality) cport

-- The operation that a pointer into the payload points at, and the pointer to the next one.
unfoldable pub next_op : Bytes → Option (TransferOp × Bytes)
next_op (a0 ∷ a1 ∷ f0 ∷ f1 ∷ s0 ∷ s1 ∷ ops) =
    some (record { addr = word16 a0 a1; flags = word16 f0 f1; size = word16 s0 s1 }, ops)
next_op _ = none

-- `desc->flags & GB_I2C_M_RD`
abbrev pub is_write : TransferOp → Bool
is_write op = bit_and op.flags 0x0001 == 0

-- The first loop, with the rounds left. A count of 16 bits of sizes of 16 bits fits a size_t.
unfoldable pub response_size : ℕ → Bytes → ℕ → Option ℕ
response_size zero ops resp_size = some resp_size
response_size (suc n) ops resp_size = next_op ops >>= λ found.
    response_size n found.1 (if is_write found.0 then resp_size else resp_size + found.0.size)

-- What follows the second loop.
abbrev pub finish : Message → ℕ → Message → List BusCall × Ending → Effects BusCall
finish req cport resp (cs, transferred payload) =
    map device cs
    ++ (gb_transport_message_send (record resp { payload = payload }) cport
        ++ dealloc response ∷ [])
finish req cport resp (cs, failed ret) =
    map device cs
    ++ dealloc response
      ∷ gb_transport_message_empty_response_send req (gb_errno_to_op_result ret) cport

-- `bus` is the driver with the bus behind it, whose state is `S`: what a call returns, and what a read brings.
module _ {S : Type 0} (bus : S → BusCall → (ℤ × Bytes) × S) where
  -- The second loop: the operations left, the data to write, the part of the reply before `read_data`
  -- and from there on. A driver call past either buffer is undefined.
  unfoldable pub transfer_ops :
      ℕ → Bytes → Bytes → Bytes → Bytes → S → Option (List BusCall × Ending)
  transfer_ops zero ops write_data filled read_data s = some ([], transferred (filled ++ read_data))
  transfer_ops (suc n) ops write_data filled read_data s = next_op ops >>= λ found.
      let op = found.0 in
      if is_write op
      then (let call = i2c_write (take op.size write_data) op.addr in
          let got = bus s call in
          let rest = transfer_ops n found.1 (drop op.size write_data) filled read_data got.1 in
          if ltb (length write_data) op.size
          then none
          else if is_neg got.0.0
          then some (call ∷ [], failed got.0.0)
          else rest >>= λ r. some (call ∷ r.0, r.1))
      else (let call = i2c_read op.size op.addr in
          let got = bus s call in
          let rest =
            transfer_ops n found.1 write_data (filled ++ take op.size (overwrite read_data got.0.1))
              (drop op.size read_data) got.1 in
          if ltb (length read_data) op.size
          then none
          else if is_neg got.0.0
          then some (call ∷ [], failed got.0.0)
          else rest >>= λ r. some (call ∷ r.0, r.1))

  unfoldable pub gb_i2c_protocol_transfer :
      (ℕ → Option Bytes) → ℕ → Message → S → Option (Effects BusCall)
  gb_i2c_protocol_transfer alloc cport req s =
      if ltb (length req.payload) 2
      then none
      else (let op_count = word16 (get_or req.payload 0 0) (get_or req.payload 1 0) in
          let ops = drop 2 req.payload in
          response_size op_count ops 0 >>= λ resp_size.
          elim (gb_message_alloc alloc resp_size (gb_response req.header.type)
            req.header.operation_id gb_op_success) [
              | none ↦ some (gb_transport_message_empty_response_send req gb_op_no_memory cport)
              | some resp ↦
                  transfer_ops op_count ops (drop (6 * op_count) ops) [] resp.payload s >>= λ r.
                  some (finish req cport resp r)
            ])

  unfoldable pub gb_i2c_handler : (ℕ → Option Bytes) → Message → ℕ → S → Option (Effects BusCall)
  unfolding gb_message_type
  gb_i2c_handler alloc msg cport s =
      if gb_message_type msg == 0x02
      then gb_i2c_protocol_functionality alloc cport msg
      else if gb_message_type msg == 0x05
      then gb_i2c_protocol_transfer alloc cport msg s
      else some (gb_transport_message_empty_response_send msg gb_op_invalid cport)
