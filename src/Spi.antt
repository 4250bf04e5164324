-- ===== src/Spi.antt =====
-- subsys/greybus/spi.c: the SPI protocol. A transfer request is a list of `struct gb_spi_transfer`, followed by
-- the bytes of its writes. The driver with what is behind it is the parameter `bus`.
-- `none` is undefined behaviour: a read past the payload, a driver call past a buffer or into a NULL reply.
pub mod Requests
pub mod Loop
pub mod Transfer
mod Tests
use greybus_zephyr.Base.{
  ℕ, zero, suc, ◌+◌, ◌*◌, ◌%◌, ◌^◌, bit_and, bit_or, Bool, true, false, replicate, not, ◌&&◌,
  Option, none, some, List, [], ◌∷◌, ◌++◌, map, Bytes, le16, le32, word16, ltb, ◌==◌, if◌then◌else◌,
  get_elem?, take, drop, length, overwrite, ℤ, is_neg, size_mod, ◌>>=◌,
}
use greybus_zephyr.Messages.{
  gb_op_internal, Message, gb_response, gb_message_alloc, gb_message_type, gb_op_success,
  gb_op_invalid,
}
use greybus_zephyr.Transport.{
  Effects, dealloc, device, request, response, gb_transport_message_send,
  gb_transport_message_empty_response_send, gb_transport_message_response_success_send,
}

abbrev pub word32 : ℕ → ℕ → ℕ → ℕ → ℕ
word32 b0 b1 b2 b3 = b0 + b1 * 2 ^ 8 + b2 * 2 ^ 16 + b3 * 2 ^ 24

-- `struct gb_spi_transfer`
pub record SpiTransfer : Type 0 where
  pub speed_hz : ℕ
  pub len : ℕ
  pub delay_usecs : ℕ
  pub cs_change : ℕ
  pub bits_per_word : ℕ
  pub xfer_flags : ℕ

-- `struct spi_config`: its operation has the bits of the mode, and those of every word size so far.
pub record SpiConfig : Type 0 where
  pub slave : ℕ
  pub mode : ℕ
  pub frequency : ℕ
  pub word : ℕ

-- The calls of the driver: what is written, and how many bytes are read.
pub data SpiCall : Type 0 where
  spi_transceive : SpiConfig → Bytes → SpiCall
  spi_read : SpiConfig → ℕ → SpiCall
  spi_write : SpiConfig → Bytes → SpiCall
  k_sleep : ℕ → SpiCall

-- How the loop ends: with the status of a refusal, or with the reply's payload filled.
pub data Ending : Type 0 where
  failed : ℕ → Ending
  transferred : Bytes → Ending

-- The transfer that a pointer into the payload points at, and the pointer to the next one.
unfoldable pub next_transfer : Bytes → Option (SpiTransfer × Bytes)
next_transfer (s0 ∷ s1 ∷ s2 ∷ s3 ∷ l0 ∷ l1 ∷ l2 ∷ l3 ∷ d0 ∷ d1 ∷ cs ∷ bits ∷ flags ∷ rest) = some (
  record {
    speed_hz = word32 s0 s1 s2 s3;
    len = word32 l0 l1 l2 l3;
    delay_usecs = word16 d0 d1;
    cs_change = cs;
    bits_per_word = bits;
    xfer_flags = flags;
  },
  rest,
)
next_transfer _ = none

abbrev pub is_read : SpiTransfer → Bool
is_read t = not (bit_and t.xfer_flags 0x01 == 0)

abbrev pub is_write : SpiTransfer → Bool
is_write t = not (bit_and t.xfer_flags 0x02 == 0)

-- The first loop, with the rounds left; the sum is a size_t.
unfoldable pub response_size : ℕ → Bytes → ℕ → Option ℕ
response_size zero transfers resp_size = some resp_size
response_size (suc n) transfers resp_size = next_transfer transfers >>= λ found.
    response_size n found.1
      (if is_read found.0 then (resp_size + found.0.len) % size_mod else resp_size)

-- The driver call of a transfer; `none` where the flags name none.
abbrev pub call_of : SpiConfig → SpiTransfer → Bytes → Option SpiCall
call_of conf t trans_data =
    if is_read t
    then if is_write t
      then some (spi_transceive conf (take t.len trans_data))
      else some (spi_read conf t.len)
    else if is_write t
    then some (spi_write conf (take t.len trans_data))
    else none

-- The configuration for a transfer.
abbrev pub configured : SpiConfig → SpiTransfer → SpiConfig
configured conf t = record conf { frequency = t.speed_hz; word = bit_or conf.word t.bits_per_word }

-- `struct gb_spi_driver_data`: the name of its device, the devices' configurations as they are sent, their number.
pub record SpiDriverData : Type 0 where
  pub dev_name : Bytes
  pub devices : List Bytes
  pub device_num : ℕ

unfoldable pub gb_spi_protocol_master_config :
    (ℕ → Option Bytes) → ℕ → Message → Option (Effects SpiCall)
gb_spi_protocol_master_config alloc cport req =
    gb_transport_message_response_success_send alloc req
      (le32 0 ++ le32 738 ++ le32 24000000 ++ le16 0 ++ le16 0 ++ 1 ∷ []) cport

-- The loop over the devices, with the rounds left: whether it returns.
unfoldable pub device_found : SpiDriverData → ℕ → ℕ → Bool
device_found driver chip_select zero = false
device_found driver chip_select (suc n) =
    if driver.device_num == chip_select then true else device_found driver chip_select n

unfoldable pub gb_spi_protocol_device_config :
    SpiDriverData → (ℕ → Option Bytes) → ℕ → Message → Option (Effects SpiCall)
gb_spi_protocol_device_config driver alloc cport req = do
  chip_select ← get_elem? req.payload 0
  resp_data ←
      if device_found driver chip_select driver.device_num
      then get_elem? driver.devices chip_select
      else some (le16 0 ++ 0 ∷ le32 24000000 ++ 0 ∷ take 32 (driver.dev_name ++ replicate 32 0))
  gb_transport_message_response_success_send alloc req resp_data cport

-- What follows the second loop; a reply that is NULL is read when it is sent.
abbrev pub finish : Message → ℕ → Option Message → List SpiCall × Ending → Option (Effects SpiCall)
finish req cport none (cs, transferred payload) = none
finish req cport (some resp) (cs, transferred payload) = some (
    map device cs
    ++ (gb_transport_message_send (record resp { payload = payload }) cport
        ++ dealloc request ∷ dealloc response ∷ []))
finish req cport resp (cs, failed status) = some (
    map device cs
    ++ (gb_transport_message_empty_response_send req status cport ++ dealloc response ∷ []))

-- The memory behind the reply's payload.
abbrev pub room_of : Option Message → Bytes
room_of none = []
room_of (some resp) = resp.payload

module _ {S : Type 0} (bus : S → SpiCall → (ℤ × Bytes) × S) where
  -- What a round does about its call: `next` is the next round, with the state of the bus and the bytes read.
  abbrev pub after_call :
      SpiTransfer
      → Option SpiCall
      → S
      → (S → Bytes → Option (List SpiCall × Ending))
      → Option (List SpiCall × Ending)
  after_call t none s next = some ([], failed gb_op_invalid)
  after_call t (some call) s next =
      let got = bus s call in
      let rest = next got.1 got.0.1 in
      if is_neg got.0.0
      then some (call ∷ [], failed gb_op_internal)
      else rest >>= λ r. some (call ∷ k_sleep t.delay_usecs ∷ r.0, r.1)

  -- The second loop: the transfers left, the data to write, and the part of the reply before `resp_pos` and
  -- from there on.
  unfoldable pub transfer_loop :
      ℕ → Bytes → Bytes → Bytes → Bytes → SpiConfig → S → Option (List SpiCall × Ending)
  transfer_loop zero transfers trans_data filled room conf s =
      some ([], transferred (filled ++ room))
  transfer_loop (suc n) transfers trans_data filled room conf s =
      next_transfer transfers >>= λ found.
      let t = found.0 in
      let conf' = configured conf t in
      if not (t.cs_change == 0)
      then some ([], failed gb_op_internal)
      else if is_write t && ltb (length trans_data) t.len
      then none
      else if is_read t && ltb (length room) t.len
      then none
      else after_call t (call_of conf' t trans_data) s λ s' got.
        transfer_loop n found.1 (if is_write t then drop t.len trans_data else trans_data)
          (if is_read t then filled ++ take t.len (overwrite room got) else filled)
          (if is_read t then drop t.len room else room) conf' s'

  -- What follows the request's fields.
  unfoldable pub transfer :
      (ℕ → Option Bytes) → ℕ → Message → ℕ → ℕ → ℕ → S → Option (Effects SpiCall)
  transfer alloc cport req chip_select mode count s =
      if not (bit_and mode 0xd0 == 0)
      then some (gb_transport_message_empty_response_send req gb_op_internal cport)
      else (do
        resp_size ← response_size count (drop 4 req.payload) 0
        let resp =
            gb_message_alloc alloc resp_size (gb_response 0x04) req.header.operation_id
              gb_op_success
        r ←
            transfer_loop count (drop 4 req.payload) (drop (13 * count) (drop 4 req.payload)) []
              (room_of resp)
              (record { slave = chip_select; mode = bit_and mode 0x2f; frequency = 0; word = 0 }) s
        finish req cport resp r)

  unfoldable pub gb_spi_protocol_transfer :
      (ℕ → Option Bytes) → ℕ → Message → S → Option (Effects SpiCall)
  gb_spi_protocol_transfer alloc cport req s = do
    chip_select ← get_elem? req.payload 0
    mode ← get_elem? req.payload 1
    c0 ← get_elem? req.payload 2
    c1 ← get_elem? req.payload 3
    transfer alloc cport req chip_select mode (word16 c0 c1) s

  unfoldable pub gb_spi_handler :
      SpiDriverData → (ℕ → Option Bytes) → Message → ℕ → S → Option (Effects SpiCall)
  unfolding gb_message_type
  gb_spi_handler driver alloc msg cport s =
      if gb_message_type msg == 0x02
      then gb_spi_protocol_master_config alloc cport msg
      else if gb_message_type msg == 0x03
      then gb_spi_protocol_device_config driver alloc cport msg
      else if gb_message_type msg == 0x04
      then gb_spi_protocol_transfer alloc cport msg s
      else some (gb_transport_message_empty_response_send msg gb_op_invalid cport)
