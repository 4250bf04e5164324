-- ===== src/Core/Cports.antt =====
-- subsys/greybus/greybus-core.c and greybus_cport.c: cports, their drivers, and the receive queue.
-- The transport backend is a parameter: what `listen` and `stop_listening` return, the second being
-- optional. `none` is undefined behaviour: a read through a NULL pointer.
use greybus_zephyr.Base.{
  ℕ, ◌*◌, Bool, true, false, Option, none, some, List, [], ◌∷◌, ◌++◌, ◌==◌, if◌then◌else◌, ltb,
  get_elem?, length, ℤ, pos, neg, einval, enotconn, ◌>>=◌,
}
use greybus_zephyr.Messages.{Message, gb_message_type, gb_op_success}
use greybus_zephyr.Transport.{
  Effects, device, dealloc, request, gb_transport_message_empty_response_send,
}

-- `struct gb_driver`: whether its callbacks are there.
pub record Driver : Type 0 where
  pub has_connected : Bool
  pub has_disconnected : Bool
  pub has_op_handler : Bool

-- The array `cports`, of which only the driver pointer of an entry matters here.
abbrev pub Cports : Type 0
Cports = List (Option Driver)

pub record Backend : Type 0 where
  pub on_listen : ℕ → ℤ
  pub on_stop_listening : Option (ℕ → ℤ)

-- Calls of the backend and of the drivers' callbacks.
pub data CoreCall : Type 0 where
  listen stop_listening connected disconnected : ℕ → CoreCall
  op_handler : ℕ → Message → CoreCall

pub data Event : Type 0 where
  evt_connected evt_disconnected : Event

-- NULL is `none`; an entry of the array is its driver pointer.
unfoldable pub gb_cport_get : Cports → ℕ → Option (Option Driver)
gb_cport_get cports cport = get_elem? cports cport

unfoldable pub gb_listen : Cports → Backend → ℕ → Effects CoreCall × ℤ
unfolding gb_cport_get
gb_listen cports backend cport = elim (gb_cport_get cports cport) [
  | none ↦ ([], neg einval)
  | some driver ↦ elim driver [
    | none ↦ ([], neg einval)
    | some _ ↦ (device (listen cport) ∷ [], backend.on_listen cport)
  ]
]

unfoldable pub gb_stop_listening : Cports → Backend → ℕ → Effects CoreCall × ℤ
unfolding gb_cport_get
gb_stop_listening cports backend cport = elim (gb_cport_get cports cport) [
  | none ↦ ([], neg einval)
  | some driver ↦ elim driver [
    | none ↦ ([], neg einval)
    | some _ ↦ elim backend.on_stop_listening [
      | none ↦ ([], pos 0)
      | some stop ↦ (device (stop_listening cport) ∷ [], stop cport)
    ]
  ]
]

-- The switch on the event; its default case has no event.
unfoldable pub notify_driver : ℕ → Event → Driver → Effects CoreCall
notify_driver cport evt_connected driver =
    if driver.has_connected then device (connected cport) ∷ [] else []
notify_driver cport evt_disconnected driver =
    if driver.has_disconnected then device (disconnected cport) ∷ [] else []

unfoldable pub gb_notify : Cports → ℕ → Event → Effects CoreCall × ℤ
unfolding gb_cport_get notify_driver
gb_notify cports cport event = elim (gb_cport_get cports cport) [
  | none ↦ ([], neg einval)
  | some driver ↦ elim driver [
    | none ↦ ([], neg enotconn)
    | some d ↦ (notify_driver cport event d, pos 0)
  ]
]

-- `GB_PING_TYPE`
abbrev pub gb_ping_type : ℕ
gb_ping_type = 0x00

-- Not for a ping, the handler is called through the cport and its driver, which are not tested.
unfoldable pub gb_process_msg : Cports → Message → ℕ → Option (Effects CoreCall)
unfolding gb_cport_get gb_message_type
gb_process_msg cports msg cport =
    if gb_message_type msg == gb_ping_type
    then some (gb_transport_message_empty_response_send msg gb_op_success cport)
    else (do
      entry ← gb_cport_get cports cport
      driver ← entry
      if driver.has_op_handler then some (device (op_handler cport msg) ∷ []) else none)

-- `gb_rx_msgq`, oldest first.
abbrev pub Queue : Type 0
Queue = List (ℕ × Message)

-- Two messages per cport.
abbrev pub queue_size : Cports → ℕ
queue_size cports = length cports * 2

-- `k_msgq_put` with K_FOREVER waits while the queue is full: the call returns nothing then.
pub data Received : Type 0 where
  accepted : Queue → Received
  dropped : Effects CoreCall → Received
  waits : Received

unfoldable pub greybus_rx_handler : Cports → ℕ → Message → Queue → Option Received
unfolding gb_cport_get
greybus_rx_handler cports cport msg queue = do
  entry ← gb_cport_get cports cport
  elim entry [
    | none ↦ some (dropped (dealloc request ∷ []))
    | some driver ↦ some (
        if driver.has_op_handler
        then if ltb (length queue) (queue_size cports)
          then accepted (queue ++ (cport, msg) ∷ [])
          else waits
        else dropped (dealloc request ∷ []))
  ]

-- The result of `transport->init`, NULL being `none`; the cports' own initialisation cannot fail. With
-- the result, whether the thread of the receive queue was started.
unfoldable pub gb_init : Option ℤ → ℤ × Bool
gb_init none = (neg einval, false)
gb_init (some init_result) = (init_result, true)
