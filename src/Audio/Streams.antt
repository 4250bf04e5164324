-- ===== src/Audio/Streams.antt =====
-- subsys/greybus/audio.c: when streams are refused, and what the host reads in the topology.
use greybus_zephyr.Base.{
  ℕ, zero, suc, ◌+◌, ◌^◌, ◌<◌, ◌≡◌, ◌≢◌, refl, ap, not, Option, none, some, List, [], ◌∷◌, Bytes,
  word16, word16-lo8, ne→==, ◌==◌, get_elem?, length, word32_at, ℤ, ◌>>=◌,
}
use greybus_zephyr.Messages.{Message, gb_message_type, gb_op_invalid}
use greybus_zephyr.Transport.Stateful.{refuse}
use greybus_zephyr.Audio.Topology.{gb_audio_get_topology_size_bytes, topology}
use greybus_zephyr.Audio.Answers.{topology-len}
use greybus_zephyr.Audio.{
  Audio, CodecCall, Property, state_configured, in_state, Reaction, gb_audio_lookup_property,
  gb_audio_activate_tx, gb_audio_activate_rx, gb_audio_send_data, gb_audio_deactivate_tx,
  gb_audio_deactivate_rx, gb_audio_handler,
}

-- The requests that start, feed or stop a stream.
pub data IsStreamType : ℕ → Type 0 where
  activate_tx : IsStreamType 0x0c
  activate_rx : IsStreamType 0x10
  send_data : IsStreamType 0x15
  deactivate_tx : IsStreamType 0x0d
  deactivate_rx : IsStreamType 0x11

-- No driver data, or a device that is not configured.
abbrev pub IsUnconfigured : Option Audio → Type 0
IsUnconfigured none = Unit
IsUnconfigured (some a) = a.state ≢ state_configured

in_state-refuse :
    (req : Message) (cport : ℕ) (st : Option Audio) (act : Audio → Reaction)
    → IsUnconfigured st
    → in_state (λ s. not (s == state_configured)) req cport st act
      ≡ refuse req cport gb_op_invalid st
in_state-refuse req cport none act h = refl
in_state-refuse req cport (some a) act h = rw (ne→== a.state state_configured h) refl

-- A request that starts, feeds or stops a stream is answered as invalid, with no call of the
-- codec and the state unchanged, while there is no driver data or the device is not configured.
gb_audio_handler-unconfigured :
    (dev : CodecCall → ℤ) (alloc : ℕ → Option Bytes) (req : Message) (cport type : ℕ)
    (st : Option Audio)
    → IsStreamType type
    → gb_message_type req ≡ type
    → IsUnconfigured st
    → gb_audio_handler dev alloc req cport st ≡ refuse req cport gb_op_invalid st
unfolding gb_audio_handler gb_audio_activate_tx gb_audio_activate_rx gb_audio_send_data
    gb_audio_deactivate_tx gb_audio_deactivate_rx
gb_audio_handler-unconfigured dev alloc req cport type st activate_tx e h =
    rw e (in_state-refuse req cport st _ h)
gb_audio_handler-unconfigured dev alloc req cport type st activate_rx e h =
    rw e (in_state-refuse req cport st _ h)
gb_audio_handler-unconfigured dev alloc req cport type st send_data e h =
    rw e (in_state-refuse req cport st _ h)
gb_audio_handler-unconfigured dev alloc req cport type st deactivate_tx e h =
    rw e (in_state-refuse req cport st _ h)
gb_audio_handler-unconfigured dev alloc req cport type st deactivate_rx e h =
    rw e (in_state-refuse req cport st _ h)

-- The ids of the controls that a host reads, with their number and the place of the first one.
abbrev pub ids_at : Bytes → ℕ → ℕ → Option (List ℕ)
ids_at bytes zero at = some []
ids_at bytes (suc n) at = do
  id ← get_elem? bytes (at + 32)
  ids ← ids_at bytes n (at + 75)
  some (id ∷ ids)

-- The controls follow the DAIs, whose size the header has.
abbrev pub control_ids : Bytes → Option (List ℕ)
control_ids bytes = do
  num_controls ← get_elem? bytes 1
  size_dais ← word32_at bytes 4
  ids_at bytes num_controls (24 + size_dais)

-- The data cport of the first DAI, which follows the header and its name.
abbrev pub data_cport : Bytes → Option ℕ
data_cport bytes = do
  lo ← get_elem? bytes (24 + 32)
  hi ← get_elem? bytes (24 + 33)
  some (word16 lo hi)

-- Every id is one that a request to set a control can name.
abbrev pub AllKnown : List ℕ → Type 0
AllKnown [] = Unit
AllKnown (id ∷ ids) = ((prop : Property) × (gb_audio_lookup_property id ≡ some prop)) × AllKnown ids

-- The topology has exactly the size that is announced for it, and a host that finds the controls
-- behind the DAIs, by the number and the size in its header, reads two controls, each with an id
-- that a request to set a control can name, and reads the cport of the request as the data cport
-- of the DAI.
pub topology-controls :
    (cport : ℕ)
    → cport < 2 ^ 16
    → (ids : List ℕ) × (control_ids (topology cport) ≡ some ids)
      × AllKnown ids
      × (length ids ≡ 2)
      × (data_cport (topology cport) ≡ some cport)
      × (length (topology cport) ≡ gb_audio_get_topology_size_bytes)
unfolding topology gb_audio_lookup_property
topology-controls cport h = (
  1 ∷ 2 ∷ [],
  refl,
  ((_, refl), ((_, refl), tt)),
  refl,
  ap some (word16-lo8 cport h),
  topology-len cport,
)
