-- ===== src/Audio/Tests.antt =====
-- A codec on which nothing fails.
use greybus_zephyr.Base.{ℕ, ◌≡◌, ◌≢◌, refl, Option, some, List, [], ◌∷◌, arith, length, ℤ, pos}
use greybus_zephyr.Messages.{Message, gb_message_type}
use greybus_zephyr.Samples.{zeroed, zeroed-HasMemory, message, message-IsMessage}
use greybus_zephyr.Transport.Stateful.{Answered}
use greybus_zephyr.Audio.{Audio, CodecCall, gb_audio_handler}
use greybus_zephyr.Audio.Topology.{topology, gb_audio_get_topology_size_bytes}
use greybus_zephyr.Audio.Answers.{Moves, gb_audio_handler-Answered}
use greybus_zephyr.Audio.Streams.{AllKnown, control_ids, data_cport, topology-controls}

abbrev dev : CodecCall → ℤ
dev call = pos 0

abbrev fresh : Option Audio
fresh = some (record { state = 2 })

-- 48000 Hz, two channels, 16 bits.
abbrev set_pcm : Message
set_pcm = message 0x09 (1 ∷ 0 ∷ 4 ∷ 0 ∷ 0 ∷ 0 ∷ 0x80 ∷ 0xbb ∷ 0 ∷ 0 ∷ 2 ∷ 16 ∷ [])

gb_audio_handler-Answered_example :
    Answered set_pcm 6 (Moves fresh) (gb_audio_handler dev zeroed set_pcm 6 fresh)
gb_audio_handler-Answered_example =
    gb_audio_handler-Answered dev zeroed set_pcm 6 zeroed-HasMemory
      (message-IsMessage 0x09 _ (omega arith)) fresh

abbrev activate : Message
activate = message 0x0c (1 ∷ 0 ∷ [])

activate_is : gb_message_type activate ≡ 0x0c
unfolding gb_message_type
activate_is = refl

not_configured : ◌≢◌ {A = ℕ} 2 3
not_configured e = absurd (omega (arith, e))

topology-controls_example :
    (ids : List ℕ) × (control_ids (topology 6) ≡ some ids)
    × AllKnown ids
    × (length ids ≡ 2)
    × (data_cport (topology 6) ≡ some 6)
    × (length (topology 6) ≡ gb_audio_get_topology_size_bytes)
topology-controls_example = topology-controls 6 (omega arith)
