-- ===== src/Audio/Topology.antt =====
-- subsys/greybus/audio.c: the topology that the host reads, with one DAI, two controls and two widgets.
-- The buffer is cleared first, so that what no assignment sets is 0.
use greybus_zephyr.Base.{ℕ, ◌+◌, ◌-◌, ◌*◌, [], ◌∷◌, ◌++◌, Bytes, le16, le32, length, replicate}

abbrev pub control_id_volume : ℕ
control_id_volume = 1

abbrev pub control_id_mute : ℕ
control_id_mute = 2

abbrev pub widget_id_speaker : ℕ
widget_id_speaker = 3

abbrev pub widget_id_mic : ℕ
widget_id_mic = 4

abbrev pub topology_max_size : ℕ
topology_max_size = 512

-- The sizes of `struct gb_audio_topology`, `gb_audio_dai`, `gb_audio_control`, `gb_audio_widget`, which are packed.
abbrev pub topology_size : ℕ
topology_size = 24

abbrev pub dai_size : ℕ
dai_size = 120

abbrev pub control_size : ℕ
control_size = 75

abbrev pub widget_size : ℕ
widget_size = 68

unfoldable pub gb_audio_get_topology_size_bytes : ℕ
gb_audio_get_topology_size_bytes =
    topology_size + 1 * dai_size + 2 * control_size + 2 * widget_size + 0 * 4

-- A name of at most 31 characters in its 32 bytes.
abbrev pub name : Bytes → Bytes
name s = s ++ replicate (32 - length s) 0

-- "Zephyr-I2S", "Master Playback Volume", "Master Capture Switch", "Speaker" and "Mic"
abbrev pub zephyr_i2s : Bytes
zephyr_i2s = 0x5a ∷ 0x65 ∷ 0x70 ∷ 0x68 ∷ 0x79 ∷ 0x72 ∷ 0x2d ∷ 0x49 ∷ 0x32 ∷ 0x53 ∷ []

abbrev pub master_playback_volume : Bytes
master_playback_volume =
    0x4d ∷ 0x61 ∷ 0x73 ∷ 0x74 ∷ 0x65 ∷ 0x72 ∷ 0x20 ∷ 0x50 ∷ 0x6c ∷ 0x61 ∷ 0x79 ∷ 0x62 ∷ 0x61 ∷ 0x63
    ∷ 0x6b ∷ 0x20 ∷ 0x56 ∷ 0x6f ∷ 0x6c ∷ 0x75 ∷ 0x6d ∷ 0x65 ∷ []

abbrev pub master_capture_switch : Bytes
master_capture_switch =
    0x4d ∷ 0x61 ∷ 0x73 ∷ 0x74 ∷ 0x65 ∷ 0x72 ∷ 0x20 ∷ 0x43 ∷ 0x61 ∷ 0x70 ∷ 0x74 ∷ 0x75 ∷ 0x72 ∷ 0x65
    ∷ 0x20 ∷ 0x53 ∷ 0x77 ∷ 0x69 ∷ 0x74 ∷ 0x63 ∷ 0x68 ∷ []

abbrev pub speaker : Bytes
speaker = 0x53 ∷ 0x70 ∷ 0x65 ∷ 0x61 ∷ 0x6b ∷ 0x65 ∷ 0x72 ∷ []

abbrev pub mic : Bytes
mic = 0x4d ∷ 0x69 ∷ 0x63 ∷ []

-- The fields before `data`; the jack type is that of a headset.
abbrev pub topology_header : Bytes
topology_header =
    1 ∷ 2 ∷ 2 ∷ 0 ∷ le32 (1 * dai_size)
    ++ le32 (2 * control_size)
    ++ le32 (2 * widget_size)
    ++ le32 0
    ++ le32 3

abbrev pub dai : ℕ → Bytes
dai cport = name zephyr_i2s ++ le16 cport ++ replicate 86 0

-- The interface is that of a mixer, and the access is to read and to write.
abbrev pub control : Bytes → ℕ → Bytes
control s id = name s ++ id ∷ 0x02 ∷ 0 ∷ 0 ∷ le32 3 ++ replicate 35 0

abbrev pub widget : Bytes → ℕ → ℕ → Bytes
widget s id type = name s ++ replicate 32 0 ++ id ∷ type ∷ 0x02 ∷ 0 ∷ []

unfoldable pub topology : ℕ → Bytes
topology cport =
    topology_header
    ++ dai cport
    ++ control master_playback_volume control_id_volume
    ++ control master_capture_switch control_id_mute
    ++ widget speaker widget_id_speaker 0x0e
    ++ widget mic widget_id_mic 0x0c
