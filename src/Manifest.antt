-- ===== src/Manifest.antt =====
-- subsys/greybus/platform/manifest.c: the manifest, which tells the AP the bundles and cports of the device.
-- The array of bundles comes from the devicetree and the configuration, as do the two strings; they are
-- the record `Config`. The buffer is zeroed and then filled from its start, one descriptor after another.
pub mod RoundTrip
mod Tests
use greybus_zephyr.Base.{
  ℕ, zero, suc, ◌+◌, ◌-◌, ◌*◌, ◌/◌, ◌%◌, ◌^◌, Bool, Option, none, some, List, [], ◌∷◌, ◌++◌, Bytes,
  le16, word16, ltb, ◌==◌, if◌then◌else◌, get_or, take, drop, replicate, length, ℤ, pos, neg, e2big,
  ◌>>=◌,
}

-- The bundle and the protocol of a cport.
pub record Config : Type 0 where
  pub version_major : ℕ
  pub version_minor : ℕ
  pub vendor : Bytes
  pub product : Bytes
  pub bundles : Bytes
  pub cports : List (ℕ × ℕ)

-- `struct greybus_descriptor`, by its type.
pub data Descriptor : Type 0 where
  interface : ℕ → ℕ → Descriptor
  string : ℕ → Bytes → Descriptor
  bundle : ℕ → ℕ → Descriptor
  cport : ℕ → ℕ → ℕ → Descriptor

-- The size of a descriptor whose part after the header has `n` bytes.
abbrev pub descriptor_size : ℕ → ℕ
descriptor_size n = 4 + n

-- `GREYBUS_MANIFEST_STRING_SIZE`: rounded up to a multiple of 4.
abbrev pub string_size : Bytes → ℕ
string_size s = (descriptor_size (2 + length s) + 3) / 4 * 4

unfoldable pub manifest_size : Config → ℕ
manifest_size c =
    4
    + descriptor_size 4
    + string_size c.vendor
    + string_size c.product
    + descriptor_size 4 * length c.cports
    + descriptor_size 4 * length c.bundles

abbrev pub set_greybus_descriptor_header : ℕ → ℕ → Bytes
set_greybus_descriptor_header size type = le16 (size % 2 ^ 16) ++ type ∷ 0 ∷ []

abbrev pub set_greybus_manifest_header : Config → Bytes
set_greybus_manifest_header c = le16 (manifest_size c) ++ c.version_major ∷ c.version_minor ∷ []

abbrev pub set_greybus_interface : Bytes
set_greybus_interface = set_greybus_descriptor_header (descriptor_size 4) 0x01 ++ 1 ∷ 2 ∷ 0 ∷ 0 ∷ []

-- The string's length is stored in one byte; what the rounding adds stays zero.
abbrev pub set_greybus_string : ℕ → Bytes → Bytes
set_greybus_string id str =
    set_greybus_descriptor_header (string_size str) 0x02
    ++ (length str % 256)
      ∷ id
      ∷ (str ++ replicate (string_size str - descriptor_size (2 + length str)) 0)

abbrev pub set_greybus_bundle : ℕ → ℕ → Bytes
set_greybus_bundle id class =
    set_greybus_descriptor_header (descriptor_size 4) 0x03 ++ (id % 256) ∷ class ∷ 0 ∷ 0 ∷ []

-- The id is a uint8_t here, and stored in two bytes.
abbrev pub set_greybus_cport : ℕ → ℕ → ℕ → Bytes
set_greybus_cport id bundle_id protocol =
    set_greybus_descriptor_header (descriptor_size 4) 0x04
    ++ (id % 256) ∷ 0 ∷ bundle_id ∷ protocol ∷ []

-- The two loops, from an index on.
pub set_bundles : ℕ → Bytes → Bytes
set_bundles i [] = []
set_bundles i (class ∷ classes) = set_greybus_bundle i class ++ set_bundles (i + 1) classes

pub set_cports : ℕ → List (ℕ × ℕ) → Bytes
set_cports i [] = []
set_cports i ((bundle_id, protocol) ∷ cports) =
    set_greybus_cport i bundle_id protocol ++ set_cports (i + 1) cports

abbrev pub descriptors : Config → Bytes
descriptors c =
    set_greybus_interface
    ++ (set_greybus_string 1 c.vendor
        ++ (set_greybus_string 2 c.product ++ (set_bundles 0 c.bundles ++ set_cports 0 c.cports)))

-- The result, and the buffer of `len` bytes where it was written; a short buffer is left alone.
pub manifest_create : Config → ℕ → ℤ × Option Bytes
unfolding set_bundles set_cports
manifest_create c len = if ltb len (manifest_size c) then (neg e2big, none) else (
  pos (manifest_size c),
  some (set_greybus_manifest_header c ++ (descriptors c ++ replicate (len - manifest_size c) 0)),
)

-- What `manifest_print` reads at a descriptor.
unfoldable pub read_descriptor : Bytes → Option Descriptor
read_descriptor b =
    if get_or b 2 0 == 0x01
    then some (interface (get_or b 4 0) (get_or b 5 0))
    else if get_or b 2 0 == 0x02
    then some (string (get_or b 5 0) (take (get_or b 4 0) (drop 6 b)))
    else if get_or b 2 0 == 0x03
    then some (bundle (get_or b 4 0) (get_or b 5 0))
    else if get_or b 2 0 == 0x04
    then some (cport (word16 (get_or b 4 0) (get_or b 5 0)) (get_or b 6 0) (get_or b 7 0))
    else none

-- Its loop, with the rounds left, the buffer from the current offset on, that offset, and the manifest's
-- size. It stops at a descriptor of an unknown type; `none` is a loop that has not come to its end.
unfoldable pub print_loop : ℕ → Bytes → ℕ → ℕ → Option (List Descriptor)
print_loop zero b offset size = none
print_loop (suc left) b offset size =
    let desc_size = word16 (get_or b 0 0) (get_or b 1 0) in
    let rest = print_loop left (drop desc_size b) (offset + desc_size) size in
    if ltb offset size
    then elim (read_descriptor b) [ none ↦ some [] | some d ↦ (do ds ← rest; some (d ∷ ds)) ]
    else some []

unfoldable pub manifest_print : ℕ → Bytes → Option (List Descriptor)
manifest_print fuel buf = print_loop fuel (drop 4 buf) 4 (word16 (get_or buf 0 0) (get_or buf 1 0))
