-- ===== src/Manifest/RoundTrip.antt =====
-- manifest.c: what was put into the manifest is what a reader finds in it.
use greybus_zephyr.Base.{
  ℕ, suc, ◌+◌, ◌-◌, ◌*◌, ◌%◌, ◌^◌, ◌≤◌, ◌<◌, ◌≡◌, ◌∙◌, refl, sym, ap, false, some, List, [], ◌∷◌,
  ◌++◌, Bytes, arith, le16, lo8, hi8, word16, word16-lo8, ltb, lt→ltb, ge→ltb, get_or, drop,
  replicate, length, length-append, length-replicate, append_assoc, take-length_append,
  drop-length_append, pos,
}
use greybus_zephyr.Manifest.{
  Config, Descriptor, interface, string, bundle, cport, string_size, descriptor_size, manifest_size,
  set_greybus_interface, set_greybus_string, set_bundles, set_cports, set_greybus_manifest_header,
  descriptors, manifest_create, read_descriptor, print_loop, manifest_print,
}

-- The bytes of a descriptor, and of several.
encode : Descriptor → Bytes
encode (interface v p) = le16 8 ++ 1 ∷ 0 ∷ v ∷ p ∷ 0 ∷ 0 ∷ []
encode (string id str) = set_greybus_string id str
encode (bundle id class) = le16 8 ++ 3 ∷ 0 ∷ id ∷ class ∷ 0 ∷ 0 ∷ []
encode (cport id b protocol) = le16 8 ++ 4 ∷ 0 ∷ id ∷ 0 ∷ b ∷ protocol ∷ []

encode_all : List Descriptor → Bytes
encode_all [] = []
encode_all (d ∷ ds) = encode d ++ encode_all ds

-- A string's length fits its byte.
abbrev IsShort : Descriptor → Type 0
IsShort (string id str) = length str < 256
IsShort _ = Unit

abbrev AllShort : List Descriptor → Type 0
AllShort [] = Unit
AllShort (d ∷ ds) = IsShort d × AllShort ds

length-string : (id : ℕ) (str : Bytes) → length (set_greybus_string id str) ≡ string_size str
length-string id str = omega (
  arith,
  length-append str (replicate (string_size str - descriptor_size (2 + length str)) 0),
  length-replicate {A = ℕ} (string_size str - descriptor_size (2 + length str)) 0,
)

-- The size field is the number of bytes.
size-encode :
    (d : Descriptor) (rest : Bytes)
    → IsShort d
    → word16 (get_or (encode d ++ rest) 0 0) (get_or (encode d ++ rest) 1 0) ≡ length (encode d)
unfolding encode
size-encode (interface v p) rest h = refl
size-encode (string id str) rest h = omega (arith, length-string id str)
size-encode (bundle id class) rest h = refl
size-encode (cport id b protocol) rest h = refl

read_descriptor-encode :
    (d : Descriptor) (rest : Bytes) → IsShort d → read_descriptor (encode d ++ rest) ≡ some d
unfolding encode read_descriptor
read_descriptor-encode (interface v p) rest h = refl
read_descriptor-encode (string id str) rest h =
    let short : length str % 256 ≡ length str = omega arith in
    rw (short, append_assoc)
      (rw
        (take-length_append str
          (replicate (string_size str - descriptor_size (2 + length str)) 0 ++ rest))
        refl)
read_descriptor-encode (bundle id class) rest h = refl
read_descriptor-encode (cport id b protocol) rest h =
    ap (λ i. some (cport i b protocol)) (omega arith)

encode-nonempty : (d : Descriptor) → 0 < length (encode d)
unfolding encode
encode-nonempty (interface v p) = omega arith
encode-nonempty (string id str) = omega (arith, length-string id str)
encode-nonempty (bundle id class) = omega arith
encode-nonempty (cport id b protocol) = omega arith

-- One round of the loop.
print_loop_step :
    (left n offset size : ℕ) (b rest : Bytes) (d : Descriptor) (ds : List Descriptor)
    → word16 (get_or b 0 0) (get_or b 1 0) ≡ n
    → drop n b ≡ rest
    → read_descriptor b ≡ some d
    → offset < size
    → print_loop left rest (offset + n) size ≡ some ds
    → print_loop (suc left) b offset size ≡ some (d ∷ ds)
unfolding print_loop
print_loop_step left n offset size b rest d ds n_is rest_is read inside e =
    rw (lt→ltb offset size inside, read, n_is, rest_is, e) refl

-- The loop reads the descriptors one by one, and comes to its end.
print_loop-encode_all :
    (ds : List Descriptor) (rest : Bytes) (offset size : ℕ)
    → AllShort ds
    → size ≡ offset + length (encode_all ds)
    → print_loop (suc (length ds)) (encode_all ds ++ rest) offset size ≡ some ds
unfolding encode_all
print_loop-encode_all [] rest offset size h e =
    unfold print_loop in rw (ge→ltb offset size (omega arith)) refl
print_loop-encode_all (d ∷ ds) rest offset size h e =
    let count = length-append (encode d) (encode_all ds) in
    rw append_assoc (
      print_loop_step (suc (length ds)) (length (encode d)) offset size
        (encode d ++ (encode_all ds ++ rest)) (encode_all ds ++ rest) d ds
        (size-encode d (encode_all ds ++ rest) h.0)
        (drop-length_append (encode d) (encode_all ds ++ rest))
        (read_descriptor-encode d (encode_all ds ++ rest) h.0)
        (omega (arith, encode-nonempty d, count))
        (print_loop-encode_all ds rest (offset + length (encode d)) size h.1
          (omega (arith, count))))

-- The bundles and the cports of a configuration, numbered from an index on.
pub bundles_from : ℕ → Bytes → List Descriptor
bundles_from i [] = []
bundles_from i (class ∷ classes) = bundle i class ∷ bundles_from (i + 1) classes

pub cports_from : ℕ → List (ℕ × ℕ) → List Descriptor
cports_from i [] = []
cports_from i ((b, protocol) ∷ cports) = cport i b protocol ∷ cports_from (i + 1) cports

-- What the manifest of a configuration is meant to hold.
abbrev pub contents : Config → List Descriptor
contents c =
    interface 1 2
    ∷ string 1 c.vendor
    ∷ string 2 c.product
    ∷ (bundles_from 0 c.bundles ++ cports_from 0 c.cports)

encode_all-append :
    (xs ys : List Descriptor) → encode_all (xs ++ ys) ≡ encode_all xs ++ encode_all ys
unfolding encode_all
encode_all-append [] ys = refl
encode_all-append (x ∷ xs) ys =
    rw (encode_all-append xs ys) (sym (append_assoc (encode x) (encode_all xs) (encode_all ys)))

set_bundles_lem :
    (i : ℕ) (classes : Bytes)
    → i + length classes ≤ 256
    → (set_bundles i classes ≡ encode_all (bundles_from i classes))
      × (length (set_bundles i classes) ≡ 8 * length classes)
      × AllShort (bundles_from i classes)
unfolding set_bundles encode_all encode bundles_from
set_bundles_lem i [] h = (refl, omega arith, tt)
set_bundles_lem i (class ∷ classes) h =
    let (same, count, short) = set_bundles_lem (i + 1) classes (omega arith) in
    let id_is : i % 256 ≡ i = omega arith in
    (rw (id_is, same) refl, omega (arith, count), (tt, short))

set_cports_lem :
    (i : ℕ) (cports : List (ℕ × ℕ))
    → i + length cports ≤ 256
    → (set_cports i cports ≡ encode_all (cports_from i cports))
      × (length (set_cports i cports) ≡ 8 * length cports)
      × AllShort (cports_from i cports)
unfolding set_cports encode_all encode cports_from
set_cports_lem i [] h = (refl, omega arith, tt)
set_cports_lem i ((b, protocol) ∷ cports) h =
    let (same, count, short) = set_cports_lem (i + 1) cports (omega arith) in
    let id_is : i % 256 ≡ i = omega arith in
    (rw (id_is, same) refl, omega (arith, count), (tt, short))

AllShort-append : (xs ys : List Descriptor) → AllShort xs → AllShort ys → AllShort (xs ++ ys)
AllShort-append [] ys h k = k
AllShort-append (x ∷ xs) ys h k = (h.0, AllShort-append xs ys h.1 k)

-- The strings and the numbers of bundles and cports fit their bytes, and the size its two.
pub record Fits (c : Config) : Type 0 where
  pub vendor_short : length c.vendor < 256
  pub product_short : length c.product < 256
  pub few_bundles : length c.bundles ≤ 256
  pub few_cports : length c.cports ≤ 256
  pub size_fits : manifest_size c < 2 ^ 16

length_parts :
    (v w x y z : Bytes)
    → length (v ++ (w ++ (x ++ (y ++ z))))
      ≡ length v + (length w + (length x + (length y + length z)))
length_parts v w x y z = omega (
  arith,
  length-append v (w ++ (x ++ (y ++ z))),
  length-append w (x ++ (y ++ z)),
  length-append x (y ++ z),
  length-append y z,
)

total_lem :
    (x t : Bytes) (n len : ℕ)
    → n ≡ 4 + length x
    → n ≤ len
    → length t ≡ len - n
    → suc (suc (suc (suc (length (x ++ t))))) ≡ len
total_lem x t n len n_is enough t_is = omega (arith, length-append x t)

module _ (c : Config) (f : Fits c) where
  descriptors_lem : descriptors c ≡ encode_all (contents c)
  unfolding encode_all encode
  descriptors_lem =
      let (b_is, _, _) = set_bundles_lem 0 c.bundles (omega (arith, f.few_bundles)) in
      let (c_is, _, _) = set_cports_lem 0 c.cports (omega (arith, f.few_cports)) in
      rw (b_is, c_is, encode_all-append) refl

  length-descriptors : length (descriptors c) ≡ manifest_size c - 4
  unfolding manifest_size
  length-descriptors =
      let (_, b_count, _) = set_bundles_lem 0 c.bundles (omega (arith, f.few_bundles)) in
      let (_, c_count, _) = set_cports_lem 0 c.cports (omega (arith, f.few_cports)) in
      length_parts set_greybus_interface (set_greybus_string 1 c.vendor)
        (set_greybus_string 2 c.product) (set_bundles 0 c.bundles) (set_cports 0 c.cports)
      ∙ rw (length-string 1 c.vendor, length-string 2 c.product, b_count, c_count) (omega arith)

  whole_size : (n : ℕ) → n ≡ manifest_size c - 4 → manifest_size c ≡ 4 + n
  unfolding manifest_size
  whole_size n e = omega arith

  contents-AllShort : AllShort (contents c)
  contents-AllShort =
      let (_, _, b_short) = set_bundles_lem 0 c.bundles (omega (arith, f.few_bundles)) in
      let (_, _, c_short) = set_cports_lem 0 c.cports (omega (arith, f.few_cports)) in
      (
        tt,
        (
          f.vendor_short,
          (
            f.product_short,
            AllShort-append (bundles_from 0 c.bundles) (cports_from 0 c.cports) b_short c_short,
          ),
        ),
      )

  -- A reader of the manifest's bytes finds its contents, whatever follows them.
  print_loop-descriptors :
      (rest : Bytes)
      → print_loop (suc (length (contents c))) (descriptors c ++ rest) 4 (manifest_size c)
        ≡ some (contents c)
  print_loop-descriptors rest =
      let sized : length (descriptors c) ≡ length (encode_all (contents c)) =
        ap (λ b. length b) descriptors_lem in
      ap (λ b. print_loop (suc (length (contents c))) (b ++ rest) 4 (manifest_size c))
        descriptors_lem
      ∙ print_loop-encode_all (contents c) rest 4 (manifest_size c) contents-AllShort
          (whole_size (length (descriptors c)) length-descriptors ∙ ap (λ n. 4 + n) sized)

  -- With strings shorter than 256 bytes, at most 256 bundles and 256 cports, and a size below
  -- 64 KiB: manifest_create fills any buffer that is long enough and returns the manifest's
  -- size, and the loop of manifest_print reads from it, in order, the interface, the two
  -- strings, every bundle with its class and every cport with its bundle and protocol, and then
  -- comes to its end.
  pub manifest_create-manifest_print :
      (len : ℕ)
      → manifest_size c ≤ len
      → (buf : Bytes) × (manifest_create c len ≡ (pos (manifest_size c), some buf))
        × (length buf ≡ len)
        × (manifest_print (suc (length (contents c))) buf ≡ some (contents c))
  unfolding manifest_create manifest_print
  manifest_create-manifest_print len enough =
      let room : ltb len (manifest_size c) ≡ false = ge→ltb len (manifest_size c) enough in
      let tail = replicate {A = ℕ} (len - manifest_size c) 0 in
      let size_is : word16 (lo8 (manifest_size c)) (hi8 (manifest_size c)) ≡ manifest_size c =
        word16-lo8 (manifest_size c) f.size_fits in
      (
        set_greybus_manifest_header c ++ (descriptors c ++ tail),
        rw room refl,
        total_lem (descriptors c) tail (manifest_size c) len
            (whole_size (length (descriptors c)) length-descriptors) enough
            (length-replicate {A = ℕ} (len - manifest_size c) 0),
        rw size_is (print_loop-descriptors tail),
      )
