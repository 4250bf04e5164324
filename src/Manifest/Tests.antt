-- ===== src/Manifest/Tests.antt =====
-- The manifest of a small device: two bundles and two cports, and strings of three and five bytes.
use greybus_zephyr.Base.{suc, ◌≡◌, refl, some, [], ◌∷◌, Bytes, pos, length, arith}
use greybus_zephyr.Manifest.{Config, manifest_size, manifest_create, manifest_print}
use greybus_zephyr.Manifest.RoundTrip.{contents, Fits, manifest_create-manifest_print}

abbrev device : Config
device = record {
  version_major = 0;
  version_minor = 1;
  vendor = 65 ∷ 66 ∷ 67 ∷ [];
  product = 66 ∷ 69 ∷ 65 ∷ 71 ∷ 76 ∷ [];
  bundles = 0x00 ∷ 0x0a ∷ [];
  cports = (0, 0x00) ∷ (1, 0x02) ∷ [];
}

size-device : manifest_size device ≡ 68
unfolding manifest_size
size-device = refl

device-Fits : Fits device
device-Fits = record {
  vendor_short = omega arith;
  product_short = omega arith;
  few_bundles = omega arith;
  few_cports = omega arith;
  size_fits = omega (arith, size-device);
}

manifest_create-manifest_print_example :
    (buf : Bytes) × (manifest_create device 80 ≡ (pos (manifest_size device), some buf))
    × (length buf ≡ 80)
    × (manifest_print (suc (length (contents device))) buf ≡ some (contents device))
manifest_create-manifest_print_example =
    manifest_create-manifest_print device device-Fits 80 (omega (arith, size-device))
