-- ===== src/Hdlc/Crc.antt =====
-- CRC-16/CCITT, reflected, on one byte, as a concrete function: it meets what hdlc.c relies on.
-- The checksum is kept in two bytes; `f` is the byte that the shifted copies are made of.
use greybus_zephyr.Base.{
  ℕ, ◌-◌, ◌*◌, ◌/◌, ◌^◌, ◌<◌, ◌≡◌, refl, bit_xor, arith, lo8, hi8, word16, ◌==◌, ==_iff, all_below,
  all_below_sound, true,
}
use greybus_zephyr.Base.Bits.{bit_xor-0xffff}
use greybus_zephyr.Hdlc.{CrcCcitt}

abbrev mix : ℕ → ℕ → ℕ
mix lo byte = let e = bit_xor lo byte in lo8 (bit_xor e (lo8 (e * 16)))

unfoldable pub ccitt : ℕ → ℕ → ℕ
ccitt crc byte =
    let f = mix (lo8 crc) byte in
    word16 (lo8 (bit_xor (hi8 crc) (bit_xor (lo8 (f * 8)) (f / 16)))) (lo8 (bit_xor f (f / 32)))

-- The two bytes of the complemented checksum, fed back, leave two fixed values in `f`.
first_table : all_below 256 (λ lo. mix lo (255 - lo) == 0x0f) ≡ true
unfolding all_below
first_table = refl

second_table : all_below 256 (λ hi. mix (lo8 (bit_xor hi 0x78)) (255 - hi) == 0xf7) ≡ true
unfolding all_below
second_table = refl

first-mix : (lo : ℕ) → lo < 256 → mix lo (255 - lo) ≡ 0x0f
first-mix lo h = (==_iff _ _).0 (all_below_sound 256 _ lo first_table h)

second-mix : (hi : ℕ) → hi < 256 → mix (lo8 (bit_xor hi 0x78)) (255 - hi) ≡ 0xf7
second-mix hi h = (==_iff _ _).0 (all_below_sound 256 _ hi second_table h)

ccitt_first : (crc : ℕ) → ccitt crc (255 - lo8 crc) ≡ word16 (lo8 (bit_xor (hi8 crc) 0x78)) 0x0f
unfolding ccitt
ccitt_first crc = rw (first-mix (lo8 crc) (omega arith))

ccitt_second : (hi : ℕ) → hi < 256 → ccitt (word16 (lo8 (bit_xor hi 0x78)) 0x0f) (255 - hi) ≡ 0xf0b8
unfolding ccitt
ccitt_second hi h =
    let x = lo8 (bit_xor hi 0x78) in
    let low : lo8 (word16 x 0x0f) ≡ x = omega arith in
    let high : hi8 (word16 x 0x0f) ≡ 0x0f = omega arith in rw (low, high) (rw (second-mix hi h))

ccitt_residue :
    (crc : ℕ)
    → crc < 2 ^ 16
    → ccitt (ccitt crc (lo8 (bit_xor crc 0xffff))) (lo8 (bit_xor crc 0xffff / 2 ^ 8)) ≡ 0xf0b8
ccitt_residue crc h =
    let low : lo8 (65535 - crc) ≡ 255 - lo8 crc = omega arith in
    let high : lo8 ((65535 - crc) / 2 ^ 8) ≡ 255 - hi8 crc = omega arith in
    rw (bit_xor-0xffff crc h)
      (rw (low, high) (rw (ccitt_first crc) (ccitt_second (hi8 crc) (omega arith))))

ccitt-lt : (crc byte : ℕ) → ccitt crc byte < 2 ^ 16
unfolding ccitt
ccitt-lt crc byte = omega arith

pub ccitt-CrcCcitt : CrcCcitt ccitt
ccitt-CrcCcitt = record { in_range = ccitt-lt; residue = ccitt_residue }
