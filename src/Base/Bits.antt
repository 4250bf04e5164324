-- ===== src/Base/Bits.antt =====
-- Bit operations: complement by a mask of ones.
use Prim.Native.Nat.{
  ℕ, zero, suc, ◌+◌, ◌-◌, ◌*◌, ◌/◌, ◌%◌, ◌≤◌, ◌<◌, bit_xor, digits, differ, bit_xor-bitwise,
}
use mathlib.Core.Path.{◌≡◌, refl, ◌∙◌}
use native.Mathlib.Omega.{arith}

-- The number of `k` binary ones.
abbrev ones : ℕ → ℕ
ones zero = 0
ones (suc k) = 2 * ones k + 1

differ-one : (d : ℕ) → d < 2 → differ d 1 ≡ 1 - d
differ-one zero h = refl
differ-one (suc zero) h = refl
differ-one (suc (suc d)) h = absurd (omega arith)

-- The digits of `a` against those of a mask that is at least as long.
digits-ones : (k n a : ℕ) → a ≤ n → a ≤ ones k → digits (λ b. b) differ n a (ones k) ≡ ones k - a
digits-ones k zero zero h m = omega arith
digits-ones k zero (suc a) h m = absurd (omega arith)
digits-ones k (suc n) zero h m = omega arith
digits-ones zero (suc n) (suc a) h m = absurd (omega arith)
digits-ones (suc k) (suc n) (suc a) h m =
    let half : (2 * ones k + 1) / 2 ≡ ones k = omega arith in
    let odd : (2 * ones k + 1) % 2 ≡ 1 = omega arith in
    rw (half, odd)
      (omega (
        arith,
        digits-ones k n (suc a / 2) (omega arith) (omega arith),
        differ-one (suc a % 2) (omega arith),
      ))

-- The complement of a uint16_t.
pub bit_xor-0xffff : (c : ℕ) → c < 65536 → bit_xor c 0xffff ≡ 65535 - c
bit_xor-0xffff c h =
    (λ i. bit_xor-bitwise c 0xffff i) ∙ digits-ones 16 c c (omega arith) (omega arith)
