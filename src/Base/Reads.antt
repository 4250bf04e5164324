-- ===== src/Base/Reads.antt =====
-- Little-endian words at an offset of a list of bytes; `none` is a read past its end.
use Prim.Native.Nat.{ℕ, ◌+◌, ◌*◌, ◌^◌, ◌≤◌}
use mathlib.Core.Path.{◌≡◌, refl}
use mathlib.Core.Option.{Option, some}
use native.Mathlib.Omega.{arith}
use greybus_zephyr.Base.Lists.{length, get_elem?, get_elem?-lt}
use greybus_zephyr.Base.Words.{Bytes}
use greybus_zephyr.Base.Fallible.{◌>>=◌}

-- A uint32_t at an offset.
abbrev pub word32_at : Bytes → ℕ → Option ℕ
word32_at payload i = do
  b0 ← get_elem? payload i
  b1 ← get_elem? payload (i + 1)
  b2 ← get_elem? payload (i + 2)
  b3 ← get_elem? payload (i + 3)
  some (b0 + b1 * 2 ^ 8 + b2 * 2 ^ 16 + b3 * 2 ^ 24)

pub word32_at-lt :
    (payload : Bytes) (i : ℕ) → i + 4 ≤ length payload → (w : ℕ) × (word32_at payload i ≡ some w)
word32_at-lt payload i h =
    let (b0, e0) = get_elem?-lt payload i (omega (arith, h)) in
    let (b1, e1) = get_elem?-lt payload (i + 1) (omega (arith, h)) in
    let (b2, e2) = get_elem?-lt payload (i + 2) (omega (arith, h)) in
    let (b3, e3) = get_elem?-lt payload (i + 3) (omega (arith, h)) in
    (b0 + b1 * 2 ^ 8 + b2 * 2 ^ 16 + b3 * 2 ^ 24, rw (e0, e1, e2, e3) refl)
