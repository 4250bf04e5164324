-- ===== src/Base/Words.antt =====
-- Bytes and little-endian words of 16 and 32 bits.
use Prim.Native.Nat.{ℕ, ◌+◌, ◌*◌, ◌/◌, ◌%◌, ◌^◌, ◌<◌}
use mathlib.Core.Path.{◌≡◌}
use mathlib.Core.List.{List, [], ◌∷◌, ◌++◌}
use native.Mathlib.Omega.{arith}

abbrev pub Bytes : Type 0
Bytes = List ℕ

-- Every element is a byte.
abbrev pub IsBytes : Bytes → Type 0
IsBytes [] = Unit
IsBytes (b ∷ bs) = (b < 256) × IsBytes bs

pub IsBytes-append : (a b : Bytes) → IsBytes a → IsBytes b → IsBytes (a ++ b)
IsBytes-append [] b h k = k
IsBytes-append (x ∷ a) b h k = (h.0, IsBytes-append a b h.1 k)

abbrev pub lo8 : ℕ → ℕ
lo8 x = x % 256

abbrev pub hi8 : ℕ → ℕ
hi8 x = x / 256 % 256

-- The two bytes of a uint16_t, and of a uint32_t the four, as a little-endian host stores them.
abbrev pub le16 : ℕ → Bytes
le16 x = lo8 x ∷ hi8 x ∷ []

abbrev pub le32 : ℕ → Bytes
le32 x = lo8 x ∷ hi8 x ∷ (x / 2 ^ 16 % 256) ∷ (x / 2 ^ 24 % 256) ∷ []

abbrev pub word16 : ℕ → ℕ → ℕ
word16 lo hi = lo + hi * 256

pub word16-lo8 : (x : ℕ) → x < 2 ^ 16 → word16 (lo8 x) (hi8 x) ≡ x
word16-lo8 x h = omega arith

-- size_t of the 32-bit targets: arithmetic wraps at 2^32.
abbrev pub size_mod : ℕ
size_mod = 2 ^ 32
