-- ===== src/Base/Errno.antt =====
-- The `int` results of the C functions: 0 or more is success, a negated errno is failure.
use Prim.Native.Nat.{ℕ, suc}
use mathlib.Core.Bool.{Bool, true, false}

-- `negsuc n` is -(n + 1).
pub data ℤ : Type 0 where
  pos : ℕ → ℤ
  negsuc : ℕ → ℤ

-- The test `ret < 0`.
abbrev pub is_neg : ℤ → Bool
is_neg (pos n) = false
is_neg (negsuc n) = true

-- The test `ret != 0`, or a bare `if (ret)`.
abbrev pub is_nonzero : ℤ → Bool
is_nonzero (pos ℕ.zero) = false
is_nonzero _ = true

abbrev pub eintr : ℕ
eintr = 4

abbrev pub eio : ℕ
eio = 5

abbrev pub enxio : ℕ
enxio = 6

abbrev pub e2big : ℕ
e2big = 7

abbrev pub enomem : ℕ
enomem = 12

abbrev pub ebusy : ℕ
ebusy = 16

abbrev pub enodev : ℕ
enodev = 19

abbrev pub einval : ℕ
einval = 22

abbrev pub enodata : ℕ
enodata = 61

abbrev pub eproto : ℕ
eproto = 71

abbrev pub enosys : ℕ
enosys = 88

abbrev pub etimedout : ℕ
etimedout = 116

abbrev pub eoverflow : ℕ
eoverflow = 139

abbrev pub ealready : ℕ
ealready = 120

abbrev pub enotconn : ℕ
enotconn = 128

-- `-E`, of an errno that is not 0.
abbrev pub neg : ℕ → ℤ
neg ℕ.zero = pos 0
neg (suc n) = negsuc n
