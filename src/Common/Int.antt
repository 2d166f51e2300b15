-- ===== src/Common/Int.antt =====
-- Signed integers over the native numbers, and the two's complement reading of a bit pattern.
use Prim.Native.Nat.{ℕ, ◌+◌, ◌-◌, ◌<◌}
use mathlib.Core.Path.{◌≡◌}
use mathlib.Core.Bool.{Bool, false}
use native.Mathlib.Omega.{arith}
use formulatel.Common.Tests.{ltb, if◌then◌else◌}

-- `negsuc n` is -(n + 1).
pub data ℤ : Type 0 where
  pos : ℕ → ℤ
  negsuc : ℕ → ℤ

-- `0 < z`
abbrev pub is_positive : ℤ → Bool
is_positive (pos n) = ltb 0 n
is_positive (negsuc _) = false

-- The signed reading of a bit pattern of which `half` is the value of the sign bit.
unfoldable pub signed : ℕ → ℕ → ℤ
signed half b = if ltb b half then pos b else negsuc (half + half - 1 - b)

-- The bit pattern of a signed number.
unfoldable pub unsigned : ℕ → ℤ → ℕ
unsigned half (pos n) = n
unsigned half (negsuc n) = half + half - 1 - n

-- A signed number fits the width.
abbrev pub FitsSigned : ℕ → ℤ → Type 0
FitsSigned half (pos n) = n < half
FitsSigned half (negsuc n) = n < half

pub signed-unsigned : (half : ℕ) (z : ℤ) → FitsSigned half z → signed half (unsigned half z) ≡ z
unfolding signed unsigned
signed-unsigned half (pos n) h = ground arith
signed-unsigned half (negsuc n) h = ground arith

pub unsigned-lt : (half : ℕ) (z : ℤ) → FitsSigned half z → unsigned half z < half + half
unfolding unsigned
unsigned-lt half (pos n) h = omega arith
unsigned-lt half (negsuc n) h = omega arith
