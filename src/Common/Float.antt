-- ===== src/Common/Float.antt =====
-- IEEE 754 single precision numbers as bit patterns, and their conversion to uint32.
use formulatel.Common.Tests.{ltb, if◌then◌else◌}
use Prim.Native.Nat.{ℕ, ◌+◌, ◌-◌, ◌*◌, ◌/◌, ◌%◌, ◌^◌}
use mathlib.Core.Path.{◌≡◌, refl}

-- Go's `uint32(f)` for a float32: the fraction is discarded. Where the value is negative, too
-- large or no number, the language leaves the result to the processor: `other` stands for that.
unfoldable pub u32_of_f32 : (ℕ → ℕ) → ℕ → ℕ
u32_of_f32 other b =
    let exponent = b / 2 ^ 23 % 256 in
    if ltb exponent 127
    then 0
    else if ltb b (2 ^ 31)
    then (if ltb exponent 159
        then (2 ^ 23 + b % 2 ^ 23) * 2 ^ (exponent - 127) / 2 ^ 23
        else other b)
    else other b

-- 23.5 PSI, the bit pattern 0x41BC0000.
u32_of_f32_test : u32_of_f32 (λ b. 7) 0x41bc0000 ≡ 23
unfolding u32_of_f32
u32_of_f32_test = refl
