-- ===== src/Text.antt =====
-- Texts as lists of bytes, and the numbers that Go's `fmt` prints in them (`%d`, `fmt.Sprint`).
pub mod Decimal
use formulatel.Common.{ℕ, zero, suc, ◌+◌, ◌/◌, ◌%◌, List, [], ◌∷◌, ◌++◌, ltb, if◌then◌else◌, String}
use Prim.Native.Char.{code}

abbrev pub Text : Type 0
Text = List ℕ

-- The bytes of an ASCII literal.
abbrev pub text : String → Text
text String.[] = []
text (String.◌∷◌ c s) = code c ∷ text s

-- The decimal digits of a number below 10 ^ fuel, the highest first.
unfoldable pub digits : ℕ → ℕ → Text
digits zero n = []
digits (suc f) n =
    let rest = digits f (n / 10) in if ltb n 10 then (48 + n) ∷ [] else rest ++ (48 + n % 10) ∷ []

-- A number has at most as many digits as it is large, and one more for 0.
unfoldable pub decimal : ℕ → Text
unfolding digits
decimal n = digits (suc n) n

-- The first text, or the second where the first is empty.
unfoldable pub first_given : Text → Text → Text
first_given [] second = second
first_given (c ∷ cs) second = c ∷ cs
