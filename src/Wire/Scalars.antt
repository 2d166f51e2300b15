-- ===== src/Wire/Scalars.antt =====
-- Writers that match the scalar readers of Wire, and the laws of each pair.
use formulatel.Common.{
  ℕ, ◌+◌, ◌*◌, ◌/◌, ◌%◌, ◌<◌, ◌≡◌, refl, ap, List, [], ◌∷◌, ◌++◌, length, length-append, arith,
}
use formulatel.Common.Int.{ℤ, unsigned, FitsSigned, signed-unsigned}
use formulatel.Wire.{Decoder, ◌>>=◌, get_u8, get_u16, get_u32, get_u64, get_i8, get_i16}
use mathlib.Core.List.{append_assoc}

unfoldable pub put_u8 : ℕ → List ℕ
put_u8 v = v ∷ []

unfoldable pub put_u16 : ℕ → List ℕ
put_u16 v = (v % 256) ∷ (v / 256) ∷ []

unfoldable pub put_u32 : ℕ → List ℕ
put_u32 v = put_u16 (v % 65536) ++ put_u16 (v / 65536)

unfoldable pub put_u64 : ℕ → List ℕ
put_u64 v = put_u32 (v % 4294967296) ++ put_u32 (v / 4294967296)

unfoldable pub put_i8 : ℤ → List ℕ
put_i8 z = put_u8 (unsigned 128 z)

unfoldable pub put_i16 : ℤ → List ℕ
put_i16 z = put_u16 (unsigned 32768 z)

pub get_u8-put : (v : ℕ) (r : List ℕ) → get_u8 (put_u8 v ++ r) ≡ (v, r)
unfolding get_u8 put_u8
get_u8-put v r = refl

pub get_u16-put : (v : ℕ) (r : List ℕ) → get_u16 (put_u16 v ++ r) ≡ (v, r)
unfolding get_u8 get_u16 put_u16
get_u16-put v r = ap (λ (n : ℕ). (n, r)) (omega arith)

pub get_u32-put : (v : ℕ) (r : List ℕ) → get_u32 (put_u32 v ++ r) ≡ (v, r)
unfolding get_u32 put_u32
get_u32-put v r = simp (append_assoc, get_u16-put) (ap (λ (n : ℕ). (n, r)) (omega arith))

pub get_u64-put : (v : ℕ) (r : List ℕ) → get_u64 (put_u64 v ++ r) ≡ (v, r)
unfolding get_u64 put_u64
get_u64-put v r = simp (append_assoc, get_u32-put) (ap (λ (n : ℕ). (n, r)) (omega arith))

pub get_i8-put : (z : ℤ) (r : List ℕ) → FitsSigned 128 z → get_i8 (put_i8 z ++ r) ≡ (z, r)
unfolding get_i8 put_i8
get_i8-put z r h = rw get_u8-put (ap (λ (n : ℤ). (n, r)) (signed-unsigned 128 z h))

pub get_i16-put : (z : ℤ) (r : List ℕ) → FitsSigned 32768 z → get_i16 (put_i16 z ++ r) ≡ (z, r)
unfolding get_i16 put_i16
get_i16-put z r h = rw get_u16-put (ap (λ (n : ℤ). (n, r)) (signed-unsigned 32768 z h))

pub length-put_u8 : (v : ℕ) → length (put_u8 v) ≡ 1
unfolding put_u8
length-put_u8 v = refl

pub length-put_u16 : (v : ℕ) → length (put_u16 v) ≡ 2
unfolding put_u16
length-put_u16 v = refl

pub length-put_u32 : (v : ℕ) → length (put_u32 v) ≡ 4
unfolding put_u32
length-put_u32 v = simp (length-append, length-put_u16)

pub length-put_u64 : (v : ℕ) → length (put_u64 v) ≡ 8
unfolding put_u64
length-put_u64 v = simp (length-append, length-put_u32)

pub length-put_i8 : (z : ℤ) → length (put_i8 z) ≡ 1
unfolding put_i8
length-put_i8 z = length-put_u8 _

pub length-put_i16 : (z : ℤ) → length (put_i16 z) ≡ 2
unfolding put_i16
length-put_i16 z = length-put_u16 _

-- One field of a struct: what is read of its bytes, and the rest goes on to the next field.
pub >>=-eq {ℓ κ} :
    {A : Type ℓ} {B : Type κ} (m : Decoder A) (f : A → Decoder B) {bs : List ℕ} {a : A} {r : List ℕ}
    → m bs ≡ (a, r)
    → (m >>= f) bs ≡ f a r
unfolding ◌>>=◌
>>=-eq m f e = ap (λ p. f p.0 p.1) e

module _ {ℓ} {B : Type ℓ} where
  pub >>=-put_u8 : (f : ℕ → Decoder B) (v : ℕ) (r : List ℕ) → (get_u8 >>= f) (put_u8 v ++ r) ≡ f v r
  >>=-put_u8 f v r = >>=-eq get_u8 f (get_u8-put v r)

  pub >>=-put_u16 :
      (f : ℕ → Decoder B) (v : ℕ) (r : List ℕ) → (get_u16 >>= f) (put_u16 v ++ r) ≡ f v r
  >>=-put_u16 f v r = >>=-eq get_u16 f (get_u16-put v r)

  pub >>=-put_u32 :
      (f : ℕ → Decoder B) (v : ℕ) (r : List ℕ) → (get_u32 >>= f) (put_u32 v ++ r) ≡ f v r
  >>=-put_u32 f v r = >>=-eq get_u32 f (get_u32-put v r)

  pub >>=-put_u64 :
      (f : ℕ → Decoder B) (v : ℕ) (r : List ℕ) → (get_u64 >>= f) (put_u64 v ++ r) ≡ f v r
  >>=-put_u64 f v r = >>=-eq get_u64 f (get_u64-put v r)

  pub >>=-put_i8 :
      (z : ℤ)
      → FitsSigned 128 z
      → (f : ℤ → Decoder B) (r : List ℕ) → (get_i8 >>= f) (put_i8 z ++ r) ≡ f z r
  >>=-put_i8 z h f r = >>=-eq get_i8 f (get_i8-put z r h)

  pub >>=-put_i16 :
      (z : ℤ)
      → FitsSigned 32768 z
      → (f : ℤ → Decoder B) (r : List ℕ) → (get_i16 >>= f) (put_i16 z ++ r) ≡ f z r
  >>=-put_i16 z h f r = >>=-eq get_i16 f (get_i16-put z r h)

pub ruleset get_put = (append_assoc, >>=-put_u8, >>=-put_u16, >>=-put_u32, >>=-put_u64)

pub ruleset put_lengths = (
  length-append, length-put_u8, length-put_u16, length-put_u32, length-put_u64, length-put_i8,
  length-put_i16,
)
