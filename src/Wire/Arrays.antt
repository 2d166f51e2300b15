-- ===== src/Wire/Arrays.antt =====
-- Writers of fixed arrays, and that an array is read back from what was written.
use formulatel.Common.{
  ℕ, ◌*◌, ◌≡◌, refl, subst, List, [], ◌∷◌, ◌++◌, All, length, length-append, arith,
}
use mathlib.Core.List.{append_assoc}
use formulatel.Wire.{Decoder, ◌>>=◌, get_array, get_u8, get_u16, get_u32}
use formulatel.Wire.Scalars.{
  >>=-eq, put_u8, put_u16, put_u32, get_u8-put, get_u16-put, get_u32-put, length-put_u8,
  length-put_u16, length-put_u32,
}

module _ {ℓ} {A : Type ℓ} where
  unfoldable pub put_array : (A → List ℕ) → List A → List ℕ
  put_array p [] = []
  put_array p (x ∷ xs) = p x ++ put_array p xs

  -- `d` reads back what `p` writes of a value that satisfies `V`.
  abbrev pub Reads {κ} : (A → Type κ) → Decoder A → (A → List ℕ) → Type (ℓ ⊔ κ)
  Reads V d p = (a : A) → V a → (r : List ℕ) → d (p a ++ r) ≡ (a, r)

  pub get_array-put {κ} :
      (V : A → Type κ) (d : Decoder A) (p : A → List ℕ)
      → Reads V d p
      → (xs : List A) → All V xs
      → (r : List ℕ) → get_array d (length xs) (put_array p xs ++ r) ≡ (xs, r)
  unfolding get_array put_array
  get_array-put V d p law [] v r = refl
  get_array-put V d p law (x ∷ xs) v r =
      rw (append_assoc, law x v.0) (rw (get_array-put V d p law xs v.1 r))

  -- An array field of a struct.
  pub >>=-put_array {κ μ} :
      {B : Type μ} (V : A → Type κ) (d : Decoder A) (p : A → List ℕ)
      → Reads V d p
      → (xs : List A) → All V xs
      → (n : ℕ) → length xs ≡ n
      → (f : List A → Decoder B) (r : List ℕ) → (get_array d n >>= f) (put_array p xs ++ r) ≡ f xs r
  >>=-put_array V d p law xs v n e f r =
      subst (λ k. (get_array d k >>= f) (put_array p xs ++ r) ≡ f xs r) e
        (>>=-eq (get_array d (length xs)) f (get_array-put V d p law xs v r))

  pub length-put_array {κ} :
      (V : A → Type κ) (p : A → List ℕ) (n : ℕ)
      → ((a : A) → V a → length (p a) ≡ n)
      → (xs : List A) → All V xs
      → length (put_array p xs) ≡ length xs * n
  unfolding put_array
  length-put_array V p n law [] v = omega arith
  length-put_array V p n law (x ∷ xs) v =
      rw length-append (omega (arith, law x v.0, length-put_array V p n law xs v.1))

abbrev Any : ℕ → Type 0
Any _ = Unit {0}

All-Any : (xs : List ℕ) → All Any xs
All-Any [] = tt
All-Any (x ∷ xs) = (tt, All-Any xs)

module _ {ℓ} {B : Type ℓ} (xs : List ℕ) (n : ℕ) (e : length xs ≡ n) (f : List ℕ → Decoder B)
    (r : List ℕ) where
  pub >>=-put_u8s : (get_array get_u8 n >>= f) (put_array put_u8 xs ++ r) ≡ f xs r
  >>=-put_u8s = >>=-put_array Any get_u8 put_u8 (λ a _. get_u8-put a) xs (All-Any xs) n e f r

  pub >>=-put_u16s : (get_array get_u16 n >>= f) (put_array put_u16 xs ++ r) ≡ f xs r
  >>=-put_u16s = >>=-put_array Any get_u16 put_u16 (λ a _. get_u16-put a) xs (All-Any xs) n e f r

  pub >>=-put_u32s : (get_array get_u32 n >>= f) (put_array put_u32 xs ++ r) ≡ f xs r
  >>=-put_u32s = >>=-put_array Any get_u32 put_u32 (λ a _. get_u32-put a) xs (All-Any xs) n e f r

module _ (xs : List ℕ) where
  pub length-put_u8s : length (put_array put_u8 xs) ≡ length xs * 1
  length-put_u8s = length-put_array Any put_u8 1 (λ a _. length-put_u8 a) xs (All-Any xs)

  pub length-put_u16s : length (put_array put_u16 xs) ≡ length xs * 2
  length-put_u16s = length-put_array Any put_u16 2 (λ a _. length-put_u16 a) xs (All-Any xs)

  pub length-put_u32s : length (put_array put_u32 xs) ≡ length xs * 4
  length-put_u32s = length-put_array Any put_u32 4 (λ a _. length-put_u32 a) xs (All-Any xs)
