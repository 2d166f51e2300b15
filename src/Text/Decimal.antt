-- ===== src/Text/Decimal.antt =====
-- Printed numbers, and texts that are joined by a separator.
use formulatel.Common.{
  ℕ, zero, suc, ◌+◌, ◌*◌, ◌-◌, ◌/◌, ◌%◌, ◌<◌, ◌≡◌, ◌≢◌, refl, sym, ap, ◌∙◌, inl, inr, [], ◌∷◌, ◌++◌,
  All, ltb, ◌==◌, if◌then◌else◌, Bool-cases, arith,
}
use formulatel.Text.{Text, digits, decimal}

-- The number that a text of digits stands for, after the digits that `acc` stands for.
value_from : ℕ → Text → ℕ
value_from acc [] = acc
value_from acc (c ∷ cs) = value_from (acc * 10 + (c - 48)) cs

value_from-append :
    (acc : ℕ) (xs ys : Text) → value_from acc (xs ++ ys) ≡ value_from (value_from acc xs) ys
unfolding value_from
value_from-append acc [] ys = refl
value_from-append acc (x ∷ xs) ys = value_from-append (acc * 10 + (x - 48)) xs ys

value_from-digits : (f n : ℕ) → n < f → value_from 0 (digits f n) ≡ n
unfolding value_from digits
value_from-digits zero n h = absurd (omega arith)
value_from-digits (suc f) n h = elim (Bool-cases (ltb n 10)) [
  | inl small ↦ rw small (omega arith)
  | inr large ↦
      rw (large, value_from-append 0 (digits f (n / 10)) ((48 + n % 10) ∷ []))
        (rw (value_from-digits f (n / 10) (ground arith)) (omega arith))
]

pub decimal_injective : (a b : ℕ) → decimal a ≡ decimal b → a ≡ b
unfolding decimal
decimal_injective a b e =
    sym (value_from-digits (suc a) a (omega arith))
    ∙ ap (value_from 0) e
    ∙ value_from-digits (suc b) b (omega arith)

-- The character does not stand in the text.
abbrev pub Avoids : ℕ → Text → Type 0
Avoids sep = All (λ c. c ≢ sep)

Avoids-append : (sep : ℕ) (xs ys : Text) → Avoids sep xs → Avoids sep ys → Avoids sep (xs ++ ys)
Avoids-append sep [] ys h k = k
Avoids-append sep (x ∷ xs) ys h k = (h.0, Avoids-append sep xs ys h.1 k)

Avoids-digits : (sep f n : ℕ) → sep < 48 → Avoids sep (digits f n)
unfolding digits
Avoids-digits sep zero n h = tt
Avoids-digits sep (suc f) n h = elim (Bool-cases (ltb n 10)) [
  | inl small ↦ rw small (omega arith)
  | inr large ↦ rw large (
      Avoids-append sep (digits f (n / 10)) ((48 + n % 10) ∷ []) (Avoids-digits sep f (n / 10) h)
        (omega arith))
]

-- A printed number holds nothing below the digits, so neither a dot nor a slash.
pub decimal-Avoids : (sep n : ℕ) → sep < 48 → Avoids sep (decimal n)
unfolding decimal
decimal-Avoids sep n h = Avoids-digits sep (suc n) n h

-- What stands before the first separator, and what stands behind it.
before : ℕ → Text → Text
before sep [] = []
before sep (c ∷ cs) = let rest = before sep cs in if c == sep then [] else c ∷ rest

after : ℕ → Text → Text
after sep [] = []
after sep (c ∷ cs) = let rest = after sep cs in if c == sep then cs else rest

before-join : (sep : ℕ) (xs ys : Text) → Avoids sep xs → before sep (xs ++ sep ∷ ys) ≡ xs
unfolding before
before-join sep [] ys h = ground arith
before-join sep (x ∷ xs) ys h = ground (arith, h.0, before-join sep xs ys h.1)

after-join : (sep : ℕ) (xs ys : Text) → Avoids sep xs → after sep (xs ++ sep ∷ ys) ≡ ys
unfolding after
after-join sep [] ys h = ground arith
after-join sep (x ∷ xs) ys h = ground (arith, h.0, after-join sep xs ys h.1)

-- A text that is joined by a separator determines its two parts, if the first avoids it.
pub join_injective :
    (sep : ℕ) (xs ys us vs : Text)
    → Avoids sep xs
    → Avoids sep us
    → xs ++ sep ∷ ys ≡ us ++ sep ∷ vs
    → (xs ≡ us) × (ys ≡ vs)
join_injective sep xs ys us vs h k e = (
  sym (before-join sep xs ys h) ∙ ap (before sep) e ∙ before-join sep us vs k,
  sym (after-join sep xs ys h) ∙ ap (after sep) e ∙ after-join sep us vs k,
)
