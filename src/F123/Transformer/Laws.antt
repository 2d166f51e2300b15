-- ===== src/F123/Transformer/Laws.antt =====
-- One step of a method of the transformer at a time: what follows a step that returned, and that a
-- panic ends the method.
use formulatel.Common.{ℕ, refl, sym, ◌∙◌, ◌≡◌, ◌≤◌, List, get_elem?, get_elem?-ge, some, length}
use formulatel.F123.Transformer.{
  State, Panic, Outcome, Go, returned, panicked, index_out_of_range, index, ◌>>=◌,
}

module _ {A B : Type 0} (m : Go A) (f : A → Go B) {s t : State} where
  pub >>=-returned : {a : A} → m s ≡ (returned a, t) → (m >>= f) s ≡ f a t
  unfolding ◌>>=◌
  >>=-returned {a} e = rw (e, ◌>>=◌)

  pub >>=-panicked : {p : Panic} → m s ≡ (panicked p, t) → (m >>= f) s ≡ (panicked p, t)
  unfolding ◌>>=◌
  >>=-panicked {p} e = rw (e, ◌>>=◌)

module _ {A : Type 0} (xs : List A) (i : ℕ) (s : State) where
  pub index-some : {a : A} → get_elem? xs i ≡ some a → index xs i s ≡ (returned a, s)
  unfolding index
  index-some e = rw (e, index)

  pub index_past_end : length xs ≤ i → index xs i s ≡ (panicked index_out_of_range, s)
  unfolding index
  index_past_end h = rw (get_elem?-ge xs i h, index)

-- Two methods that do the same here, and are followed by methods that do the same everywhere.
module _ {A B : Type 0} (m n : Go A) (f g : A → Go B) (h : (a : A) (u : State) → f a u ≡ g a u)
    {s : State} where
  cong-cases : (o : Outcome A) (t : State) → m s ≡ (o, t) → n s ≡ (o, t) → (m >>= f) s ≡ (n >>= g) s
  cong-cases (returned a) t e k = >>=-returned m f e ∙ h a t ∙ sym (>>=-returned n g k)
  cong-cases (panicked p) t e k = >>=-panicked m f e ∙ sym (>>=-panicked n g k)

  pub >>=-cong : m s ≡ n s → (m >>= f) s ≡ (n >>= g) s
  >>=-cong e = cong-cases (n s).0 (n s).1 e refl

module _ {A B C : Type 0} (m : Go A) (f : A → Go B) (g : B → Go C) (s : State) where
  assoc-cases :
      (o : Outcome A) (t : State) → m s ≡ (o, t) → (m >>= λ a. f a >>= g) s ≡ ((m >>= f) >>= g) s
  unfolding ◌>>=◌
  assoc-cases (returned a) t e = rw (e, ◌>>=◌) refl
  assoc-cases (panicked p) t e = rw (e, ◌>>=◌) refl

  pub >>=_assoc : (m >>= λ a. f a >>= g) s ≡ ((m >>= f) >>= g) s
  >>=_assoc = assoc-cases (m s).0 (m s).1 refl
