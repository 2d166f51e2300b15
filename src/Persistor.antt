-- ===== src/Persistor.antt =====
-- formulatel/formulatel.go: `FormulaTelPersist`, which reads telemetry and persists it, one after
-- another.
use formulatel.Common.{
  ◌≡◌, refl, sym, ap, ◌∙◌, inl, inr, Bool, true, false, ◌&&◌, Option, none, some, List, [], ◌∷◌,
  ◌++◌, if◌then◌else◌, Bool-cases,
}
use mathlib.Core.List.{append_assoc, append-nil}
use formulatel.Telemetry.{GameTelemetry}

-- What a round of the loop finds: the context is done, or else the reader fails or reads a message.
pub data Round : Type 0 where
  context_done : Round
  reads : Option GameTelemetry → Round

-- The messages that `Persist` was called with, those of them that it took, and whether `Run` has
-- returned.
pub record Persisting : Type 0 where
  pub tried : List GameTelemetry
  pub persisted : List GameTelemetry
  pub finished : Bool

-- `persist` tells whether the persistor takes the message.
unfoldable pub read_and_persist :
    (GameTelemetry → Bool) → Option GameTelemetry → Persisting → Persisting
read_and_persist persist none p = p
read_and_persist persist (some t) p =
    let p' = record p { tried = p.tried ++ t ∷ [] } in
    if persist t then record p' { persisted = p'.persisted ++ t ∷ [] } else p'

unfoldable pub run_loop : (GameTelemetry → Bool) → List Round → Persisting → Persisting
unfolding read_and_persist
run_loop persist [] p = p
run_loop persist (context_done ∷ rounds) p = record p { finished = true }
run_loop persist (reads o ∷ rounds) p = run_loop persist rounds (read_and_persist persist o p)

-- `Run`: none is the error of a reader or a persistor that is nil.
unfoldable pub run :
    (has_reader has_persistor : Bool) → (GameTelemetry → Bool) → List Round → Option Persisting
unfolding run_loop
run has_reader has_persistor persist rounds =
    if has_reader && has_persistor
    then some (run_loop persist rounds (record { tried = []; persisted = []; finished = false }))
    else none

-- What is read before the context is done.
unfoldable pub read : List Round → List GameTelemetry
read [] = []
read (context_done ∷ rounds) = []
read (reads none ∷ rounds) = read rounds
read (reads (some t) ∷ rounds) = t ∷ read rounds

unfoldable pub filter : (GameTelemetry → Bool) → List GameTelemetry → List GameTelemetry
filter persist [] = []
filter persist (t ∷ ts) = let rest = filter persist ts in if persist t then t ∷ rest else rest

module _ (persist : GameTelemetry → Bool) (t : GameTelemetry) where
  tried-persist : (p : Persisting) → (read_and_persist persist (some t) p).tried ≡ p.tried ++ t ∷ []
  unfolding read_and_persist
  tried-persist p = elim (Bool-cases (persist t)) [ inl e ↦ rw e refl | inr e ↦ rw e refl ]

  persisted-persist :
      (p : Persisting)
      → (read_and_persist persist (some t) p).persisted ≡ p.persisted ++ filter persist (t ∷ [])
  unfolding read_and_persist filter
  persisted-persist p = elim (Bool-cases (persist t)) [
    | inl e ↦ rw e refl
    | inr e ↦ rw e (sym (append-nil p.persisted))
  ]

  filter-cons :
      (ts : List GameTelemetry)
      → filter persist (t ∷ []) ++ filter persist ts ≡ filter persist (t ∷ ts)
  unfolding filter
  filter-cons ts = elim (Bool-cases (persist t)) [ inl e ↦ rw e refl | inr e ↦ rw e refl ]

-- From any state, the messages that are read before the context is done are tried in their order,
-- each once, and those of them that the persistor takes are persisted in their order; neither a
-- failed read nor a failed write stops the loop.
pub run_loop_lem :
    (persist : GameTelemetry → Bool) (rounds : List Round) (p : Persisting)
    → let q = run_loop persist rounds p in
      (q.tried ≡ p.tried ++ read rounds)
      × (q.persisted ≡ p.persisted ++ filter persist (read rounds))
unfolding run_loop read filter
run_loop_lem persist [] p = (sym (append-nil p.tried), sym (append-nil p.persisted))
run_loop_lem persist (context_done ∷ rounds) p =
    (sym (append-nil p.tried), sym (append-nil p.persisted))
run_loop_lem persist (reads none ∷ rounds) p = run_loop_lem persist rounds p
run_loop_lem persist (reads (some t) ∷ rounds) p =
    let rest = run_loop_lem persist rounds (read_and_persist persist (some t) p) in
    (
      rest.0
          ∙ ap (λ x. x ++ read rounds) (tried-persist persist t p)
          ∙ append_assoc p.tried (t ∷ []) (read rounds),
      rest.1
          ∙ ap (λ x. x ++ filter persist (read rounds)) (persisted-persist persist t p)
          ∙ append_assoc p.persisted (filter persist (t ∷ [])) (filter persist (read rounds))
          ∙ ap (λ x. p.persisted ++ x) (filter-cons persist t (read rounds)),
    )
