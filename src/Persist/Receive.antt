-- ===== src/Persist/Receive.antt =====
-- From the publishers of ingest to the router of persist: the messages of
-- formulatel/cmd/ingest/mqtt_v3.go as the handler of formulatel/cmd/persist/main.go gets them.
use formulatel.Common.{
  ◌≡◌, refl, sym, ap, subst, ◌∙◌, inl, inr, Option, none, some, List, [], ◌∷◌, ◌++◌, map, All,
  Option-cases,
}
use mathlib.Core.List.{filter_map, Perm, append_assoc}
use mathlib.Core.List.Perm.{filter_map as filter_map-Perm}
use mathlib.Core.Option.{Option-elim}
use formulatel.Text.{Text}
use formulatel.Telemetry.{GameTelemetry}
use formulatel.Ingest.Publisher.{
  Publication, PublisherEvent, new_publisher, publication, run_mqtt_v3_publisher,
}
use formulatel.Ingest.Publisher.Order.{taken, publications, run_mqtt_v3_publisher_lem}
use formulatel.Persist.{on_payload, receive}

abbrev pub payloads : List Publication → List Text
payloads = map (λ p. p.payload)

-- What protojson promises: what it has marshalled is unmarshalled to the same message.
abbrev pub RoundTrips : (GameTelemetry → Option Text) → (Text → Option GameTelemetry) → Type 0
RoundTrips marshal unmarshal =
    (m : GameTelemetry) (payload : Text) → marshal m ≡ some payload → unmarshal payload ≡ some m

-- The messages that can be marshalled.
unfoldable pub marshalled : (GameTelemetry → Option Text) → List GameTelemetry → List GameTelemetry
unfolding filter_map Option-elim
marshalled marshal = filter_map (λ m. Option-elim (marshal m) none (λ _. some m))

module _ {A B : Type 0} (f : A → Option B) where
  filter_map-none :
      (a : A) (rest : List A) → f a ≡ none → filter_map f (a ∷ rest) ≡ filter_map f rest
  unfolding filter_map Option-elim
  filter_map-none a rest e =
      ap (λ o. Option-elim o (filter_map f rest) (λ b. b ∷ filter_map f rest)) e

  filter_map-some :
      (a : A) (b : B) (rest : List A)
      → f a ≡ some b
      → filter_map f (a ∷ rest) ≡ b ∷ filter_map f rest
  unfolding filter_map Option-elim
  filter_map-some a b rest e =
      ap (λ o. Option-elim o (filter_map f rest) (λ b. b ∷ filter_map f rest)) e

-- What holds of all messages holds of those that can be marshalled.
pub marshalled-All :
    (P : GameTelemetry → Type 0) (marshal : GameTelemetry → Option Text) (ms : List GameTelemetry)
    → All P ms
    → All P (marshalled marshal ms)
unfolding marshalled filter_map
marshalled-All P marshal [] v = tt
marshalled-All P marshal (m ∷ ms) v =
    let sendable = λ (x : GameTelemetry). Option-elim (marshal x) none (λ _. some x) in
    elim (Option-cases (marshal m)) [
      | inl e ↦
          subst (All P)
            (sym (filter_map-none sendable m ms (ap (λ o. Option-elim o none (λ _. some m)) e)))
            (marshalled-All P marshal ms v.1)
      | inr (payload, e) ↦
          subst (All P)
            (sym (filter_map-some sendable m m ms (ap (λ o. Option-elim o none (λ _. some m)) e)))
            (v.0, marshalled-All P marshal ms v.1)
    ]

-- The handler's calls are those of the payloads that are unmarshalled.
receive-filter_map :
    (unmarshal : Text → Option GameTelemetry) (ps : List Text)
    → receive unmarshal ps ≡ filter_map unmarshal ps
unfolding receive on_payload filter_map Option-elim
receive-filter_map unmarshal [] = refl
receive-filter_map unmarshal (p ∷ ps) = elim (Option-cases (unmarshal p)) [
  | inl e ↦ rw (e, on_payload, filter_map) (receive-filter_map unmarshal ps)
  | inr (m, e) ↦ rw (e, on_payload, filter_map) (ap (λ x. m ∷ x) (receive-filter_map unmarshal ps))
]

pub receive-append :
    (unmarshal : Text → Option GameTelemetry) (ps qs : List Text)
    → receive unmarshal (ps ++ qs) ≡ receive unmarshal ps ++ receive unmarshal qs
unfolding receive
receive-append unmarshal [] qs = refl
receive-append unmarshal (p ∷ ps) qs =
    ap (λ x. on_payload unmarshal p ++ x) (receive-append unmarshal ps qs)
    ∙ sym (append_assoc (on_payload unmarshal p) (receive unmarshal ps) (receive unmarshal qs))

module _ (marshal : GameTelemetry → Option Text) (unmarshal : Text → Option GameTelemetry)
    (round_trips : RoundTrips marshal unmarshal) (topic : Text) where
  unmarshal-publications :
      (ms : List GameTelemetry)
      → filter_map unmarshal (payloads (publications marshal topic ms)) ≡ marshalled marshal ms
  unfolding marshalled publication filter_map
  unmarshal-publications [] = refl
  unmarshal-publications (m ∷ ms) =
      let sendable = λ (x : GameTelemetry). Option-elim (marshal x) none (λ _. some x) in
      elim (Option-cases (marshal m)) [
        | inl e ↦
            ap (λ xs. filter_map unmarshal (payloads (map (publication topic) xs)))
              (filter_map-none marshal m ms e)
            ∙ unmarshal-publications ms
            ∙ sym (filter_map-none sendable m ms (ap (λ o. Option-elim o none (λ _. some m)) e))
        | inr (payload, e) ↦
            ap (λ xs. filter_map unmarshal (payloads (map (publication topic) xs)))
              (filter_map-some marshal m payload ms e)
            ∙ filter_map-some unmarshal payload m (payloads (publications marshal topic ms))
                (round_trips m payload e)
            ∙ ap (λ xs. m ∷ xs) (unmarshal-publications ms)
            ∙ sym (filter_map-some sendable m m ms (ap (λ o. Option-elim o none (λ _. some m)) e))
      ]

  -- With a marshaller whose texts are unmarshalled to the same message: where a publisher has run over
  -- any events and the broker delivers what it published, each payload once and in any order, the
  -- handler calls `router.Add` with the messages that the publisher took before its context ended,
  -- each once, less those that cannot be marshalled; and in their order if the payloads come in order.
  pub received_lem :
      (events : List PublisherEvent) (delivered : List Text)
      → let sent = payloads (run_mqtt_v3_publisher marshal topic events new_publisher).published in
        Perm delivered sent
        → Perm (receive unmarshal delivered) (marshalled marshal (taken marshal events))
          × (receive unmarshal sent ≡ marshalled marshal (taken marshal events))
  unfolding new_publisher
  received_lem events delivered p =
      let all_sent =
        ap payloads (run_mqtt_v3_publisher_lem marshal topic events new_publisher refl).0 in
      let all_read =
        receive-filter_map unmarshal _
        ∙ ap (filter_map unmarshal) all_sent
        ∙ unmarshal-publications (taken marshal events) in
      let read =
        subst (λ x. Perm (filter_map unmarshal delivered) x)
          (sym (receive-filter_map unmarshal _) ∙ all_read) (filter_map-Perm unmarshal p) in
      (
        subst (λ x. Perm x (marshalled marshal (taken marshal events)))
            (sym (receive-filter_map unmarshal delivered)) read,
        all_read,
      )
