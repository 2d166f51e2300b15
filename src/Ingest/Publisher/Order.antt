-- ===== src/Ingest/Publisher/Order.antt =====
-- formulatel/cmd/ingest/mqtt_v3.go: what is published, and in which order.
use formulatel.Common.{
  ◌≡◌, refl, sym, ap, ◌∙◌, inl, inr, Bool, true, false, not, ◌||◌, Option, none, some, List, [],
  ◌∷◌, ◌++◌, map, if◌then◌else◌, Bool-cases, Option-cases,
}
use mathlib.Core.List.{filter_map, append_assoc, append-nil}
use mathlib.Core.Option.{Option-elim}
use formulatel.Text.{Text}
use formulatel.Telemetry.{GameTelemetry}
use formulatel.Ingest.Publisher.{
  Publication, Publisher, PublisherEvent, PublishToken, Status, running, blocked, returned, done,
  message, publication, await, publish_bytes, unless_blocked, run_mqtt_v3_publisher,
}

-- A message that is published, and whose publication never completes.
unfoldable pub never_completes : Option Text → Option Bool → Bool
never_completes (some payload) none = true
never_completes (some payload) (some waited) = false
never_completes none wait = false

module _ (marshal : GameTelemetry → Option Text) where
  -- The messages before the end of the context, up to the first whose publication never completes.
  unfoldable pub taken : List PublisherEvent → List GameTelemetry
  taken [] = []
  taken (done ∷ events) = []
  taken (message m token ∷ events) =
      let rest = taken events in m ∷ (if never_completes (marshal m) token.wait then [] else rest)

  -- Where the publisher is behind the events: blocked by the first publication that never completes,
  -- or returned if the context has ended before.
  unfoldable pub ending : List PublisherEvent → Status
  ending [] = running
  ending (done ∷ events) = returned
  ending (message m token ∷ events) =
      let rest = ending events in if never_completes (marshal m) token.wait then blocked else rest

-- What one message is published as.
abbrev one_publication : Text → Option Text → List Publication
one_publication topic o = map (publication topic) (Option-elim o [] (λ b. b ∷ []))

await_lem :
    (wait : Option Bool) (has_error : Bool) (payload : Text) (p : Publisher)
    → let q = await wait has_error p in
      (q.published ≡ p.published)
      × (q.status ≡ (if never_completes (some payload) wait then blocked else p.status))
unfolding await never_completes
await_lem none has_error payload p = (refl, refl)
await_lem (some waited) has_error payload p = elim (Bool-cases (not waited || has_error)) [
  | inl h ↦ rw h (refl, refl)
  | inr h ↦ rw h (refl, refl)
]

bytes_published :
    (topic : Text) (o : Option Text) (token : PublishToken) (p : Publisher)
    → let q = publish_bytes topic o token p in
      (q.published ≡ p.published ++ one_publication topic o)
      × (q.status ≡ (if never_completes o token.wait then blocked else p.status))
unfolding publish_bytes Option-elim never_completes
bytes_published topic none token p = (sym (append-nil p.published), refl)
bytes_published topic (some payload) token p =
    await_lem token.wait token.has_error payload
      (record p { published = p.published ++ publication topic payload ∷ [] })

module _ (marshal : GameTelemetry → Option Text) (topic : Text) where
  -- What the messages are published as.
  abbrev pub publications : List GameTelemetry → List Publication
  publications ms = map (publication topic) (filter_map marshal ms)

  publications-append :
      (m : GameTelemetry) (ms : List GameTelemetry)
      → publications (m ∷ []) ++ publications ms ≡ publications (m ∷ ms)
  unfolding filter_map Option-elim
  publications-append m ms = elim (Option-cases (marshal m)) [
    | inl e ↦ rw e refl
    | inr (payload, e) ↦ rw e refl
  ]

  -- What a publisher that was running has published, and where it is.
  HasRun : List PublisherEvent → Publisher → Publisher → Type 0
  HasRun events p q =
      (q.published ≡ p.published ++ publications (taken marshal events))
      × (q.status ≡ ending marshal events)

  module _ (m : GameTelemetry) (token : PublishToken) (events : List PublisherEvent)
      (p : Publisher) where
    abbrev behind : Publisher
    behind = publish_bytes topic (marshal m) token p

    run-running :
        behind.status ≡ running
        → run_mqtt_v3_publisher marshal topic (message m token ∷ events) p
          ≡ run_mqtt_v3_publisher marshal topic events behind
    unfolding run_mqtt_v3_publisher unless_blocked
    run-running e =
        ap (λ s. unless_blocked s (run_mqtt_v3_publisher marshal topic events behind) behind) e

    run-blocked :
        behind.status ≡ blocked
        → run_mqtt_v3_publisher marshal topic (message m token ∷ events) p ≡ behind
    unfolding run_mqtt_v3_publisher unless_blocked
    run-blocked e =
        ap (λ s. unless_blocked s (run_mqtt_v3_publisher marshal topic events behind) behind) e

    abbrev kept : Bool → List Publication
    kept b = p.published ++ publications (m ∷ (if b then [] else taken marshal events))

    message-blocked :
        never_completes (marshal m) token.wait ≡ true
        → HasRun
            (message m token ∷ events)
            p
            (run_mqtt_v3_publisher marshal topic (message m token ∷ events) p)
    unfolding HasRun taken ending filter_map
    message-blocked stuck =
        let one = bytes_published topic (marshal m) token p in
        let stays = one.1 ∙ ap (λ b. if b then blocked else p.status) stuck in
        let same = run-blocked stays in
        (
          ap (λ q. q.published) same ∙ one.0 ∙ ap kept (sym stuck),
          ap (λ q. q.status) same
              ∙ stays
              ∙ ap (λ b. if b then blocked else ending marshal events) (sym stuck),
        )

    message-HasRun :
        p.status ≡ running
        → never_completes (marshal m) token.wait ≡ false
        → HasRun events behind (run_mqtt_v3_publisher marshal topic events behind)
        → HasRun
            (message m token ∷ events)
            p
            (run_mqtt_v3_publisher marshal topic (message m token ∷ events) p)
    unfolding HasRun taken ending filter_map
    message-HasRun r completes rest =
        let one = bytes_published topic (marshal m) token p in
        let same = run-running (one.1 ∙ ap (λ b. if b then blocked else p.status) completes ∙ r) in
        (
          ap (λ q. q.published) same
              ∙ rest.0
              ∙ ap (λ x. x ++ publications (taken marshal events)) one.0
              ∙ append_assoc p.published (publications (m ∷ []))
                  (publications (taken marshal events))
              ∙ ap (λ x. p.published ++ x) (publications-append m (taken marshal events))
              ∙ ap kept (sym completes),
          ap (λ q. q.status) same
              ∙ rest.1
              ∙ ap (λ b. if b then blocked else ending marshal events) (sym completes),
        )

  -- A publisher that is running publishes the messages that come before the end of the context, in
  -- their order, each once and to its topic, less those that cannot be marshalled, whether their
  -- publications fail or not, up to the first whose publication never completes: behind that one nothing
  -- is published, and the function does not return, even if the context ends. It returns if and only if
  -- the context ends before.
  pub run_mqtt_v3_publisher_lem :
      (events : List PublisherEvent) (p : Publisher)
      → p.status ≡ running
      → let q = run_mqtt_v3_publisher marshal topic events p in
        (q.published ≡ p.published ++ publications (taken marshal events))
        × (q.status ≡ ending marshal events)
  unfolding HasRun run_mqtt_v3_publisher taken ending filter_map
  run_mqtt_v3_publisher_lem [] p r = (sym (append-nil p.published), r)
  run_mqtt_v3_publisher_lem (done ∷ events) p r = (sym (append-nil p.published), refl)
  run_mqtt_v3_publisher_lem (message m token ∷ events) p r =
      elim (Bool-cases (never_completes (marshal m) token.wait)) [
        | inl stuck ↦ message-blocked m token events p stuck
        | inr completes ↦ message-HasRun m token events p r completes (
            run_mqtt_v3_publisher_lem events (publish_bytes topic (marshal m) token p) (
              (bytes_published topic (marshal m) token p).1
              ∙ ap (λ b. if b then blocked else p.status) completes
              ∙ r))
      ]
