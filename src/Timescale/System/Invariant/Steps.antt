-- ===== src/Timescale/System/Invariant/Steps.antt =====
-- The steps of the router of formulatel/internal/timescale/batcher.go that change a lane or the
-- goroutines of `Add` keep what holds in every state.
use formulatel.Common.{
  ℕ, ◌<◌, ◌≡◌, refl, ap, sym, subst, ◌∙◌, inl, inr, false, List, [], ◌∷◌, ◌++◌, All, length, arith,
}
use formulatel.Telemetry.{GameTelemetry}
use formulatel.Timescale.Batcher.{Event, message}
use formulatel.Timescale.Router.{Batcher, add}
use formulatel.Timescale.Router.Routing.{RoutedEvent}
use formulatel.Timescale.System.{Lane, Goroutine, System, same, update, capacity, handle, enqueue}
use formulatel.Timescale.System.Counts.{
  sends, waiting, called, total, handled, total-append, handled-append, waiting-append,
  called-append,
}
use formulatel.Timescale.System.Lanes.{
  same_refl, update-cases, add_once, All-snoc, IsLane, enqueue-IsLane, handle-IsLane, rest-IsLane,
}
use formulatel.Timescale.System.Invariant.{IsSending, Counted, IsSystem}

-- The goroutine that takes its next step, among the others.
All-middle :
    (before after : List Goroutine) (g h : Goroutine)
    → (IsSending g → IsSending h)
    → All IsSending (before ++ g ∷ after)
    → All IsSending (before ++ h ∷ after)
All-middle [] after g h k v = (k v.0, v.1)
All-middle (x ∷ before) after g h k v = (v.0, All-middle before after g h k v.1)

sender-IsSending :
    (before after : List Goroutine) (g : Goroutine)
    → All IsSending (before ++ g ∷ after)
    → IsSending g
sender-IsSending [] after g v = v.0
sender-IsSending (x ∷ before) after g v = sender-IsSending before after g v.1

next-IsSending :
    (msg : GameTelemetry) (b : Batcher) (bs : List Batcher)
    → IsSending (msg, b ∷ bs)
    → (add msg ≡ b ∷ []) × (bs ≡ [])
next-IsSending msg b bs (inl e) =
    let none_left = add_once msg b bs (sym e) in (sym e ∙ ap (λ x. b ∷ x) none_left, none_left)
next-IsSending msg b bs (inr e) = cc

module _ {n : ℕ} {s : System} (v : IsSystem n s) where
  -- A lane that changed for the others, with messages counted as before.
  pub lanes-IsSystem :
      (b : Batcher) (lane : Lane) (gs : List Goroutine)
      → IsLane n s.cancelled b lane
      → All IsSending gs
      → ((f : GameTelemetry → ℕ) → Counted f s.added gs b lane)
      → ((f : GameTelemetry → ℕ) (c : Batcher)
          → same b c ≡ false
          → waiting f c gs ≡ waiting f c s.goroutines)
      → IsSystem n (record s { goroutines = gs; lanes = update b lane s.lanes })
  lanes-IsSystem b lane gs l sending k others = record {
    lane =
        update-cases (λ c (x : Lane). IsLane n s.cancelled c x) b lane s.lanes l (λ c _. v.lane c);
    sending = sending;
    counted = λ f.
        update-cases (Counted f s.added gs) b lane s.lanes (k f)
          (λ c e. omega (arith, v.counted f c, others f c e));
    calm = v.calm;
    unclosed = v.unclosed;
  }

  -- A round of a worker that takes nothing from the channel.
  pub round-IsSystem :
      (b : Batcher) (e : Event)
      → (s.cancelled ≡ false → RoutedEvent b e)
      → ((f : GameTelemetry → ℕ) → handled f (e ∷ []) ≡ 0)
      → IsSystem n (record s { lanes = update b (handle e (s.lanes b)) s.lanes })
  round-IsSystem b e r none =
      lanes-IsSystem b (handle e (s.lanes b)) s.goroutines (handle-IsLane (v.lane b) e r) v.sending
        (λ f. omega (arith, v.counted f b, handled-append f (s.lanes b).seen (e ∷ []), none f))
        (λ f c _. refl)

  pub send-IsSystem :
      (before after : List Goroutine) (msg : GameTelemetry) (b : Batcher) (bs : List Batcher)
      → s.goroutines ≡ before ++ (msg, b ∷ bs) ∷ after
      → length (s.lanes b).queue < capacity
      → IsSystem n (record s {
        goroutines = before ++ (msg, bs) ∷ after;
        lanes = update b (enqueue msg (s.lanes b)) s.lanes;
      })
  unfolding waiting sends total
  send-IsSystem before after msg b bs e room =
      let all_sending = subst (All IsSending) e v.sending in
      let to = next-IsSending msg b bs (sender-IsSending before after (msg, b ∷ bs) all_sending) in
      lanes-IsSystem b (enqueue msg (s.lanes b)) (before ++ (msg, bs) ∷ after)
        (enqueue-IsLane (v.lane b) msg to.0 room)
        (All-middle before after (msg, b ∷ bs) (msg, bs) (λ _. inr to.1) all_sending)
        (λ f. ground (
          arith,
          v.counted f b,
          ap (waiting f b) e,
          waiting-append f b before ((msg, b ∷ bs) ∷ after),
          waiting-append f b before ((msg, bs) ∷ after),
          total-append f (s.lanes b).queue (msg ∷ []),
          same_refl b,
        ))
        (λ f c other. ground (
          arith,
          ap (waiting f c) e,
          waiting-append f c before ((msg, b ∷ bs) ∷ after),
          waiting-append f c before ((msg, bs) ∷ after),
          other,
        ))

  pub take-IsSystem :
      (b : Batcher) (msg : GameTelemetry) (rest : List GameTelemetry)
      → (s.lanes b).queue ≡ msg ∷ rest
      → IsSystem n (record s {
        lanes = update b (handle (message msg) (record (s.lanes b) { queue = rest })) s.lanes;
      })
  unfolding handled total
  take-IsSystem b msg rest e =
      let taken = rest-IsLane (v.lane b) msg rest e in
      lanes-IsSystem b (handle (message msg) (record (s.lanes b) { queue = rest })) s.goroutines
        (handle-IsLane taken.1 (message msg) (λ _. taken.0)) v.sending
        (λ f. omega (
          arith,
          v.counted f b,
          ap (total f) e,
          handled-append f (s.lanes b).seen (message msg ∷ []),
        ))
        (λ f c _. refl)

  pub add-IsSystem :
      (msg : GameTelemetry)
      → IsSystem n (record s {
        added = s.added ++ msg ∷ [];
        goroutines = s.goroutines ++ (msg, add msg) ∷ [];
      })
  unfolding called waiting
  add-IsSystem msg = record {
    lane = v.lane;
    sending = All-snoc IsSending s.goroutines (msg, add msg) v.sending (inl refl);
    counted = λ f b. omega (
      arith,
      v.counted f b,
      called-append f b s.added (msg ∷ []),
      waiting-append f b s.goroutines ((msg, add msg) ∷ []),
    );
    calm = v.calm;
    unclosed = v.unclosed;
  }
