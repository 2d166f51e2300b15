-- ===== src/Timescale/System/Fed.antt =====
-- What holds of each message that `Add` was called with holds of each message in the router.
use formulatel.Common.{◌≡◌, refl, subst, List, [], ◌∷◌, ◌++◌, All, true, ℕ}
use formulatel.Telemetry.{GameTelemetry}
use formulatel.Timescale.Batcher.{Event, tick, message, context_done, channel_closed}
use formulatel.Timescale.Router.{Batcher, add}
use formulatel.Timescale.System.{
  Lane, Goroutine, System, update, new_batch_router, handle, enqueue, Step, call_add, send,
  send_closed, take, tick_round, see_done, see_closed, cancel, close, Reach, start, later,
}
use formulatel.Timescale.System.Lanes.{update-cases, All-snoc}

module _ (P : GameTelemetry → Type 0) where
  abbrev pub EventHas : Event → Type 0
  EventHas (message msg) = P msg
  EventHas _ = Unit {0}

  abbrev pub GoroutineHas : Goroutine → Type 0
  GoroutineHas (msg, _) = P msg

  abbrev pub LaneHas : Lane → Type 0
  LaneHas lane = All P lane.queue × All EventHas lane.seen

  pub record IsFed (s : System) : Type 0 where
    pub senders : All GoroutineHas s.goroutines
    pub lane : (b : Batcher) → LaneHas (s.lanes b)

  All-prefix : (xs : List GameTelemetry) (x : GameTelemetry) → All P (xs ++ x ∷ []) → All P xs × P x
  All-prefix [] x h = (tt, h.0)
  All-prefix (y ∷ xs) x h = let rest = All-prefix xs x h.1 in ((h.0, rest.0), rest.1)

  swap_sender :
      (before after : List Goroutine) (g h : Goroutine)
      → g.0 ≡ h.0
      → All GoroutineHas (before ++ g ∷ after)
      → All GoroutineHas (before ++ h ∷ after) × P g.0
  swap_sender [] after g h e v = ((subst P e v.0, v.1), v.0)
  swap_sender (x ∷ before) after g h e v =
      let rest = swap_sender before after g h e v.1 in ((v.0, rest.0), rest.1)

  -- A lane that changed, and goroutines that did.
  lanes-IsFed :
      {s : System} (b : Batcher) (lane : Lane) (gs : List Goroutine)
      → IsFed s
      → LaneHas lane
      → All GoroutineHas gs
      → IsFed (record s { goroutines = gs; lanes = update b lane s.lanes })
  lanes-IsFed {s} b lane gs v l g = record {
    senders = g;
    lane = update-cases (λ _ (x : Lane). LaneHas x) b lane s.lanes l (λ c _. v.lane c);
  }

  handle-LaneHas : (e : Event) (lane : Lane) → EventHas e → LaneHas lane → LaneHas (handle e lane)
  handle-LaneHas e lane h v = (v.0, All-snoc EventHas lane.seen e v.1 h)

  Step-IsFed : {s t : System} → All P t.added → (All P s.added → IsFed s) → Step s t → IsFed t
  Step-IsFed {s} h k (call_add msg) =
      let parts = All-prefix s.added msg h in
      record {
        senders = All-snoc GoroutineHas s.goroutines (msg, add msg) (k parts.0).senders parts.1;
        lane = (k parts.0).lane;
      }
  Step-IsFed {s} h k (send before after msg b bs e _ _) =
      let v = k h in
      let swapped =
        swap_sender before after (msg, b ∷ bs) (msg, bs) refl
          (subst (All GoroutineHas) e v.senders) in
      let old = v.lane b in
      lanes-IsFed b (enqueue msg (s.lanes b)) (before ++ (msg, bs) ∷ after) v
        (All-snoc P (s.lanes b).queue msg old.0 swapped.1, old.1) swapped.0
  Step-IsFed h k (send_closed before after msg b bs e c) =
      let v = k h in record { senders = v.senders; lane = v.lane }
  Step-IsFed {s} h k (take b msg rest e _) =
      let v = k h in
      let old = v.lane b in
      let queued : All P (msg ∷ rest) = subst (All P) e old.0 in
      lanes-IsFed b (handle (message msg) (record (s.lanes b) { queue = rest })) s.goroutines v
        (queued.1, All-snoc EventHas (s.lanes b).seen (message msg) old.1 queued.0) v.senders
  Step-IsFed {s} h k (tick_round b _) =
      let v = k h in
      lanes-IsFed b (handle tick (s.lanes b)) s.goroutines v
        (handle-LaneHas tick (s.lanes b) tt (v.lane b)) v.senders
  Step-IsFed {s} h k (see_done b _ _) =
      let v = k h in
      lanes-IsFed b (handle context_done (s.lanes b)) s.goroutines v
        (handle-LaneHas context_done (s.lanes b) tt (v.lane b)) v.senders
  Step-IsFed {s} h k (see_closed b _ _ _) =
      let v = k h in
      lanes-IsFed b (handle channel_closed (s.lanes b)) s.goroutines v
        (handle-LaneHas channel_closed (s.lanes b) tt (v.lane b)) v.senders
  Step-IsFed h k cancel = let v = k h in record { senders = v.senders; lane = v.lane }
  Step-IsFed {s} h k (close b bs _ _) =
      let v = k h in
      let same =
        lanes-IsFed b (record (s.lanes b) { closed = true }) s.goroutines v (v.lane b) v.senders in
      record { senders = same.senders; lane = same.lane }

  pub Reach-IsFed : {n : ℕ} {s : System} → Reach n s → All P s.added → IsFed s
  unfolding new_batch_router
  Reach-IsFed start h = record { senders = tt; lane = λ b. (tt, tt) }
  Reach-IsFed (later r _ t) h = Step-IsFed h (Reach-IsFed r) t
