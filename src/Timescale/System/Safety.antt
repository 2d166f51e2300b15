-- ===== src/Timescale/System/Safety.antt =====
-- What `NewBatchRouter` and `Add` promise until the context is cancelled, and what they never lose.
use formulatel.Common.{
  ℕ, ◌+◌, ◌≤◌, ◌≡◌, ◌≢◌, refl, ap, sym, subst, ◌∙◌, inl, inr, false, length, arith, Bool-cases,
}
use formulatel.Telemetry.{GameTelemetry}
use formulatel.Timescale.Batcher.{deadlocked}
use formulatel.Timescale.Router.{Batcher}
use formulatel.Timescale.Router.Locks.{routed_never_deadlocks}
use formulatel.Timescale.System.{Lane, System, capacity, Reach}
use formulatel.Timescale.System.Counts.{waiting, called, total, handled}
use formulatel.Timescale.System.Lanes.{IsLane}
use formulatel.Timescale.System.Invariant.{IsSystem, all_batchers}
use formulatel.Timescale.System.Invariant.Reached.{Reach-IsSystem}

pub uncancelled_calm :
    {n : ℕ} {s : System} → IsSystem n s → s.cancelled ≡ false → s.panicked ≡ false
uncancelled_calm {s = s} v c = elim (Bool-cases s.panicked) [
  | inl e ↦ absurd (grind (arith, v.calm e, c))
  | inr e ↦ e
]

unlocked_lane :
    {n : ℕ} {b : Batcher} {lane : Lane}
    → IsLane n false b lane
    → (lane.worker.locked ≡ false) × (lane.worker.status ≢ deadlocked)
unlocked_lane {n} {b} {lane} v =
    let safe = routed_never_deadlocks b n lane.seen (v.routed refl) in
    (ap (λ w. w.locked) v.ran ∙ safe.0, λ e. safe.1 (sym (ap (λ w. w.status) v.ran) ∙ e))

-- In every state that the router can come to before its context is cancelled, whatever the order in
-- which the goroutines of `Add`, the workers and the ticker take their steps: no goroutine has
-- panicked by a send, all five channels are open and hold at most 100 messages, and between two
-- rounds of each worker its mutex is unlocked and the worker does not wait for it forever.
pub router_safe :
    {n : ℕ} {s : System}
    → Reach n s
    → s.cancelled ≡ false
    → (s.panicked ≡ false)
      × (s.closing ≡ all_batchers)
      × ((b : Batcher)
          → let lane = s.lanes b in
            (lane.closed ≡ false)
            × (length lane.queue ≤ capacity)
            × (lane.worker.locked ≡ false)
            × (lane.worker.status ≢ deadlocked))
router_safe {n} {s} r c =
    let v = Reach-IsSystem r in
    (
      uncancelled_calm v c,
      v.unclosed c,
      λ b.
          let free = unlocked_lane (subst (λ x. IsLane n x b (s.lanes b)) c (v.lane b)) in
          ((v.lane b).open_yet c, (v.lane b).bounded, free.0, free.1),
    )

-- In every state that the router can come to, before and after the cancellation, for each batcher
-- and each weight of messages: the messages for the batcher that `Add` was called with weigh as much
-- as those that its worker has taken, those in its channel, and those that a goroutine of `Add` still
-- holds, together. No message is lost on the way to a worker, or comes to it twice.
pub no_message_lost :
    {n : ℕ} {s : System} (f : GameTelemetry → ℕ) (b : Batcher)
    → Reach n s
    → let lane = s.lanes b in
      called f b s.added ≡ handled f lane.seen + total f lane.queue + waiting f b s.goroutines
no_message_lost f b r = (Reach-IsSystem r).counted f b
