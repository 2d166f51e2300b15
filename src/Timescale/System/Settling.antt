-- ===== src/Timescale/System/Settling.antt =====
-- The router can always bring the messages that it was given to their workers.
pub mod Measure
pub mod Running
pub mod Flushing
use mathlib.Core.List.{flatten}
use formulatel.Common.{
  ℕ, zero, suc, ◌+◌, ◌*◌, ◌≤◌, ◌<◌, ◌≡◌, ◌≢◌, ◌⊎◌, refl, sym, ap, subst, ◌∙◌, inl, inr, Bool, true,
  false, List, [], ◌∷◌, ◌++◌, All, length, length-append, arith,
}
use formulatel.Telemetry.{GameTelemetry}
use formulatel.Timescale.Batcher.{
  Event, Status, tick, message, context_done, channel_closed, running, crashed, new_table_batcher,
  flusher_worker,
}
use formulatel.Timescale.Batcher.Flow.{IsFlowing, Advances, rows_of, new-IsFlowing}
use formulatel.Timescale.Batcher.Run.{flusher_worker-Advances}
use formulatel.Timescale.Router.{Batcher, table_of, add}
use formulatel.Timescale.Router.Routing.{IsComplete, CompleteEvent, RoutedEvent, routed_fits}
use formulatel.Timescale.System.{
  Lane, Goroutine, System, update, capacity, handle, enqueue, Step, send, take, IsAlive, Reach,
  later, Leads, here, next,
}
use formulatel.Timescale.System.Counts.{waiting, called, total, handled, sends}
use formulatel.Timescale.System.Lanes.{IsLane}
use formulatel.Timescale.System.Invariant.{IsSystem, all_batchers}
use formulatel.Timescale.System.Invariant.Reached.{Reach-IsSystem}
use formulatel.Timescale.System.Safety.{uncancelled_calm}
use formulatel.Timescale.System.Fed.{EventHas, Reach-IsFed}
use formulatel.Timescale.System.Settling.Measure.{
  IsDone, Waits, pending, queued, pending-append, queued-update, pick_lane, pick_goroutine,
  none_pending,
}
use formulatel.Timescale.System.Shutdown.{all-among}
use formulatel.Timescale.System.Settling.Running.{CompleteMessage, still_running, still-IsAlive}
use formulatel.Timescale.System.Settling.Flushing.{Settled, flush_lanes}

module _ {n : ℕ} (pos : 0 < n) where
  -- What each step does to the measure.
  take_less :
      (s : System) (b : Batcher) (msg : GameTelemetry) (rest : List GameTelemetry) (k : ℕ)
      → (s.lanes b).queue ≡ msg ∷ rest
      → queued s.lanes + 2 * pending s.goroutines < suc k
      → queued (update b (handle (message msg) (record (s.lanes b) { queue = rest })) s.lanes)
          + 2 * pending s.goroutines
        < k
  take_less s b msg rest k e h = omega (
    arith,
    h,
    ap length e,
    queued-update b (handle (message msg) (record (s.lanes b) { queue = rest })) s.lanes,
  )

  send_less :
      (s : System) (w : Waits s.goroutines) (k : ℕ)
      → queued s.lanes + 2 * pending s.goroutines < suc k
      → queued (update w.batcher (enqueue w.msg (s.lanes w.batcher)) s.lanes)
          + 2 * pending (w.before ++ (w.msg, w.more) ∷ w.after)
        < k
  unfolding pending
  send_less s w k h = omega (
    arith,
    h,
    ap pending w.found,
    pending-append w.before ((w.msg, w.batcher ∷ w.more) ∷ w.after),
    pending-append w.before ((w.msg, w.more) ∷ w.after),
    queued-update w.batcher (enqueue w.msg (s.lanes w.batcher)) s.lanes,
    length-append (s.lanes w.batcher).queue (w.msg ∷ []),
  )

  settle :
      {from : System} (k : ℕ) (s : System)
      → Leads from s
      → Reach n s
      → s.cancelled ≡ false
      → All CompleteMessage s.added
      → queued s.lanes + 2 * pending s.goroutines < k
      → Settled from s.added
  settle zero s l r c complete h = absurd (omega (arith, h))
  settle (suc k) s l r c complete h = elim (pick_lane s.lanes) [
    | inl (b, (msg, rest, e)) ↦
        let alive = still-IsAlive r c pos complete in
        let taking = take b msg rest e (still_running r c pos complete b) in
        settle k _ (next l alive taking) (later r alive taking) c complete
          (take_less s b msg rest k e h)
    | inr empty ↦ elim (pick_goroutine s.goroutines) [
      | inr done ↦
          flush_lanes pos all_batchers s l r c complete done empty
            (λ b h. absurd (grind (arith, h, all-among b)))
      | inl w ↦
          let alive = still-IsAlive r c pos complete in
          let sending =
            send w.before w.after w.msg w.batcher w.more w.found
              (((Reach-IsSystem r).lane w.batcher).open_yet c)
              (omega (arith, ap length (empty w.batcher))) in
          settle k _ (next l alive sending) (later r alive sending) c complete (send_less s w k h)
    ]
  ]

-- With a positive batch size, from every state that the router can come to before its cancellation,
-- where each message that `Add` was called with holds the pointers that its row needs: without a further
-- call of `Add`, steps of the router lead from it to a state, still before the cancellation, in which no
-- goroutine of `Add`, no channel and no buffer holds anything, each worker has taken the messages that
-- were added for it, each as often as it was added, and has handed on their rows in batches, in the order
-- in which it took the messages.
pub router_settles :
    {n : ℕ} {s : System}
    → 0 < n
    → Reach n s
    → s.cancelled ≡ false
    → All CompleteMessage s.added
    → Settled s s.added
router_settles {s = s} pos r c complete =
    settle pos (suc (queued s.lanes + 2 * pending s.goroutines)) s here r c complete (omega arith)
