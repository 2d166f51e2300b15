-- ===== src/Timescale/System/Settling/Flushing.antt =====
-- A router without waiting messages flushes the buffers of its batchers.
use mathlib.Core.List.{flatten, append-nil}
use formulatel.Common.{ℕ, ◌<◌, ◌≡◌, refl, sym, ap, ◌∙◌, false, List, [], ◌∷◌, ◌++◌, All, arith}
use formulatel.Telemetry.{GameTelemetry}
use formulatel.Timescale.Batcher.{tick}
use formulatel.Timescale.Batcher.Flow.{rows_of}
use formulatel.Timescale.Router.{Batcher, table_of}
use formulatel.Timescale.System.{Lane, System, handle, Reach, later, Leads, next, tick_round}
use formulatel.Timescale.System.Counts.{called, total, handled}
use formulatel.Timescale.System.Lanes.{update-cases}
use formulatel.Timescale.System.Invariant.Reached.{Reach-IsSystem}
use formulatel.Timescale.System.Safety.{router_safe}
use formulatel.Timescale.Batcher.Flush.{flush-IsFlushed}
use formulatel.Timescale.Batcher.Rounds.{step-tick}
use formulatel.Timescale.System.Shutdown.{among}
use formulatel.Timescale.System.Settling.Measure.{IsDone, none_pending}
use formulatel.Timescale.System.Settling.Running.{
  CompleteMessage, rows_kept, still_running, still-IsAlive,
}

-- A state that comes behind this one, still before the cancellation, in which no goroutine has a send left, no
-- channel holds a message, and each worker has taken what `Add` was called with for it, and no more, and
-- has handed on the rows of what it has taken, in the order in which it took it.
pub record Settled (s : System) (added : List GameTelemetry) : Type 0 where
  pub state : System
  pub reached : Leads s state
  pub uncancelled : state.cancelled ≡ false
  pub same_calls : state.added ≡ added
  pub sent : All IsDone state.goroutines
  pub emptied : (b : Batcher) → (state.lanes b).queue ≡ []
  pub taken :
      (f : GameTelemetry → ℕ) (b : Batcher) → handled f (state.lanes b).seen ≡ called f b added
  pub rows :
      (b : Batcher)
      → let w = (state.lanes b).worker in
        (w.buffer ≡ []) × (flatten w.batches ≡ rows_of (table_of b) (state.lanes b).seen)

module _ {n : ℕ} (pos : 0 < n) where
  stop_here :
      {from : System} (s : System)
      → Leads from s
      → Reach n s
      → s.cancelled ≡ false
      → All CompleteMessage s.added
      → All IsDone s.goroutines
      → ((b : Batcher) → (s.lanes b).queue ≡ [])
      → ((b : Batcher) → (s.lanes b).worker.buffer ≡ [])
      → Settled from s.added
  unfolding total
  stop_here s l r c complete done empty flat = record {
    state = s;
    reached = l;
    uncancelled = c;
    same_calls = refl;
    sent = done;
    emptied = empty;
    taken = λ f b. omega (
      arith,
      (Reach-IsSystem r).counted f b,
      none_pending f b s.goroutines done,
      ap (total f) (empty b),
    );
    rows = λ b. (
      flat b,
      sym (append-nil (flatten (s.lanes b).worker.batches))
          ∙ ap (λ x. flatten (s.lanes b).worker.batches ++ x) (sym (flat b))
          ∙ rows_kept r c pos complete b,
    );
  }

  tick_flushes :
      (s : System) (b : Batcher)
      → Reach n s
      → s.cancelled ≡ false
      → All CompleteMessage s.added
      → (handle tick (s.lanes b)).worker.buffer ≡ []
  tick_flushes s b r c complete =
      let w = (s.lanes b).worker in
      let unlocked = ((router_safe r c).2 b).2 in
      ap (λ x. x.buffer) (step-tick w (still_running r c pos complete b))
      ∙ (flush-IsFlushed w unlocked).emptied

  -- The ticker of each batcher flushes its buffer, one after another.
  pub flush_lanes :
      {from : System} (bs : List Batcher) (s : System)
      → Leads from s
      → Reach n s
      → s.cancelled ≡ false
      → All CompleteMessage s.added
      → All IsDone s.goroutines
      → ((b : Batcher) → (s.lanes b).queue ≡ [])
      → ((b : Batcher) → among b bs ≡ false → (s.lanes b).worker.buffer ≡ [])
      → Settled from s.added
  unfolding among
  flush_lanes [] s l r c complete done empty flat =
      stop_here s l r c complete done empty (λ b. flat b refl)
  flush_lanes (b ∷ bs) s l r c complete done empty flat =
      let ticked = handle tick (s.lanes b) in
      let alive = still-IsAlive r c pos complete in
      let round = tick_round b (still_running r c pos complete b) in
      flush_lanes bs _ (next l alive round) (later r alive round) c complete done
        (update-cases (λ _ (x : Lane). x.queue ≡ []) b ticked s.lanes (empty b) (λ d _. empty d))
        (update-cases (λ d (x : Lane). among d bs ≡ false → x.worker.buffer ≡ []) b ticked s.lanes
          (λ _. tick_flushes s b r c complete) (λ d other h. flat d (rw other h)))
