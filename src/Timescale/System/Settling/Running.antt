-- ===== src/Timescale/System/Settling/Running.antt =====
-- The workers of `flusherWorker` run while the messages are complete and the context is not cancelled.
use mathlib.Core.List.{flatten}
use formulatel.Common.{ℕ, ◌<◌, ◌≡◌, ◌≢◌, ap, ◌∙◌, false, List, [], ◌∷◌, ◌++◌, All}
use formulatel.Telemetry.{GameTelemetry}
use formulatel.Timescale.Batcher.{
  Event, Status, tick, message, context_done, channel_closed, running, crashed, new_table_batcher,
  flusher_worker,
}
use formulatel.Timescale.Batcher.Flow.{Advances, rows_of, new-IsFlowing}
use formulatel.Timescale.Batcher.Run.{flusher_worker-Advances}
use formulatel.Timescale.Router.{Batcher, table_of}
use formulatel.Timescale.Router.Routing.{IsComplete, CompleteEvent, routed_fits}
use formulatel.Timescale.System.{System, IsAlive, Reach}
use formulatel.Timescale.System.Invariant.Reached.{Reach-IsSystem}
use formulatel.Timescale.System.Safety.{uncancelled_calm}
use formulatel.Timescale.System.Fed.{EventHas, Reach-IsFed}

-- The pointers that the message holds can be read.
abbrev pub CompleteMessage : GameTelemetry → Type 0
CompleteMessage m = IsComplete m.content

complete_events :
    (events : List Event) → All (EventHas CompleteMessage) events → All CompleteEvent events
complete_events [] v = tt
complete_events (message msg ∷ events) v = (v.0, complete_events events v.1)
complete_events (tick ∷ events) v = (tt, complete_events events v.1)
complete_events (context_done ∷ events) v = (tt, complete_events events v.1)
complete_events (channel_closed ∷ events) v = (tt, complete_events events v.1)

module _ {n : ℕ} {s : System} (r : Reach n s) (c : s.cancelled ≡ false) (pos : 0 < n)
    (complete : All CompleteMessage s.added) where
  pub advances :
      (b : Batcher)
      → let start = new_table_batcher (table_of b) n in
        Advances
          (table_of b)
          n
          (rows_of (table_of b) (s.lanes b).seen)
          start
          (flusher_worker start (s.lanes b).seen)
  advances b =
      let v = (Reach-IsSystem r).lane b in
      let lane = s.lanes b in
      let fed = ((Reach-IsFed CompleteMessage r complete).lane b).1 in
      flusher_worker-Advances (table_of b) n (new_table_batcher (table_of b) n) lane.seen
        (new-IsFlowing (table_of b) n pos)
        (routed_fits b lane.seen (v.routed c) (complete_events lane.seen fed))

  pub still_running : (b : Batcher) → (s.lanes b).worker.status ≡ running
  still_running b = ap (λ w. w.status) ((Reach-IsSystem r).lane b).ran ∙ (advances b).flows.runs

  -- A worker that was fed complete messages from the router holds their rows, in its batches and buffer.
  pub rows_kept :
      (b : Batcher)
      → let w = (s.lanes b).worker in
        flatten w.batches ++ w.buffer ≡ rows_of (table_of b) (s.lanes b).seen
  unfolding new_table_batcher flatten
  rows_kept b =
      let v = (Reach-IsSystem r).lane b in
      ap (λ w. flatten w.batches ++ w.buffer) v.ran ∙ (advances b).took

  pub still-IsAlive : IsAlive s
  still-IsAlive = (uncancelled_calm (Reach-IsSystem r) c, λ b e. runs_not (still_running b) e)
    where
      runs_not : {x : Status} → x ≡ running → x ≢ crashed
      runs_not e h = cc
