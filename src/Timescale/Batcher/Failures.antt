-- ===== src/Timescale/Batcher/Failures.antt =====
-- What a row that cannot be built does to the worker of its table.
use formulatel.Common.{◌≡◌, refl, ap, ◌∙◌, sym, subst, true, false, none, List, [], ◌∷◌, ◌⊎◌, arith}
use formulatel.Telemetry.{GameTelemetry, VehicleData, vehicle_data, get_lap_times_data}
use formulatel.Timescale.Rows.{failed, RowError, Row}
use formulatel.Timescale.Batcher.{
  Worker, running, deadlocked, crashed, Event, context_done, channel_closed, tick, message,
  build_row_for_copy, flush, buffer_row, step, flusher_worker,
}
use formulatel.Timescale.Batcher.Rounds.{step-row}

-- A worker whose mutex stays locked hands nothing on.
record IsStuck (batches : List (List Row)) (w : Worker) : Type 0 where
  locked : w.locked ≡ true
  silent : w.batches ≡ batches

step-IsStuck :
    (batches : List (List Row)) (w : Worker) (e : Event)
    → IsStuck batches w
    → IsStuck batches (step w e)
unfolding step
step-IsStuck batches w context_done v = ground arith
step-IsStuck batches w channel_closed v = ground arith
step-IsStuck batches w tick v = ground arith
step-IsStuck batches w (message msg) v = ground arith

run-IsStuck :
    (batches : List (List Row)) (w : Worker) (events : List Event)
    → IsStuck batches w
    → IsStuck batches (flusher_worker w events)
unfolding flusher_worker
run-IsStuck batches w [] v = v
run-IsStuck batches w (e ∷ events) v =
    run-IsStuck batches (step w e) events (step-IsStuck batches w e v)

module _ (w : Worker) (msg : GameTelemetry) (error : RowError) (runs : w.status ≡ running)
    (unlocked : w.locked ≡ false) (plain : get_lap_times_data msg ≡ none)
    (unbuilt : build_row_for_copy msg w.table_name ≡ failed error) where
  after_failure : step w (message msg) ≡ record w { locked = true }
  unfolding buffer_row
  after_failure = step-row w msg runs unlocked plain ∙ ap (buffer_row w) unbuilt

  -- A message that holds no lap time and whose row cannot be built, at a running and unlocked worker,
  -- leaves the mutex locked for good: whatever comes next, the worker writes no batch any more.
  pub failed_row_silences :
      (events : List Event) → (flusher_worker w (message msg ∷ events)).batches ≡ w.batches
  unfolding flusher_worker
  failed_row_silences events =
      (run-IsStuck w.batches (step w (message msg)) events (
        subst (IsStuck w.batches) (sym after_failure)
          (record { locked = refl; silent = refl }))).silent

  -- The next tick or stop waits for the mutex for ever.
  pub failed_row_deadlocks :
      (e : Event)
      → (e ≡ tick) ⊎ ((e ≡ context_done) ⊎ (e ≡ channel_closed))
      → (step (step w (message msg)) e).status ≡ deadlocked
  unfolding step flush
  failed_row_deadlocks e h = rw after_failure (ground (arith, runs))

-- A vehicle message without tires, at a running and unlocked worker of `vehicle_data`, brings the
-- process down; nothing of the buffer was written.
pub no_tires_crashes :
    (w : Worker) (msg : GameTelemetry) (d : VehicleData)
    → w.status ≡ running
    → w.locked ≡ false
    → w.table_name ≡ "vehicle_data"
    → msg.content ≡ vehicle_data d
    → d.tires ≡ none
    → ((step w (message msg)).status ≡ crashed) × ((step w (message msg)).batches ≡ w.batches)
unfolding build_row_for_copy buffer_row get_lap_times_data
no_tires_crashes w msg d runs unlocked table content tires =
    let e =
      step-row w msg runs unlocked (ground (arith, content))
      ∙ ap (λ t. buffer_row w (build_row_for_copy msg t)) table in
    rw e (ground (arith, content, tires))
