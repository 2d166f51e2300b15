-- ===== src/Tests/Batches.antt =====
-- The workers over a few events.
use formulatel.Common.{◌≡◌, ◌≢◌, refl, inl, inr, List, [], ◌∷◌, ◌++◌, All, arith, false}
use formulatel.Tests.Data.{
  plain_env, header_of, car, vehicle_message, live_message, bare_vehicle, bare_message,
}
use mathlib.Core.List.{flatten}
use formulatel.Telemetry.{get_lap_times_data}
use formulatel.Timescale.Rows.{unknown_table}
use formulatel.Timescale.Batcher.{
  Worker, Event, tick, message, context_done, stopped, running, deadlocked, crashed,
  new_table_batcher, flusher_worker, step, build_row_for_copy,
}
use formulatel.Timescale.Batcher.Flush.{BatchFits}
use formulatel.Timescale.Batcher.Flow.{rows_of, Advances, new-IsFlowing, FitsEvent}
use formulatel.Timescale.Batcher.Run.{flusher_worker-Advances}
use formulatel.Timescale.Batcher.Failures.{failed_row_silences, no_tires_crashes}
use formulatel.Timescale.Router.{vehicle, table_of, add}
use formulatel.Timescale.Router.Routing.{routed_rows_written, IsComplete}
use formulatel.Timescale.Router.Locks.{routed_never_deadlocks}
use formulatel.F123.Transformer.Normalize.{normalize_vehicle_data}
use formulatel.Pipeline.Vehicle.{vehicle_row_lem}
use formulatel.Tests.Rows.{car-InWidth}

abbrev events : List Event
events = message vehicle_message ∷ tick ∷ message vehicle_message ∷ message vehicle_message ∷ []

abbrev worker : Worker
worker = record {
  table_name = "vehicle_data";
  batch_size = 2;
  buffer = [];
  locked = false;
  status = running;
  batches = [];
  lap_writes = [];
}

-- A worker for a table that has no rows.
abbrev lost_worker : Worker
lost_worker = record worker { table_name = "session_lap_data" }

abbrev fitting : FitsEvent "vehicle_data" (message vehicle_message)
fitting =
    let r = vehicle_row_lem plain_env (header_of 6) 1000 car car-InWidth in
    inr (r.0, (unfold get_lap_times_data in refl), r.1)

pub added : add vehicle_message ≡ vehicle ∷ []
unfolding add
added = refl

pub complete : IsComplete vehicle_message.content
unfolding normalize_vehicle_data
complete = (_, refl, (_, refl), (_, refl), (_, refl), (_, refl))

routed_rows_written_example :
    let w = flusher_worker (new_table_batcher (table_of vehicle) 2) (events ++ context_done ∷ []) in
    (w.status ≡ stopped)
    × (w.buffer ≡ [])
    × (flatten w.batches ≡ rows_of (table_of vehicle) events)
    × All (BatchFits 2) w.batches
routed_rows_written_example =
    routed_rows_written vehicle 2 events context_done (omega arith)
      (added, (tt, (added, (added, tt)))) (complete, (tt, (complete, (complete, tt)))) (inl refl)

bare_added : add bare_message ≡ vehicle ∷ []
unfolding add
bare_added = refl

routed_never_deadlocks_example :
    let w =
      flusher_worker (new_table_batcher (table_of vehicle) 2) (message bare_message ∷ tick ∷ []) in
    (w.locked ≡ false) × (w.status ≢ deadlocked)
routed_never_deadlocks_example =
    routed_never_deadlocks vehicle 2 (message bare_message ∷ tick ∷ []) (bare_added, (tt, tt))

flusher_worker-Advances_example :
    Advances "vehicle_data" 2
      (rows_of "vehicle_data" events)
      (new_table_batcher "vehicle_data" 2)
      (flusher_worker (new_table_batcher "vehicle_data" 2) events)
flusher_worker-Advances_example =
    flusher_worker-Advances "vehicle_data" 2 (new_table_batcher "vehicle_data" 2) events
      (new-IsFlowing "vehicle_data" 2 (omega arith)) (fitting, (tt, (fitting, (fitting, tt))))

failed_row_silences_example :
    (flusher_worker lost_worker
      (message vehicle_message ∷ tick ∷ message live_message ∷ [])).batches
    ≡ []
unfolding build_row_for_copy get_lap_times_data
failed_row_silences_example =
    failed_row_silences lost_worker vehicle_message unknown_table refl refl refl refl
      (tick ∷ message live_message ∷ [])

no_tires_crashes_example :
    ((step worker (message bare_message)).status ≡ crashed)
    × ((step worker (message bare_message)).batches ≡ [])
no_tires_crashes_example =
    no_tires_crashes worker bare_message bare_vehicle refl refl refl refl refl
