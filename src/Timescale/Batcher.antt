-- ===== src/Timescale/Batcher.antt =====
-- formulatel/internal/timescale/batcher.go: `TableBatcher`, the worker that buffers the rows of one
-- table and flushes them when the buffer is full, by the ticker, and when it stops.
pub mod Flush
pub mod Rounds
pub mod Flow
pub mod Run
pub mod Failures
use formulatel.Common.{
  ℕ, Bool, true, false, Option, none, some, List, [], ◌∷◌, ◌++◌, String, length, leb, if◌then◌else◌,
}
use text.Mathlib.Text.{◌==◌ as str_eq}
use formulatel.Telemetry.{GameTelemetry, HistoricLapData, get_lap_times_data}
use formulatel.Timescale.Rows.{
  Row, Built, built, failed, nil_dereference, unknown_table, build_motion_data_row,
  build_vehicle_data_row, build_current_lap_data_row, build_extended_wheel_data_row,
}

unfoldable pub build_row_for_copy : GameTelemetry → String → Built Row
unfolding build_motion_data_row build_vehicle_data_row build_current_lap_data_row
    build_extended_wheel_data_row
build_row_for_copy msg table_name =
    if str_eq table_name "vehicle_data"
    then build_vehicle_data_row msg
    else if str_eq table_name "motion_data"
    then build_motion_data_row msg
    else if str_eq table_name "extended_wheel_data"
    then build_extended_wheel_data_row msg
    else if str_eq table_name "live_lap_data"
    then build_current_lap_data_row msg
    else failed unknown_table

-- A worker runs, has returned, waits for a mutex that nobody will unlock, or has brought the
-- process down.
pub data Status : Type 0 where
  running stopped deadlocked crashed : Status

-- `TableBatcher` and its worker: what was handed to `writeBatch` and to `WriteLapRow` so far, in
-- order, and whether `bufferMu` is locked between two rounds of the loop.
pub record Worker : Type 0 where
  pub table_name : String
  pub batch_size : ℕ
  pub buffer : List Row
  pub locked : Bool
  pub status : Status
  pub batches : List (List Row)
  pub lap_writes : List GameTelemetry

-- For a positive flush interval: `time.NewTicker` panics on another.
unfoldable pub new_table_batcher : String → ℕ → Worker
new_table_batcher table_name batch_size = record {
  table_name = table_name;
  batch_size = batch_size;
  buffer = [];
  locked = false;
  status = running;
  batches = [];
  lap_writes = [];
}

flush_buffer : Worker → List Row → Worker
flush_buffer w [] = w
flush_buffer w (row ∷ rows) = record w { buffer = []; batches = w.batches ++ (row ∷ rows) ∷ [] }

-- `flush`: an empty buffer is left; a batch that could not be written is logged and gone.
unfoldable pub flush : Worker → Worker
unfolding flush_buffer
flush w = if w.locked then record w { status = deadlocked } else flush_buffer w w.buffer

-- The return behind a flush, which is not reached if the flush waits.
pub stop_after : Status → Worker → Worker
stop_after running w = record w { status = stopped }
stop_after _ w = w

pub append_row : Worker → Row → Worker
unfolding flush
append_row w row =
    let w' = record w { buffer = w.buffer ++ row ∷ [] } in
    if leb w'.batch_size (length w'.buffer) then flush w' else w'

-- The branch of a message that holds no lap time. A row that is not built leaves the mutex locked:
-- the `continue` skips the `Unlock`.
unfoldable pub buffer_row : Worker → Built Row → Worker
unfolding append_row
buffer_row w (built row) = append_row w row
buffer_row w (failed e) = record w { locked = true }
buffer_row w nil_dereference = record w { status = crashed }

on_message : Worker → GameTelemetry → Worker
unfolding buffer_row build_row_for_copy get_lap_times_data
on_message w msg = elim (get_lap_times_data msg) [
  | some lap ↦ record w { lap_writes = w.lap_writes ++ msg ∷ [] }
  | none ↦
      if w.locked
      then record w { status = deadlocked }
      else buffer_row w (build_row_for_copy msg w.table_name)
]

-- What the `select` of `flusherWorker` may see next.
pub data Event : Type 0 where
  context_done channel_closed tick : Event
  message : GameTelemetry → Event

-- One round of the loop.
pub on_event : Event → Worker → Worker
unfolding flush on_message stop_after
on_event context_done w = let w' = flush w in stop_after w'.status w'
on_event channel_closed w = let w' = flush w in stop_after w'.status w'
on_event tick w = flush w
on_event (message msg) w = on_message w msg

when_running : Status → Event → Worker → Worker
unfolding on_event
when_running running e w = on_event e w
when_running _ e w = w

unfoldable pub step : Worker → Event → Worker
unfolding when_running
step w e = when_running w.status e w

unfoldable pub flusher_worker : Worker → List Event → Worker
unfolding step
flusher_worker w [] = w
flusher_worker w (e ∷ events) = flusher_worker (step w e) events
