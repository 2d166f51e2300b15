-- ===== src/Timescale/Laps.antt =====
-- formulatel/internal/timescale/batcher.go: `WriteLapRow`, which inserts one lap of a session, unless the
-- table has it. The key of the table is that of the migrations: session, user and number of the lap.
pub mod Once
pub mod Again
use formulatel.Common.{
  ℕ, Bool, true, false, ◌&&◌, Option, none, some, List, [], ◌∷◌, ◌++◌, ◌==◌, bytes_eq,
  if◌then◌else◌,
}
use formulatel.Text.{Text}
use formulatel.Telemetry.{
  GameTelemetry, GameTitle, HistoricLapData, get_lap_times_data, as_duration,
}

-- A row of `telemetry.session_lap_data`; the times are durations in nanoseconds.
pub record LapRow : Type 0 where
  pub session_id : Text
  pub user_id : Text
  pub title : ℕ
  pub lap_num : ℕ
  pub lap_time : ℕ
  pub sector1_time : ℕ
  pub sector2_time : ℕ
  pub sector3_time : ℕ
  pub lap_valid : Bool
  pub sector1_valid : Bool
  pub sector2_valid : Bool
  pub sector3_valid : Bool

-- `Title.Number()`
abbrev pub number : GameTitle → ℕ
number GameTitle.unknown = 0
number GameTitle.f123 = 1

-- The arguments of the statement.
unfoldable pub lap_row : GameTelemetry → HistoricLapData → LapRow
unfolding as_duration
lap_row msg lap = record {
  session_id = msg.session_id;
  user_id = msg.user_id;
  title = number msg.title;
  lap_num = lap.lap_num;
  lap_time = as_duration lap.lap_time;
  sector1_time = as_duration lap.sector1_time;
  sector2_time = as_duration lap.sector2_time;
  sector3_time = as_duration lap.sector3_time;
  lap_valid = lap.lap_valid;
  sector1_valid = lap.sector1_valid;
  sector2_valid = lap.sector2_valid;
  sector3_valid = lap.sector3_valid;
}

-- The constraint `unique_lap`.
unfoldable pub same_lap : LapRow → LapRow → Bool
same_lap a b =
    bytes_eq a.session_id b.session_id && (bytes_eq a.user_id b.user_id && a.lap_num == b.lap_num)

-- `INSERT … ON CONFLICT DO NOTHING`
unfoldable pub insert_lap : LapRow → List LapRow → List LapRow
unfolding same_lap
insert_lap row [] = row ∷ []
insert_lap row (r ∷ rows) =
    let rest = insert_lap row rows in if same_lap r row then r ∷ rows else r ∷ rest

pub data LapError : Type 0 where
  no_lap_time_data write_failed : LapError

-- `ok` is the answer of the database to the statement.
unfoldable pub write_lap_row : Bool → GameTelemetry → List LapRow → Option LapError × List LapRow
unfolding insert_lap lap_row get_lap_times_data
write_lap_row ok msg rows = elim (get_lap_times_data msg) [
  | some lap ↦ if ok then (none, insert_lap (lap_row msg lap) rows) else (some write_failed, rows)
  | none ↦ (some no_lap_time_data, rows)
]
