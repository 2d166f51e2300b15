-- ===== src/Pipeline/Laps.antt =====
-- Lap data as a row of the table `live_lap_data`.
use formulatel.Common.{ℕ, ◌<◌, ◌≡◌, refl, List, [], ◌∷◌, String, arith}
use formulatel.Text.{decimal}
use formulatel.Telemetry.{GameTitle, current_lap_data}
use formulatel.F123.Model.Header.{PacketHeader}
use formulatel.F123.Model.Lap.{LapData}
use formulatel.F123.Transformer.{game_telemetry}
use formulatel.F123.Transformer.Normalize.{current_lap_data_of, u32}
use formulatel.Timescale.Rows.{Value}
use formulatel.Timescale.Batcher.{build_row_for_copy}
use formulatel.Timescale.Copy.{value_at}
use formulatel.Timescale.Router.{live_lap_data, table_of}
use formulatel.Pipeline.{BuiltWith}

-- Each integer of the struct that is stored is of its width in the packet.
pub record InWidth (lap : LapData) : Type 0 where
  pub lap_num : lap.current_lap_num < 256
  pub lap_time : lap.last_lap_time_in_ms < 4294967296
  pub sector : lap.sector < 256
  pub sector1 : lap.sector1_time_in_ms < 65536
  pub sector2 : lap.sector2_time_in_ms < 65536
  pub in_front : lap.delta_to_car_in_front_in_ms < 65536
  pub leader : lap.delta_to_race_leader_in_ms < 65536

u32-dword : (x : ℕ) → x < 4294967296 → u32 x ≡ x
u32-dword x h = omega arith

-- What the row holds: `current_lap_time` is the time of the last lap, and the sectors are without
-- their minutes.
abbrev pub lap_columns : PacketHeader → ℕ → LapData → List (String × Value)
lap_columns header time lap =
    ("session_id", Value.string (decimal header.session_uid))
    ∷ ("user_id", Value.string (decimal header.player_car_index))
    ∷ ("time", Value.time time)
    ∷ ("title", Value.title GameTitle.f123)
    ∷ ("lap_num", Value.uint lap.current_lap_num)
    ∷ ("current_lap_time", Value.uint lap.last_lap_time_in_ms)
    ∷ ("sector", Value.uint lap.sector)
    ∷ ("sector1_time", Value.uint lap.sector1_time_in_ms)
    ∷ ("sector2_time", Value.uint lap.sector2_time_in_ms)
    ∷ ("delta_to_car_in_front", Value.uint lap.delta_to_car_in_front_in_ms)
    ∷ ("delta_to_race_leader", Value.uint lap.delta_to_race_leader_in_ms)
    ∷ ("lap_distance", Value.float lap.lap_distance)
    ∷ ("total_distance", Value.float lap.total_distance)
    ∷ []

-- The lap data of a car whose integers are of their width gives a row of `live_lap_data` that holds
-- the lap, the sector, the distances and the deltas, none cut off; `current_lap_time` holds the time
-- of the last lap, and the sector times are without their minutes.
pub lap_row_lem :
    (header : PacketHeader) (time : ℕ) (lap : LapData)
    → InWidth lap
    → BuiltWith (lap_columns header time lap) (
        build_row_for_copy
          (game_telemetry header time (current_lap_data (current_lap_data_of lap)))
          (table_of live_lap_data))
unfolding build_row_for_copy current_lap_data_of value_at
lap_row_lem header time lap v =
    simp
      (
        u32-dword lap.current_lap_num (omega (arith, v.lap_num)),
        u32-dword lap.last_lap_time_in_ms v.lap_time,
        u32-dword lap.sector (omega (arith, v.sector)),
        u32-dword lap.sector1_time_in_ms (omega (arith, v.sector1)),
        u32-dword lap.sector2_time_in_ms (omega (arith, v.sector2)),
        u32-dword lap.delta_to_car_in_front_in_ms (omega (arith, v.in_front)),
        u32-dword lap.delta_to_race_leader_in_ms (omega (arith, v.leader)),
      )
      (_, refl, refl)
