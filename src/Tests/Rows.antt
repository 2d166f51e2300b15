-- ===== src/Tests/Rows.antt =====
-- Rows of the tables, and what the database receives.
use formulatel.Common.{ℕ, ◌≡◌, refl, [], ◌∷◌, some, arith, map}
use formulatel.Tests.Data.{plain_env, header_of, car, lap, wheels}
use formulatel.Telemetry.{vehicle_data, wheel_data, current_lap_data}
use formulatel.F123.Transformer.{game_telemetry}
use formulatel.F123.Transformer.Normalize.{
  normalize_vehicle_data, normalize_motion_ex_data, current_lap_data_of,
}
use formulatel.Timescale.Rows.{Row, Value}
use formulatel.Timescale.Batcher.{build_row_for_copy}
use formulatel.Timescale.Router.{vehicle, extended_wheel_data, live_lap_data, table_of}
use formulatel.Timescale.Copy.{CopyRequest, write_batch, value_at}
use formulatel.Timescale.Copy.Columns.{column, keys_of, write_batch_columns}
use formulatel.Timescale.Copy.Tables.{columns_of, built_columns}
use formulatel.Pipeline.{BuiltWith}
use formulatel.Pipeline.Vehicle
use formulatel.Pipeline.Vehicle.{vehicle_columns, vehicle_row_lem}
use formulatel.Pipeline.Laps
use formulatel.Pipeline.Laps.{lap_columns, lap_row_lem}
use formulatel.Pipeline.Wheels.{wheel_columns, wheel_row_lem}

pub car-InWidth : Vehicle.InWidth car
car-InWidth = record {
  speed = omega arith;
  engine_rpm = omega arith;
  engine_temperature = omega arith;
  brakes = (omega arith, (omega arith, (omega arith, (omega arith, tt))));
  surface = (omega arith, (omega arith, (omega arith, (omega arith, tt))));
  inner = (omega arith, (omega arith, (omega arith, (omega arith, tt))));
}

lap-InWidth : Laps.InWidth lap
lap-InWidth = record {
  lap_num = omega arith;
  lap_time = omega arith;
  sector = omega arith;
  sector1 = omega arith;
  sector2 = omega arith;
  in_front = omega arith;
  leader = omega arith;
}

vehicle_row_lem_example : BuiltWith (vehicle_columns plain_env (header_of 6) 1000 car) (
    build_row_for_copy
      (game_telemetry (header_of 6) 1000 (vehicle_data (normalize_vehicle_data plain_env car)))
      (table_of vehicle))
vehicle_row_lem_example = vehicle_row_lem plain_env (header_of 6) 1000 car car-InWidth

wheel_row_lem_example : BuiltWith (wheel_columns (header_of 13) 1000 wheels) (
    build_row_for_copy
      (game_telemetry (header_of 13) 1000 (wheel_data (normalize_motion_ex_data wheels)))
      (table_of extended_wheel_data))
wheel_row_lem_example = wheel_row_lem (header_of 13) 1000 wheels

lap_row_lem_example : BuiltWith (lap_columns (header_of 2) 1000 lap) (
    build_row_for_copy
      (game_telemetry (header_of 2) 1000 (current_lap_data (current_lap_data_of lap)))
      (table_of live_lap_data))
lap_row_lem_example = lap_row_lem (header_of 2) 1000 lap lap-InWidth

abbrev small_row : ℕ → Row
small_row n = ("speed", Value.uint n) ∷ ("gear", Value.uint 3) ∷ []

write_batch_columns_example :
    (request : CopyRequest) × (write_batch keys_of (small_row 1 ∷ small_row 2 ∷ []) ≡ some request)
    × (map (λ vs. column request.columns vs "speed") request.source.rows
        ≡ map (λ row. value_at row "speed") (small_row 1 ∷ small_row 2 ∷ []))
write_batch_columns_example =
    write_batch_columns keys_of (small_row 1) (small_row 2 ∷ []) "speed" (λ row key. refl)
      (refl, tt)

built_columns_example :
    keys_of (vehicle_row_lem plain_env (header_of 6) 1000 car car-InWidth).0 ≡ columns_of vehicle
built_columns_example =
    built_columns
      (game_telemetry (header_of 6) 1000 (vehicle_data (normalize_vehicle_data plain_env car)))
      vehicle (vehicle_row_lem plain_env (header_of 6) 1000 car car-InWidth).0
      (vehicle_row_lem plain_env (header_of 6) 1000 car car-InWidth).1
