-- ===== src/Pipeline/Motion.antt =====
-- Car motion as a row of the table `motion_data`.
use formulatel.Common.{ℕ, refl, List, [], ◌∷◌, String}
use formulatel.Text.{decimal}
use formulatel.Telemetry.{GameTitle, motion_data}
use formulatel.F123.Model.Header.{PacketHeader}
use formulatel.F123.Model.Motion.{CarMotionData}
use formulatel.F123.Transformer.{game_telemetry}
use formulatel.F123.Transformer.Normalize.{normalize_motion_data}
use formulatel.Timescale.Rows.{Value}
use formulatel.Timescale.Batcher.{build_row_for_copy}
use formulatel.Timescale.Copy.{value_at}
use formulatel.Timescale.Router.{motion, table_of}
use formulatel.Pipeline.{BuiltWith}

abbrev pub motion_columns : PacketHeader → ℕ → CarMotionData → List (String × Value)
motion_columns header time car =
    ("session_id", Value.string (decimal header.session_uid))
    ∷ ("user_id", Value.string (decimal header.player_car_index))
    ∷ ("time", Value.time time)
    ∷ ("title", Value.title GameTitle.f123)
    ∷ ("position_x", Value.float car.world_position_x)
    ∷ ("position_y", Value.float car.world_position_y)
    ∷ ("position_z", Value.float car.world_position_z)
    ∷ ("velocity_x", Value.float car.world_velocity_x)
    ∷ ("velocity_y", Value.float car.world_velocity_y)
    ∷ ("velocity_z", Value.float car.world_velocity_z)
    ∷ ("gforce_lateral", Value.float car.g_force_lateral)
    ∷ ("gforce_longitudinal", Value.float car.g_force_longitudinal)
    ∷ ("gforce_vertical", Value.float car.g_force_vertical)
    ∷ ("yaw", Value.float car.yaw)
    ∷ ("pitch", Value.float car.pitch)
    ∷ ("roll", Value.float car.roll)
    ∷ []

-- The motion of a car gives a row of `motion_data` that holds its position, velocity, forces and
-- angles, bit for bit.
pub motion_row_lem :
    (header : PacketHeader) (time : ℕ) (car : CarMotionData)
    → BuiltWith (motion_columns header time car) (
        build_row_for_copy
          (game_telemetry header time (motion_data (normalize_motion_data car)))
          (table_of motion))
unfolding build_row_for_copy normalize_motion_data value_at
motion_row_lem header time car = (_, refl, refl)
