-- ===== src/Pipeline/Wheels.antt =====
-- Extended motion as a row of the table `extended_wheel_data`.
use formulatel.Common.{ℕ, refl, List, [], ◌∷◌, String, get_or}
use formulatel.Text.{decimal}
use formulatel.Telemetry.{GameTitle, wheel_data}
use formulatel.F123.Model.Header.{PacketHeader}
use formulatel.F123.Model.MotionEx.{ExtendedMotionData}
use formulatel.F123.Transformer.{game_telemetry}
use formulatel.F123.Transformer.Normalize.{normalize_motion_ex_data}
use formulatel.Timescale.Rows.{Value}
use formulatel.Timescale.Batcher.{build_row_for_copy}
use formulatel.Timescale.Copy.{value_at}
use formulatel.Timescale.Router.{extended_wheel_data, table_of}
use formulatel.Pipeline.{BuiltWith}

abbrev pub wheel_columns : PacketHeader → ℕ → ExtendedMotionData → List (String × Value)
wheel_columns header time wheels =
    ("session_id", Value.string (decimal header.session_uid))
    ∷ ("user_id", Value.string (decimal header.player_car_index))
    ∷ ("time", Value.time time)
    ∷ ("title", Value.title GameTitle.f123)
    ∷ ("fl_wheel_speed", Value.float (get_or wheels.wheel_speed 2 0))
    ∷ ("fl_vertical_force", Value.float (get_or wheels.wheel_vert_force 2 0))
    ∷ ("fl_slip_angle", Value.float (get_or wheels.wheel_slip_angle 2 0))
    ∷ ("fl_slip_ratio", Value.float (get_or wheels.wheel_slip_ratio 2 0))
    ∷ ("fl_lateral_force", Value.float (get_or wheels.wheel_lat_force 2 0))
    ∷ ("fl_longitudinal_force", Value.float (get_or wheels.wheel_lon_force 2 0))
    ∷ ("fl_suspension_position", Value.float (get_or wheels.suspension_position 2 0))
    ∷ ("fl_suspension_velocity", Value.float (get_or wheels.suspension_velocity 2 0))
    ∷ ("fr_wheel_speed", Value.float (get_or wheels.wheel_speed 3 0))
    ∷ ("fr_vertical_force", Value.float (get_or wheels.wheel_vert_force 3 0))
    ∷ ("fr_slip_angle", Value.float (get_or wheels.wheel_slip_angle 3 0))
    ∷ ("fr_slip_ratio", Value.float (get_or wheels.wheel_slip_ratio 3 0))
    ∷ ("fr_lateral_force", Value.float (get_or wheels.wheel_lat_force 3 0))
    ∷ ("fr_longitudinal_force", Value.float (get_or wheels.wheel_lon_force 3 0))
    ∷ ("fr_suspension_position", Value.float (get_or wheels.suspension_position 3 0))
    ∷ ("fr_suspension_velocity", Value.float (get_or wheels.suspension_velocity 3 0))
    ∷ ("bl_wheel_speed", Value.float (get_or wheels.wheel_speed 0 0))
    ∷ ("bl_vertical_force", Value.float (get_or wheels.wheel_vert_force 0 0))
    ∷ ("bl_slip_angle", Value.float (get_or wheels.wheel_slip_angle 0 0))
    ∷ ("bl_slip_ratio", Value.float (get_or wheels.wheel_slip_ratio 0 0))
    ∷ ("bl_lateral_force", Value.float (get_or wheels.wheel_lat_force 0 0))
    ∷ ("bl_longitudinal_force", Value.float (get_or wheels.wheel_lon_force 0 0))
    ∷ ("bl_suspension_position", Value.float (get_or wheels.suspension_position 0 0))
    ∷ ("bl_suspension_velocity", Value.float (get_or wheels.suspension_velocity 0 0))
    ∷ ("br_wheel_speed", Value.float (get_or wheels.wheel_speed 1 0))
    ∷ ("br_vertical_force", Value.float (get_or wheels.wheel_vert_force 1 0))
    ∷ ("br_slip_angle", Value.float (get_or wheels.wheel_slip_angle 1 0))
    ∷ ("br_slip_ratio", Value.float (get_or wheels.wheel_slip_ratio 1 0))
    ∷ ("br_lateral_force", Value.float (get_or wheels.wheel_lat_force 1 0))
    ∷ ("br_longitudinal_force", Value.float (get_or wheels.wheel_lon_force 1 0))
    ∷ ("br_suspension_position", Value.float (get_or wheels.suspension_position 1 0))
    ∷ ("br_suspension_velocity", Value.float (get_or wheels.suspension_velocity 1 0))
    ∷ []

-- The extended motion of the player's car gives a row of `extended_wheel_data` that holds, bit for bit
-- and under the columns of the wheel, the speed, the vertical, lateral and longitudinal force, the
-- slip angle and ratio, and the position and velocity of the suspension of each wheel, with the session,
-- the user, the time and the title. The acceleration of the suspension is not among them.
pub wheel_row_lem :
    (header : PacketHeader) (time : ℕ) (wheels : ExtendedMotionData)
    → BuiltWith (wheel_columns header time wheels) (
        build_row_for_copy
          (game_telemetry header time (wheel_data (normalize_motion_ex_data wheels)))
          (table_of extended_wheel_data))
unfolding build_row_for_copy normalize_motion_ex_data value_at
wheel_row_lem header time wheels = (_, refl, refl)
