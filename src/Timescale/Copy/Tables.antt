-- ===== src/Timescale/Copy/Tables.antt =====
-- The columns of each table.
use formulatel.Common.{◌≡◌, List, [], ◌∷◌, String, arith}
use formulatel.Telemetry.{GameTelemetry}
use formulatel.Timescale.Rows.{Row, built}
use formulatel.Timescale.Batcher.{build_row_for_copy}
use formulatel.Timescale.Router.{
  Batcher, vehicle, motion, session_lap_data, live_lap_data, extended_wheel_data, table_of,
}
use formulatel.Timescale.Copy.Columns.{keys_of}

abbrev pub columns_of : Batcher → List String
columns_of vehicle =
    "time" ∷ "session_id" ∷ "user_id" ∷ "title" ∷ "speed" ∷ "rpm" ∷ "throttle" ∷ "brake"
    ∷ "steering" ∷ "gear" ∷ "engine_temperature" ∷ "fl_brake_temp" ∷ "fl_inner_temp"
    ∷ "fl_surface_temp" ∷ "fl_pressure" ∷ "fr_brake_temp" ∷ "fr_inner_temp" ∷ "fr_surface_temp"
    ∷ "fr_pressure" ∷ "bl_brake_temp" ∷ "bl_inner_temp" ∷ "bl_surface_temp" ∷ "bl_pressure"
    ∷ "br_brake_temp" ∷ "br_inner_temp" ∷ "br_surface_temp" ∷ "br_pressure" ∷ []
columns_of motion =
    "time" ∷ "session_id" ∷ "user_id" ∷ "title" ∷ "position_x" ∷ "position_y" ∷ "position_z"
    ∷ "velocity_x" ∷ "velocity_y" ∷ "velocity_z" ∷ "gforce_lateral" ∷ "gforce_longitudinal"
    ∷ "gforce_vertical" ∷ "yaw" ∷ "pitch" ∷ "roll" ∷ []
columns_of live_lap_data =
    "time" ∷ "session_id" ∷ "user_id" ∷ "title" ∷ "lap_num" ∷ "current_lap_time" ∷ "sector"
    ∷ "sector1_time" ∷ "sector2_time" ∷ "delta_to_car_in_front" ∷ "delta_to_race_leader"
    ∷ "lap_distance" ∷ "total_distance" ∷ []
columns_of extended_wheel_data =
    "time" ∷ "session_id" ∷ "user_id" ∷ "title" ∷ "bl_wheel_speed" ∷ "bl_vertical_force"
    ∷ "bl_slip_angle" ∷ "bl_slip_ratio" ∷ "bl_lateral_force" ∷ "bl_longitudinal_force"
    ∷ "bl_suspension_position" ∷ "bl_suspension_velocity" ∷ "br_wheel_speed" ∷ "br_vertical_force"
    ∷ "br_slip_angle" ∷ "br_slip_ratio" ∷ "br_lateral_force" ∷ "br_longitudinal_force"
    ∷ "br_suspension_position" ∷ "br_suspension_velocity" ∷ "fl_wheel_speed" ∷ "fl_vertical_force"
    ∷ "fl_slip_angle" ∷ "fl_slip_ratio" ∷ "fl_lateral_force" ∷ "fl_longitudinal_force"
    ∷ "fl_suspension_position" ∷ "fl_suspension_velocity" ∷ "fr_wheel_speed" ∷ "fr_vertical_force"
    ∷ "fr_slip_angle" ∷ "fr_slip_ratio" ∷ "fr_lateral_force" ∷ "fr_longitudinal_force"
    ∷ "fr_suspension_position" ∷ "fr_suspension_velocity" ∷ []
columns_of session_lap_data = []

-- A row that is built for the table of a batcher has the columns of that table, in this order.
pub built_columns :
    (msg : GameTelemetry) (b : Batcher) (row : Row)
    → build_row_for_copy msg (table_of b) ≡ built row
    → keys_of row ≡ columns_of b
unfolding build_row_for_copy
built_columns msg vehicle row e = ground arith
built_columns msg motion row e = ground arith
built_columns msg live_lap_data row e = ground arith
built_columns msg extended_wheel_data row e = ground arith
built_columns msg session_lap_data row e = ground arith
