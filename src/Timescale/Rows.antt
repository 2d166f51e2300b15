-- ===== src/Timescale/Rows.antt =====
-- formulatel/internal/timescale/batcher.go: a telemetry message as a row of its table. A row is a Go
-- map with the column names as keys; reading a field through a nil pointer panics.
use formulatel.Common.{ℕ, Option, none, some, List, [], ◌∷◌, String}
use formulatel.Common.Int.{ℤ}
use formulatel.Text.{Text}
use formulatel.Telemetry.{
  GameTelemetry, GameTitle, VehicleData, MotionData, CurrentLapData, ExtendedFourWheelData,
  get_vehicle_data, get_motion_data, get_current_lap_data, get_wheel_data,
}

pub data Value : Type 0 where
  time : ℕ → Value
  string : Text → Value
  title : GameTitle → Value
  uint : ℕ → Value
  int : ℤ → Value
  float : ℕ → Value

abbrev pub Row : Type 0
Row = List (String × Value)

pub data RowError : Type 0 where
  no_motion_data no_vehicle_data no_current_lap_data no_wheel_data unknown_table : RowError

pub data Built (A : Type 0) : Type 0 where
  built : A → Built A
  failed : RowError → Built A
  nil_dereference : Built A

infixl 5 ◌>>=◌
abbrev pub ◌>>=◌ : {A B : Type 0} → Built A → (A → Built B) → Built B
built a >>= f = f a
failed e >>= f = failed e
nil_dereference >>= f = nil_dereference

-- `p.Field` through a pointer to a message.
abbrev pub deref : {A : Type 0} → Option A → Built A
deref none = nil_dereference
deref (some a) = built a

-- `x.AsTime()`, which is the epoch on nil.
abbrev pub as_time : Option ℕ → ℕ
as_time none = 0
as_time (some t) = t

motion_row : GameTelemetry → MotionData → Row
motion_row msg motion_data =
    ("time", Value.time (as_time msg.timestamp))
    ∷ ("session_id", Value.string msg.session_id)
    ∷ ("user_id", Value.string msg.user_id)
    ∷ ("title", Value.title msg.title)
    ∷ ("position_x", Value.float motion_data.position_x)
    ∷ ("position_y", Value.float motion_data.position_y)
    ∷ ("position_z", Value.float motion_data.position_z)
    ∷ ("velocity_x", Value.float motion_data.velocity_x)
    ∷ ("velocity_y", Value.float motion_data.velocity_y)
    ∷ ("velocity_z", Value.float motion_data.velocity_z)
    ∷ ("gforce_lateral", Value.float motion_data.g_force_lateral)
    ∷ ("gforce_longitudinal", Value.float motion_data.g_force_longitudinal)
    ∷ ("gforce_vertical", Value.float motion_data.g_force_vertical)
    ∷ ("yaw", Value.float motion_data.yaw)
    ∷ ("pitch", Value.float motion_data.pitch)
    ∷ ("roll", Value.float motion_data.roll)
    ∷ []

unfoldable pub build_motion_data_row : GameTelemetry → Built Row
unfolding motion_row get_motion_data
build_motion_data_row msg = elim (get_motion_data msg) [
  | some motion_data ↦ built (motion_row msg motion_data)
  | none ↦ failed no_motion_data
]

vehicle_row : GameTelemetry → VehicleData → Built Row
vehicle_row msg vd = do
  tires ← deref vd.tires
  front_left ← deref tires.front_left
  front_right ← deref tires.front_right
  back_left ← deref tires.back_left
  back_right ← deref tires.back_right
  built (
      ("time", Value.time (as_time msg.timestamp))
      ∷ ("session_id", Value.string msg.session_id)
      ∷ ("user_id", Value.string msg.user_id)
      ∷ ("title", Value.title msg.title)
      ∷ ("speed", Value.uint vd.speed)
      ∷ ("rpm", Value.uint vd.rpm)
      ∷ ("throttle", Value.float vd.throttle)
      ∷ ("brake", Value.float vd.brake)
      ∷ ("steering", Value.float vd.steering)
      ∷ ("gear", Value.int vd.gear)
      ∷ ("engine_temperature", Value.uint vd.engine_temperature)
      ∷ ("fl_brake_temp", Value.uint front_left.brake_temperature)
      ∷ ("fl_inner_temp", Value.uint front_left.inner_temperature)
      ∷ ("fl_surface_temp", Value.uint front_left.surface_temperature)
      ∷ ("fl_pressure", Value.uint front_left.pressure)
      ∷ ("fr_brake_temp", Value.uint front_right.brake_temperature)
      ∷ ("fr_inner_temp", Value.uint front_right.inner_temperature)
      ∷ ("fr_surface_temp", Value.uint front_right.surface_temperature)
      ∷ ("fr_pressure", Value.uint front_right.pressure)
      ∷ ("bl_brake_temp", Value.uint back_left.brake_temperature)
      ∷ ("bl_inner_temp", Value.uint back_left.inner_temperature)
      ∷ ("bl_surface_temp", Value.uint back_left.surface_temperature)
      ∷ ("bl_pressure", Value.uint back_left.pressure)
      ∷ ("br_brake_temp", Value.uint back_right.brake_temperature)
      ∷ ("br_inner_temp", Value.uint back_right.inner_temperature)
      ∷ ("br_surface_temp", Value.uint back_right.surface_temperature)
      ∷ ("br_pressure", Value.uint back_right.pressure)
      ∷ [])

unfoldable pub build_vehicle_data_row : GameTelemetry → Built Row
unfolding vehicle_row get_vehicle_data
build_vehicle_data_row msg = elim (get_vehicle_data msg) [
  | some vd ↦ vehicle_row msg vd
  | none ↦ failed no_vehicle_data
]

current_lap_row : GameTelemetry → CurrentLapData → Row
current_lap_row msg lap_times =
    ("time", Value.time (as_time msg.timestamp))
    ∷ ("session_id", Value.string msg.session_id)
    ∷ ("user_id", Value.string msg.user_id)
    ∷ ("title", Value.title msg.title)
    ∷ ("lap_num", Value.uint lap_times.lap_num)
    ∷ ("current_lap_time", Value.uint lap_times.lap_time)
    ∷ ("sector", Value.uint lap_times.sector)
    ∷ ("sector1_time", Value.uint lap_times.sector1_time)
    ∷ ("sector2_time", Value.uint lap_times.sector2_time)
    ∷ ("delta_to_car_in_front", Value.uint lap_times.delta_to_car_in_front)
    ∷ ("delta_to_race_leader", Value.uint lap_times.delta_to_race_leader)
    ∷ ("lap_distance", Value.float lap_times.lap_distance)
    ∷ ("total_distance", Value.float lap_times.total_distance)
    ∷ []

unfoldable pub build_current_lap_data_row : GameTelemetry → Built Row
unfolding current_lap_row get_current_lap_data
build_current_lap_data_row msg = elim (get_current_lap_data msg) [
  | some lap_times ↦ built (current_lap_row msg lap_times)
  | none ↦ failed no_current_lap_data
]

wheel_row : GameTelemetry → ExtendedFourWheelData → Built Row
wheel_row msg ex_tires = do
  back_left ← deref ex_tires.back_left
  back_right ← deref ex_tires.back_right
  front_left ← deref ex_tires.front_left
  front_right ← deref ex_tires.front_right
  built (
      ("time", Value.time (as_time msg.timestamp))
      ∷ ("session_id", Value.string msg.session_id)
      ∷ ("user_id", Value.string msg.user_id)
      ∷ ("title", Value.title msg.title)
      ∷ ("bl_wheel_speed", Value.float back_left.wheel_speed)
      ∷ ("bl_vertical_force", Value.float back_left.vertical_force)
      ∷ ("bl_slip_angle", Value.float back_left.slip_angle)
      ∷ ("bl_slip_ratio", Value.float back_left.slip_ratio)
      ∷ ("bl_lateral_force", Value.float back_left.lateral_force)
      ∷ ("bl_longitudinal_force", Value.float back_left.longitudinal_force)
      ∷ ("bl_suspension_position", Value.float back_left.suspension_position)
      ∷ ("bl_suspension_velocity", Value.float back_left.suspension_velocity)
      ∷ ("br_wheel_speed", Value.float back_right.wheel_speed)
      ∷ ("br_vertical_force", Value.float back_right.vertical_force)
      ∷ ("br_slip_angle", Value.float back_right.slip_angle)
      ∷ ("br_slip_ratio", Value.float back_right.slip_ratio)
      ∷ ("br_lateral_force", Value.float back_right.lateral_force)
      ∷ ("br_longitudinal_force", Value.float back_right.longitudinal_force)
      ∷ ("br_suspension_position", Value.float back_right.suspension_position)
      ∷ ("br_suspension_velocity", Value.float back_right.suspension_velocity)
      ∷ ("fl_wheel_speed", Value.float front_left.wheel_speed)
      ∷ ("fl_vertical_force", Value.float front_left.vertical_force)
      ∷ ("fl_slip_angle", Value.float front_left.slip_angle)
      ∷ ("fl_slip_ratio", Value.float front_left.slip_ratio)
      ∷ ("fl_lateral_force", Value.float front_left.lateral_force)
      ∷ ("fl_longitudinal_force", Value.float front_left.longitudinal_force)
      ∷ ("fl_suspension_position", Value.float front_left.suspension_position)
      ∷ ("fl_suspension_velocity", Value.float front_left.suspension_velocity)
      ∷ ("fr_wheel_speed", Value.float front_right.wheel_speed)
      ∷ ("fr_vertical_force", Value.float front_right.vertical_force)
      ∷ ("fr_slip_angle", Value.float front_right.slip_angle)
      ∷ ("fr_slip_ratio", Value.float front_right.slip_ratio)
      ∷ ("fr_lateral_force", Value.float front_right.lateral_force)
      ∷ ("fr_longitudinal_force", Value.float front_right.longitudinal_force)
      ∷ ("fr_suspension_position", Value.float front_right.suspension_position)
      ∷ ("fr_suspension_velocity", Value.float front_right.suspension_velocity)
      ∷ [])

unfoldable pub build_extended_wheel_data_row : GameTelemetry → Built Row
unfolding wheel_row get_wheel_data
build_extended_wheel_data_row msg = elim (get_wheel_data msg) [
  | some ex_tires ↦ wheel_row msg ex_tires
  | none ↦ failed no_wheel_data
]
