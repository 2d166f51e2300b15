-- ===== src/Telemetry.antt =====
-- formulatel/internal/genproto/telemetry.pb.go, generated from protobuf/telemetry.proto: the
-- messages that ingest sends and persist stores. A pointer to a message is an `Option`; an integer
-- is a number below 2 ^ 32, a float its bit pattern.
use formulatel.Common.{ℕ, ◌+◌, ◌*◌, ◌/◌, ◌%◌, Bool, Option, none, some}
use formulatel.Common.Int.{ℤ}
use formulatel.Text.{Text}

pub data GameTitle : Type 0 where
  unknown f123 : GameTitle

pub record TireData : Type 0 where
  pub brake_temperature : ℕ
  pub inner_temperature : ℕ
  pub surface_temperature : ℕ
  pub pressure : ℕ

pub record Tires : Type 0 where
  pub front_left : Option TireData
  pub front_right : Option TireData
  pub back_left : Option TireData
  pub back_right : Option TireData

pub record VehicleData : Type 0 where
  pub speed : ℕ
  pub rpm : ℕ
  pub throttle : ℕ
  pub brake : ℕ
  pub steering : ℕ
  pub gear : ℤ
  pub engine_temperature : ℕ
  pub tires : Option Tires

pub record ExtendedWheelData : Type 0 where
  pub wheel_speed : ℕ
  pub vertical_force : ℕ
  pub slip_angle : ℕ
  pub slip_ratio : ℕ
  pub lateral_force : ℕ
  pub longitudinal_force : ℕ
  pub suspension_position : ℕ
  pub suspension_velocity : ℕ

pub record ExtendedFourWheelData : Type 0 where
  pub back_left : Option ExtendedWheelData
  pub back_right : Option ExtendedWheelData
  pub front_left : Option ExtendedWheelData
  pub front_right : Option ExtendedWheelData

pub record MotionData : Type 0 where
  pub position_x : ℕ
  pub position_y : ℕ
  pub position_z : ℕ
  pub velocity_x : ℕ
  pub velocity_y : ℕ
  pub velocity_z : ℕ
  pub g_force_lateral : ℕ
  pub g_force_longitudinal : ℕ
  pub g_force_vertical : ℕ
  pub yaw : ℕ
  pub pitch : ℕ
  pub roll : ℕ

pub record CurrentLapData : Type 0 where
  pub lap_num : ℕ
  pub lap_time : ℕ
  pub sector : ℕ
  pub sector1_time : ℕ
  pub sector2_time : ℕ
  pub delta_to_car_in_front : ℕ
  pub delta_to_race_leader : ℕ
  pub lap_distance : ℕ
  pub total_distance : ℕ

-- `durationpb.Duration`: whole seconds, and the nanoseconds above them.
pub record Duration : Type 0 where
  pub seconds : ℕ
  pub nanos : ℕ

-- `durationpb.New` of a duration in nanoseconds that is not negative.
unfoldable pub new_duration : ℕ → Duration
new_duration ns = record { seconds = ns / 1000000000; nanos = ns % 1000000000 }

-- `AsDuration`, which is 0 on nil.
unfoldable pub as_duration : Option Duration → ℕ
as_duration none = 0
as_duration (some d) = d.seconds * 1000000000 + d.nanos

pub record HistoricLapData : Type 0 where
  pub lap_num : ℕ
  pub lap_time : Option Duration
  pub sector1_time : Option Duration
  pub sector2_time : Option Duration
  pub sector3_time : Option Duration
  pub lap_valid : Bool
  pub sector1_valid : Bool
  pub sector2_valid : Bool
  pub sector3_valid : Bool

-- The `oneof data`; `nothing` is the nil interface.
pub data Data : Type 0 where
  nothing : Data
  vehicle_data : VehicleData → Data
  motion_data : MotionData → Data
  current_lap_data : CurrentLapData → Data
  lap_times_data : HistoricLapData → Data
  wheel_data : ExtendedFourWheelData → Data

-- The timestamp in nanoseconds since the epoch.
pub record GameTelemetry : Type 0 where
  pub title : GameTitle
  pub session_id : Text
  pub user_id : Text
  pub timestamp : Option ℕ
  pub content : Data

vehicle_of : Data → Option VehicleData
vehicle_of (vehicle_data d) = some d
vehicle_of _ = none

motion_of : Data → Option MotionData
motion_of (motion_data d) = some d
motion_of _ = none

current_lap_of : Data → Option CurrentLapData
current_lap_of (current_lap_data d) = some d
current_lap_of _ = none

lap_times_of : Data → Option HistoricLapData
lap_times_of (lap_times_data d) = some d
lap_times_of _ = none

wheel_of : Data → Option ExtendedFourWheelData
wheel_of (wheel_data d) = some d
wheel_of _ = none

unfoldable pub get_vehicle_data : GameTelemetry → Option VehicleData
unfolding vehicle_of
get_vehicle_data x = vehicle_of x.content

unfoldable pub get_motion_data : GameTelemetry → Option MotionData
unfolding motion_of
get_motion_data x = motion_of x.content

unfoldable pub get_current_lap_data : GameTelemetry → Option CurrentLapData
unfolding current_lap_of
get_current_lap_data x = current_lap_of x.content

unfoldable pub get_lap_times_data : GameTelemetry → Option HistoricLapData
unfolding lap_times_of
get_lap_times_data x = lap_times_of x.content

unfoldable pub get_wheel_data : GameTelemetry → Option ExtendedFourWheelData
unfolding wheel_of
get_wheel_data x = wheel_of x.content
