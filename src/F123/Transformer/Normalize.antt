-- ===== src/F123/Transformer/Normalize.antt =====
-- formulatel/f123/f123.go: the structs of the game mapped to the messages of formulatel.
use formulatel.Common.{ℕ, ◌%◌, ◌^◌, List, some, get_or}
use formulatel.Common.Float.{u32_of_f32}
use formulatel.Telemetry.{
  TireData, VehicleData, MotionData, CurrentLapData, ExtendedWheelData, ExtendedFourWheelData,
}
use formulatel.F123.Model.{
  wheel_index_rear_left, wheel_index_rear_right, wheel_index_front_left, wheel_index_front_right,
}
use formulatel.F123.Model.Telemetry.{CarTelemetryData}
use formulatel.F123.Model.Motion.{CarMotionData}
use formulatel.F123.Model.Lap.{LapData}
use formulatel.F123.Model.MotionEx.{ExtendedMotionData}
use formulatel.F123.Transformer.{Environment}

-- `uint32(x)` of a number without sign.
abbrev pub u32 : ℕ → ℕ
u32 x = x % 2 ^ 32

-- A wheel array has four entries and the index is a constant below 4: this cannot fail.
abbrev pub at_wheel : List ℕ → ℕ → ℕ
at_wheel xs i = get_or xs i 0

unfoldable pub tire_data : Environment → CarTelemetryData → ℕ → TireData
unfolding u32_of_f32
tire_data env telemetry wheel = record {
  brake_temperature = u32 (at_wheel telemetry.brakes_temperature wheel);
  inner_temperature = u32 (at_wheel telemetry.tyres_inner_temperature wheel);
  surface_temperature = u32 (at_wheel telemetry.tyres_surface_temperature wheel);
  pressure = u32_of_f32 env.other (at_wheel telemetry.tyres_pressure wheel);
}

unfoldable pub normalize_vehicle_data : Environment → CarTelemetryData → VehicleData
unfolding tire_data
normalize_vehicle_data env telemetry = record {
  speed = u32 telemetry.speed;
  rpm = u32 telemetry.engine_rpm;
  throttle = telemetry.throttle;
  brake = telemetry.brake;
  steering = telemetry.steer;
  gear = telemetry.gear;
  engine_temperature = u32 telemetry.engine_temperature;
  tires = some (record {
    front_left = some (tire_data env telemetry wheel_index_front_left);
    front_right = some (tire_data env telemetry wheel_index_front_right);
    back_left = some (tire_data env telemetry wheel_index_rear_left);
    back_right = some (tire_data env telemetry wheel_index_rear_right);
  });
}

unfoldable pub normalize_motion_data : CarMotionData → MotionData
normalize_motion_data motion = record {
  position_x = motion.world_position_x;
  position_y = motion.world_position_y;
  position_z = motion.world_position_z;
  velocity_x = motion.world_velocity_x;
  velocity_y = motion.world_velocity_y;
  velocity_z = motion.world_velocity_z;
  g_force_lateral = motion.g_force_lateral;
  g_force_longitudinal = motion.g_force_longitudinal;
  g_force_vertical = motion.g_force_vertical;
  yaw = motion.yaw;
  pitch = motion.pitch;
  roll = motion.roll;
}

-- The `pb.CurrentLapData` of the branch `LapDataPacket` of `Route`.
unfoldable pub current_lap_data_of : LapData → CurrentLapData
current_lap_data_of lap = record {
  lap_num = u32 lap.current_lap_num;
  lap_time = u32 lap.last_lap_time_in_ms;
  sector = u32 lap.sector;
  sector1_time = u32 lap.sector1_time_in_ms;
  sector2_time = u32 lap.sector2_time_in_ms;
  delta_to_car_in_front = u32 lap.delta_to_car_in_front_in_ms;
  delta_to_race_leader = u32 lap.delta_to_race_leader_in_ms;
  lap_distance = lap.lap_distance;
  total_distance = lap.total_distance;
}

unfoldable pub wheel_data_of : ExtendedMotionData → ℕ → ExtendedWheelData
wheel_data_of motion_ex wheel = record {
  wheel_speed = at_wheel motion_ex.wheel_speed wheel;
  vertical_force = at_wheel motion_ex.wheel_vert_force wheel;
  slip_angle = at_wheel motion_ex.wheel_slip_angle wheel;
  slip_ratio = at_wheel motion_ex.wheel_slip_ratio wheel;
  lateral_force = at_wheel motion_ex.wheel_lat_force wheel;
  longitudinal_force = at_wheel motion_ex.wheel_lon_force wheel;
  suspension_position = at_wheel motion_ex.suspension_position wheel;
  suspension_velocity = at_wheel motion_ex.suspension_velocity wheel;
}

unfoldable pub normalize_motion_ex_data : ExtendedMotionData → ExtendedFourWheelData
unfolding wheel_data_of
normalize_motion_ex_data motion_ex = record {
  back_left = some (wheel_data_of motion_ex wheel_index_rear_left);
  back_right = some (wheel_data_of motion_ex wheel_index_rear_right);
  front_left = some (wheel_data_of motion_ex wheel_index_front_left);
  front_right = some (wheel_data_of motion_ex wheel_index_front_right);
}
