-- ===== src/Tests/Data.antt =====
-- The inputs: an environment, headers, cars, laps and messages.
use formulatel.Common.{ℕ, ◌+◌, zero, suc, true, false, [], ◌∷◌, none, All, replicate}
use formulatel.Common.Int.{pos, negsuc}
use formulatel.Telemetry.{
  GameTelemetry, VehicleData, vehicle_data, lap_times_data, current_lap_data,
}
use formulatel.F123.Model.Header.{PacketHeader}
use formulatel.F123.Model.Telemetry.{CarTelemetryData}
use formulatel.F123.Model.Motion.{CarMotionData}
use formulatel.F123.Model.Lap.{LapData}
use formulatel.F123.Model.History.{SessionHistoryData, LapHistoryData, TyreStintHistoryData}
use formulatel.F123.Model.MotionEx.{ExtendedMotionData}
use formulatel.F123.Transformer.{Environment, State, game_telemetry}
use formulatel.F123.Transformer.Normalize.{normalize_vehicle_data, current_lap_data_of}
use formulatel.F123.Transformer.History.{historic_lap_data}

pub All-replicate {ℓ κ} :
    {A : Type ℓ} (P : A → Type κ) (n : ℕ) (a : A) → P a → All P (replicate n a)
All-replicate P zero a h = tt
All-replicate P (suc n) a h = (h, All-replicate P n a h)

abbrev pub plain_env : Environment
plain_env = record { clock = λ n. 1000 + n; disk = λ _. true; other = λ _. 0; capture = false }

abbrev pub start : State
start = record {
  latest_laps = record { entries = [] };
  sent = [];
  clock_reads = 0;
  time_at_last_capture = none;
  capture_attempts = 0;
  captured = [];
}

abbrev pub header_of : ℕ → PacketHeader
header_of id = record {
  packet_format = 2023;
  game_year = 2;
  game_major_version = 3;
  game_minor_version = 4;
  packet_version = 5;
  packet_id = id;
  session_uid = 77;
  session_time = 8;
  frame_identifier = 9;
  overall_frame_identifier = 10;
  player_car_index = 1;
  secondary_player_car_index = 12;
}

-- The player of this header drives no car.
abbrev pub stray_header : PacketHeader
stray_header = record (header_of 6) { player_car_index = 22 }

abbrev pub car : CarTelemetryData
car = record {
  speed = 312;
  throttle = 2;
  steer = 3;
  brake = 4;
  clutch = 5;
  gear = negsuc 0;
  engine_rpm = 11500;
  drs = 8;
  rev_lights_percent = 9;
  rev_lights_bit_value = 10;
  brakes_temperature = 801 ∷ 802 ∷ 803 ∷ 804 ∷ [];
  tyres_surface_temperature = 11 ∷ 12 ∷ 13 ∷ 14 ∷ [];
  tyres_inner_temperature = 12 ∷ 13 ∷ 14 ∷ 15 ∷ [];
  engine_temperature = 14;
  tyres_pressure = 0x41bc0000 ∷ 0x41bc0000 ∷ 0x41bc0000 ∷ 0x41bc0000 ∷ [];
  surface_type = 15 ∷ 16 ∷ 17 ∷ 18 ∷ [];
}

abbrev pub moving : CarMotionData
moving = record {
  world_position_x = 1;
  world_position_y = 2;
  world_position_z = 3;
  world_velocity_x = 4;
  world_velocity_y = 5;
  world_velocity_z = 6;
  world_forward_dir_x = negsuc 40;
  world_forward_dir_y = pos 8;
  world_forward_dir_z = pos 9;
  world_right_dir_x = pos 10;
  world_right_dir_y = pos 11;
  world_right_dir_z = pos 12;
  g_force_lateral = 13;
  g_force_longitudinal = 14;
  g_force_vertical = 15;
  yaw = 16;
  pitch = 17;
  roll = 18;
}

abbrev pub lap : LapData
lap = record {
  last_lap_time_in_ms = 1;
  current_lap_time_in_ms = 2;
  sector1_time_in_ms = 3;
  sector1_time_minutes = 4;
  sector2_time_in_ms = 5;
  sector2_time_minutes = 6;
  delta_to_car_in_front_in_ms = 7;
  delta_to_race_leader_in_ms = 8;
  lap_distance = 9;
  total_distance = 10;
  safety_car_delta = 11;
  car_position = 12;
  current_lap_num = 13;
  pit_status = 14;
  num_pit_stops = 15;
  sector = 16;
  current_lap_invalid = 17;
  penalties = 18;
  total_warnings = 19;
  corner_cutting_warnings = 20;
  num_unserved_drive_through_pens = 21;
  num_unserved_stop_go_pens = 22;
  grid_position = 23;
  driver_status = 24;
  result_status = 25;
  pit_lane_timer_active = 26;
  pit_lane_time_in_lane_in_ms = 27;
  pit_stop_timer_in_ms = 28;
  pit_stop_should_serve_pen = 29;
}

abbrev pub old_lap : LapHistoryData
old_lap = record {
  lap_time_in_ms = 91234;
  sector1_time_in_ms = 2;
  sector1_time_minutes = 3;
  sector2_time_in_ms = 4;
  sector2_time_minutes = 5;
  sector3_time_in_ms = 6;
  sector3_time_minutes = 7;
  lap_valid_bit_flags = 15;
}

abbrev pub stint : TyreStintHistoryData
stint = record { end_lap = 1; tyre_actual_compound = 2; tyre_visual_compound = 3 }

abbrev pub history_of : ℕ → SessionHistoryData
history_of num_laps = record {
  current_car_idx = 1;
  num_laps = num_laps;
  num_tyre_stints = 3;
  best_lap_time_lap_num = 4;
  best_sector1_lap_num = 5;
  best_sector2_lap_num = 6;
  best_sector3_lap_num = 7;
  lap_history_data = replicate 100 old_lap;
  tyre_stints_history_data = replicate 8 stint;
}

abbrev pub wheels : ExtendedMotionData
wheels = record {
  suspension_position = 0 ∷ 1 ∷ 2 ∷ 3 ∷ [];
  suspension_velocity = 1 ∷ 2 ∷ 3 ∷ 4 ∷ [];
  suspension_acceleration = 2 ∷ 3 ∷ 4 ∷ 5 ∷ [];
  wheel_speed = 3 ∷ 4 ∷ 5 ∷ 6 ∷ [];
  wheel_slip_ratio = 4 ∷ 5 ∷ 6 ∷ 7 ∷ [];
  wheel_slip_angle = 5 ∷ 6 ∷ 7 ∷ 8 ∷ [];
  wheel_lat_force = 6 ∷ 7 ∷ 8 ∷ 9 ∷ [];
  wheel_lon_force = 7 ∷ 8 ∷ 9 ∷ 10 ∷ [];
  height_of_cog_above_ground = 9;
  local_velocity_x = 10;
  local_velocity_y = 11;
  local_velocity_z = 12;
  angular_velocity_x = 13;
  angular_velocity_y = 14;
  angular_velocity_z = 15;
  angular_acceleration_x = 16;
  angular_acceleration_y = 17;
  angular_acceleration_z = 18;
  front_wheels_angle = 19;
  wheel_vert_force = 19 ∷ 20 ∷ 21 ∷ 22 ∷ [];
}

-- The messages that ingest makes of them, and one whose tires are missing.
abbrev pub vehicle_message : GameTelemetry
vehicle_message =
    game_telemetry (header_of 6) 1000 (vehicle_data (normalize_vehicle_data plain_env car))

abbrev pub lap_message : GameTelemetry
lap_message = game_telemetry (header_of 11) 1001 (lap_times_data (historic_lap_data 0 old_lap))

abbrev pub live_message : GameTelemetry
live_message = game_telemetry (header_of 2) 1002 (current_lap_data (current_lap_data_of lap))

abbrev pub bare_vehicle : VehicleData
bare_vehicle = record {
  speed = 1;
  rpm = 2;
  throttle = 3;
  brake = 4;
  steering = 5;
  gear = pos 6;
  engine_temperature = 7;
  tires = none;
}

abbrev pub bare_message : GameTelemetry
bare_message = game_telemetry (header_of 6) 1000 (vehicle_data bare_vehicle)
