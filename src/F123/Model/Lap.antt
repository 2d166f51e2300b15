-- ===== src/F123/Model/Lap.antt =====
-- formulatel/f123/model.go: the lap data of one car, and how `binary.Read` fills it in.
use formulatel.Common.{ℕ, List, ◌*◌}
use formulatel.Wire.{Decoder, pure, ◌>>=◌, Layout, get_u16, get_u32, get_u8, get_array}

pub record LapData : Type 0 where
  pub last_lap_time_in_ms : ℕ
  pub current_lap_time_in_ms : ℕ
  pub sector1_time_in_ms : ℕ
  pub sector1_time_minutes : ℕ
  pub sector2_time_in_ms : ℕ
  pub sector2_time_minutes : ℕ
  pub delta_to_car_in_front_in_ms : ℕ
  pub delta_to_race_leader_in_ms : ℕ
  pub lap_distance : ℕ
  pub total_distance : ℕ
  pub safety_car_delta : ℕ
  pub car_position : ℕ
  pub current_lap_num : ℕ
  pub pit_status : ℕ
  pub num_pit_stops : ℕ
  pub sector : ℕ
  pub current_lap_invalid : ℕ
  pub penalties : ℕ
  pub total_warnings : ℕ
  pub corner_cutting_warnings : ℕ
  pub num_unserved_drive_through_pens : ℕ
  pub num_unserved_stop_go_pens : ℕ
  pub grid_position : ℕ
  pub driver_status : ℕ
  pub result_status : ℕ
  pub pit_lane_timer_active : ℕ
  pub pit_lane_time_in_lane_in_ms : ℕ
  pub pit_stop_timer_in_ms : ℕ
  pub pit_stop_should_serve_pen : ℕ

unfoldable pub get_lap_data : Decoder LapData
get_lap_data = do
  last_lap_time_in_ms_in ← get_u32
  current_lap_time_in_ms_in ← get_u32
  sector1_time_in_ms_in ← get_u16
  sector1_time_minutes_in ← get_u8
  sector2_time_in_ms_in ← get_u16
  sector2_time_minutes_in ← get_u8
  delta_to_car_in_front_in_ms_in ← get_u16
  delta_to_race_leader_in_ms_in ← get_u16
  lap_distance_in ← get_u32
  total_distance_in ← get_u32
  safety_car_delta_in ← get_u32
  car_position_in ← get_u8
  current_lap_num_in ← get_u8
  pit_status_in ← get_u8
  num_pit_stops_in ← get_u8
  sector_in ← get_u8
  current_lap_invalid_in ← get_u8
  penalties_in ← get_u8
  total_warnings_in ← get_u8
  corner_cutting_warnings_in ← get_u8
  num_unserved_drive_through_pens_in ← get_u8
  num_unserved_stop_go_pens_in ← get_u8
  grid_position_in ← get_u8
  driver_status_in ← get_u8
  result_status_in ← get_u8
  pit_lane_timer_active_in ← get_u8
  pit_lane_time_in_lane_in_ms_in ← get_u16
  pit_stop_timer_in_ms_in ← get_u16
  pit_stop_should_serve_pen_in ← get_u8
  pure (record {
    last_lap_time_in_ms = last_lap_time_in_ms_in;
    current_lap_time_in_ms = current_lap_time_in_ms_in;
    sector1_time_in_ms = sector1_time_in_ms_in;
    sector1_time_minutes = sector1_time_minutes_in;
    sector2_time_in_ms = sector2_time_in_ms_in;
    sector2_time_minutes = sector2_time_minutes_in;
    delta_to_car_in_front_in_ms = delta_to_car_in_front_in_ms_in;
    delta_to_race_leader_in_ms = delta_to_race_leader_in_ms_in;
    lap_distance = lap_distance_in;
    total_distance = total_distance_in;
    safety_car_delta = safety_car_delta_in;
    car_position = car_position_in;
    current_lap_num = current_lap_num_in;
    pit_status = pit_status_in;
    num_pit_stops = num_pit_stops_in;
    sector = sector_in;
    current_lap_invalid = current_lap_invalid_in;
    penalties = penalties_in;
    total_warnings = total_warnings_in;
    corner_cutting_warnings = corner_cutting_warnings_in;
    num_unserved_drive_through_pens = num_unserved_drive_through_pens_in;
    num_unserved_stop_go_pens = num_unserved_stop_go_pens_in;
    grid_position = grid_position_in;
    driver_status = driver_status_in;
    result_status = result_status_in;
    pit_lane_timer_active = pit_lane_timer_active_in;
    pit_lane_time_in_lane_in_ms = pit_lane_time_in_lane_in_ms_in;
    pit_stop_timer_in_ms = pit_stop_timer_in_ms_in;
    pit_stop_should_serve_pen = pit_stop_should_serve_pen_in;
  })

-- `[22]LapData`, one entry for each car.
abbrev pub lap_data_array_layout : Layout (List LapData)
lap_data_array_layout = record { size = 22 * 50; decode = get_array get_lap_data 22 }
