-- ===== src/F123/Model/History.antt =====
-- formulatel/f123/model.go: the session history of one car, and how `binary.Read` fills it in.
use formulatel.Common.{ℕ, List}
use formulatel.Wire.{Decoder, pure, ◌>>=◌, Layout, get_u16, get_u32, get_u8, get_array}

pub record LapHistoryData : Type 0 where
  pub lap_time_in_ms : ℕ
  pub sector1_time_in_ms : ℕ
  pub sector1_time_minutes : ℕ
  pub sector2_time_in_ms : ℕ
  pub sector2_time_minutes : ℕ
  pub sector3_time_in_ms : ℕ
  pub sector3_time_minutes : ℕ
  pub lap_valid_bit_flags : ℕ

unfoldable pub get_lap_history_data : Decoder LapHistoryData
get_lap_history_data = do
  lap_time_in_ms_in ← get_u32
  sector1_time_in_ms_in ← get_u16
  sector1_time_minutes_in ← get_u8
  sector2_time_in_ms_in ← get_u16
  sector2_time_minutes_in ← get_u8
  sector3_time_in_ms_in ← get_u16
  sector3_time_minutes_in ← get_u8
  lap_valid_bit_flags_in ← get_u8
  pure (record {
    lap_time_in_ms = lap_time_in_ms_in;
    sector1_time_in_ms = sector1_time_in_ms_in;
    sector1_time_minutes = sector1_time_minutes_in;
    sector2_time_in_ms = sector2_time_in_ms_in;
    sector2_time_minutes = sector2_time_minutes_in;
    sector3_time_in_ms = sector3_time_in_ms_in;
    sector3_time_minutes = sector3_time_minutes_in;
    lap_valid_bit_flags = lap_valid_bit_flags_in;
  })

pub record TyreStintHistoryData : Type 0 where
  pub end_lap : ℕ
  pub tyre_actual_compound : ℕ
  pub tyre_visual_compound : ℕ

unfoldable pub get_tyre_stint_history_data : Decoder TyreStintHistoryData
get_tyre_stint_history_data = do
  end_lap_in ← get_u8
  tyre_actual_compound_in ← get_u8
  tyre_visual_compound_in ← get_u8
  pure (record {
    end_lap = end_lap_in;
    tyre_actual_compound = tyre_actual_compound_in;
    tyre_visual_compound = tyre_visual_compound_in;
  })

pub record SessionHistoryData : Type 0 where
  pub current_car_idx : ℕ
  pub num_laps : ℕ
  pub num_tyre_stints : ℕ
  pub best_lap_time_lap_num : ℕ
  pub best_sector1_lap_num : ℕ
  pub best_sector2_lap_num : ℕ
  pub best_sector3_lap_num : ℕ
  pub lap_history_data : List LapHistoryData
  pub tyre_stints_history_data : List TyreStintHistoryData

unfoldable pub get_session_history_data : Decoder SessionHistoryData
get_session_history_data = do
  current_car_idx_in ← get_u8
  num_laps_in ← get_u8
  num_tyre_stints_in ← get_u8
  best_lap_time_lap_num_in ← get_u8
  best_sector1_lap_num_in ← get_u8
  best_sector2_lap_num_in ← get_u8
  best_sector3_lap_num_in ← get_u8
  lap_history_data_in ← get_array get_lap_history_data 100
  tyre_stints_history_data_in ← get_array get_tyre_stint_history_data 8
  pure (record {
    current_car_idx = current_car_idx_in;
    num_laps = num_laps_in;
    num_tyre_stints = num_tyre_stints_in;
    best_lap_time_lap_num = best_lap_time_lap_num_in;
    best_sector1_lap_num = best_sector1_lap_num_in;
    best_sector2_lap_num = best_sector2_lap_num_in;
    best_sector3_lap_num = best_sector3_lap_num_in;
    lap_history_data = lap_history_data_in;
    tyre_stints_history_data = tyre_stints_history_data_in;
  })

abbrev pub session_history_data_layout : Layout SessionHistoryData
session_history_data_layout = record { size = 1431; decode = get_session_history_data }
