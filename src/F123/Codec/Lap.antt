-- ===== src/F123/Codec/Lap.antt =====
-- What the game writes of lap data (formulatel/f123/model.go), and how it is read.
use formulatel.Common.{List, length, ℕ, ◌++◌, ◌≡◌}
use formulatel.Wire.Scalars.{get_put, put_lengths, put_u16, put_u32, put_u8}
use formulatel.F123.Model.Lap.{LapData, get_lap_data}

unfoldable pub put_lap_data : LapData → List ℕ
put_lap_data x =
    put_u32 x.last_lap_time_in_ms
    ++ (put_u32 x.current_lap_time_in_ms
        ++ (put_u16 x.sector1_time_in_ms
            ++ (put_u8 x.sector1_time_minutes
                ++ (put_u16 x.sector2_time_in_ms
                    ++ (put_u8 x.sector2_time_minutes
                        ++ (put_u16 x.delta_to_car_in_front_in_ms
                            ++ (put_u16 x.delta_to_race_leader_in_ms
                                ++ (put_u32 x.lap_distance
                                    ++ (put_u32 x.total_distance
                                        ++ (put_u32 x.safety_car_delta
                                            ++ (put_u8 x.car_position
                                                ++ (put_u8 x.current_lap_num
                                                    ++ (put_u8 x.pit_status
                                                        ++ (put_u8 x.num_pit_stops
                                                            ++ (put_u8 x.sector
                                                            ++ (put_u8 x.current_lap_invalid
                                                            ++ (put_u8 x.penalties
                                                            ++ (put_u8 x.total_warnings
                                                            ++ (put_u8 x.corner_cutting_warnings
                                                            ++ (put_u8
                                                            x.num_unserved_drive_through_pens
                                                            ++ (put_u8 x.num_unserved_stop_go_pens
                                                            ++ (put_u8 x.grid_position
                                                            ++ (put_u8 x.driver_status
                                                            ++ (put_u8 x.result_status
                                                            ++ (put_u8 x.pit_lane_timer_active
                                                            ++ (put_u16
                                                            x.pit_lane_time_in_lane_in_ms
                                                            ++ (put_u16 x.pit_stop_timer_in_ms
                                                            ++ (put_u8
                                                            x.pit_stop_should_serve_pen))))))))))))))))))))))))))))

-- The struct is read back, and the bytes behind it are left.
pub get_lap_data-put : (x : LapData) (r : List ℕ) → get_lap_data (put_lap_data x ++ r) ≡ (x, r)
unfolding get_lap_data put_lap_data
get_lap_data-put x r = simp (get_put)

pub length-put_lap_data : (x : LapData) → length (put_lap_data x) ≡ 50
unfolding put_lap_data
length-put_lap_data x = simp put_lengths
