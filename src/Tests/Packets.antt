-- ===== src/Tests/Packets.antt =====
-- Packets of each kind through the transformer.
use formulatel.Common.{ℕ, ◌≡◌, refl, [], ◌∷◌, ◌++◌, replicate, arith}
use formulatel.Tests.Data.{
  All-replicate, plain_env, start, header_of, stray_header, car, moving, history_of,
}
use formulatel.Wire.Arrays.{put_array}
use formulatel.F123.Codec.Header.{put_packet_header}
use formulatel.F123.Codec.Telemetry.{IsCarTelemetryData, put_car_telemetry_data}
use formulatel.F123.Codec.Motion.{IsCarMotionData}
use formulatel.F123.Codec.History.{IsSessionHistoryData, put_session_history_data}
use formulatel.F123.LatestLaps
use formulatel.F123.Transformer.{panicked, index_out_of_range, nil_dereference}
use formulatel.F123.Transformer.Route.Histories.{recorded, record_laps}
use formulatel.F123.Transformer.Consume.{handle_packet}
use formulatel.F123.Transformer.Consume.Packets.{handle_packet_runt}
use formulatel.F123.Transformer.Delivery.{handle_packet_no_such_car, handle_packet_history_overlong}

pub car-IsValid : IsCarTelemetryData car
car-IsValid = record {
  gear = omega arith;
  brakes_temperature = refl;
  tyres_surface_temperature = refl;
  tyres_inner_temperature = refl;
  tyres_pressure = refl;
  surface_type = refl;
}

pub moving-IsValid : IsCarMotionData moving
moving-IsValid = record {
  world_forward_dir_x = omega arith;
  world_forward_dir_y = omega arith;
  world_forward_dir_z = omega arith;
  world_right_dir_x = omega arith;
  world_right_dir_y = omega arith;
  world_right_dir_z = omega arith;
}

history-IsValid : (n : ℕ) → IsSessionHistoryData (history_of n)
history-IsValid n = record { lap_history_data = refl; tyre_stints_history_data = refl }

handle_packet_no_such_car_example :
    handle_packet plain_env
      (put_packet_header stray_header
        ++ (put_array put_car_telemetry_data (replicate 22 car) ++ []))
      start
    ≡ (panicked index_out_of_range, start)
handle_packet_no_such_car_example =
    handle_packet_no_such_car plain_env stray_header [] start (replicate 22 car) refl
      (All-replicate IsCarTelemetryData 22 car car-IsValid) refl (omega arith)

handle_packet_runt_example :
    handle_packet plain_env (1 ∷ 2 ∷ 3 ∷ []) start ≡ (panicked nil_dereference, start)
handle_packet_runt_example = handle_packet_runt plain_env (1 ∷ 2 ∷ 3 ∷ []) start (omega arith)

nothing_recorded : (n : ℕ) → recorded plain_env (header_of 11) (history_of n) start ≡ 0
unfolding LatestLaps.get
nothing_recorded n = refl

handle_packet_history_overlong_example :
    handle_packet plain_env
      (put_packet_header (header_of 11) ++ (put_session_history_data (history_of 102) ++ []))
      start
    ≡ (panicked index_out_of_range, record_laps plain_env (header_of 11) (history_of 102) start)
handle_packet_history_overlong_example =
    handle_packet_history_overlong plain_env (header_of 11) (history_of 102) [] start refl refl
      (history-IsValid 102) refl (omega (arith, nothing_recorded 102)) (omega arith)
