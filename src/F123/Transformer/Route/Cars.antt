-- ===== src/F123/Transformer/Route/Cars.antt =====
-- The branches of `Route` for packets with an entry for each car.
use formulatel.Common.{
  ℕ, ◌+◌, ◌≡◌, ◌≤◌, ◌∙◌, List, [], ◌∷◌, ◌++◌, All, none, some, length, get_elem?, arith,
}
use formulatel.Wire.Arrays.{put_array}
use formulatel.Telemetry.{Data, vehicle_data, motion_data, current_lap_data}
use formulatel.F123.Model.{car_motion_packet, lap_data_packet, car_telemetry_packet}
use formulatel.F123.Model.Header.{PacketHeader}
use formulatel.F123.Model.Telemetry.{CarTelemetryData, get_car_telemetry_data}
use formulatel.F123.Model.Motion.{CarMotionData, get_car_motion_data}
use formulatel.F123.Model.Lap.{LapData, get_lap_data}
use formulatel.F123.Codec.Telemetry.{
  IsCarTelemetryData, put_car_telemetry_data, get_car_telemetry_data-put,
  length-put_car_telemetry_data,
}
use formulatel.F123.Codec.Motion.{
  IsCarMotionData, put_car_motion_data, get_car_motion_data-put, length-put_car_motion_data,
}
use formulatel.F123.Codec.Lap.{put_lap_data, get_lap_data-put, length-put_lap_data}
use formulatel.F123.Transformer.{
  Environment, State, Channel, returned, panicked, index_out_of_range, game_telemetry,
  vehicle_data_channel, motion_data_channel, current_lap_data_channel, index, send_telemetry,
}
use formulatel.F123.Transformer.Laws.{>>=-returned, >>=-panicked, index-some, index_past_end}
use formulatel.F123.Transformer.Normalize.{
  normalize_vehicle_data, normalize_motion_data, current_lap_data_of,
}
use formulatel.F123.Transformer.Route.{route, on_car_telemetry, on_car_motion, on_lap_data}
use formulatel.F123.Transformer.Route.Bodies.{body_buffer, with_cars}

-- The state after one more message: stamped by the next reading of the clock, and sent last.
abbrev pub sent_one : Environment → PacketHeader → Channel → Data → State → State
sent_one env header channel content s = record s {
  sent = s.sent ++ (channel, game_telemetry header (env.clock s.clock_reads) content) ∷ [];
  clock_reads = s.clock_reads + 1;
}

abbrev Any : LapData → Type 0
Any _ = Unit {0}

All-Any : (xs : List LapData) → All Any xs
All-Any [] = tt
All-Any (x ∷ xs) = (tt, All-Any xs)

module _ (env : Environment) (header : PacketHeader) (r : List ℕ) (s : State) where
  telemetry_body :
      (cars : List CarTelemetryData)
      → header.packet_id ≡ car_telemetry_packet
      → All IsCarTelemetryData cars
      → length cars ≡ 22
      → route env (some header) (body_buffer header (put_array put_car_telemetry_data cars ++ r)) s
        ≡ on_car_telemetry env header cars s
  unfolding route
  telemetry_body cars id v n = simp id (
      rw (
        with_cars 60 get_car_telemetry_data put_car_telemetry_data get_car_telemetry_data-put
          length-put_car_telemetry_data header (on_car_telemetry env header) cars r v n))

  motion_body :
      (cars : List CarMotionData)
      → header.packet_id ≡ car_motion_packet
      → All IsCarMotionData cars
      → length cars ≡ 22
      → route env (some header) (body_buffer header (put_array put_car_motion_data cars ++ r)) s
        ≡ on_car_motion env header cars s
  unfolding route
  motion_body cars id v n = simp id (
      rw (
        with_cars 60 get_car_motion_data put_car_motion_data get_car_motion_data-put
          length-put_car_motion_data header (on_car_motion env header) cars r v n))

  lap_body :
      (cars : List LapData)
      → header.packet_id ≡ lap_data_packet
      → length cars ≡ 22
      → route env (some header) (body_buffer header (put_array put_lap_data cars ++ r)) s
        ≡ on_lap_data env header cars s
  unfolding route
  lap_body cars id n = simp id (
      rw (
        with_cars {V = Any} 50 get_lap_data put_lap_data (λ a _. get_lap_data-put a)
          (λ a _. length-put_lap_data a) header (on_lap_data env header) cars r (All-Any cars) n))

  pub route_telemetry :
      (cars : List CarTelemetryData) (car : CarTelemetryData)
      → header.packet_id ≡ car_telemetry_packet
      → All IsCarTelemetryData cars
      → length cars ≡ 22
      → get_elem? cars header.player_car_index ≡ some car
      → route env (some header) (body_buffer header (put_array put_car_telemetry_data cars ++ r)) s
        ≡ (
          returned none,
          sent_one env header vehicle_data_channel
              (vehicle_data (normalize_vehicle_data env car))
              s,
        )
  unfolding on_car_telemetry send_telemetry
  route_telemetry cars car id v n e =
      telemetry_body cars id v n
      ∙ >>=-returned (index cars header.player_car_index) _
          (index-some cars header.player_car_index s e)

  pub route_motion :
      (cars : List CarMotionData) (car : CarMotionData)
      → header.packet_id ≡ car_motion_packet
      → All IsCarMotionData cars
      → length cars ≡ 22
      → get_elem? cars header.player_car_index ≡ some car
      → route env (some header) (body_buffer header (put_array put_car_motion_data cars ++ r)) s ≡ (
        returned none,
        sent_one env header motion_data_channel (motion_data (normalize_motion_data car)) s,
      )
  unfolding on_car_motion send_telemetry
  route_motion cars car id v n e =
      motion_body cars id v n
      ∙ >>=-returned (index cars header.player_car_index) _
          (index-some cars header.player_car_index s e)

  pub route_lap :
      (cars : List LapData) (car : LapData)
      → header.packet_id ≡ lap_data_packet
      → length cars ≡ 22
      → get_elem? cars header.player_car_index ≡ some car
      → route env (some header) (body_buffer header (put_array put_lap_data cars ++ r)) s ≡ (
        returned none,
        sent_one env header current_lap_data_channel (current_lap_data (current_lap_data_of car)) s,
      )
  unfolding on_lap_data send_telemetry
  route_lap cars car id n e =
      lap_body cars id n
      ∙ >>=-returned (index cars header.player_car_index) _
          (index-some cars header.player_car_index s e)

  -- A player's index that names no car stops the transformer: nothing is sent.
  pub route_no_such_car :
      (cars : List CarTelemetryData)
      → header.packet_id ≡ car_telemetry_packet
      → All IsCarTelemetryData cars
      → length cars ≡ 22
      → 22 ≤ header.player_car_index
      → route env (some header) (body_buffer header (put_array put_car_telemetry_data cars ++ r)) s
        ≡ (panicked index_out_of_range, s)
  unfolding on_car_telemetry send_telemetry
  route_no_such_car cars id v n h =
      telemetry_body cars id v n
      ∙ >>=-panicked (index cars header.player_car_index) _
          (index_past_end cars header.player_car_index s (omega arith))

  pub route_motion_past_end :
      (cars : List CarMotionData)
      → header.packet_id ≡ car_motion_packet
      → All IsCarMotionData cars
      → length cars ≡ 22
      → 22 ≤ header.player_car_index
      → route env (some header) (body_buffer header (put_array put_car_motion_data cars ++ r)) s
        ≡ (panicked index_out_of_range, s)
  unfolding on_car_motion
  route_motion_past_end cars id v n h =
      motion_body cars id v n
      ∙ >>=-panicked (index cars header.player_car_index) _
          (index_past_end cars header.player_car_index s (omega arith))

  pub route_lap_past_end :
      (cars : List LapData)
      → header.packet_id ≡ lap_data_packet
      → length cars ≡ 22
      → 22 ≤ header.player_car_index
      → route env (some header) (body_buffer header (put_array put_lap_data cars ++ r)) s
        ≡ (panicked index_out_of_range, s)
  unfolding on_lap_data
  route_lap_past_end cars id n h =
      lap_body cars id n
      ∙ >>=-panicked (index cars header.player_car_index) _
          (index_past_end cars header.player_car_index s (omega arith))
