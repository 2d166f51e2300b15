-- ===== src/F123/Transformer/Delivery.antt =====
-- A whole packet, header and body as the game writes them, through `handlePacket`.
use formulatel.Common.{
  ℕ, ◌+◌, ◌-◌, ◌≤◌, ◌<◌, ◌≡◌, ◌≢◌, ◌⊎◌, inl, inr, false, List, ◌++◌, some, All, length, take,
  get_elem?, arith, ◌∙◌,
}
use formulatel.Wire.Arrays.{put_array}
use formulatel.Telemetry.{vehicle_data, motion_data, current_lap_data, wheel_data}
use formulatel.F123.Model.{
  car_motion_packet, lap_data_packet, car_telemetry_packet, session_history_packet,
  motion_ex_packet,
}
use formulatel.F123.Model.Header.{PacketHeader}
use formulatel.F123.Model.Telemetry.{CarTelemetryData}
use formulatel.F123.Model.Motion.{CarMotionData}
use formulatel.F123.Model.Lap.{LapData}
use formulatel.F123.Model.History.{SessionHistoryData}
use formulatel.F123.Model.MotionEx.{ExtendedMotionData}
use formulatel.F123.Codec.Header.{put_packet_header}
use formulatel.F123.Codec.Telemetry.{IsCarTelemetryData, put_car_telemetry_data}
use formulatel.F123.Codec.Motion.{IsCarMotionData, put_car_motion_data}
use formulatel.F123.Codec.Lap.{put_lap_data}
use formulatel.F123.Codec.History.{IsSessionHistoryData, put_session_history_data}
use formulatel.F123.Codec.MotionEx.{IsExtendedMotionData, put_extended_motion_data}
use formulatel.F123.Transformer.{
  Environment, State, returned, panicked, index_out_of_range, vehicle_data_channel,
  motion_data_channel, current_lap_data_channel, extended_wheel_data_channel,
}
use formulatel.F123.Transformer.Normalize.{
  normalize_vehicle_data, normalize_motion_data, current_lap_data_of, normalize_motion_ex_data,
}
use formulatel.F123.Transformer.History.Laps.{historic_laps}
use formulatel.F123.Transformer.Route.Cars.{
  sent_one, route_telemetry, route_motion, route_lap, route_no_such_car,
}
use formulatel.F123.Transformer.Route.Histories.{
  recorded, record_laps, stamped_laps, on_session_history_fresh, on_session_history_stale,
  on_session_history_other, on_session_history_overlong,
}
use formulatel.F123.Transformer.Route.Rest.{
  body_size, route_motion_ex, route_history, route_truncated, route_ignored,
}
use formulatel.F123.Transformer.Consume.{handle_packet}
use formulatel.F123.Transformer.Consume.Packets.{handle_packet_returned, handle_packet_panicked}

module _ (env : Environment) (header : PacketHeader) (r : List ℕ) (s : State) where
  -- A packet of car telemetry with an entry for each of 22 cars, whatever follows it: the entry of
  -- the player's car is normalized and sent on the channel for vehicle data, stamped by one
  -- reading of the clock, and nothing else changes.
  pub handle_packet-telemetry :
      (cars : List CarTelemetryData) (car : CarTelemetryData)
      → header.packet_id ≡ car_telemetry_packet
      → All IsCarTelemetryData cars
      → length cars ≡ 22
      → get_elem? cars header.player_car_index ≡ some car
      → handle_packet env
          (put_packet_header header ++ (put_array put_car_telemetry_data cars ++ r))
          s
        ≡ (
          returned tt,
          sent_one env header vehicle_data_channel
              (vehicle_data (normalize_vehicle_data env car))
              s,
        )
  handle_packet-telemetry cars car id v n e =
      handle_packet_returned env header (put_array put_car_telemetry_data cars ++ r) s
        (inr (omega arith)) (route_telemetry env header r s cars car id v n e)

  -- A packet of car motion with an entry for each of 22 cars: the entry of the player's car is sent
  -- on the channel for motion data, and nothing else changes.
  pub handle_packet-motion :
      (cars : List CarMotionData) (car : CarMotionData)
      → header.packet_id ≡ car_motion_packet
      → All IsCarMotionData cars
      → length cars ≡ 22
      → get_elem? cars header.player_car_index ≡ some car
      → handle_packet env (put_packet_header header ++ (put_array put_car_motion_data cars ++ r)) s
        ≡ (
          returned tt,
          sent_one env header motion_data_channel (motion_data (normalize_motion_data car)) s,
        )
  handle_packet-motion cars car id v n e =
      handle_packet_returned env header (put_array put_car_motion_data cars ++ r) s
        (inr (omega arith)) (route_motion env header r s cars car id v n e)

  -- A packet of lap data with an entry for each of 22 cars: the entry of the player's car is sent
  -- on the channel for the current lap, and nothing else changes.
  pub handle_packet-lap :
      (cars : List LapData) (car : LapData)
      → header.packet_id ≡ lap_data_packet
      → length cars ≡ 22
      → get_elem? cars header.player_car_index ≡ some car
      → handle_packet env (put_packet_header header ++ (put_array put_lap_data cars ++ r)) s ≡ (
        returned tt,
        sent_one env header current_lap_data_channel (current_lap_data (current_lap_data_of car)) s,
      )
  handle_packet-lap cars car id n e =
      handle_packet_returned env header (put_array put_lap_data cars ++ r) s (inr (omega arith))
        (route_lap env header r s cars car id n e)

  -- A packet of extended motion: the wheels are sent on the channel for wheel data, and nothing else
  -- changes.
  pub handle_packet-motion_ex :
      (wheels : ExtendedMotionData)
      → header.packet_id ≡ motion_ex_packet
      → IsExtendedMotionData wheels
      → handle_packet env (put_packet_header header ++ (put_extended_motion_data wheels ++ r)) s ≡ (
        returned tt,
        sent_one env header extended_wheel_data_channel
            (wheel_data (normalize_motion_ex_data wheels))
            s,
      )
  handle_packet-motion_ex wheels id v =
      handle_packet_returned env header (put_extended_motion_data wheels ++ r) s (inr (omega arith))
        (route_motion_ex env header s wheels r id v)

  -- A packet of car telemetry whose index of the player's car names none of the 22 cars stops the transformer with an
  -- index out of range, and nothing was sent.
  pub handle_packet_no_such_car :
      (cars : List CarTelemetryData)
      → header.packet_id ≡ car_telemetry_packet
      → All IsCarTelemetryData cars
      → length cars ≡ 22
      → 22 ≤ header.player_car_index
      → handle_packet env
          (put_packet_header header ++ (put_array put_car_telemetry_data cars ++ r))
          s
        ≡ (panicked index_out_of_range, s)
  handle_packet_no_such_car cars id v n h =
      handle_packet_panicked env header (put_array put_car_telemetry_data cars ++ r) s
        (inr (omega arith)) (route_no_such_car env header r s cars id v n h)

-- A body that is shorter than its type, or one of a type that is not read, is dropped: the
-- transformer goes on and no part of its state has changed (no capture of session histories).
pub handle_packet_dropped :
    (env : Environment) (header : PacketHeader) (body : List ℕ) (s : State)
    → (env.capture ≡ false) ⊎ (header.packet_id ≢ session_history_packet)
    → (length body < body_size header.packet_id) ⊎ (body_size header.packet_id ≡ 0)
    → handle_packet env (put_packet_header header ++ body) s ≡ (returned tt, s)
handle_packet_dropped env header body s plain (inl short) =
    handle_packet_returned env header body s plain (route_truncated env header s body short)
handle_packet_dropped env header body s plain (inr ignored) =
    handle_packet_returned env header body s plain (route_ignored env header s body ignored)

module _ (env : Environment) (header : PacketHeader) (history : SessionHistoryData) (r : List ℕ)
    (s : State) (off : env.capture ≡ false) (id : header.packet_id ≡ session_history_packet)
    (v : IsSessionHistoryData history) where
  -- Without capture, a session history of the player's car whose arrays have their lengths, that holds
  -- more complete laps than were recorded, and claims at most 101 laps: all complete laps are sent in
  -- order, numbered from 0, each stamped by its own reading of the clock, and their number is
  -- recorded; nothing else changes.
  pub handle_packet-history :
      history.current_car_idx ≡ header.player_car_index
      → recorded env header history s < history.num_laps - 1
      → history.num_laps ≤ 101
      → handle_packet env (put_packet_header header ++ (put_session_history_data history ++ r)) s
        ≡ (
          returned tt,
          record (record_laps env header history s) {
            sent =
                s.sent
                ++ stamped_laps env header s.clock_reads
                    (historic_laps 0 (take (history.num_laps - 1) history.lap_history_data));
            clock_reads = s.clock_reads + (history.num_laps - 1);
          },
        )
  handle_packet-history mine h fits =
      handle_packet_returned env header (put_session_history_data history ++ r) s (inl off) (
        route_history env header s history r id v
        ∙ on_session_history_fresh env header history s mine h (omega (arith, v.lap_history_data)))

  -- Without capture, a session history of another car, or one of the player's car that holds no more
  -- complete laps than were recorded, changes nothing, if its arrays have their lengths.
  pub handle_packet_history_known :
      (history.current_car_idx ≢ header.player_car_index)
        ⊎ ((history.current_car_idx ≡ header.player_car_index)
            × (history.num_laps - 1 ≤ recorded env header history s))
      → handle_packet env (put_packet_header header ++ (put_session_history_data history ++ r)) s
        ≡ (returned tt, s)
  handle_packet_history_known (inl other) =
      handle_packet_returned env header (put_session_history_data history ++ r) s (inl off) (
        route_history env header s history r id v
        ∙ on_session_history_other env header history s other)
  handle_packet_history_known (inr (mine, h)) =
      handle_packet_returned env header (put_session_history_data history ++ r) s (inl off) (
        route_history env header s history r id v
        ∙ on_session_history_stale env header history s mine h)

  -- Without capture, a session history of the player's car whose arrays have their lengths, that claims
  -- more than 101 laps, and more complete ones than were recorded, stops the transformer with an index
  -- out of range; its laps count as recorded, though none was sent.
  pub handle_packet_history_overlong :
      history.current_car_idx ≡ header.player_car_index
      → recorded env header history s < history.num_laps - 1
      → 101 < history.num_laps
      → handle_packet env (put_packet_header header ++ (put_session_history_data history ++ r)) s
        ≡ (panicked index_out_of_range, record_laps env header history s)
  handle_packet_history_overlong mine h long =
      handle_packet_panicked env header (put_session_history_data history ++ r) s (inl off) (
        route_history env header s history r id v
        ∙ on_session_history_overlong env header history s mine h
            (omega (arith, v.lap_history_data)))
