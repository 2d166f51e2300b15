-- ===== src/F123/Transformer/Route.antt =====
-- formulatel/f123/f123.go, `Route`: the body of a packet by the type in its header.
pub mod Bodies
pub mod Cars
pub mod Histories
pub mod Rest
use formulatel.Common.{ℕ, Option, none, some, List, [], ◌∷◌, ◌==◌, if◌then◌else◌}
use formulatel.Wire.{Layout}
use formulatel.Telemetry.{
  HistoricLapData, vehicle_data, motion_data, current_lap_data, lap_times_data, wheel_data,
}
use formulatel.F123.Model.{
  car_motion_packet, lap_data_packet, car_telemetry_packet, session_history_packet,
  motion_ex_packet,
}
use formulatel.F123.Model.Header.{PacketHeader}
use formulatel.F123.Model.Telemetry.{CarTelemetryData, car_telemetry_data_array_layout}
use formulatel.F123.Model.Motion.{CarMotionData, car_motion_data_array_layout}
use formulatel.F123.Model.Lap.{LapData, lap_data_array_layout}
use formulatel.F123.Model.History.{SessionHistoryData, session_history_data_layout}
use formulatel.F123.Model.MotionEx.{ExtendedMotionData, extended_motion_data_layout}
use formulatel.F123.Buffer.{PacketBuffer, BufferError, Returned, unpack_body}
use formulatel.F123.Transformer.{
  Environment, Go, pure, panic, nil_dereference, index, send_telemetry, ◌>>=◌, ◌>>◌,
  vehicle_data_channel, motion_data_channel, current_lap_data_channel, lap_times_data_channel,
  extended_wheel_data_channel,
}
use formulatel.F123.Transformer.Normalize.{
  normalize_vehicle_data, normalize_motion_data, current_lap_data_of, normalize_motion_ex_data,
}
use formulatel.F123.Transformer.History.{normalize_session_history_data}

-- `x, err := UnpackBody[T](data); if err != nil { return err }`, and the code behind it, which
-- reads `*x`.
after_body : {A : Type 0} → Returned A → (A → Go (Option BufferError)) → Go (Option BufferError)
after_body r k = elim r.error [
  | some e ↦ pure (some e)
  | none ↦ elim r.value [ none ↦ panic nil_dereference | some a ↦ k a ]
]

unfoldable pub with_body :
    {A : Type 0} → Layout A → PacketBuffer → (A → Go (Option BufferError)) → Go (Option BufferError)
unfolding after_body unpack_body
with_body l b k = after_body (unpack_body l b).0 k

unfoldable pub on_car_telemetry :
    Environment → PacketHeader → List CarTelemetryData → Go (Option BufferError)
unfolding ◌>>=◌ index
on_car_telemetry env header telemetry = do
  car ← index telemetry header.player_car_index
  send_telemetry env header vehicle_data_channel (vehicle_data (normalize_vehicle_data env car))
  pure none

unfoldable pub on_car_motion :
    Environment → PacketHeader → List CarMotionData → Go (Option BufferError)
unfolding ◌>>=◌ index
on_car_motion env header motion = do
  car ← index motion header.player_car_index
  send_telemetry env header motion_data_channel (motion_data (normalize_motion_data car))
  pure none

unfoldable pub on_lap_data : Environment → PacketHeader → List LapData → Go (Option BufferError)
unfolding ◌>>=◌ index
on_lap_data env header laps = do
  lap ← index laps header.player_car_index
  send_telemetry env header current_lap_data_channel (current_lap_data (current_lap_data_of lap))
  pure none

-- The loop over the laps of a session history.
unfoldable pub send_laps : Environment → PacketHeader → List HistoricLapData → Go (Unit {0})
unfolding ◌>>=◌
send_laps env header [] = pure tt
send_laps env header (lap ∷ laps) = do
  send_telemetry env header lap_times_data_channel (lap_times_data lap)
  send_laps env header laps

unfoldable pub on_session_history :
    Environment → PacketHeader → SessionHistoryData → Go (Option BufferError)
unfolding ◌>>=◌
on_session_history env header history =
    if history.current_car_idx == header.player_car_index
    then (do
      laps ← normalize_session_history_data header history
      send_laps env header laps
      pure none)
    else pure none

unfoldable pub on_motion_ex :
    Environment → PacketHeader → ExtendedMotionData → Go (Option BufferError)
unfolding ◌>>=◌
on_motion_ex env header wheels = do
  send_telemetry env header extended_wheel_data_channel
      (wheel_data (normalize_motion_ex_data wheels))
  pure none

-- The switch over the packet types; the types without a case fall through.
unfoldable pub dispatch : Environment → PacketHeader → PacketBuffer → Go (Option BufferError)
dispatch env header b =
    if header.packet_id == car_telemetry_packet
    then with_body car_telemetry_data_array_layout b (on_car_telemetry env header)
    else if header.packet_id == car_motion_packet
    then with_body car_motion_data_array_layout b (on_car_motion env header)
    else if header.packet_id == lap_data_packet
    then with_body lap_data_array_layout b (on_lap_data env header)
    else if header.packet_id == session_history_packet
    then with_body session_history_data_layout b (on_session_history env header)
    else if header.packet_id == motion_ex_packet
    then with_body extended_motion_data_layout b (on_motion_ex env header)
    else pure none

-- The header is a pointer, and the switch reads through it.
unfoldable pub route : Environment → Option PacketHeader → PacketBuffer → Go (Option BufferError)
unfolding dispatch
route env none b = panic nil_dereference
route env (some header) b = dispatch env header b
