-- ===== src/F123/Transformer/Meaning.antt =====
-- What each packet of the game means to the transformer, said without bytes, buffers and branches:
-- a specification of `handlePacket` and `Consume` (formulatel/f123/f123.go).
pub mod Packets
use formulatel.Common.{
  ℕ, ◌+◌, ◌-◌, ◌<◌, ◌≡◌, ◌==◌, List, [], ◌∷◌, ◌++◌, Option, none, some, All, length, take,
  get_elem?, leb, ltb, if◌then◌else◌,
}
use formulatel.Wire.Arrays.{put_array}
use formulatel.Telemetry.{Data, vehicle_data, motion_data, current_lap_data, wheel_data}
use formulatel.F123.Model.{
  car_motion_packet, lap_data_packet, car_telemetry_packet, session_history_packet,
  motion_ex_packet,
}
use formulatel.F123.Model.Header.{PacketHeader}
use formulatel.F123.Model.Telemetry.{CarTelemetryData}
use formulatel.F123.Model.Motion.{CarMotionData}
use formulatel.F123.Model.Lap.{LapData}
use formulatel.F123.Model.History.{SessionHistoryData}
use formulatel.F123.Model.MotionEx.{ExtendedMotionData}
use formulatel.F123.Codec.Header.{put_packet_header}
use formulatel.F123.Codec.Telemetry.{IsCarTelemetryData, put_car_telemetry_data}
use formulatel.F123.Codec.Motion.{IsCarMotionData, put_car_motion_data}
use formulatel.F123.Codec.Lap.{put_lap_data}
use formulatel.F123.Codec.History.{IsSessionHistoryData, put_session_history_data}
use formulatel.F123.Codec.MotionEx.{IsExtendedMotionData, put_extended_motion_data}
use formulatel.F123.Transformer.{
  Environment, Go, Channel, pure, panic, index_out_of_range, returned, panicked,
  vehicle_data_channel, motion_data_channel, current_lap_data_channel, extended_wheel_data_channel,
  ◌>>=◌, ◌>>◌,
}
use formulatel.F123.Transformer.Normalize.{
  normalize_vehicle_data, normalize_motion_data, current_lap_data_of, normalize_motion_ex_data,
}
use formulatel.F123.Transformer.History.Laps.{historic_laps}
use formulatel.F123.Transformer.Route.Cars.{sent_one}
use formulatel.F123.Transformer.Route.Histories.{recorded, record_laps, stamped_laps}
use formulatel.F123.Transformer.Route.Rest.{body_size}

-- What stands behind the header: a struct of the game, anything in a packet of a type that is not
-- read, or too few bytes.
pub data Body : Type 0 where
  telemetry : List CarTelemetryData → Body
  motion : List CarMotionData → Body
  laps : List LapData → Body
  history : SessionHistoryData → Body
  wheels : ExtendedMotionData → Body
  unread : Body
  cut : List ℕ → Body

-- A packet of the game; `rest` stands behind the body.
pub record GamePacket : Type 0 where
  pub header : PacketHeader
  pub body : Body
  pub rest : List ℕ

abbrev pub body_bytes : Body → List ℕ → List ℕ
body_bytes (telemetry cars) r = put_array put_car_telemetry_data cars ++ r
body_bytes (motion cars) r = put_array put_car_motion_data cars ++ r
body_bytes (laps cars) r = put_array put_lap_data cars ++ r
body_bytes (history h) r = put_session_history_data h ++ r
body_bytes (wheels w) r = put_extended_motion_data w ++ r
body_bytes unread r = r
body_bytes (cut bytes) r = bytes

abbrev pub packet_bytes : GamePacket → List ℕ
packet_bytes p = put_packet_header p.header ++ body_bytes p.body p.rest

-- The header names the type of the body, and the arrays have their lengths.
abbrev pub IsBody : PacketHeader → Body → Type 0
IsBody header (telemetry cars) =
    (header.packet_id ≡ car_telemetry_packet) × All IsCarTelemetryData cars × (length cars ≡ 22)
IsBody header (motion cars) =
    (header.packet_id ≡ car_motion_packet) × All IsCarMotionData cars × (length cars ≡ 22)
IsBody header (laps cars) = (header.packet_id ≡ lap_data_packet) × (length cars ≡ 22)
IsBody header (history h) = (header.packet_id ≡ session_history_packet) × IsSessionHistoryData h
IsBody header (wheels w) = (header.packet_id ≡ motion_ex_packet) × IsExtendedMotionData w
IsBody header unread = body_size header.packet_id ≡ 0
IsBody header (cut bytes) = length bytes < body_size header.packet_id

-- The entry of the player's car is sent; there may be none.
abbrev pub send_entry {ℓ} :
    {A : Type ℓ} → Environment → PacketHeader → Channel → (A → Data) → Option A → Go (Unit {0})
send_entry env header channel f none s = (panicked index_out_of_range, s)
send_entry env header channel f (some a) s = (returned tt, sent_one env header channel (f a) s)

-- The complete laps of the player's car, where there are more of them than were recorded.
abbrev pub send_history : Environment → PacketHeader → SessionHistoryData → Go (Unit {0})
send_history env header h s =
    let n = h.num_laps - 1 in
    if ltb (recorded env header h s) n
    then (if leb n 100
        then (
          returned tt,
          record (record_laps env header h s) {
            sent =
                s.sent
                ++ stamped_laps env header s.clock_reads
                    (historic_laps 0 (take n h.lap_history_data));
            clock_reads = s.clock_reads + n;
          },
        )
        else (panicked index_out_of_range, record_laps env header h s))
    else (returned tt, s)

unfoldable pub meaning : Environment → PacketHeader → Body → Go (Unit {0})
meaning env header (telemetry cars) =
    send_entry env header vehicle_data_channel
      (λ car. vehicle_data (normalize_vehicle_data env car))
      (get_elem? cars header.player_car_index)
meaning env header (motion cars) =
    send_entry env header motion_data_channel (λ car. motion_data (normalize_motion_data car))
      (get_elem? cars header.player_car_index)
meaning env header (laps cars) =
    send_entry env header current_lap_data_channel
      (λ lap. current_lap_data (current_lap_data_of lap)) (get_elem? cars header.player_car_index)
meaning env header (history h) =
    if h.current_car_idx == header.player_car_index then send_history env header h else pure tt
meaning env header (wheels w) =
    send_entry env header extended_wheel_data_channel (λ w. wheel_data (normalize_motion_ex_data w))
      (some w)
meaning env header _ = pure tt

-- The packets one after another; the first that fails ends it.
unfoldable pub meanings : Environment → List GamePacket → Go (Unit {0})
meanings env [] = pure tt
meanings env (p ∷ ps) = meaning env p.header p.body >> meanings env ps
