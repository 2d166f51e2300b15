-- ===== src/F123/Transformer/Stream.antt =====
-- A run of `Consume` over a stream of telemetry packets.
use formulatel.Common.{
  ℕ, ◌+◌, ◌≡◌, suc, ◌∙◌, List, [], ◌∷◌, ◌++◌, some, All, length, get_elem?, arith,
}
use mathlib.Core.List.{append_assoc, append-nil}
use formulatel.Wire.Arrays.{put_array}
use formulatel.Telemetry.{GameTelemetry, vehicle_data}
use formulatel.F123.Model.{car_telemetry_packet}
use formulatel.F123.Model.Header.{PacketHeader}
use formulatel.F123.Model.Telemetry.{CarTelemetryData}
use formulatel.F123.Codec.Header.{put_packet_header}
use formulatel.F123.Codec.Telemetry.{IsCarTelemetryData, put_car_telemetry_data}
use formulatel.F123.Transformer.{
  Environment, State, Channel, panicked, Panic, game_telemetry, vehicle_data_channel,
}
use formulatel.F123.Transformer.Laws.{>>=-returned, >>=-panicked}
use formulatel.F123.Transformer.Normalize.{normalize_vehicle_data}
use formulatel.F123.Transformer.Route.Cars.{sent_one}
use formulatel.F123.Transformer.Consume.{Event, received, handle_packet, consume}
use formulatel.F123.Transformer.Delivery.{handle_packet-telemetry}

-- What the game puts in a packet of car telemetry.
pub record TelemetryPacket : Type 0 where
  pub header : PacketHeader
  pub cars : List CarTelemetryData
  pub player : CarTelemetryData

pub record IsTelemetryPacket (p : TelemetryPacket) : Type 0 where
  pub typed : p.header.packet_id ≡ car_telemetry_packet
  pub valid : All IsCarTelemetryData p.cars
  pub full : length p.cars ≡ 22
  pub driven : get_elem? p.cars p.header.player_car_index ≡ some p.player

abbrev pub bytes_of : TelemetryPacket → List ℕ
bytes_of p = put_packet_header p.header ++ (put_array put_car_telemetry_data p.cars ++ [])

-- The messages for a stream of packets, stamped by consecutive readings of the clock.
unfoldable pub messages : Environment → ℕ → List TelemetryPacket → List (Channel × GameTelemetry)
messages env reads [] = []
messages env reads (p ∷ ps) =
    (
      vehicle_data_channel,
      game_telemetry p.header (env.clock reads)
          (vehicle_data (normalize_vehicle_data env p.player)),
    )
    ∷ messages env (reads + 1) ps

abbrev pub arrivals : List TelemetryPacket → List Event → List Event
arrivals [] events = events
arrivals (p ∷ ps) events = received (bytes_of p) ∷ arrivals ps events

-- `Consume` over packets of car telemetry, and then over any further events, is the run over the
-- further events after one message for each packet was sent, in the order of their arrival.
pub consume-telemetry :
    (env : Environment) (ps : List TelemetryPacket) (events : List Event) (s : State)
    → All IsTelemetryPacket ps
    → consume env (arrivals ps events) s
      ≡ consume env events (record s {
        sent = s.sent ++ messages env s.clock_reads ps;
        clock_reads = s.clock_reads + length ps;
      })
unfolding consume messages
consume-telemetry env [] events s v =
    let e : s.clock_reads + 0 ≡ s.clock_reads = omega arith in rw (append-nil, e)
consume-telemetry env (p ∷ ps) events s v =
    let t =
      sent_one env p.header vehicle_data_channel
        (vehicle_data (normalize_vehicle_data env p.player)) s in
    let e : s.clock_reads + 1 + length ps ≡ s.clock_reads + suc (length ps) = omega arith in
    >>=-returned (handle_packet env (bytes_of p)) (λ _. consume env (arrivals ps events))
      (handle_packet-telemetry env p.header [] s p.cars p.player v.0.typed v.0.valid v.0.full
        v.0.driven)
    ∙ consume-telemetry env ps events t v.1
    ∙ rw (append_assoc, e)

-- The first packet that fails ends `Consume`: the events behind it are not looked at.
pub consume_panicked :
    (env : Environment) (packet : List ℕ) (events : List Event) (s t : State) (p : Panic)
    → handle_packet env packet s ≡ (panicked p, t)
    → consume env (received packet ∷ events) s ≡ (panicked p, t)
unfolding consume
consume_panicked env packet events s t p e =
    >>=-panicked (handle_packet env packet) (λ _. consume env events) e
