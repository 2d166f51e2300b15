-- ===== src/F123/Transformer/Meaning/Packets.antt =====
-- `handlePacket` and `Consume` against the meaning of the packets, whatever the packets are.
use formulatel.Common.{
  ℕ, ◌-◌, ◌≡◌, ◌==◌, ◌∙◌, refl, sym, inl, inr, false, List, [], ◌∷◌, ◌++◌, All, get_elem?-lt,
  get_elem?-ge, arith, Bool-cases, leb, ltb,
}
use native.Mathlib.Decide.{dec_lt}
use formulatel.F123.Model.Header.{PacketHeader}
use formulatel.F123.Model.Telemetry.{CarTelemetryData}
use formulatel.F123.Model.Motion.{CarMotionData}
use formulatel.F123.Model.Lap.{LapData}
use formulatel.F123.Model.History.{SessionHistoryData}
use formulatel.F123.Codec.Header.{put_packet_header}
use formulatel.F123.Transformer.{Environment, State, ◌>>=◌, pure}
use formulatel.F123.Transformer.Laws.{>>=-returned, >>=-cong, >>=_assoc}
use formulatel.F123.Transformer.Route.Cars.{
  route_telemetry, route_motion, route_lap, route_no_such_car, route_motion_past_end,
  route_lap_past_end,
}
use formulatel.F123.Transformer.Route.Histories.{recorded}
use formulatel.F123.Transformer.Consume.{Event, received, handle_packet, consume}
use formulatel.F123.Transformer.Consume.Packets.{handle_packet_returned, handle_packet_panicked}
use formulatel.F123.Transformer.Delivery.{
  handle_packet-motion_ex, handle_packet_dropped, handle_packet-history,
  handle_packet_history_known, handle_packet_history_overlong,
}
use formulatel.F123.Transformer.Meaning.{
  Body, telemetry, motion, laps, history, wheels, unread, cut, GamePacket, body_bytes, packet_bytes,
  IsBody, send_history, meaning, meanings,
}

module _ (env : Environment) (off : env.capture ≡ false) where
  module _ (header : PacketHeader) (r : List ℕ) (s : State) where
    telemetry_lem :
        (cars : List CarTelemetryData)
        → IsBody header (telemetry cars)
        → handle_packet env (put_packet_header header ++ body_bytes (telemetry cars) r) s
          ≡ meaning env header (telemetry cars) s
    unfolding meaning
    telemetry_lem cars (id, v, n) = elim (dec_lt header.player_car_index 22) [
      | yes h ↦
          let (car, e) = get_elem?-lt cars header.player_car_index (omega arith) in
          rw e (
            handle_packet_returned env header (body_bytes (telemetry cars) r) s (inl off)
              (route_telemetry env header r s cars car id v n e))
      | no h ↦ rw (get_elem?-ge cars header.player_car_index (omega arith)) (
          handle_packet_panicked env header (body_bytes (telemetry cars) r) s (inl off)
            (route_no_such_car env header r s cars id v n (omega arith)))
    ]

    motion_lem :
        (cars : List CarMotionData)
        → IsBody header (motion cars)
        → handle_packet env (put_packet_header header ++ body_bytes (motion cars) r) s
          ≡ meaning env header (motion cars) s
    unfolding meaning
    motion_lem cars (id, v, n) = elim (dec_lt header.player_car_index 22) [
      | yes h ↦
          let (car, e) = get_elem?-lt cars header.player_car_index (omega arith) in
          rw e (
            handle_packet_returned env header (body_bytes (motion cars) r) s (inl off)
              (route_motion env header r s cars car id v n e))
      | no h ↦ rw (get_elem?-ge cars header.player_car_index (omega arith)) (
          handle_packet_panicked env header (body_bytes (motion cars) r) s (inl off)
            (route_motion_past_end env header r s cars id v n (omega arith)))
    ]

    laps_lem :
        (cars : List LapData)
        → IsBody header (laps cars)
        → handle_packet env (put_packet_header header ++ body_bytes (laps cars) r) s
          ≡ meaning env header (laps cars) s
    unfolding meaning
    laps_lem cars (id, n) = elim (dec_lt header.player_car_index 22) [
      | yes h ↦
          let (car, e) = get_elem?-lt cars header.player_car_index (omega arith) in
          rw e (
            handle_packet_returned env header (body_bytes (laps cars) r) s (inl off)
              (route_lap env header r s cars car id n e))
      | no h ↦ rw (get_elem?-ge cars header.player_car_index (omega arith)) (
          handle_packet_panicked env header (body_bytes (laps cars) r) s (inl off)
            (route_lap_past_end env header r s cars id n (omega arith)))
    ]

    send_history_lem :
        (h : SessionHistoryData)
        → IsBody header (history h)
        → h.current_car_idx ≡ header.player_car_index
        → handle_packet env (put_packet_header header ++ body_bytes (history h) r) s
          ≡ send_history env header h s
    send_history_lem h (id, v) mine =
        elim (Bool-cases (ltb (recorded env header h s) (h.num_laps - 1))) [
          | inr known ↦
              rw known
                (handle_packet_history_known env header h r s off id v (inr (mine, ground arith)))
          | inl fresh ↦ elim (Bool-cases (leb (h.num_laps - 1) 100)) [
            | inl fits ↦
                rw (fresh, fits)
                  (handle_packet-history env header h r s off id v mine (ground arith)
                    (ground arith))
            | inr long ↦
                rw (fresh, long)
                  (handle_packet_history_overlong env header h r s off id v mine (ground arith)
                    (ground arith))
          ]
        ]

    history_lem :
        (h : SessionHistoryData)
        → IsBody header (history h)
        → handle_packet env (put_packet_header header ++ body_bytes (history h) r) s
          ≡ meaning env header (history h) s
    unfolding meaning
    history_lem h v = elim (Bool-cases (h.current_car_idx == header.player_car_index)) [
      | inl mine ↦ rw mine (send_history_lem h v (ground arith))
      | inr other ↦
          rw other (handle_packet_history_known env header h r s off v.0 v.1 (inl (ground arith)))
    ]

    -- Without capture, a packet of any kind, with a body of the type that its header names, one of a
    -- type that is not read, or one that is too short, does to the transformer what it means.
    pub handle_packet-meaning :
        (b : Body)
        → IsBody header b
        → handle_packet env (put_packet_header header ++ body_bytes b r) s ≡ meaning env header b s
    unfolding meaning
    handle_packet-meaning (telemetry cars) v = telemetry_lem cars v
    handle_packet-meaning (motion cars) v = motion_lem cars v
    handle_packet-meaning (laps cars) v = laps_lem cars v
    handle_packet-meaning (history h) v = history_lem h v
    handle_packet-meaning (wheels w) v = handle_packet-motion_ex env header r s w v.0 v.1
    handle_packet-meaning unread v = handle_packet_dropped env header r s (inl off) (inr v)
    handle_packet-meaning (cut bytes) v = handle_packet_dropped env header bytes s (inl off) (inl v)

  abbrev pub arrive : List GamePacket → List Event → List Event
  arrive [] events = events
  arrive (p ∷ ps) events = received (packet_bytes p) ∷ arrive ps events

  abbrev pub AreGamePackets : List GamePacket → Type 0
  AreGamePackets = All (λ p. IsBody p.header p.body)

  -- Without capture, `Consume` over any packets of the game, each of a type that is read, of one that
  -- is not, or cut short, and then over any further events, does what the packets mean one after
  -- another, and then, if none of them stops it, goes on with the events.
  pub consume-meanings :
      (ps : List GamePacket) (events : List Event) (s : State)
      → AreGamePackets ps
      → consume env (arrive ps events) s ≡ (meanings env ps >>= λ _. consume env events) s
  unfolding consume meanings
  consume-meanings [] events s v = sym (>>=-returned (pure tt) (λ _. consume env events) refl)
  consume-meanings (p ∷ ps) events s v =
      >>=-cong (handle_packet env (packet_bytes p)) (meaning env p.header p.body)
        (λ _. consume env (arrive ps events)) (λ _. meanings env ps >>= λ _. consume env events)
        (λ _ t. consume-meanings ps events t v.1)
        (handle_packet-meaning p.header p.rest s p.body v.0)
      ∙ >>=_assoc (meaning env p.header p.body) (λ _. meanings env ps) (λ _. consume env events) s
