-- ===== src/Tests/Delivered.antt =====
-- Packets of the game through `Consume`, and on to persist.
use formulatel.Common.{
  ℕ, ◌≡◌, refl, sym, ap, subst, ◌∙◌, inl, inr, true, false, Option, none, some, List, [], ◌∷◌, ◌++◌,
  All, replicate, bytes_eq, bytes_eq→eq, if◌then◌else◌, Bool-cases, Option-cases, arith,
}
use mathlib.Core.List.{Perm, append-nil}
use mathlib.Core.List.Permᴰ.{refl as refl-Permᴰ}
use formulatel.Text.{Text, text, decimal}
use formulatel.Telemetry.{
  GameTelemetry, GameTitle, f123, unknown, Data, MotionData, motion_data, nothing, vehicle_data,
  current_lap_data, lap_times_data, wheel_data,
}
use formulatel.F123.Codec.Motion.{IsCarMotionData}
use formulatel.F123.Transformer.{new_state, motion_data_channel, ◌>>=◌}
use formulatel.F123.Transformer.Consume.{consume, cancelled}
use formulatel.F123.Transformer.Meaning.{GamePacket, motion, unread, meanings}
use formulatel.F123.Transformer.Meaning.Packets.{arrive, AreGamePackets, consume-meanings}
use formulatel.Ingest.Publisher.{
  PublisherEvent, message, done, new_publisher, run_mqtt_v3_publisher,
}
use formulatel.Ingest.Publisher.Order.{taken, never_completes}
use formulatel.Persist.{receive}
use formulatel.Persist.Receive.{payloads, RoundTrips, marshalled}
use formulatel.Pipeline.Delivery.{on_channel, AllRoutedTo, delivered_lem}
use formulatel.Tests.Data.{All-replicate, plain_env, start, header_of, moving}
use formulatel.Tests.Packets.{moving-IsValid}

abbrev moving_packet : GamePacket
moving_packet = record { header = header_of 0; body = motion (replicate 22 moving); rest = [] }

abbrev event_packet : GamePacket
event_packet = record { header = header_of 3; body = unread; rest = 4 ∷ [] }

abbrev packets : List GamePacket
packets = moving_packet ∷ event_packet ∷ moving_packet ∷ []

moving_body : All IsCarMotionData (replicate 22 moving)
moving_body = All-replicate IsCarMotionData 22 moving moving-IsValid

packets-AreGamePackets : AreGamePackets plain_env refl packets
packets-AreGamePackets = ((refl, moving_body, refl), (refl, ((refl, moving_body, refl), tt)))

consume-meanings_example :
    consume plain_env (arrive plain_env refl packets (cancelled ∷ [])) start
    ≡ (meanings plain_env packets >>= λ _. consume plain_env (cancelled ∷ [])) start
consume-meanings_example =
    consume-meanings plain_env refl packets (cancelled ∷ []) start packets-AreGamePackets

-- A marshaller for the motion of one driver, and what reads its texts.
abbrev motion_parts : ℕ → MotionData → Text
motion_parts t d =
    t ∷ d.position_x ∷ d.position_y ∷ d.position_z ∷ d.velocity_x ∷ d.velocity_y ∷ d.velocity_z
    ∷ d.g_force_lateral ∷ d.g_force_longitudinal ∷ d.g_force_vertical ∷ d.yaw ∷ d.pitch ∷ d.roll
    ∷ []

marshal_parts : GameTitle → Text → Text → Option ℕ → Data → Option Text
marshal_parts f123 session user (some t) (motion_data d) =
    if bytes_eq session (decimal 77)
    then if bytes_eq user (decimal 1) then some (motion_parts t d) else none
    else none
marshal_parts _ _ _ _ _ = none

marshal : GameTelemetry → Option Text
unfolding marshal_parts
marshal m = marshal_parts m.title m.session_id m.user_id m.timestamp m.content

unmarshal : Text → Option GameTelemetry
unmarshal (t ∷ a ∷ b ∷ c ∷ d ∷ e ∷ f ∷ g ∷ h ∷ i ∷ j ∷ k ∷ l ∷ []) = some (record {
  title = f123;
  session_id = decimal 77;
  user_id = decimal 1;
  timestamp = some t;
  content = motion_data (record {
    position_x = a;
    position_y = b;
    position_z = c;
    velocity_x = d;
    velocity_y = e;
    velocity_z = f;
    g_force_lateral = g;
    g_force_longitudinal = h;
    g_force_vertical = i;
    yaw = j;
    pitch = k;
    roll = l;
  });
})
unmarshal _ = none

abbrev sent_motion : Text → Text → ℕ → MotionData → GameTelemetry
sent_motion session user t d = record {
  title = f123;
  session_id = session;
  user_id = user;
  timestamp = some t;
  content = motion_data d;
}

same_text : {a b : Text} → some a ≡ some b → a ≡ b
same_text e = cc

parts-RoundTrip :
    (title : GameTitle) (session user : Text) (time : Option ℕ) (content : Data) (payload : Text)
    → marshal_parts title session user time content ≡ some payload
    → unmarshal payload
      ≡ some (record {
        title = title;
        session_id = session;
        user_id = user;
        timestamp = time;
        content = content;
      })
unfolding marshal_parts unmarshal
parts-RoundTrip f123 session user (some t) (motion_data d) payload e =
    elim (Bool-cases (bytes_eq session (decimal 77))) [
      | inr s ↦ absurd (grind (arith, s, e))
      | inl s ↦ elim (Bool-cases (bytes_eq user (decimal 1))) [
        | inr u ↦ absurd (grind (arith, s, u, e))
        | inl u ↦
            let made : marshal_parts f123 session user (some t) (motion_data d)
                ≡ some (motion_parts t d) =
              rw (s, u) refl in
            ap unmarshal (same_text (sym e ∙ made))
            ∙ ap (λ x. some (sent_motion x (decimal 1) t d))
                (sym (bytes_eq→eq session (decimal 77) s))
            ∙ ap (λ x. some (sent_motion session x t d)) (sym (bytes_eq→eq user (decimal 1) u))
      ]
    ]
parts-RoundTrip f123 session user (some t) nothing payload e = cc
parts-RoundTrip f123 session user (some t) (vehicle_data d) payload e = cc
parts-RoundTrip f123 session user (some t) (current_lap_data d) payload e = cc
parts-RoundTrip f123 session user (some t) (lap_times_data d) payload e = cc
parts-RoundTrip f123 session user (some t) (wheel_data d) payload e = cc
parts-RoundTrip f123 session user none content payload e = cc
parts-RoundTrip unknown session user time content payload e = cc

round_trips : RoundTrips marshal unmarshal
unfolding marshal
round_trips m payload e =
    parts-RoundTrip m.title m.session_id m.user_id m.timestamp m.content payload e

-- The publisher takes all of the messages, and its context ends.
publisher_events : List GameTelemetry → List PublisherEvent
publisher_events [] = done ∷ []
publisher_events (m ∷ ms) =
    message m (record { wait = some true; has_error = false }) ∷ publisher_events ms

taken_all : (ms : List GameTelemetry) → taken marshal (publisher_events ms) ≡ ms
unfolding taken publisher_events never_completes
taken_all [] = refl
taken_all (m ∷ ms) = elim (Option-cases (marshal m)) [
  | inl e ↦ simp e (ap (λ xs. m ∷ xs) (taken_all ms))
  | inr (payload, e) ↦ simp e (ap (λ xs. m ∷ xs) (taken_all ms))
]

abbrev sent_motions : List GameTelemetry
sent_motions =
    on_channel motion_data_channel
      (consume plain_env (arrive plain_env refl packets []) new_state).1.sent

abbrev published : List Text
published =
    payloads
      (run_mqtt_v3_publisher marshal (text "t") (publisher_events sent_motions)
        new_publisher).published

delivered_lem_example :
    let meant =
      marshalled marshal
        (on_channel motion_data_channel (meanings plain_env packets new_state).1.sent) in
    Perm (receive unmarshal published ++ receive unmarshal []) meant
    × AllRoutedTo motion_data_channel meant
delivered_lem_example =
    delivered_lem plain_env refl packets marshal unmarshal (text "t") motion_data_channel
      (publisher_events sent_motions) published [] packets-AreGamePackets round_trips
      (taken_all sent_motions)
      (subst (λ x. Perm x published) (sym (append-nil published)) ∣ refl-Permᴰ published ∣₁)
