-- ===== src/Tests/Programs.antt =====
-- The commands: starts of persist and ingest, a publisher, a replay, a persistor and a dashboard.
use formulatel.Common.{
  ◌*◌, ◌^◌, leb, ◌≤◌, ◌<◌, ◌⊎◌, ◌≡◌, ◌↔◌, refl, true, false, Option, none, some, List, [], ◌∷◌,
  ◌++◌, length, replicate,
}
use formulatel.Common.Int.{pos, negsuc, is_positive}
use formulatel.Text.{Text, text}
use formulatel.Telemetry.{GameTelemetry}
use formulatel.F123.Config.{F123IngestConfig}
use formulatel.F123.Config.Validity.{IsAccepted}
use formulatel.Ingest.{Flags}
use formulatel.Ingest.Action as Action
use formulatel.Ingest.Action.{action, started}
use formulatel.Ingest.Action.Asked.{level_given, asked_config, asked_options, asked_topics, IsLevel}
use formulatel.Ingest.Action.Start.{action_lem}
use formulatel.Ingest.Publisher.{
  PublisherEvent, PublishToken, message, done, new_publisher, run_mqtt_v3_publisher,
}
use formulatel.Ingest.Publisher.Order.{taken, ending, publications, run_mqtt_v3_publisher_lem}
use formulatel.Mqtt.{ClientOptions, Token}
use formulatel.Timescale.Config as Settings
use formulatel.Persist.{Surroundings, main, panicked, subscribed, sub_topic}
use formulatel.Persist.Start.{started_options}
use formulatel.Persist.Start.Asked.{IsUsable, asked_string, asked_id, main_lem}
use formulatel.Replay.{context_done, goes_on, returned, replay_packets, replaying}
use formulatel.Replay.Rounds.{rounds, replay_packets_lem}
use formulatel.Tests.Data.{vehicle_message, lap_message}

-- What the client library begins with, and a broker that answers.
abbrev defaults : ClientOptions
defaults = record {
  servers = [];
  client_id = [];
  username = [];
  password = [];
  order = true;
  connect_timeout = 30000;
  write_timeout = 0;
  keep_alive = 30;
  ping_timeout = 10000;
  connect_retry = false;
  auto_reconnect = true;
  max_reconnect_interval = 600000;
}

abbrev answering : ClientOptions → Token
answering o = record { in_time = λ t. true; error = none }

abbrev persist_config : Settings.Config
persist_config = record {
  timescale_dsn = text "postgres://db";
  db_user = [];
  db_password = [];
  db_host = [];
  db_port = 0;
  db_name = [];
  mqtt_broker = text "tcp://localhost:1883";
  mqtt_client_id = text "short";
  batch_size = pos 500;
  flush_interval = pos 10000000000;
}

abbrev persist_world : Surroundings
persist_world = record {
  config = some persist_config;
  new_connection_pool = λ s. true;
  uuid = text "0b1d2c3e-0000-4000-8000-123456789abc";
  new_client_options = defaults;
  connect = answering;
}

main_lem_example :
    let id = asked_id persist_world persist_config in
    let options = started_options persist_world persist_config id in
    let token = persist_world.connect options in
    let database = persist_world.new_connection_pool (asked_string persist_config) in
    let ticks = is_positive persist_config.flush_interval in
    ((main persist_world ≡ panicked)
      ↔ (IsUsable persist_config × (database ≡ true) × ((ticks ≡ false) ⊎ (length id < 18))))
    × (IsUsable persist_config
        → database ≡ true
        → ticks ≡ true
        → 18 ≤ length id
        → token.in_time 5000 ≡ true
        → token.error ≡ none
        → main persist_world
          ≡ subscribed options sub_topic persist_config.batch_size persist_config.flush_interval)
main_lem_example = main_lem persist_world persist_config refl

abbrev ingest_config : F123IngestConfig
ingest_config = record {
  username = text "driver";
  token = text "secret";
  tenant_id = pos 3;
  max_packets_buffered = 1000;
  capture_packets = false;
  log_level = text "info";
  udp_port = 27543;
  mqtt_broker = text "tcp://localhost:1883";
}

abbrev no_flags : Flags
no_flags = record {
  username = [];
  token = [];
  verbosity = text "info";
  mqtt = [];
  tenant = negsuc 0;
}

abbrev ingest_world : Action.Surroundings
ingest_world = record {
  environment = some ingest_config;
  listen_packet = λ port. true;
  new_client_options = defaults;
  connect = answering;
  level_behind = true;
  make_channel = λ n. leb n (2 ^ 40);
}

action_lem_example :
    let o = asked_options ingest_config no_flags defaults in
    let topics = asked_topics ingest_config no_flags in
    (action ingest_world no_flags ≡ started (pos 0) o topics) ↔ (
      (ingest_world.listen_packet ingest_config.udp_port ≡ true)
      × IsLevel true (level_given no_flags.verbosity ingest_config.log_level) (pos 0)
      × IsAccepted (asked_config ingest_config no_flags)
      × (ingest_world.make_channel ingest_config.max_packets_buffered ≡ true)
      × ((ingest_world.connect o).in_time 5000 ≡ true)
      × ((ingest_world.connect o).error ≡ none)
      × (o ≡ asked_options ingest_config no_flags defaults)
      × (topics ≡ asked_topics ingest_config no_flags))
action_lem_example =
    action_lem ingest_world no_flags ingest_config (pos 0)
      (asked_options ingest_config no_flags defaults) (asked_topics ingest_config no_flags) refl

-- A marshaller that keeps the session of a message.
marshal_session : GameTelemetry → Option Text
marshal_session m = some m.session_id

abbrev confirmed : PublishToken
confirmed = record { wait = some true; has_error = false }

abbrev publisher_events : List PublisherEvent
publisher_events =
    message vehicle_message confirmed
    ∷ message lap_message (record { wait = some true; has_error = true })
    ∷ message lap_message (record { wait = none; has_error = false })
    ∷ message vehicle_message confirmed
    ∷ done
    ∷ []

run_mqtt_v3_publisher_lem_example :
    let q = run_mqtt_v3_publisher marshal_session (text "t") publisher_events new_publisher in
    (q.published
      ≡ new_publisher.published
        ++ publications marshal_session (text "t") (taken marshal_session publisher_events))
    × (q.status ≡ ending marshal_session publisher_events)
unfolding new_publisher
run_mqtt_v3_publisher_lem_example =
    run_mqtt_v3_publisher_lem marshal_session (text "t") publisher_events new_publisher refl

replay_packets_lem_example :
    replay_packets
      (pos 100000000)
      true
      ((1 ∷ []) ∷ (2 ∷ 3 ∷ []) ∷ [])
      (replicate (2 * 3) goes_on ++ context_done ∷ goes_on ∷ [])
    ≡ replaying (record { written = rounds 2 ((1 ∷ []) ∷ (2 ∷ 3 ∷ []) ∷ []); place = returned [] })
replay_packets_lem_example =
    replay_packets_lem (1 ∷ []) ((2 ∷ 3 ∷ []) ∷ []) (pos 100000000) 2 (goes_on ∷ []) refl
