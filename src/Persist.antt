-- ===== src/Persist.antt =====
-- formulatel/cmd/persist/main.go: the start of the service, and what it does with a message of the
-- broker.
pub mod Start
pub mod Receive
pub mod Stored
use formulatel.Common.{
  ℕ, ◌≡◌, Bool, true, false, not, Option, none, some, List, [], ◌∷◌, ◌++◌, length, take, ltb,
  if◌then◌else◌,
}
use formulatel.Common.Int.{ℤ, is_positive}
use formulatel.Text.{Text, text, decimal}
use formulatel.Telemetry.{GameTelemetry}
use formulatel.F123.Config.{is_empty}
use formulatel.Timescale.Config.{Config, validate}
use formulatel.Mqtt.{
  ClientOptions, Token, Connection, connected, unconnected, generate_mqtt_v3_options, add_broker,
  new_mqtt_v3_connection,
}

-- The DSN, or the one that the connection details make.
unfoldable pub connection_string : Config → Text
connection_string cfg =
    if is_empty cfg.timescale_dsn
    then text "postgres://"
      ++ (cfg.db_user
          ++ b':'
            ∷ (cfg.db_password
                ++ b'@'
                  ∷ (cfg.db_host
                      ++ b':'
                        ∷ (decimal cfg.db_port
                            ++ b'/' ∷ (cfg.db_name ++ text "?sslmode=disable")))))
    else cfg.timescale_dsn

-- `fmt.Sprintf("ftel-p-%s", id)[:25]`, which panics on a shorter text.
unfoldable pub client_id : Text → Option Text
client_id id =
    let full = text "ftel-p-" ++ id in if ltb (length full) 25 then none else some (take 25 full)

abbrev pub sub_topic : Text
sub_topic = text "$share/persist/formulatel/f123/#"

-- What `envconfig` reads (none if it refuses), whether the database takes a connection string, the
-- identifier that `uuid.New` makes, what `mqtt.NewClientOptions` makes, and the client's `Connect`.
pub record Surroundings : Type 0 where
  pub config : Option Config
  pub new_connection_pool : Text → Bool
  pub uuid : Text
  pub new_client_options : ClientOptions
  pub connect : ClientOptions → Token

-- What becomes of `main` until it waits for the end of its context: it exits with status 1, for which
-- reason, it panics, or it has subscribed.
pub data Reason : Type 0 where
  no_config invalid_config no_database no_broker : Reason

pub data Started : Type 0 where
  exited : Reason → Started
  panicked : Started
  subscribed : (options : ClientOptions) (topic : Text) (batch_size flush_interval : ℤ) → Started

-- The options of persist's client; a client identifier of the configuration goes before a new one.
unfoldable pub persist_options : Surroundings → Config → Option ClientOptions
persist_options world cfg =
    let id = if is_empty cfg.mqtt_client_id then world.uuid else cfg.mqtt_client_id in
    elim (client_id id) [
      | none ↦ none
      | some c ↦
          some
            (record (add_broker cfg.mqtt_broker
              (generate_mqtt_v3_options world.new_client_options)) {
                client_id = c;
                connect_retry = true;
              })
    ]

unfoldable pub subscribe : Config → Connection → Started
subscribe cfg (unconnected e) = exited no_broker
subscribe cfg (connected options) = subscribed options sub_topic cfg.batch_size cfg.flush_interval

unfoldable pub start_client : Surroundings → Config → Option ClientOptions → Started
unfolding subscribe new_mqtt_v3_connection
start_client world cfg none = panicked
start_client world cfg (some options) = subscribe cfg (new_mqtt_v3_connection world.connect options)

-- `NewBatchRouter` makes the tickers of its batchers, and `time.NewTicker` panics if the interval is not
-- positive.
unfoldable pub start_with : Surroundings → Option Config → Started
unfolding start_client persist_options validate connection_string
start_with world none = exited no_config
start_with world (some cfg) = elim (validate cfg) [
  | some e ↦ exited invalid_config
  | none ↦
      if not (world.new_connection_pool (connection_string cfg))
      then exited no_database
      else if not (is_positive cfg.flush_interval)
      then panicked
      else start_client world cfg (persist_options world cfg)
]

unfoldable pub main : Surroundings → Started
unfolding start_with
main world = start_with world world.config

-- The handler of a message: the calls of `router.Add`. `unmarshal` is `protojson.Unmarshal`; a
-- payload that it refuses is logged and dropped.
unfoldable pub on_payload : (Text → Option GameTelemetry) → Text → List GameTelemetry
on_payload unmarshal payload = elim (unmarshal payload) [ none ↦ [] | some m ↦ m ∷ [] ]

-- The payloads that the broker delivers, in the order in which the handler gets them.
unfoldable pub receive : (Text → Option GameTelemetry) → List Text → List GameTelemetry
unfolding on_payload
receive unmarshal [] = []
receive unmarshal (p ∷ ps) = on_payload unmarshal p ++ receive unmarshal ps
