-- ===== src/Ingest/Action.antt =====
-- formulatel/cmd/ingest/main.go: the action of the command, up to the start of its goroutines.
pub mod Asked
pub mod Start
use formulatel.Common.{
  ℕ, ◌≡◌, ◌↔◌, refl, sym, ap, ◌∙◌, inl, inr, Bool, true, Option, none, some, List, if◌then◌else◌,
  Bool-cases, Option-cases, arith,
}
use formulatel.Common.Int.{ℤ}
use formulatel.Text.{Text}
use formulatel.F123.Config.{F123IngestConfig, ConfigError, validate}
use formulatel.Mqtt.{
  ClientOptions, Token, Connection, ConnectionError, connected, unconnected,
  generate_mqtt_v3_options, add_broker, new_mqtt_v3_connection, default_mqtt_connect_timeout,
}
use formulatel.Ingest.{Flags, Resolved, resolve, connection_options, channel_topics}
use formulatel.Ingest.LogLevel.{parse_log_level}

-- What `envconfig` reads (none if it refuses, which panics), whether the UDP port can be opened, what
-- `mqtt.NewClientOptions` makes, the client's `Connect`, when the compiler reads the level, and whether
-- `make` makes a channel of packets of this size (it panics if that is too large).
pub record Surroundings : Type 0 where
  pub environment : Option F123IngestConfig
  pub listen_packet : ℕ → Bool
  pub new_client_options : ClientOptions
  pub connect : ClientOptions → Token
  pub level_behind : Bool
  pub make_channel : ℕ → Bool

pub data Failure : Type 0 where
  bad_log_level : Failure
  invalid_config : ConfigError → Failure
  no_broker : ConnectionError → Failure

-- The action panics, exits with status 1, returns an error, or has a client that publishes to these
-- topics.
pub data Ingest : Type 0 where
  panicked exited : Ingest
  failed : Failure → Ingest
  started : (level : ℤ) (options : ClientOptions) (topics : List Text) → Ingest

unfoldable pub client_options : Surroundings → Resolved → ClientOptions
unfolding generate_mqtt_v3_options connection_options
client_options world r =
    let c = connection_options r in
    record (add_broker c.broker (generate_mqtt_v3_options world.new_client_options)) {
      client_id = c.client_id;
      username = c.username;
      password = c.password;
    }

unfoldable pub start_publishers : Resolved → ℤ → Connection → Ingest
unfolding channel_topics
start_publishers r level (unconnected e) = failed (no_broker e)
start_publishers r level (connected options) =
    started level options (channel_topics r.config.username r.config.tenant_id)

unfoldable pub with_level : Surroundings → Resolved → Option ℤ → Ingest
unfolding validate start_publishers client_options new_mqtt_v3_connection
with_level world r none = failed bad_log_level
with_level world r (some level) = elim (validate r.config) [
  | some e ↦ failed (invalid_config e)
  | none ↦
      if world.make_channel r.config.max_packets_buffered
      then start_publishers r level (new_mqtt_v3_connection world.connect (client_options world r))
      else panicked
]

unfoldable pub with_environment : Surroundings → Flags → Option F123IngestConfig → Ingest
unfolding with_level resolve parse_log_level
with_environment world flags none = panicked
with_environment world flags (some env) =
    let r = resolve env flags in
    if world.listen_packet r.config.udp_port
    then with_level world r (parse_log_level world.level_behind r.config.log_level)
    else exited

unfoldable pub action : Surroundings → Flags → Ingest
unfolding with_environment
action world flags = with_environment world flags world.environment
