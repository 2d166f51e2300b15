-- ===== src/Ingest.antt =====
-- formulatel/cmd/ingest/main.go: the configuration from the environment and the flags, and the
-- topics that the channels are published to.
pub mod Resolution
pub mod Topics
pub mod Publisher
pub mod LogLevel
pub mod Action
pub mod Goroutines
use formulatel.Common.{
  bytes_eq, ℕ, ◌+◌, Bool, Option, none, some, List, [], ◌∷◌, ◌++◌, if◌then◌else◌,
}
use formulatel.Common.Int.{ℤ, pos, negsuc}
use formulatel.Text.{Text, text, decimal}
use formulatel.F123.Config.{F123IngestConfig, is_empty, is_negative}

-- The flags of the command; `tenant` is -1 and `verbosity` is `info` where they are not given.
pub record Flags : Type 0 where
  pub username : Text
  pub token : Text
  pub verbosity : Text
  pub mqtt : Text
  pub tenant : ℤ

-- The configuration after the flags, and the token, which is kept apart.
pub record Resolved : Type 0 where
  pub config : F123IngestConfig
  pub token : Text

-- A flag that is not empty goes before the environment.
abbrev pub flag_or : Text → Text → Text
flag_or flag env = if is_empty flag then env else flag

-- `env` is what `envconfig` read. The token of the configuration is masked before it is logged.
unfoldable pub resolve : F123IngestConfig → Flags → Resolved
resolve env flags = record {
  token = flag_or flags.token env.token;
  config = record env {
    token = text "***";
    username = flag_or flags.username env.username;
    mqtt_broker = flag_or flags.mqtt env.mqtt_broker;
    tenant_id = if is_negative flags.tenant then env.tenant_id else flags.tenant;
    log_level = if bytes_eq flags.verbosity (text "info") then env.log_level else flags.verbosity;
  };
}

-- `%d` of an int.
unfoldable pub decimal_int : ℤ → Text
decimal_int (pos n) = decimal n
decimal_int (negsuc n) = b'-' ∷ decimal (n + 1)

-- `fmt.Sprintf("formulatel/f123/%d/%s/%s", tenant, user, topic)`
unfoldable pub prefix_topic : Text → Text → ℤ → Text
unfolding decimal_int
prefix_topic topic user tenant =
    text "formulatel/f123/" ++ (decimal_int tenant ++ b'/' ∷ (user ++ b'/' ∷ topic))

-- The options of the connection to the broker that `Action` sets itself.
pub record ConnectionOptions : Type 0 where
  pub broker : Text
  pub client_id : Text
  pub username : Text
  pub password : Text

unfoldable pub connection_options : Resolved → ConnectionOptions
unfolding decimal_int
connection_options r = record {
  broker = r.config.mqtt_broker;
  client_id = r.config.username ++ b'_' ∷ decimal_int r.config.tenant_id;
  username = r.config.username;
  password = r.token;
}

-- The topics of the five channels, in the order of the loop's map.
unfoldable pub channel_topics : Text → ℤ → List Text
unfolding prefix_topic
channel_topics user tenant =
    prefix_topic (text "vehicledata") user tenant
    ∷ prefix_topic (text "motiondata") user tenant
    ∷ prefix_topic (text "currentlapdata") user tenant
    ∷ prefix_topic (text "laptimesdata") user tenant
    ∷ prefix_topic (text "extendedwheeldata") user tenant
    ∷ []
