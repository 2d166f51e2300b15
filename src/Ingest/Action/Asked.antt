-- ===== src/Ingest/Action/Asked.antt =====
-- formulatel/cmd/ingest/main.go: what the environment and the flags ask the command to do, said without
-- its code.
use formulatel.Common.{
  ◌≡◌, refl, sym, ap, inl, inr, Bool, true, false, some, List, [], ◌∷◌, ◌++◌, bytes_eq,
  if◌then◌else◌, Option-cases, arith,
}
use formulatel.Common.Int.{ℤ, pos, negsuc}
use formulatel.Text.{Text, text, first_given}
use formulatel.F123.Config.{F123IngestConfig, is_negative}
use formulatel.Mqtt.{ClientOptions, generate_mqtt_v3_options}
use formulatel.Ingest.{
  Flags, Resolved, flag_or, resolve, decimal_int, connection_options, prefix_topic, channel_topics,
}
use formulatel.Ingest.LogLevel.{unmarshal_level, parse_log_level}
use formulatel.Ingest.Action.{Surroundings, client_options}

unfoldable pub tenant_given : ℤ → ℤ → ℤ
tenant_given (pos n) env = pos n
tenant_given (negsuc n) env = env

-- The level of the flag, unless that is `info`.
unfoldable pub level_given : Text → Text → Text
level_given flag env = if bytes_eq flag (text "info") then env else flag

module _ (env : F123IngestConfig) (flags : Flags) where
  abbrev pub user : Text
  user = first_given flags.username env.username

  abbrev pub tenant : ℤ
  tenant = tenant_given flags.tenant env.tenant_id

  -- The configuration that is validated, with a masked token.
  abbrev pub asked_config : F123IngestConfig
  asked_config = record {
    username = user;
    token = text "***";
    tenant_id = tenant;
    max_packets_buffered = env.max_packets_buffered;
    capture_packets = env.capture_packets;
    log_level = level_given flags.verbosity env.log_level;
    udp_port = env.udp_port;
    mqtt_broker = first_given flags.mqtt env.mqtt_broker;
  }

  -- The broker behind those that the library begins with, the user with its tenant as the client, the
  -- user with the given token, the order of messages not kept, and times in milliseconds.
  abbrev pub asked_options : ClientOptions → ClientOptions
  asked_options defaults = record {
    servers = defaults.servers ++ first_given flags.mqtt env.mqtt_broker ∷ [];
    client_id = user ++ b'_' ∷ decimal_int tenant;
    username = user;
    password = first_given flags.token env.token;
    order = false;
    connect_timeout = 5000;
    write_timeout = 5000;
    keep_alive = 10;
    ping_timeout = 1000;
    connect_retry = false;
    auto_reconnect = true;
    max_reconnect_interval = 10000;
  }

  abbrev asked_topic : Text → Text
  asked_topic end = text "formulatel/f123/" ++ (decimal_int tenant ++ (text "/" ++ (user ++ end)))

  -- The topics of the five channels.
  abbrev pub asked_topics : List Text
  asked_topics =
      asked_topic (text "/vehicledata")
      ∷ asked_topic (text "/motiondata")
      ∷ asked_topic (text "/currentlapdata")
      ∷ asked_topic (text "/laptimesdata")
      ∷ asked_topic (text "/extendedwheeldata")
      ∷ []

  -- What the code makes of the environment and the flags.
  abbrev asked : Resolved
  asked = record { config = asked_config; token = first_given flags.token env.token }

-- `slog` reads this level, if the compiler reads the variable behind the call; else the level is that
-- of `info`.
abbrev pub IsLevel : (behind : Bool) → Text → ℤ → Type 0
IsLevel behind s level =
    (read : ℤ) × (unmarshal_level s ≡ some read) × (level ≡ (if behind then read else pos 0))

flag_or-first_given : (flag env : Text) → flag_or flag env ≡ first_given flag env
unfolding first_given
flag_or-first_given [] env = refl
flag_or-first_given (c ∷ cs) env = refl

tenant-given : (flag env : ℤ) → (if is_negative flag then env else flag) ≡ tenant_given flag env
unfolding tenant_given
tenant-given (pos n) env = refl
tenant-given (negsuc n) env = refl

pub resolve_lem : (env : F123IngestConfig) (flags : Flags) → resolve env flags ≡ asked env flags
unfolding resolve level_given
resolve_lem env flags = λ i. record {
  token = flag_or-first_given flags.token env.token i;
  config = record {
    username = flag_or-first_given flags.username env.username i;
    token = text "***";
    tenant_id = tenant-given flags.tenant env.tenant_id i;
    max_packets_buffered = env.max_packets_buffered;
    capture_packets = env.capture_packets;
    log_level = level_given flags.verbosity env.log_level;
    udp_port = env.udp_port;
    mqtt_broker = flag_or-first_given flags.mqtt env.mqtt_broker i;
  };
}

pub client_options_lem :
    (world : Surroundings) (env : F123IngestConfig) (flags : Flags)
    → client_options world (resolve env flags) ≡ asked_options env flags world.new_client_options
unfolding client_options connection_options generate_mqtt_v3_options
client_options_lem world env flags = ap (client_options world) (resolve_lem env flags)

pub channel_topics_lem :
    (env : F123IngestConfig) (flags : Flags)
    → let r = resolve env flags in
      channel_topics r.config.username r.config.tenant_id ≡ asked_topics env flags
unfolding channel_topics prefix_topic
channel_topics_lem env flags =
    ap (λ r. channel_topics r.config.username r.config.tenant_id) (resolve_lem env flags)

pub parse-IsLevel :
    (behind : Bool) (s : Text) (level : ℤ)
    → parse_log_level behind s ≡ some level
    → IsLevel behind s level
unfolding parse_log_level
parse-IsLevel behind s level e = elim (Option-cases (unmarshal_level s)) [
  | inl h ↦ absurd (grind (arith, h, e))
  | inr (read, h) ↦ (read, h, grind (arith, h, e))
]

pub IsLevel-parse :
    (behind : Bool) (s : Text) (level : ℤ)
    → IsLevel behind s level
    → parse_log_level behind s ≡ some level
unfolding parse_log_level
IsLevel-parse behind s level (read, h, e) = rw (h, parse_log_level) (ap some (sym e))
