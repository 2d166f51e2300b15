-- ===== src/Mqtt.antt =====
-- formulatel/internal/mqttutil/mqttutil.go: the options of a client and its connection to the broker.
pub mod Filters
pub mod Access
use formulatel.Common.{ℕ, ◌*◌, Bool, true, false, Option, none, some, List, [], ◌∷◌, ◌++◌}
use formulatel.Text.{Text, text}

-- The options of `mqtt.ClientOptions` that the programs set; times in milliseconds.
pub record ClientOptions : Type 0 where
  pub servers : List Text
  pub client_id : Text
  pub username : Text
  pub password : Text
  pub order : Bool
  pub connect_timeout : ℕ
  pub write_timeout : ℕ
  pub keep_alive : ℕ
  pub ping_timeout : ℕ
  pub connect_retry : Bool
  pub auto_reconnect : Bool
  pub max_reconnect_interval : ℕ

abbrev pub default_mqtt_connect_timeout : ℕ
default_mqtt_connect_timeout = 5 * 1000

-- `defaults` is what `mqtt.NewClientOptions` makes.
unfoldable pub generate_mqtt_v3_options : ClientOptions → ClientOptions
generate_mqtt_v3_options defaults = record defaults {
  order = false;
  connect_timeout = default_mqtt_connect_timeout;
  write_timeout = 5 * 1000;
  keep_alive = 10;
  ping_timeout = 1000;
  connect_retry = false;
  auto_reconnect = true;
  max_reconnect_interval = 10 * 1000;
}

-- `AddBroker`
abbrev pub add_broker : Text → ClientOptions → ClientOptions
add_broker broker o = record o { servers = o.servers ++ broker ∷ [] }

-- What the token of `Connect` tells: whether it was done within the timeout, and its error.
pub record Token : Type 0 where
  pub in_time : ℕ → Bool
  pub error : Option Text

pub data ConnectionError : Type 0 where
  timed_out : ConnectionError
  refused : Text → ConnectionError

pub data Connection : Type 0 where
  connected : ClientOptions → Connection
  unconnected : ConnectionError → Connection

-- `connect` is the client library's `Connect`.
unfoldable pub new_mqtt_v3_connection : (ClientOptions → Token) → ClientOptions → Connection
new_mqtt_v3_connection connect opts =
    let token = connect opts in
    elim (token.in_time default_mqtt_connect_timeout) [
      | false ↦ unconnected timed_out
      | true ↦ elim token.error [ none ↦ connected opts | some e ↦ unconnected (refused e) ]
    ]
