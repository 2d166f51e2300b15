-- ===== src/F123/Config.antt =====
-- The configuration of ingest in formulatel/f123/f123.go, and its validation.
pub mod Validity
use formulatel.Common.{
  ℕ, Bool, true, false, not, ◌||◌, Option, none, some, List, [], ◌∷◌, ◌&&◌, ◌==◌, if◌then◌else◌,
}
use formulatel.Common.Int.{ℤ, pos, negsuc}
use formulatel.Text.{Text, text}

-- `F123IngestConfig`, less its channels.
pub record F123IngestConfig : Type 0 where
  pub username : Text
  pub token : Text
  pub tenant_id : ℤ
  pub max_packets_buffered : ℕ
  pub capture_packets : Bool
  pub log_level : Text
  pub udp_port : ℕ
  pub mqtt_broker : Text

pub data ConfigError : Type 0 where
  empty_username empty_token empty_mqtt_broker empty_tenant_id invalid_broker_uri : ConfigError

-- `s == ""`
abbrev pub is_empty : Text → Bool
is_empty [] = true
is_empty (_ ∷ _) = false

-- `strings.HasPrefix(s, prefix)`
unfoldable pub has_prefix : Text → Text → Bool
has_prefix s [] = true
has_prefix [] (p ∷ ps) = false
has_prefix (c ∷ s) (p ∷ ps) = c == p && has_prefix s ps

-- `n < 0`
abbrev pub is_negative : ℤ → Bool
is_negative (pos _) = false
is_negative (negsuc _) = true

unfoldable pub validate : F123IngestConfig → Option ConfigError
validate c =
    if is_empty c.username
    then some empty_username
    else if is_empty c.token
    then some empty_token
    else if is_empty c.mqtt_broker
    then some empty_mqtt_broker
    else if is_negative c.tenant_id
    then some empty_tenant_id
    else if not (
        has_prefix c.mqtt_broker (text "tcp")
        || (has_prefix c.mqtt_broker (text "mqtt")
            || (has_prefix c.mqtt_broker (text "ws") || has_prefix c.mqtt_broker (text "wss"))))
    then some invalid_broker_uri
    else none
