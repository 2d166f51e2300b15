-- ===== src/Tests/Settings.antt =====
-- Configurations and topics.
use formulatel.Common.{ℕ, ◌≡◌, ◌≢◌, refl, [], some, none, arith, ◌↔◌, false}
use formulatel.Common.Int.{pos, negsuc}
use formulatel.Text.{text}
use formulatel.F123.Config.{F123IngestConfig, empty_token, validate}
use formulatel.F123.Config.Validity.{IsAccepted, validate_iff}
use formulatel.Ingest.{Flags, resolve}
use formulatel.Ingest.Resolution.{resolve_masks_token}
use formulatel.Ingest.Topics.{prefix_topic_injective}

abbrev settings : F123IngestConfig
settings = record {
  username = text "driver";
  token = [];
  tenant_id = pos 3;
  max_packets_buffered = 100;
  capture_packets = false;
  log_level = text "info";
  udp_port = 27543;
  mqtt_broker = text "tcp://localhost:1883";
}

abbrev flags : Flags
flags = record { username = []; token = []; verbosity = text "info"; mqtt = []; tenant = negsuc 0 }

validate_iff_example : (validate settings ≡ none) ↔ IsAccepted settings
validate_iff_example = validate_iff settings

resolve_masks_token_example : validate (resolve settings flags).config ≢ some empty_token
resolve_masks_token_example = resolve_masks_token settings flags

prefix_topic_injective_example :
    (◌≡◌ {A = ℕ} 3 3) × (text "driver" ≡ text "driver") × (text "motiondata" ≡ text "motiondata")
prefix_topic_injective_example =
    prefix_topic_injective (text "motiondata") (text "motiondata") (text "driver") (text "driver") 3
      3 (ground arith) (ground arith) refl
