-- ===== src/Ingest/Resolution.antt =====
-- formulatel/cmd/ingest/main.go: what the masked token means for the check of the configuration.
use formulatel.Common.{◌≢◌, some, arith}
use formulatel.Ingest.{Flags, resolve}
use formulatel.F123.Config.{F123IngestConfig, empty_token, validate}

-- The configuration that the command checks is never refused for an empty token, whatever the
-- environment and the flags hold.
pub resolve_masks_token :
    (env : F123IngestConfig) (flags : Flags)
    → validate (resolve env flags).config ≢ some empty_token
unfolding validate resolve
resolve_masks_token env flags = ground arith
