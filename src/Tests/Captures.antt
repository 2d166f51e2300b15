-- ===== src/Tests/Captures.antt =====
-- The capture of a session history.
use formulatel.Common.{ℕ, ◌≡◌, ◌⊎◌, refl, List, [], ◌∷◌, ◌++◌, some, arith, true}
use formulatel.Tests.Data.{plain_env, start, header_of, history_of}
use formulatel.F123.Codec.Header.{put_packet_header}
use formulatel.F123.Codec.History.{put_session_history_data}
use formulatel.F123.Transformer.{Environment, State}
use formulatel.F123.Transformer.Capture.{handle_capture}
use formulatel.F123.Transformer.Capture.Limits.{handle_capture-keeps, handle_capture_limited}

abbrev capturing : Environment
capturing = record plain_env { capture = true }

abbrev captured_packet : List ℕ
captured_packet = put_packet_header (header_of 11) ++ put_session_history_data (history_of 4)

abbrev just_captured : State
just_captured = record start { time_at_last_capture = some 900 }

handle_capture-keeps_example :
    let t = (handle_capture capturing captured_packet start).1 in
    (t.sent ≡ [])
    × (t.latest_laps ≡ start.latest_laps)
    × ((t.captured ≡ []) ⊎ (t.captured ≡ [] ++ captured_packet ∷ []))
handle_capture-keeps_example = handle_capture-keeps capturing captured_packet start

handle_capture_limited_example :
    (handle_capture capturing captured_packet just_captured).1.captured ≡ []
handle_capture_limited_example =
    handle_capture_limited capturing captured_packet just_captured 900 refl (omega arith)
