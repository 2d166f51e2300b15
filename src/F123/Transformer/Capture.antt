-- ===== src/F123/Transformer/Capture.antt =====
-- formulatel/f123/f123.go, `handleCapture`: packets written to files for replay.
pub mod Limits
use formulatel.Common.{
  ℕ, ◌+◌, ◌-◌, Bool, true, false, ◌&&◌, Option, none, some, List, [], ◌∷◌, ◌++◌, ltb, ◌==◌,
  if◌then◌else◌,
}
use formulatel.F123.Model.{session_history_packet}
use formulatel.F123.Model.Header.{PacketHeader}
use formulatel.F123.Model.History.{SessionHistoryData, session_history_data_layout}
use formulatel.F123.Buffer.{PacketBuffer, Returned, new_packet_buffer, unpack_header, unpack_body}
use formulatel.F123.Transformer.{
  Environment, Go, pure, panic, nil_dereference, slice_out_of_range, now, ◌>>=◌, ◌>>◌,
}

-- `time.Since(f.timeAtLastCapture) > time.Second`, a reading of the clock.
over_a_second : Environment → Go Bool
unfolding ◌>>=◌ now
over_a_second env s =
    (do
      time ← now env
      pure (elim s.time_at_last_capture [ none ↦ true | some t ↦ ltb 1000000000 (time - t) ]))
      s

-- `os.CreateTemp` and `Write`: the answer says whether the packet stands in a file.
write_capture : Environment → List ℕ → Go Bool
unfolding ◌>>=◌
write_capture env packet s =
    if env.disk s.capture_attempts
    then pure true (record s {
      captured = s.captured ++ packet ∷ [];
      capture_attempts = s.capture_attempts + 1;
    })
    else pure false (record s { capture_attempts = s.capture_attempts + 1 })

-- The deferred `f.timeAtLastCapture = time.Now()`.
stamp_capture : Environment → Go (Unit {0})
unfolding ◌>>=◌ now
stamp_capture env = do time ← now env; λ s. pure tt (record s { time_at_last_capture = some time })

-- The file's name reads the clock. A written capture is logged with `LapHistoryData[:NumLaps]`,
-- which an array of 100 laps holds only up to 100; the deferred calls run before the panic goes on.
capture_file : Environment → List ℕ → SessionHistoryData → Go (Unit {0})
unfolding ◌>>=◌ now write_capture stamp_capture
capture_file env packet history = do
  _ ← now env
  written ← write_capture env packet
  stamp_capture env
  if written && ltb 100 history.num_laps then panic slice_out_of_range else pure tt

capture_history : Environment → List ℕ → PacketHeader → Option SessionHistoryData → Go (Unit {0})
unfolding ◌>>=◌ over_a_second capture_file
capture_history env packet header none = pure tt
capture_history env packet header (some history) =
    if history.current_car_idx == header.player_car_index && ltb 1 history.num_laps
    then (do due ← over_a_second env; if due then capture_file env packet history else pure tt)
    else pure tt

capture_by_header : Environment → List ℕ → Returned PacketHeader → PacketBuffer → Go (Unit {0})
unfolding capture_history unpack_body
capture_by_header env packet r b = elim r.error [
  | some _ ↦ pure tt
  | none ↦ elim r.value [
    | none ↦ panic nil_dereference
    | some header ↦
        if header.packet_id == session_history_packet
        then capture_history env packet header (unpack_body session_history_data_layout b).0.value
        else pure tt
  ]
]

unfoldable pub handle_capture : Environment → List ℕ → Go (Unit {0})
unfolding capture_by_header new_packet_buffer unpack_header
handle_capture env packet =
    let (r, b) = unpack_header (new_packet_buffer packet) in capture_by_header env packet r b
