-- ===== src/F123/Transformer/History.antt =====
-- formulatel/f123/f123.go, `normalizeSessionHistoryData`: the complete laps of a session history.
pub mod Laps
use formulatel.Common.{
  ℕ, zero, suc, ◌+◌, ◌-◌, ◌*◌, bit_and, Bool, not, List, [], ◌∷◌, none, some, get_elem?, leb, ltb,
  ◌==◌, if◌then◌else◌,
}
use formulatel.Text.{decimal}
use formulatel.Telemetry.{HistoricLapData, Duration, new_duration}
use formulatel.F123.Model.Header.{PacketHeader}
use formulatel.F123.Model.History.{SessionHistoryData, LapHistoryData}
use formulatel.F123.LatestLaps
use formulatel.F123.Transformer.{Go, Outcome, returned, panicked, index_out_of_range, pure, ◌>>=◌}
use formulatel.F123.Transformer.Normalize.{u32}

-- `durationpb.New(time.Millisecond * time.Duration(ms))`; below 2 ^ 32 ms the product is below
-- 2 ^ 63.
unfoldable pub millis : ℕ → Duration
unfolding new_duration
millis ms = new_duration (1000000 * ms)

-- `(flags & mask) != 0`
abbrev pub flag : ℕ → ℕ → Bool
flag flags mask = not (bit_and flags mask == 0)

unfoldable pub historic_lap_data : ℕ → LapHistoryData → HistoricLapData
unfolding millis
historic_lap_data i lap = record {
  lap_num = u32 i;
  lap_time = some (millis lap.lap_time_in_ms);
  sector1_time = some (millis lap.sector1_time_in_ms);
  sector2_time = some (millis lap.sector2_time_in_ms);
  sector3_time = some (millis lap.sector3_time_in_ms);
  lap_valid = flag lap.lap_valid_bit_flags 0x01;
  sector1_valid = flag lap.lap_valid_bit_flags 0x02;
  sector2_valid = flag lap.lap_valid_bit_flags 0x04;
  sector3_valid = flag lap.lap_valid_bit_flags 0x08;
}

after_lap : HistoricLapData → Outcome (List HistoricLapData) → Outcome (List HistoricLapData)
after_lap lap (returned laps) = returned (lap ∷ laps)
after_lap lap (panicked p) = panicked p

-- The loop `for i := range maxLapIndex`, from the index `i` on, with `n` rounds left.
unfoldable pub convert_laps : ℕ → ℕ → List LapHistoryData → Outcome (List HistoricLapData)
unfolding historic_lap_data after_lap
convert_laps zero i incoming = returned []
convert_laps (suc n) i incoming =
    let rest = convert_laps n (i + 1) incoming in
    elim (get_elem? incoming i) [
      | none ↦ panicked index_out_of_range
      | some lap ↦ after_lap (historic_lap_data i lap) rest
    ]

-- `int(NumLaps) - 1` is at most 0 exactly when the truncated difference is 0.
unfoldable pub normalize_session_history_data :
    PacketHeader → SessionHistoryData → Go (List HistoricLapData)
unfolding convert_laps LatestLaps.get LatestLaps.set
normalize_session_history_data header history s =
    let max_lap_index = history.num_laps - 1 in
    let session_id = decimal header.session_uid in
    let user_id = decimal header.player_car_index in
    let latest = LatestLaps.get session_id user_id s.latest_laps in
    if max_lap_index == 0
    then (returned [], s)
    else if leb max_lap_index latest
    then (returned [], s)
    else (
      convert_laps max_lap_index 0 history.lap_history_data,
      record s { latest_laps = (LatestLaps.set session_id user_id max_lap_index s.latest_laps).0 },
    )
