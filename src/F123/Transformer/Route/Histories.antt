-- ===== src/F123/Transformer/Route/Histories.antt =====
-- The branch of `Route` for session histories (formulatel/f123/f123.go).
use formulatel.Common.{
  ℕ, suc, ◌+◌, ◌-◌, ◌≤◌, ◌<◌, ◌≡◌, ◌≢◌, refl, ap, ◌∙◌, List, [], ◌∷◌, ◌++◌, none, length, take,
  length-take, arith, ==-of_eq,
}
use mathlib.Core.List.{append_assoc, append-nil}
use formulatel.Text.{decimal}
use formulatel.Telemetry.{HistoricLapData, GameTelemetry, lap_times_data}
use formulatel.F123.Model.Header.{PacketHeader}
use formulatel.F123.Model.History.{SessionHistoryData}
use formulatel.F123.LatestLaps
use formulatel.F123.Transformer.{
  Environment, State, Channel, returned, panicked, index_out_of_range, game_telemetry, pure,
  lap_times_data_channel, send_telemetry, ◌>>=◌,
}
use formulatel.F123.Transformer.Laws.{>>=-returned, >>=-panicked}
use formulatel.F123.Transformer.History.{normalize_session_history_data, convert_laps}
use formulatel.F123.Transformer.History.Laps.{
  historic_laps, length-historic_laps, convert_laps-returned, convert_laps_past_end,
}
use formulatel.F123.Transformer.Route.{on_session_history, send_laps}

-- The messages for a list of laps, each stamped by the next reading of the clock.
unfoldable pub stamped_laps :
    Environment → PacketHeader → ℕ → List HistoricLapData → List (Channel × GameTelemetry)
stamped_laps env header reads [] = []
stamped_laps env header reads (lap ∷ laps) =
    (lap_times_data_channel, game_telemetry header (env.clock reads) (lap_times_data lap))
    ∷ stamped_laps env header (reads + 1) laps

module _ (env : Environment) (header : PacketHeader) where
  pub send_laps_lem :
      (laps : List HistoricLapData) (s : State)
      → send_laps env header laps s ≡ (
        returned tt,
        record s {
          sent = s.sent ++ stamped_laps env header s.clock_reads laps;
          clock_reads = s.clock_reads + length laps;
        },
      )
  unfolding send_laps send_telemetry stamped_laps
  send_laps_lem [] s = ground (arith, append-nil s.sent)
  send_laps_lem (lap ∷ laps) s =
      let e : s.clock_reads + 1 + length laps ≡ s.clock_reads + suc (length laps) = omega arith in
      rw (send_laps_lem laps, append_assoc, e)

module _ (env : Environment) (header : PacketHeader) (history : SessionHistoryData)
    (s : State) where
  -- What was recorded for the player's car before.
  abbrev pub recorded : ℕ
  recorded =
      LatestLaps.get (decimal header.session_uid) (decimal header.player_car_index) s.latest_laps

  -- The number of complete laps is recorded for the player's car.
  abbrev pub record_laps : State
  record_laps = record s {
    latest_laps =
        (LatestLaps.set (decimal header.session_uid) (decimal header.player_car_index)
          (history.num_laps - 1) s.latest_laps).0;
  }

  normalize_fresh :
      recorded < history.num_laps - 1
      → normalize_session_history_data header history s
        ≡ (convert_laps (history.num_laps - 1) 0 history.lap_history_data, record_laps)
  unfolding normalize_session_history_data
  normalize_fresh h = ground arith

  normalize_stale :
      history.num_laps - 1 ≤ recorded
      → normalize_session_history_data header history s ≡ (returned [], s)
  unfolding normalize_session_history_data
  normalize_stale h = ground arith

  mine_lem :
      history.current_car_idx ≡ header.player_car_index
      → on_session_history env header history s
        ≡ (normalize_session_history_data header history >>= λ laps.
              send_laps env header laps >>= λ _. pure none)
            s
  unfolding on_session_history
  mine_lem mine = rw (==-of_eq history.current_car_idx header.player_car_index mine)

  -- A history of the player's car with more complete laps than were recorded: all of them are sent
  -- in order, and their number is recorded.
  pub on_session_history_fresh :
      history.current_car_idx ≡ header.player_car_index
      → recorded < history.num_laps - 1
      → history.num_laps - 1 ≤ length history.lap_history_data
      → on_session_history env header history s ≡ (
        returned none,
        record record_laps {
          sent =
              s.sent
              ++ stamped_laps env header s.clock_reads
                  (historic_laps 0 (take (history.num_laps - 1) history.lap_history_data));
          clock_reads = s.clock_reads + (history.num_laps - 1);
        },
      )
  on_session_history_fresh mine h fits =
      let n = history.num_laps - 1 in
      let laps = historic_laps 0 (take n history.lap_history_data) in
      let count : length laps ≡ n =
        length-historic_laps 0 (take n history.lap_history_data)
        ∙ omega (arith, length-take n history.lap_history_data) in
      mine_lem mine
      ∙ >>=-returned (normalize_session_history_data header history) _ (
          normalize_fresh h
          ∙ ap (λ o. (o, record_laps))
              (convert_laps-returned n 0 history.lap_history_data (omega arith)))
      ∙ >>=-returned (send_laps env header laps) _ (send_laps_lem env header laps record_laps)
      ∙ rw count

  -- A history of the player's car with no more complete laps than were recorded changes nothing.
  pub on_session_history_stale :
      history.current_car_idx ≡ header.player_car_index
      → history.num_laps - 1 ≤ recorded
      → on_session_history env header history s ≡ (returned none, s)
  on_session_history_stale mine h =
      mine_lem mine
      ∙ >>=-returned (normalize_session_history_data header history) _ (normalize_stale h)
      ∙ >>=-returned (send_laps env header []) _ (unfold send_laps in refl)

  -- Nor does the history of another car.
  pub on_session_history_other :
      history.current_car_idx ≢ header.player_car_index
      → on_session_history env header history s ≡ (returned none, s)
  unfolding on_session_history
  on_session_history_other other = ground arith

  -- A history that claims more laps than its array holds fails, and the laps are recorded as sent.
  pub on_session_history_overlong :
      history.current_car_idx ≡ header.player_car_index
      → recorded < history.num_laps - 1
      → length history.lap_history_data < history.num_laps - 1
      → on_session_history env header history s ≡ (panicked index_out_of_range, record_laps)
  on_session_history_overlong mine h long =
      let n = history.num_laps - 1 in
      mine_lem mine
      ∙ >>=-panicked (normalize_session_history_data header history) _ (
          normalize_fresh h
          ∙ ap (λ o. (o, record_laps))
              (convert_laps_past_end n 0 history.lap_history_data (omega arith) (omega arith)))
