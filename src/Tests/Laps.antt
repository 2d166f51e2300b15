-- ===== src/Tests/Laps.antt =====
-- The record of the laps that were sent.
use formulatel.Common.{ℕ, ◌≡◌, [], ◌∷◌}
use formulatel.Text.{text, decimal}
use formulatel.F123.LatestLaps.{LatestLapData, get}
use formulatel.F123.LatestLaps.Maximum.{SetCall, run_sets, largest, run_sets-eq-largest}

abbrev two_laps : LatestLapData
two_laps = record { entries = (text "77.1", 2) ∷ [] }

abbrev call_of : ℕ → SetCall
call_of n = record { session_id = 77; user_id = 1; lap_num = n }

run_sets-eq-largest_example :
    get (decimal 77) (decimal 1) (run_sets two_laps (call_of 4 ∷ call_of 3 ∷ []))
    ≡ largest (get (decimal 77) (decimal 1) two_laps) 77 1 (call_of 4 ∷ call_of 3 ∷ [])
run_sets-eq-largest_example = run_sets-eq-largest two_laps (call_of 4 ∷ call_of 3 ∷ []) 77 1
