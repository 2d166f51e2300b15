-- ===== src/Tests/Stored.antt =====
-- Laps in their table.
use formulatel.Common.{◌≡◌, [], ◌∷◌, true, false}
use formulatel.Tests.Data.{vehicle_message, lap_message}
use formulatel.Timescale.Laps.{LapRow}
use formulatel.Timescale.Laps.Once.{
  write_laps, find_lap, laps_of, or_else, IsUnique, write_laps_once,
}
use formulatel.Text.{text}

abbrev stored : LapRow
stored = record {
  session_id = text "77";
  user_id = text "1";
  title = 1;
  lap_num = 0;
  lap_time = 5;
  sector1_time = 1;
  sector2_time = 2;
  sector3_time = 2;
  lap_valid = true;
  sector1_valid = true;
  sector2_valid = false;
  sector3_valid = true;
}

stored-IsUnique : IsUnique (stored ∷ [])
unfolding IsUnique
stored-IsUnique = (tt, tt)

write_laps_once_example :
    (find_lap stored (write_laps (lap_message ∷ vehicle_message ∷ lap_message ∷ []) (stored ∷ []))
      ≡ or_else
          (find_lap stored (stored ∷ []))
          (find_lap stored (laps_of (lap_message ∷ vehicle_message ∷ lap_message ∷ []))))
    × IsUnique (write_laps (lap_message ∷ vehicle_message ∷ lap_message ∷ []) (stored ∷ []))
write_laps_once_example =
    write_laps_once stored (lap_message ∷ vehicle_message ∷ lap_message ∷ []) (stored ∷ [])
      stored-IsUnique
