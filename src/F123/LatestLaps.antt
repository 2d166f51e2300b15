-- ===== src/F123/LatestLaps.antt =====
-- formulatel/f123/latest_lapdata.go: for each (session, user) the number of complete laps that
-- ingest has received and sent. The lock makes each call atomic, so a history is a list of calls.
pub mod Maximum
use formulatel.Common.{
  ℕ, Bool, List, [], ◌∷◌, ◌++◌, Option, none, some, ltb, bytes_eq, if◌then◌else◌,
}
use formulatel.Text.{Text}

-- A Go map from texts to ints.
pub record LatestLapData : Type 0 where
  pub entries : List (Text × ℕ)

unfoldable pub new_latest_lap_data : LatestLapData
new_latest_lap_data = record { entries = [] }

-- `m[key]`, which is 0 where the key is missing.
unfoldable pub lookup : Text → List (Text × ℕ) → ℕ
lookup k [] = 0
lookup k ((j, v) ∷ m) = if bytes_eq j k then v else lookup k m

-- `m[key] = v`
unfoldable pub insert : Text → ℕ → List (Text × ℕ) → List (Text × ℕ)
insert k v [] = (k, v) ∷ []
insert k v ((j, w) ∷ m) = if bytes_eq j k then (k, v) ∷ m else (j, w) ∷ insert k v m

-- `fmt.Sprintf("%s.%s", sessionID, userID)`
unfoldable pub key : Text → Text → Text
key session_id user_id = session_id ++ 46 ∷ user_id

unfoldable pub get : Text → Text → LatestLapData → ℕ
unfolding lookup key
get session_id user_id l = lookup (key session_id user_id) l.entries

-- The new map, and the number that `Set` returns.
unfoldable pub set : Text → Text → ℕ → LatestLapData → LatestLapData × ℕ
unfolding lookup insert key
set session_id user_id lap_num l =
    let k = key session_id user_id in
    let entries =
      if ltb (lookup k l.entries) lap_num then insert k lap_num l.entries else l.entries in
    (record { entries = entries }, lookup k entries)
