-- ===== src/F123/Codec/History.antt =====
-- What the game writes of session histories (formulatel/f123/model.go), and how it is read.
use formulatel.Common.{All, List, [], arith, length, ℕ, ◌++◌, ◌∷◌, ◌≡◌}
use formulatel.Wire.Scalars.{get_put, put_lengths, put_u16, put_u32, put_u8}
use formulatel.Wire.Arrays.{>>=-put_array, length-put_array, put_array}
use formulatel.F123.Model.History.{
  LapHistoryData, SessionHistoryData, TyreStintHistoryData, get_lap_history_data,
  get_session_history_data, get_tyre_stint_history_data,
}

All-unit : {A : Type 0} (xs : List A) → All (λ _. Unit {0}) xs
All-unit [] = tt
All-unit (x ∷ xs) = (tt, All-unit xs)

unfoldable pub put_lap_history_data : LapHistoryData → List ℕ
put_lap_history_data x =
    put_u32 x.lap_time_in_ms
    ++ (put_u16 x.sector1_time_in_ms
        ++ (put_u8 x.sector1_time_minutes
            ++ (put_u16 x.sector2_time_in_ms
                ++ (put_u8 x.sector2_time_minutes
                    ++ (put_u16 x.sector3_time_in_ms
                        ++ (put_u8 x.sector3_time_minutes ++ (put_u8 x.lap_valid_bit_flags)))))))

-- The struct is read back, and the bytes behind it are left.
pub get_lap_history_data-put :
    (x : LapHistoryData) (r : List ℕ) → get_lap_history_data (put_lap_history_data x ++ r) ≡ (x, r)
unfolding get_lap_history_data put_lap_history_data
get_lap_history_data-put x r = simp (get_put)

pub length-put_lap_history_data : (x : LapHistoryData) → length (put_lap_history_data x) ≡ 14
unfolding put_lap_history_data
length-put_lap_history_data x = simp put_lengths

unfoldable pub put_tyre_stint_history_data : TyreStintHistoryData → List ℕ
put_tyre_stint_history_data x =
    put_u8 x.end_lap ++ (put_u8 x.tyre_actual_compound ++ (put_u8 x.tyre_visual_compound))

-- The struct is read back, and the bytes behind it are left.
pub get_tyre_stint_history_data-put :
    (x : TyreStintHistoryData) (r : List ℕ)
    → get_tyre_stint_history_data (put_tyre_stint_history_data x ++ r) ≡ (x, r)
unfolding get_tyre_stint_history_data put_tyre_stint_history_data
get_tyre_stint_history_data-put x r = simp (get_put)

pub length-put_tyre_stint_history_data :
    (x : TyreStintHistoryData) → length (put_tyre_stint_history_data x) ≡ 3
unfolding put_tyre_stint_history_data
length-put_tyre_stint_history_data x = simp put_lengths

unfoldable pub put_session_history_data : SessionHistoryData → List ℕ
put_session_history_data x =
    put_u8 x.current_car_idx
    ++ (put_u8 x.num_laps
        ++ (put_u8 x.num_tyre_stints
            ++ (put_u8 x.best_lap_time_lap_num
                ++ (put_u8 x.best_sector1_lap_num
                    ++ (put_u8 x.best_sector2_lap_num
                        ++ (put_u8 x.best_sector3_lap_num
                            ++ (put_array put_lap_history_data x.lap_history_data
                                ++ (put_array put_tyre_stint_history_data
                                    x.tyre_stints_history_data))))))))

-- The arrays have their declared lengths.
pub record IsSessionHistoryData (x : SessionHistoryData) : Type 0 where
  pub lap_history_data : length x.lap_history_data ≡ 100
  pub tyre_stints_history_data : length x.tyre_stints_history_data ≡ 8

-- The struct is read back, and the bytes behind it are left.
pub get_session_history_data-put :
    (x : SessionHistoryData)
    → IsSessionHistoryData x
    → (r : List ℕ) → get_session_history_data (put_session_history_data x ++ r) ≡ (x, r)
unfolding get_session_history_data put_session_history_data
get_session_history_data-put x v r = simp (
  get_put,
  >>=-put_array {B = SessionHistoryData} (λ _. Unit {0}) get_lap_history_data put_lap_history_data
      (λ a _. get_lap_history_data-put a) x.lap_history_data (All-unit x.lap_history_data) 100
      v.lap_history_data,
  >>=-put_array {B = SessionHistoryData} (λ _. Unit {0}) get_tyre_stint_history_data
      put_tyre_stint_history_data (λ a _. get_tyre_stint_history_data-put a)
      x.tyre_stints_history_data (All-unit x.tyre_stints_history_data) 8 v.tyre_stints_history_data,
)

pub length-put_session_history_data :
    (x : SessionHistoryData) → IsSessionHistoryData x → length (put_session_history_data x) ≡ 1431
unfolding put_session_history_data
length-put_session_history_data x v = simp put_lengths (
    omega (
      arith,
      length-put_array (λ _. Unit {0}) put_lap_history_data 14
          (λ a _. length-put_lap_history_data a) x.lap_history_data (All-unit x.lap_history_data),
      length-put_array (λ _. Unit {0}) put_tyre_stint_history_data 3
          (λ a _. length-put_tyre_stint_history_data a) x.tyre_stints_history_data
          (All-unit x.tyre_stints_history_data),
    ))
