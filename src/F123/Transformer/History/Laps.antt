-- ===== src/F123/Transformer/History/Laps.antt =====
-- The loop of `normalizeSessionHistoryData`, within its array and past its end.
use formulatel.Common.{
  ℕ, zero, suc, ◌+◌, ◌*◌, ◌≤◌, ◌<◌, ◌≡◌, refl, ap, List, [], ◌∷◌, some, length, take, drop,
  get_elem?, get_elem?-lt, get_elem?-ge, arith,
}
use native.Mathlib.Decide.{dec_lt}
use formulatel.Telemetry.{HistoricLapData, as_duration, new_duration}
use formulatel.F123.Model.History.{LapHistoryData}
use formulatel.F123.Transformer.{returned, panicked, index_out_of_range}
use formulatel.F123.Transformer.History.{historic_lap_data, convert_laps, millis}

-- The laps as they are sent, numbered from `i` on.
unfoldable pub historic_laps : ℕ → List LapHistoryData → List HistoricLapData
historic_laps i [] = []
historic_laps i (lap ∷ laps) = historic_lap_data i lap ∷ historic_laps (i + 1) laps

pub length-historic_laps :
    (i : ℕ) (laps : List LapHistoryData) → length (historic_laps i laps) ≡ length laps
unfolding historic_laps
length-historic_laps i [] = refl
length-historic_laps i (lap ∷ laps) = ap suc (length-historic_laps (i + 1) laps)

drop_step {ℓ} :
    {A : Type ℓ} (xs : List A) (i : ℕ) (a : A)
    → get_elem? xs i ≡ some a
    → drop i xs ≡ a ∷ drop (suc i) xs
drop_step [] i a e = cc
drop_step (x ∷ xs) zero a e = ap (λ y. y ∷ xs) (ground arith)
drop_step (x ∷ xs) (suc i) a e = drop_step xs i a e

-- While the array lasts, the loop returns the laps from `i` on.
pub convert_laps-returned :
    (n i : ℕ) (incoming : List LapHistoryData)
    → i + n ≤ length incoming
    → convert_laps n i incoming ≡ returned (historic_laps i (take n (drop i incoming)))
unfolding convert_laps historic_laps
convert_laps-returned zero i incoming h = refl
convert_laps-returned (suc n) i incoming h =
    let (lap, e) = get_elem?-lt incoming i (omega arith) in
    let step : i + 1 ≡ suc i = omega arith in
    rw (
      e,
      convert_laps,
      convert_laps-returned n (i + 1) incoming (omega arith),
      drop_step incoming i lap e,
      step,
    )

-- Past the end of the array it fails.
pub convert_laps_past_end :
    (n i : ℕ) (incoming : List LapHistoryData)
    → i ≤ length incoming
    → length incoming < i + n
    → convert_laps n i incoming ≡ panicked index_out_of_range
unfolding convert_laps
convert_laps_past_end zero i incoming h k = absurd (omega arith)
convert_laps_past_end (suc n) i incoming h k = elim (dec_lt i (length incoming)) [
  | no end ↦ rw (get_elem?-ge incoming i (omega arith), convert_laps)
  | yes inside ↦
      let (lap, e) = get_elem?-lt incoming i inside in
      rw (e, convert_laps, convert_laps_past_end n (i + 1) incoming (omega arith) (omega arith))
]

-- A time in milliseconds comes back from its message as the same time in nanoseconds.
pub as_duration-millis : (ms : ℕ) → as_duration (some (millis ms)) ≡ 1000000 * ms
unfolding as_duration millis new_duration
as_duration-millis ms = omega arith
