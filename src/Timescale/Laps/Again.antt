-- ===== src/Timescale/Laps/Again.antt =====
-- Laps that are written once more: the messages of MQTT may come twice, and a session history holds
-- the laps of the one before.
use formulatel.Common.{
  ◌≡◌, refl, ap, ◌∙◌, true, Option, none, some, List, [], ◌∷◌, arith, bytes_eq_iff, inl, inr,
  Bool-cases, Option-cases, All,
}
use formulatel.Telemetry.{GameTelemetry, get_lap_times_data}
use formulatel.Timescale.Laps.{LapRow, same_lap, insert_lap, lap_row}
use formulatel.Timescale.Laps.Once.{
  write_laps, find_lap, laps_of, or_else, find_lap-insert_lap, write_lap_row-lap,
  write_lap_row_other, laps_of-lap, laps_of_other,
}

insert_lap_known :
    (row s : LapRow) (rows : List LapRow) → find_lap row rows ≡ some s → insert_lap row rows ≡ rows
unfolding insert_lap find_lap
insert_lap_known row s [] h = ground (arith, h)
insert_lap_known row s (r ∷ rows) h = elim (Bool-cases (same_lap r row)) [
  | inl e ↦ rw (e, insert_lap) refl
  | inr e ↦
      rw (e, insert_lap) (ap (λ x. r ∷ x) (insert_lap_known row s rows (rw (e, find_lap) at h)))
]

-- The table has a row of the lap.
abbrev Known : List LapRow → LapRow → Type 0
Known rows r = (s : LapRow) × (find_lap r rows ≡ some s)

insert_lap-Known :
    (r row : LapRow) (rows : List LapRow) → Known rows r → Known (insert_lap row rows) r
insert_lap-Known r row rows (s, e) =
    (s, find_lap-insert_lap r row rows ∙ ap (λ o. or_else o (find_lap r (row ∷ []))) e)

same_lap_refl : (r : LapRow) → same_lap r r ≡ true
unfolding same_lap
same_lap_refl r =
    ground (arith, bytes_eq_iff r.session_id r.session_id, bytes_eq_iff r.user_id r.user_id)

or_else-some {ℓ} : {A : Type ℓ} (o : Option A) (a : A) → (b : A) × (or_else o (some a) ≡ some b)
or_else-some none a = (a, refl)
or_else-some (some b) a = (b, refl)

insert_lap-Known-self : (r : LapRow) (rows : List LapRow) → Known (insert_lap r rows) r
unfolding find_lap
insert_lap-Known-self r rows =
    let (b, e) = or_else-some (find_lap r rows) r in
    let self : find_lap r (r ∷ []) ≡ some r = ground (arith, same_lap_refl r) in
    (b, find_lap-insert_lap r r rows ∙ ap (or_else (find_lap r rows)) self ∙ e)

write_laps-Known :
    (r : LapRow) (msgs : List GameTelemetry) (rows : List LapRow)
    → Known rows r
    → Known (write_laps msgs rows) r
unfolding write_laps
write_laps-Known r [] rows k = k
write_laps-Known r (msg ∷ msgs) rows k = elim (Option-cases (get_lap_times_data msg)) [
  | inl e ↦ rw (write_lap_row_other msg rows e) (write_laps-Known r msgs rows k)
  | inr (lap, e) ↦ rw (write_lap_row-lap msg lap rows e) (
      write_laps-Known r msgs (insert_lap (lap_row msg lap) rows)
        (insert_lap-Known r (lap_row msg lap) rows k))
]

write_laps-All-Known :
    (msgs : List GameTelemetry) (rows : List LapRow)
    → All (Known (write_laps msgs rows)) (laps_of msgs)
unfolding write_laps
write_laps-All-Known [] rows = unfold laps_of in tt
write_laps-All-Known (msg ∷ msgs) rows = elim (Option-cases (get_lap_times_data msg)) [
  | inl e ↦
      rw (write_lap_row_other msg rows e, laps_of_other msg msgs e) (write_laps-All-Known msgs rows)
  | inr (lap, e) ↦
      let row = lap_row msg lap in
      rw (write_lap_row-lap msg lap rows e, laps_of-lap msg lap msgs e)
        (
          write_laps-Known row msgs (insert_lap row rows) (insert_lap-Known-self row rows),
          write_laps-All-Known msgs (insert_lap row rows),
        )
]

Known-write_laps :
    (msgs : List GameTelemetry) (rows : List LapRow)
    → All (Known rows) (laps_of msgs)
    → write_laps msgs rows ≡ rows
unfolding write_laps
Known-write_laps [] rows k = refl
Known-write_laps (msg ∷ msgs) rows k = elim (Option-cases (get_lap_times_data msg)) [
  | inl e ↦
      rw (write_lap_row_other msg rows e)
        (Known-write_laps msgs rows (rw (laps_of_other msg msgs e) at k))
  | inr (lap, e) ↦
      let row = lap_row msg lap in
      let both : All (Known rows) (row ∷ laps_of msgs) = rw (laps_of-lap msg lap msgs e) at k in
      rw (write_lap_row-lap msg lap rows e, insert_lap_known row both.0.0 rows both.0.1)
        (Known-write_laps msgs rows both.1)
]

-- Messages that are delivered once more change nothing.
pub write_laps_again :
    (msgs : List GameTelemetry) (rows : List LapRow)
    → write_laps msgs (write_laps msgs rows) ≡ write_laps msgs rows
write_laps_again msgs rows =
    Known-write_laps msgs (write_laps msgs rows) (write_laps-All-Known msgs rows)
