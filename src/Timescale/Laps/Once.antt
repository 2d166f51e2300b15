-- ===== src/Timescale/Laps/Once.antt =====
-- The table of laps after any writes, against the first message of each lap.
use formulatel.Common.{
  ◌≡◌, refl, ap, ◌∙◌, true, false, Option, none, some, List, [], ◌∷◌, arith, bytes_eq_iff,
  if◌then◌else◌, inl, inr, Bool-cases, Option-cases, All,
}
use formulatel.Telemetry.{GameTelemetry, HistoricLapData, get_lap_times_data}
use formulatel.Timescale.Laps.{LapRow, same_lap, insert_lap, write_lap_row, lap_row}

-- The writes of the messages, in the order in which the database takes them.
unfoldable pub write_laps : List GameTelemetry → List LapRow → List LapRow
write_laps [] rows = rows
write_laps (msg ∷ msgs) rows = write_laps msgs (write_lap_row true msg rows).1

-- The first row of a lap.
unfoldable pub find_lap : LapRow → List LapRow → Option LapRow
find_lap k [] = none
find_lap k (r ∷ rows) = let rest = find_lap k rows in if same_lap r k then some r else rest

-- The rows of the messages that hold a lap.
unfoldable pub laps_of : List GameTelemetry → List LapRow
laps_of [] = []
laps_of (msg ∷ msgs) =
    let rest = laps_of msgs in
    elim (get_lap_times_data msg) [ none ↦ rest | some lap ↦ lap_row msg lap ∷ rest ]

-- No two rows are of the same lap.
unfoldable pub IsUnique : List LapRow → Type 0
IsUnique [] = Unit {0}
IsUnique (r ∷ rows) = All (λ s. same_lap r s ≡ false) rows × IsUnique rows

same_lap_trans : (a b c : LapRow) → same_lap a b ≡ true → same_lap a c ≡ same_lap b c
unfolding same_lap
same_lap_trans a b c h = ground (
  arith,
  bytes_eq_iff a.session_id b.session_id,
  bytes_eq_iff a.user_id b.user_id,
  bytes_eq_iff a.session_id c.session_id,
  bytes_eq_iff b.session_id c.session_id,
  bytes_eq_iff a.user_id c.user_id,
  bytes_eq_iff b.user_id c.user_id,
)

abbrev pub or_else {ℓ} : {A : Type ℓ} → Option A → Option A → Option A
or_else none b = b
or_else (some a) b = some a

or_else_assoc {ℓ} :
    {A : Type ℓ} (a b c : Option A) → or_else (or_else a b) c ≡ or_else a (or_else b c)
or_else_assoc none b c = refl
or_else_assoc (some a) b c = refl

pub find_lap-insert_lap :
    (k row : LapRow) (rows : List LapRow)
    → find_lap k (insert_lap row rows) ≡ or_else (find_lap k rows) (find_lap k (row ∷ []))
unfolding find_lap insert_lap
find_lap-insert_lap k row [] = refl
find_lap-insert_lap k row (r ∷ rows) =
    ground (arith, find_lap-insert_lap k row rows, same_lap_trans r row k)

insert_lap-All :
    (P : LapRow → Type 0) (row : LapRow) (rows : List LapRow)
    → P row
    → All P rows
    → All P (insert_lap row rows)
unfolding insert_lap
insert_lap-All P row [] p h = (p, tt)
insert_lap-All P row (r ∷ rows) p h = elim (Bool-cases (same_lap r row)) [
  | inl e ↦ rw (e, insert_lap) h
  | inr e ↦ rw (e, insert_lap) (h.0, insert_lap-All P row rows p h.1)
]

insert_lap-IsUnique :
    (row : LapRow) (rows : List LapRow) → IsUnique rows → IsUnique (insert_lap row rows)
unfolding IsUnique insert_lap
insert_lap-IsUnique row [] u = (tt, tt)
insert_lap-IsUnique row (r ∷ rows) u = elim (Bool-cases (same_lap r row)) [
  | inl e ↦ rw (e, insert_lap) u
  | inr e ↦
      rw (e, insert_lap)
        (
          insert_lap-All (λ s. same_lap r s ≡ false) row rows e u.0,
          insert_lap-IsUnique row rows u.1,
        )
]

pub write_lap_row-lap :
    (msg : GameTelemetry) (lap : HistoricLapData) (rows : List LapRow)
    → get_lap_times_data msg ≡ some lap
    → (write_lap_row true msg rows).1 ≡ insert_lap (lap_row msg lap) rows
unfolding write_lap_row
write_lap_row-lap msg lap rows e = rw (e, write_lap_row) refl

pub write_lap_row_other :
    (msg : GameTelemetry) (rows : List LapRow)
    → get_lap_times_data msg ≡ none
    → (write_lap_row true msg rows).1 ≡ rows
unfolding write_lap_row
write_lap_row_other msg rows e = rw (e, write_lap_row) refl

find_lap-cons :
    (k r : LapRow) (rows : List LapRow)
    → or_else (find_lap k (r ∷ [])) (find_lap k rows) ≡ find_lap k (r ∷ rows)
unfolding find_lap
find_lap-cons k r rows = ground arith

pub laps_of-lap :
    (msg : GameTelemetry) (lap : HistoricLapData) (msgs : List GameTelemetry)
    → get_lap_times_data msg ≡ some lap
    → laps_of (msg ∷ msgs) ≡ lap_row msg lap ∷ laps_of msgs
unfolding laps_of
laps_of-lap msg lap msgs e = rw (e, laps_of) refl

pub laps_of_other :
    (msg : GameTelemetry) (msgs : List GameTelemetry)
    → get_lap_times_data msg ≡ none
    → laps_of (msg ∷ msgs) ≡ laps_of msgs
unfolding laps_of
laps_of_other msg msgs e = rw (e, laps_of) refl

find_lap-write_lap_row :
    (k : LapRow) (msg : GameTelemetry) (msgs : List GameTelemetry) (rows : List LapRow)
    → or_else (find_lap k (write_lap_row true msg rows).1) (find_lap k (laps_of msgs))
      ≡ or_else (find_lap k rows) (find_lap k (laps_of (msg ∷ msgs)))
find_lap-write_lap_row k msg msgs rows = elim (Option-cases (get_lap_times_data msg)) [
  | inl e ↦ rw (write_lap_row_other msg rows e, laps_of_other msg msgs e) refl
  | inr (lap, e) ↦
      rw
        (
          write_lap_row-lap msg lap rows e,
          laps_of-lap msg lap msgs e,
          find_lap-insert_lap k (lap_row msg lap) rows,
          or_else_assoc (find_lap k rows),
        )
        (ap (or_else (find_lap k rows)) (find_lap-cons k (lap_row msg lap) (laps_of msgs)))
]

find_lap-write_laps :
    (k : LapRow) (msgs : List GameTelemetry) (rows : List LapRow)
    → find_lap k (write_laps msgs rows) ≡ or_else (find_lap k rows) (find_lap k (laps_of msgs))
unfolding write_laps laps_of find_lap
find_lap-write_laps k [] rows = ground arith
find_lap-write_laps k (msg ∷ msgs) rows =
    find_lap-write_laps k msgs (write_lap_row true msg rows).1
    ∙ find_lap-write_lap_row k msg msgs rows

write_laps-IsUnique :
    (msgs : List GameTelemetry) (rows : List LapRow)
    → IsUnique rows
    → IsUnique (write_laps msgs rows)
unfolding write_laps
write_laps-IsUnique [] rows u = u
write_laps-IsUnique (msg ∷ msgs) rows u = elim (Option-cases (get_lap_times_data msg)) [
  | inl e ↦
      write_laps-IsUnique msgs (write_lap_row true msg rows).1
        (rw (write_lap_row_other msg rows e) u)
  | inr (lap, e) ↦
      write_laps-IsUnique msgs (write_lap_row true msg rows).1
        (rw (write_lap_row-lap msg lap rows e) (insert_lap-IsUnique (lap_row msg lap) rows u))
]

-- However often and in whatever order the laps of a table without duplicates are written: the table
-- has no two rows of a lap, and the row of a lap is the one that it had, or else that of the first
-- message of this lap.
pub write_laps_once :
    (k : LapRow) (msgs : List GameTelemetry) (rows : List LapRow)
    → IsUnique rows
    → (find_lap k (write_laps msgs rows) ≡ or_else (find_lap k rows) (find_lap k (laps_of msgs)))
      × IsUnique (write_laps msgs rows)
write_laps_once k msgs rows u = (find_lap-write_laps k msgs rows, write_laps-IsUnique msgs rows u)
