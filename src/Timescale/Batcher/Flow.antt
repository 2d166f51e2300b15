-- ===== src/Timescale/Batcher/Flow.antt =====
-- The worker while it is fed messages of its table: the rows that it has taken.
use formulatel.Common.{
  ℕ, ◌≤◌, ◌<◌, ◌≡◌, ◌⊎◌, inl, inr, refl, ap, ◌∙◌, sym, subst, false, Option, none, some, List, [],
  ◌∷◌, ◌++◌, String, All, length, length-append, arith, leb, Bool-cases,
}
use mathlib.Core.List.{append_assoc, append-nil, flatten}
use formulatel.Telemetry.{GameTelemetry, HistoricLapData, get_lap_times_data}
use formulatel.Timescale.Rows.{Row, Built, built}
use formulatel.Timescale.Batcher.{
  Worker, append_row, buffer_row, running, Event, context_done, channel_closed, tick, message,
  build_row_for_copy, new_table_batcher, flush, step,
}
use formulatel.Timescale.Batcher.Rounds.{step-tick, step-lap, step-row}
use formulatel.Timescale.Batcher.Flush.{taken, BatchFits, flush-IsFlushed}

-- A message of the table `t`: a lap time, or one that gives a row.
abbrev pub Fits : String → GameTelemetry → Type 0
Fits t msg =
    ((lap : HistoricLapData) × (get_lap_times_data msg ≡ some lap))
    ⊎ ((row : Row) × (get_lap_times_data msg ≡ none) × (build_row_for_copy msg t ≡ built row))

abbrev pub FitsEvent : String → Event → Type 0
FitsEvent t context_done = ⊥
FitsEvent t channel_closed = ⊥
FitsEvent t tick = Unit {0}
FitsEvent t (message msg) = Fits t msg

-- The row of a message: none for a lap time.
row_of : Option HistoricLapData → Built Row → List Row
row_of (some lap) b = []
row_of none (built row) = row ∷ []
row_of none _ = []

pub event_rows : String → Event → List Row
unfolding row_of
event_rows t (message msg) = row_of (get_lap_times_data msg) (build_row_for_copy msg t)
event_rows t _ = []

-- The rows of the messages among the events, in order.
unfoldable pub rows_of : String → List Event → List Row
unfolding event_rows
rows_of t [] = []
rows_of t (e ∷ events) = event_rows t e ++ rows_of t events

-- Between two rounds the worker of the table `t` runs, holds no lock, and its buffer has room; no
-- batch was empty or larger than the batch size.
pub record IsFlowing (t : String) (n : ℕ) (w : Worker) : Type 0 where
  pub table : w.table_name ≡ t
  pub size : w.batch_size ≡ n
  pub runs : w.status ≡ running
  pub unlocked : w.locked ≡ false
  pub room : length w.buffer < n
  pub sized : All (BatchFits n) w.batches

pub new-IsFlowing : (t : String) (n : ℕ) → 0 < n → IsFlowing t n (new_table_batcher t n)
unfolding new_table_batcher
new-IsFlowing t n h = record {
  table = refl;
  size = refl;
  runs = refl;
  unlocked = refl;
  room = h;
  sized = tt;
}

-- What one round does: the worker still flows, and has taken the rows of the event.
pub record Advances (t : String) (n : ℕ) (rows : List Row) (w w' : Worker) : Type 0 where
  pub flows : IsFlowing t n w'
  pub took : taken w' ≡ taken w ++ rows

flush-Advances :
    (t : String) (n : ℕ) (w : Worker)
    → w.table_name ≡ t
    → w.batch_size ≡ n
    → w.status ≡ running
    → w.locked ≡ false
    → 0 < n
    → length w.buffer ≤ n
    → All (BatchFits n) w.batches
    → Advances t n [] w (flush w)
flush-Advances t n w table size runs unlocked pos fits sized =
    let f = flush-IsFlushed w unlocked in
    record {
      flows = record {
        table = f.same_table ∙ table;
        size = f.same_size ∙ size;
        runs = f.same_status ∙ runs;
        unlocked = f.unlocked;
        room = omega (arith, ap length f.emptied);
        sized = f.sized n fits sized;
      };
      took = f.kept ∙ sym (append-nil (taken w));
    }

step-tick-Advances :
    (t : String) (n : ℕ) (w : Worker) → IsFlowing t n w → Advances t n [] w (step w tick)
step-tick-Advances t n w v = subst (Advances t n [] w) (sym (step-tick w v.runs)) (
    flush-Advances t n w v.table v.size v.runs v.unlocked (omega (arith, v.room))
      (omega (arith, v.room)) v.sized)

step-lap-Advances :
    (t : String) (n : ℕ) (w : Worker) (msg : GameTelemetry) (lap : HistoricLapData)
    → IsFlowing t n w
    → get_lap_times_data msg ≡ some lap
    → Advances t n [] w (step w (message msg))
step-lap-Advances t n w msg lap v e =
    subst (Advances t n [] w) (sym (step-lap w msg lap v.runs e)) (record {
      flows = record {
        table = v.table;
        size = v.size;
        runs = v.runs;
        unlocked = v.unlocked;
        room = v.room;
        sized = v.sized;
      };
      took = sym (append-nil (taken w));
    })

-- The row is behind all that was taken before, whether it stays in the buffer or fills it.
append_row-Advances :
    (t : String) (n : ℕ) (w : Worker) (row : Row)
    → IsFlowing t n w
    → Advances t n (row ∷ []) w (append_row w row)
unfolding append_row
append_row-Advances t n w row v =
    let w' : Worker = record w { buffer = w.buffer ++ row ∷ [] } in
    elim (Bool-cases (leb w.batch_size (length (w.buffer ++ row ∷ [])))) [
      | inl full ↦
          let a =
            flush-Advances t n w' v.table v.size v.runs v.unlocked (omega (arith, v.room))
              (omega (arith, v.room, length-append w.buffer (row ∷ []))) v.sized in
          rw full (record { flows = a.flows; took = a.took ∙ rw (append-nil, append_assoc) })
      | inr room ↦ rw room (record {
        flows = record {
          table = v.table;
          size = v.size;
          runs = v.runs;
          unlocked = v.unlocked;
          room = ground (arith, v.size, room);
          sized = v.sized;
        };
        took = sym (append_assoc (flatten w.batches) w.buffer (row ∷ []));
      })
    ]

step-row-Advances :
    (t : String) (n : ℕ) (w : Worker) (msg : GameTelemetry) (row : Row)
    → IsFlowing t n w
    → get_lap_times_data msg ≡ none
    → build_row_for_copy msg t ≡ built row
    → Advances t n (row ∷ []) w (step w (message msg))
unfolding buffer_row
step-row-Advances t n w msg row v e b =
    subst (Advances t n (row ∷ []) w)
      (sym (
        step-row w msg v.runs v.unlocked e
        ∙ ap (λ x. buffer_row w (build_row_for_copy msg x)) v.table
        ∙ ap (buffer_row w) b))
      (append_row-Advances t n w row v)

-- Each event of the table: the worker takes its row, if it has one.
pub step-Advances :
    (t : String) (n : ℕ) (w : Worker) (e : Event)
    → IsFlowing t n w
    → FitsEvent t e
    → Advances t n (event_rows t e) w (step w e)
unfolding event_rows
step-Advances t n w tick v h = step-tick-Advances t n w v
step-Advances t n w context_done v h = absurd h
step-Advances t n w channel_closed v h = absurd h
step-Advances t n w (message msg) v (inl (lap, e)) = rw e (step-lap-Advances t n w msg lap v e)
step-Advances t n w (message msg) v (inr (row, e, b)) =
    rw (e, b) (step-row-Advances t n w msg row v e b)
