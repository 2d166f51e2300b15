-- ===== src/Timescale/Batcher/Flush.antt =====
-- `flush` of an unlocked worker.
use formulatel.Common.{ℕ, ◌≤◌, ◌<◌, ◌≡◌, refl, ap, false, List, [], ◌∷◌, ◌++◌, All, length, arith}
use mathlib.Core.List.{append_assoc, append-nil, flatten}
use formulatel.Timescale.Rows.{Row}
use formulatel.Timescale.Batcher.{Worker, flush}

-- All rows that the worker was given: those that it handed on, and those in its buffer.
abbrev pub taken : Worker → List Row
taken w = flatten w.batches ++ w.buffer

-- No batch is empty or larger than `n`.
abbrev pub BatchFits : ℕ → List Row → Type 0
BatchFits n b = (0 < length b) × (length b ≤ n)

All-snoc :
    (n : ℕ) (bs : List (List Row)) (b : List Row)
    → All (BatchFits n) bs
    → BatchFits n b
    → All (BatchFits n) (bs ++ b ∷ [])
All-snoc n [] b h k = (k, tt)
All-snoc n (x ∷ bs) b h k = (h.0, All-snoc n bs b h.1 k)

-- One more batch: its rows come behind those of the batches before.
flatten-snoc : (bs : List (List Row)) (b : List Row) → flatten (bs ++ b ∷ []) ≡ flatten bs ++ b
unfolding flatten
flatten-snoc [] b = append-nil b
flatten-snoc (x ∷ bs) b = rw (flatten-snoc bs b, append_assoc)

pub record IsFlushed (w w' : Worker) : Type 0 where
  pub same_table : w'.table_name ≡ w.table_name
  pub same_size : w'.batch_size ≡ w.batch_size
  pub same_status : w'.status ≡ w.status
  pub same_laps : w'.lap_writes ≡ w.lap_writes
  pub unlocked : w'.locked ≡ false
  pub emptied : w'.buffer ≡ []
  pub kept : taken w' ≡ taken w
  pub sized :
      (n : ℕ) → length w.buffer ≤ n → All (BatchFits n) w.batches → All (BatchFits n) w'.batches

flush-cases :
    (w : Worker) (rows : List Row) → w.buffer ≡ rows → w.locked ≡ false → IsFlushed w (flush w)
unfolding flush
flush-cases w [] e u = record {
  same_table = ground arith;
  same_size = ground arith;
  same_status = ground arith;
  same_laps = ground arith;
  unlocked = ground arith;
  emptied = ground arith;
  kept = ground arith;
  sized = λ n h a. rw (u, e, flush) a;
}
flush-cases w (row ∷ rows) e u = record {
  same_table = ground arith;
  same_size = ground arith;
  same_status = ground arith;
  same_laps = ground arith;
  unlocked = ground arith;
  emptied = ground arith;
  kept =
      ground (
        arith,
        flatten-snoc w.batches (row ∷ rows),
        append-nil (flatten w.batches ++ (row ∷ rows)),
      );
  sized = λ n h a.
      rw (u, e, flush) (All-snoc n w.batches (row ∷ rows) a (omega (arith, h, ap length e)));
}

pub flush-IsFlushed : (w : Worker) → w.locked ≡ false → IsFlushed w (flush w)
flush-IsFlushed w u = flush-cases w w.buffer refl u
