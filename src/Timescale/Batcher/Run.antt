-- ===== src/Timescale/Batcher/Run.antt =====
-- Whole runs of the worker: a stream of messages of its table, up to the stop.
use formulatel.Common.{
  ℕ, ◌<◌, ◌≡◌, ◌⊎◌, inl, inr, refl, ap, ◌∙◌, sym, subst, List, [], ◌∷◌, ◌++◌, String, All, arith,
}
use mathlib.Core.List.{append_assoc, append-nil, flatten}
use formulatel.Timescale.Batcher.{
  Worker, stopped, Event, context_done, channel_closed, new_table_batcher, flush, step,
  flusher_worker, stop_after, on_event,
}
use formulatel.Timescale.Batcher.Rounds.{step-running}
use formulatel.Timescale.Batcher.Flush.{taken, BatchFits, flush-IsFlushed}
use formulatel.Timescale.Batcher.Flow.{
  FitsEvent, event_rows, rows_of, IsFlowing, new-IsFlowing, Advances, step-Advances,
}

-- While only ticks and messages of its table come, a worker that flows goes on flowing: it is never
-- stuck, its buffer stays below the batch size, no batch is empty or too large, and the rows that it
-- has taken are the rows of the messages, in their order, none lost and none twice.
pub flusher_worker-Advances :
    (t : String) (n : ℕ) (w : Worker) (events : List Event)
    → IsFlowing t n w
    → All (FitsEvent t) events
    → Advances t n (rows_of t events) w (flusher_worker w events)
unfolding flusher_worker rows_of
flusher_worker-Advances t n w [] v h = record { flows = v; took = sym (append-nil (taken w)) }
flusher_worker-Advances t n w (e ∷ events) v h =
    let a = step-Advances t n w e v h.0 in
    let b = flusher_worker-Advances t n (step w e) events a.flows h.1 in
    record {
      flows = b.flows;
      took =
          b.took
          ∙ ap (λ xs. xs ++ rows_of t events) a.took
          ∙ append_assoc (taken w) (event_rows t e) (rows_of t events);
    }

-- Either way to stop.
abbrev pub IsStop : Event → Type 0
IsStop e = (e ≡ context_done) ⊎ (e ≡ channel_closed)

step-stop :
    (t : String) (n : ℕ) (w : Worker) (e : Event)
    → IsFlowing t n w
    → IsStop e
    → step w e ≡ record (flush w) { status = stopped }
unfolding on_event stop_after
step-stop t n w e v (inl c) =
    ap (step w) c
    ∙ step-running w context_done v.runs
    ∙ ap (λ s. stop_after s (flush w)) ((flush-IsFlushed w v.unlocked).same_status ∙ v.runs)
step-stop t n w e v (inr c) =
    ap (step w) c
    ∙ step-running w channel_closed v.runs
    ∙ ap (λ s. stop_after s (flush w)) ((flush-IsFlushed w v.unlocked).same_status ∙ v.runs)

pub flusher_worker-snoc :
    (w : Worker) (events : List Event) (e : Event)
    → flusher_worker w (events ++ e ∷ []) ≡ step (flusher_worker w events) e
unfolding flusher_worker
flusher_worker-snoc w [] e = refl
flusher_worker-snoc w (x ∷ events) e = flusher_worker-snoc (step w x) events e

-- A new worker that is fed ticks and messages of its table and then stopped, by the context or by
-- the close of its channel: it stops, its buffer is empty, and the batches that it handed on hold
-- the rows of all messages, in order; none is larger than the batch size.
pub flusher_worker_stopped :
    (t : String) (n : ℕ) (events : List Event) (e : Event)
    → 0 < n
    → All (FitsEvent t) events
    → IsStop e
    → let w = flusher_worker (new_table_batcher t n) (events ++ e ∷ []) in
      (w.status ≡ stopped)
      × (w.buffer ≡ [])
      × (flatten w.batches ≡ rows_of t events)
      × All (BatchFits n) w.batches
unfolding new_table_batcher flatten
flusher_worker_stopped t n events e pos h stop =
    let start = new_table_batcher t n in
    let a = flusher_worker-Advances t n start events (new-IsFlowing t n pos) h in
    let w = flusher_worker start events in
    let f = flush-IsFlushed w a.flows.unlocked in
    let end = flusher_worker-snoc start events e ∙ step-stop t n w e a.flows stop in
    (
      ap (λ x. x.status) end,
      ap (λ x. x.buffer) end ∙ f.emptied,
      ap (λ x. flatten x.batches) end
          ∙ sym (append-nil (flatten (flush w).batches))
          ∙ ap (λ b. flatten (flush w).batches ++ b) (sym f.emptied)
          ∙ f.kept
          ∙ a.took,
      subst (λ x. All (BatchFits n) x.batches) (sym end)
          (f.sized n (omega (arith, a.flows.room)) a.flows.sized),
    )
