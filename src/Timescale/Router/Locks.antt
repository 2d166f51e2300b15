-- ===== src/Timescale/Router/Locks.antt =====
-- The mutex of a batcher that gets its messages from the router.
use formulatel.Common.{
  ◌≡◌, ◌≢◌, refl, ◌∙◌, ap, sym, subst, inl, inr, false, List, [], ◌∷◌, All, ℕ, arith, Option-cases,
}
use formulatel.Telemetry.{GameTelemetry, get_lap_times_data}
use formulatel.Timescale.Rows.{Built, built, nil_dereference, failed, RowError, Row}
use formulatel.Timescale.Batcher.{
  Worker, Status, running, stopped, crashed, deadlocked, Event, tick, message, context_done,
  channel_closed, build_row_for_copy, new_table_batcher, buffer_row, step, flusher_worker,
}
use formulatel.Timescale.Batcher.Rounds.{step-lap, step-row, step_idle}
use formulatel.Timescale.Router.{Batcher, table_of, add}
use formulatel.Timescale.Router.Routing.{RoutedEvent, never_failed}

-- The worker of the table `table_of b`, with its mutex unlocked, and not waiting for it.
record IsUnlocked (b : Batcher) (w : Worker) : Type 0 where
  table : w.table_name ≡ table_of b
  unlocked : w.locked ≡ false
  awake : w.status ≢ deadlocked

buffer_row-IsUnlocked :
    (b : Batcher) (w : Worker) (r : Built Row)
    → IsUnlocked b w
    → ((e : RowError) → r ≢ failed e)
    → IsUnlocked b (buffer_row w r)
unfolding buffer_row
buffer_row-IsUnlocked b w (built row) v h = ground arith
buffer_row-IsUnlocked b w (failed e) v h = absurd (h e refl)
buffer_row-IsUnlocked b w nil_dereference v h = record {
  table = v.table;
  unlocked = v.unlocked;
  awake = λ e. cc;
}

message-IsUnlocked :
    (b : Batcher) (w : Worker) (msg : GameTelemetry) (s : Status)
    → w.status ≡ s
    → IsUnlocked b w
    → add msg ≡ b ∷ []
    → IsUnlocked b (step w (message msg))
message-IsUnlocked b w msg running e v h = elim (Option-cases (get_lap_times_data msg)) [
  | inr (lap, l) ↦
      subst (IsUnlocked b) (sym (step-lap w msg lap e l))
        (record { table = v.table; unlocked = v.unlocked; awake = v.awake })
  | inl l ↦
      subst (IsUnlocked b)
        (sym (
          step-row w msg e v.unlocked l
          ∙ ap (λ t. buffer_row w (build_row_for_copy msg t)) v.table))
        (buffer_row-IsUnlocked b w (build_row_for_copy msg (table_of b)) v
          (λ x. never_failed msg b x h l))
]
message-IsUnlocked b w msg deadlocked e v h = absurd (v.awake e)
message-IsUnlocked b w msg stopped e v h =
    subst (IsUnlocked b) (sym (step_idle w (message msg) (inl e))) v
message-IsUnlocked b w msg crashed e v h =
    subst (IsUnlocked b) (sym (step_idle w (message msg) (inr e))) v

step-IsUnlocked :
    (b : Batcher) (w : Worker) (e : Event)
    → IsUnlocked b w
    → RoutedEvent b e
    → IsUnlocked b (step w e)
unfolding step
step-IsUnlocked b w tick v h = ground arith
step-IsUnlocked b w context_done v h = absurd h
step-IsUnlocked b w channel_closed v h = absurd h
step-IsUnlocked b w (message msg) v h = message-IsUnlocked b w msg w.status refl v h

run-IsUnlocked :
    (b : Batcher) (w : Worker) (events : List Event)
    → IsUnlocked b w
    → All (RoutedEvent b) events
    → IsUnlocked b (flusher_worker w events)
unfolding flusher_worker
run-IsUnlocked b w [] v h = v
run-IsUnlocked b w (e ∷ events) v h =
    run-IsUnlocked b (step w e) events (step-IsUnlocked b w e v h.0) h.1

-- Whatever messages the router sends to a batcher, and whatever ticks come between them, the mutex
-- is unlocked after each round and the worker does not wait for it: the missing `Unlock` of a row
-- that fails is not reached from the router.
pub routed_never_deadlocks :
    (b : Batcher) (n : ℕ) (events : List Event)
    → All (RoutedEvent b) events
    → let w = flusher_worker (new_table_batcher (table_of b) n) events in
      (w.locked ≡ false) × (w.status ≢ deadlocked)
unfolding new_table_batcher
routed_never_deadlocks b n events h =
    let start = new_table_batcher (table_of b) n in
    let v =
      run-IsUnlocked b start events (record { table = refl; unlocked = refl; awake = λ e. cc }) h in
    (v.unlocked, v.awake)
