-- ===== src/Timescale/System.antt =====
-- formulatel/internal/timescale/batcher.go at run time: the goroutines of `Add`, the five channels and
-- the workers that `NewBatchRouter` starts, interleaved in any order, up to the shutdown.
pub mod Counts
pub mod Lanes
pub mod Invariant
pub mod Safety
pub mod Shutdown
pub mod Fed
pub mod Settling
use formulatel.Common.{
  ℕ, ◌<◌, ◌≡◌, ◌≢◌, Bool, true, false, List, [], ◌∷◌, ◌++◌, length, if◌then◌else◌,
}
use formulatel.Telemetry.{GameTelemetry}
use formulatel.Timescale.Batcher.{
  Worker, running, crashed, Event, tick, message, context_done, channel_closed, new_table_batcher,
  step,
}
use formulatel.Timescale.Router.{
  Batcher, vehicle, motion, session_lap_data, live_lap_data, extended_wheel_data, table_of, add,
}

-- A channel of capacity 100 with its worker, and the events that the worker has handled.
pub record Lane : Type 0 where
  pub queue : List GameTelemetry
  pub closed : Bool
  pub worker : Worker
  pub seen : List Event

-- A goroutine of `Add`: its message, and the batchers that it still sends it to.
abbrev pub Goroutine : Type 0
Goroutine = GameTelemetry × List Batcher

-- `closing` are the channels that the goroutine of `NewBatchRouter` still closes, `added` the messages
-- that `Add` was called with.
pub record System : Type 0 where
  pub lanes : Batcher → Lane
  pub goroutines : List Goroutine
  pub closing : List Batcher
  pub cancelled : Bool
  pub panicked : Bool
  pub added : List GameTelemetry

unfoldable pub same : Batcher → Batcher → Bool
same vehicle vehicle = true
same motion motion = true
same session_lap_data session_lap_data = true
same live_lap_data live_lap_data = true
same extended_wheel_data extended_wheel_data = true
same _ _ = false

unfoldable pub update : Batcher → Lane → (Batcher → Lane) → Batcher → Lane
unfolding same
update b lane lanes c = if same b c then lane else lanes c

abbrev pub capacity : ℕ
capacity = 100

-- The router after its start, with a positive flush interval: the ticker of a batcher panics on another.
unfoldable pub new_batch_router : ℕ → System
new_batch_router batch_size = record {
  lanes = λ b. record {
    queue = [];
    closed = false;
    worker = new_table_batcher (table_of b) batch_size;
    seen = [];
  };
  goroutines = [];
  closing = vehicle ∷ motion ∷ session_lap_data ∷ live_lap_data ∷ extended_wheel_data ∷ [];
  cancelled = false;
  panicked = false;
  added = [];
}

-- The worker handles what its `select` saw.
abbrev pub handle : Event → Lane → Lane
handle e lane = record lane { worker = step lane.worker e; seen = lane.seen ++ e ∷ [] }

abbrev pub enqueue : GameTelemetry → Lane → Lane
enqueue msg lane = record lane { queue = lane.queue ++ msg ∷ [] }

-- One step of one goroutine: a call of `Add`, a send of one of its goroutines (on a closed channel
-- it panics), a round of a worker, the cancellation of the context, and the close of a channel.
pub data Step (s : System) : System → Type 0 where
  call_add :
      (msg : GameTelemetry)
      → Step s (record s {
        added = s.added ++ msg ∷ [];
        goroutines = s.goroutines ++ (msg, add msg) ∷ [];
      })
  send :
      (before after : List Goroutine) (msg : GameTelemetry) (b : Batcher) (bs : List Batcher)
      → s.goroutines ≡ before ++ (msg, b ∷ bs) ∷ after
      → (s.lanes b).closed ≡ false
      → length (s.lanes b).queue < capacity
      → Step s (record s {
        goroutines = before ++ (msg, bs) ∷ after;
        lanes = update b (enqueue msg (s.lanes b)) s.lanes;
      })
  send_closed :
      (before after : List Goroutine) (msg : GameTelemetry) (b : Batcher) (bs : List Batcher)
      → s.goroutines ≡ before ++ (msg, b ∷ bs) ∷ after
      → (s.lanes b).closed ≡ true
      → Step s (record s { panicked = true })
  take :
      (b : Batcher) (msg : GameTelemetry) (rest : List GameTelemetry)
      → (s.lanes b).queue ≡ msg ∷ rest
      → (s.lanes b).worker.status ≡ running
      → Step s (record s {
        lanes = update b (handle (message msg) (record (s.lanes b) { queue = rest })) s.lanes;
      })
  tick_round :
      (b : Batcher)
      → (s.lanes b).worker.status ≡ running
      → Step s (record s { lanes = update b (handle tick (s.lanes b)) s.lanes })
  see_done :
      (b : Batcher)
      → s.cancelled ≡ true
      → (s.lanes b).worker.status ≡ running
      → Step s (record s { lanes = update b (handle context_done (s.lanes b)) s.lanes })
  see_closed :
      (b : Batcher)
      → (s.lanes b).closed ≡ true
      → (s.lanes b).queue ≡ []
      → (s.lanes b).worker.status ≡ running
      → Step s (record s { lanes = update b (handle channel_closed (s.lanes b)) s.lanes })
  cancel : Step s (record s { cancelled = true })
  close :
      (b : Batcher) (bs : List Batcher)
      → s.cancelled ≡ true
      → s.closing ≡ b ∷ bs
      → Step s (record s {
        closing = bs;
        lanes = update b (record (s.lanes b) { closed = true }) s.lanes;
      })

-- The process runs: no goroutine panicked, and no worker with a nil pointer.
abbrev pub IsAlive : System → Type 0
IsAlive s = (s.panicked ≡ false) × ((b : Batcher) → (s.lanes b).worker.status ≢ crashed)

-- The states that a router with this batch size can come to; a panic ends the process.
pub data Reach (n : ℕ) : System → Type 0 where
  start : Reach n (new_batch_router n)
  later : {s t : System} → Reach n s → IsAlive s → Step s t → Reach n t

-- The states that come behind a state.
pub data Leads (s : System) : System → Type 0 where
  here : Leads s s
  next : {t u : System} → Leads s t → IsAlive t → Step t u → Leads s u

pub Leads-trans : {s t u : System} → Leads s t → Leads t u → Leads s u
Leads-trans l here = l
Leads-trans l (next m alive step) = next (Leads-trans l m) alive step
