-- ===== src/Timescale/Router/Routing.antt =====
-- The batcher that a message goes to, and what its table can take.
use formulatel.Common.{
  ◌≡◌, ◌≢◌, refl, ◌⊎◌, inl, inr, Option, none, some, List, [], ◌∷◌, ◌++◌, arith, All, ◌<◌, ℕ,
  Option-cases,
}
use formulatel.Telemetry.{
  GameTelemetry, Data, nothing, vehicle_data, motion_data, current_lap_data, lap_times_data,
  wheel_data, Tires, TireData, ExtendedFourWheelData, ExtendedWheelData, get_lap_times_data,
}
use formulatel.Timescale.Rows.{Row, Built, built, failed, nil_dereference, RowError}
use formulatel.Timescale.Batcher.{
  build_row_for_copy, Event, tick, message, context_done, channel_closed, stopped,
  new_table_batcher, flusher_worker,
}
use formulatel.Timescale.Batcher.Flow.{Fits, FitsEvent, rows_of}
use formulatel.Timescale.Batcher.Flush.{BatchFits}
use formulatel.Timescale.Batcher.Run.{IsStop, flusher_worker_stopped}
use mathlib.Core.List.{flatten}
use formulatel.Timescale.Router.{
  Batcher, vehicle, motion, session_lap_data, live_lap_data, extended_wheel_data, table_of, add,
}

-- All tires or wheels that the message should hold are there.
abbrev pub HasTires : Option Tires → Type 0
HasTires t =
    (ts : Tires) × (t ≡ some ts)
    × ((a : TireData) × (ts.front_left ≡ some a))
    × ((b : TireData) × (ts.front_right ≡ some b))
    × ((c : TireData) × (ts.back_left ≡ some c))
    × ((d : TireData) × (ts.back_right ≡ some d))

abbrev pub HasWheels : ExtendedFourWheelData → Type 0
HasWheels w =
    ((a : ExtendedWheelData) × (w.back_left ≡ some a))
    × ((b : ExtendedWheelData) × (w.back_right ≡ some b))
    × ((c : ExtendedWheelData) × (w.front_left ≡ some c))
    × ((d : ExtendedWheelData) × (w.front_right ≡ some d))

abbrev pub IsComplete : Data → Type 0
IsComplete (vehicle_data d) = HasTires d.tires
IsComplete (wheel_data w) = HasWheels w
IsComplete _ = Unit {0}

-- The batcher of a kind of data.
abbrev pub batcher_of : Data → List Batcher
batcher_of nothing = []
batcher_of (vehicle_data _) = vehicle ∷ []
batcher_of (motion_data _) = motion ∷ []
batcher_of (current_lap_data _) = live_lap_data ∷ []
batcher_of (lap_times_data _) = session_lap_data ∷ []
batcher_of (wheel_data _) = extended_wheel_data ∷ []

pub add-eq-batcher_of : (msg : GameTelemetry) (d : Data) → msg.content ≡ d → add msg ≡ batcher_of d
unfolding add
add-eq-batcher_of msg nothing e = ground (arith, e)
add-eq-batcher_of msg (vehicle_data x) e = ground (arith, e)
add-eq-batcher_of msg (motion_data x) e = ground (arith, e)
add-eq-batcher_of msg (current_lap_data x) e = ground (arith, e)
add-eq-batcher_of msg (lap_times_data x) e = ground (arith, e)
add-eq-batcher_of msg (wheel_data x) e = ground (arith, e)

pub never_failed :
    (msg : GameTelemetry) (b : Batcher) (e : RowError)
    → add msg ≡ b ∷ []
    → get_lap_times_data msg ≡ none
    → build_row_for_copy msg (table_of b) ≢ failed e
unfolding add build_row_for_copy
never_failed msg vehicle e h l = ground arith
never_failed msg motion e h l = ground arith
never_failed msg session_lap_data e h l = ground arith
never_failed msg live_lap_data e h l = ground arith
never_failed msg extended_wheel_data e h l = ground arith

-- The pointers of a complete message can be read, by whichever batcher it is sent to.
never_nil :
    (msg : GameTelemetry) (d : Data) (b : Batcher)
    → msg.content ≡ d
    → IsComplete d
    → add msg ≡ b ∷ []
    → build_row_for_copy msg (table_of b) ≢ nil_dereference
unfolding add build_row_for_copy
never_nil msg (vehicle_data x) vehicle e c h = ground arith
never_nil msg (motion_data x) motion e c h = ground arith
never_nil msg (current_lap_data x) live_lap_data e c h = ground arith
never_nil msg (wheel_data x) extended_wheel_data e c h = ground arith
never_nil msg d session_lap_data e c h = ground arith
never_nil msg d b e c h = ground arith

Built-cases :
    (r : Built Row)
    → ((row : Row) × (r ≡ built row)) ⊎ (((e : RowError) × (r ≡ failed e)) ⊎ (r ≡ nil_dereference))
Built-cases (built row) = inl (row, refl)
Built-cases (failed e) = inr (inl (e, refl))
Built-cases nil_dereference = inr (inr refl)

IsComplete-Fits :
    (msg : GameTelemetry) (b : Batcher)
    → add msg ≡ b ∷ []
    → IsComplete msg.content
    → Fits (table_of b) msg
IsComplete-Fits msg b h c = elim (Option-cases (get_lap_times_data msg)) [
  | inr (lap, e) ↦ inl (lap, e)
  | inl e ↦ elim (Built-cases (build_row_for_copy msg (table_of b))) [
    | inl (row, r) ↦ inr (row, e, r)
    | inr (inl (x, r)) ↦ absurd (never_failed msg b x h e r)
    | inr (inr r) ↦ absurd (never_nil msg msg.content b refl c h r)
  ]
]

-- Ticks, and messages that the router sends to this batcher.
abbrev pub RoutedEvent : Batcher → Event → Type 0
RoutedEvent b context_done = ⊥
RoutedEvent b channel_closed = ⊥
RoutedEvent b tick = Unit {0}
RoutedEvent b (message msg) = add msg ≡ b ∷ []

abbrev pub CompleteEvent : Event → Type 0
CompleteEvent (message msg) = IsComplete msg.content
CompleteEvent _ = Unit {0}

pub routed_fits :
    (b : Batcher) (events : List Event)
    → All (RoutedEvent b) events
    → All CompleteEvent events
    → All (FitsEvent (table_of b)) events
routed_fits b [] r c = tt
routed_fits b (tick ∷ events) r c = (tt, routed_fits b events r.1 c.1)
routed_fits b (context_done ∷ events) r c = absurd r.0
routed_fits b (channel_closed ∷ events) r c = absurd r.0
routed_fits b (message msg ∷ events) r c =
    (IsComplete-Fits msg b r.0 c.0, routed_fits b events r.1 c.1)

-- A batcher that gets complete messages from the router, in whatever order they and the ticks come,
-- and is then stopped: it stops with an empty buffer, and has handed on the rows of all messages in
-- their order, in batches of at most the batch size.
pub routed_rows_written :
    (b : Batcher) (n : ℕ) (events : List Event) (e : Event)
    → 0 < n
    → All (RoutedEvent b) events
    → All CompleteEvent events
    → IsStop e
    → let w = flusher_worker (new_table_batcher (table_of b) n) (events ++ e ∷ []) in
      (w.status ≡ stopped)
      × (w.buffer ≡ [])
      × (flatten w.batches ≡ rows_of (table_of b) events)
      × All (BatchFits n) w.batches
routed_rows_written b n events e pos r c stop =
    flusher_worker_stopped (table_of b) n events e pos (routed_fits b events r c) stop
