-- ===== src/Timescale/System/Invariant.antt =====
-- What holds in every state that the router can come to, whatever the order of the steps.
pub mod Steps
pub mod Reached
use formulatel.Common.{
  ℕ, ◌+◌, ◌<◌, ◌≡◌, ◌⊎◌, refl, ap, sym, subst, ◌∙◌, inl, inr, true, false, List, [], ◌∷◌, ◌++◌, All,
  length, arith, Bool-cases,
}
use formulatel.Telemetry.{GameTelemetry}
use formulatel.Timescale.Batcher.{
  Event, tick, message, context_done, channel_closed, flusher_worker,
}
use formulatel.Timescale.Router.{
  Batcher, vehicle, motion, session_lap_data, live_lap_data, extended_wheel_data, add,
}
use formulatel.Timescale.Router.Routing.{RoutedEvent}
use formulatel.Timescale.System.{
  Lane, Goroutine, System, same, update, capacity, new_batch_router, handle, enqueue, Step,
  call_add, send, send_closed, take, tick_round, see_done, see_closed, cancel, close, Reach, start,
  later,
}
use formulatel.Timescale.System.Counts.{
  sends, waiting, called, total, handled, total-append, handled-append, waiting-append,
  called-append,
}
use formulatel.Timescale.System.Lanes.{
  same_refl, update-cases, add_once, All-snoc, IsLane, enqueue-IsLane, handle-IsLane, rest-IsLane,
  IsLane-cancelled, closed-IsLane,
}

-- A goroutine has its only send before it, or is done.
abbrev pub IsSending : Goroutine → Type 0
IsSending (msg, bs) = (bs ≡ add msg) ⊎ (bs ≡ [])

abbrev pub all_batchers : List Batcher
all_batchers = vehicle ∷ motion ∷ session_lap_data ∷ live_lap_data ∷ extended_wheel_data ∷ []

-- Each message that `Add` was called with for `b` is waiting, in the channel, or handled.
abbrev pub Counted :
    (GameTelemetry → ℕ) → List GameTelemetry → List Goroutine → Batcher → Lane → Type 0
Counted f added gs b lane =
    called f b added ≡ handled f lane.seen + total f lane.queue + waiting f b gs

pub record IsSystem (n : ℕ) (s : System) : Type 0 where
  pub lane : (b : Batcher) → IsLane n s.cancelled b (s.lanes b)
  pub sending : All IsSending s.goroutines
  pub counted : (f : GameTelemetry → ℕ) (b : Batcher) → Counted f s.added s.goroutines b (s.lanes b)
  pub calm : s.panicked ≡ true → s.cancelled ≡ true
  pub unclosed : s.cancelled ≡ false → s.closing ≡ all_batchers

pub start-IsSystem : (n : ℕ) → IsSystem n (new_batch_router n)
unfolding new_batch_router flusher_worker called handled total waiting
start-IsSystem n = record {
  lane = λ b. record {
    bounded = omega arith;
    queued = tt;
    ran = refl;
    routed = λ _. tt;
    open_yet = λ _. refl;
  };
  sending = tt;
  counted = λ f b. refl;
  calm = λ h. cc;
  unclosed = λ _. refl;
}
