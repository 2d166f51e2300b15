-- ===== src/Timescale/System/Shutdown.antt =====
-- What the close of the channels does to a goroutine of `Add` that still waits.
use formulatel.Common.{
  ℕ, ◌≡◌, ◌≢◌, refl, inl, inr, Bool, true, false, List, [], ◌∷◌, ◌++◌, arith, Bool-cases,
  if◌then◌else◌,
}
use formulatel.Telemetry.{GameTelemetry}
use formulatel.Timescale.Batcher.{crashed}
use formulatel.Timescale.Router.{
  Batcher, vehicle, motion, session_lap_data, live_lap_data, extended_wheel_data,
}
use formulatel.Timescale.System.{
  Lane, Goroutine, System, same, update, IsAlive, Reach, Leads, here, next, cancel, close,
  send_closed,
}
use formulatel.Timescale.System.Lanes.{update-cases}
use formulatel.Timescale.System.Invariant.{all_batchers}
use formulatel.Timescale.System.Invariant.Reached.{Reach-IsSystem}

-- Among the channels that are still to be closed.
unfoldable pub among : Batcher → List Batcher → Bool
unfolding same
among b [] = false
among b (c ∷ cs) = if same c b then true else among b cs

pub all-among : (b : Batcher) → among b all_batchers ≡ true
unfolding among same
all-among vehicle = refl
all-among motion = refl
all-among session_lap_data = refl
all-among live_lap_data = refl
all-among extended_wheel_data = refl

-- A state that comes behind this one, in which a send has panicked, with no further call of `Add`.
pub record Panics (s : System) : Type 0 where
  state : System
  reached : Leads s state
  panicked : state.panicked ≡ true
  same_calls : state.added ≡ s.added

close_lane : Batcher → List Batcher → System → System
close_lane c cs s = record s {
  closing = cs;
  lanes = update c (record (s.lanes c) { closed = true }) s.lanes;
}

close_lane-IsAlive :
    (c : Batcher) (cs : List Batcher) (s : System) → IsAlive s → IsAlive (close_lane c cs s)
unfolding close_lane
close_lane-IsAlive c cs s v = (
  v.0,
  update-cases (λ d (x : Lane). x.worker.status ≢ crashed) c (record (s.lanes c) { closed = true })
      s.lanes (v.1 c) (λ d _. v.1 d),
)

closed_lane :
    (c b : Batcher) (cs : List Batcher) (s : System)
    → same c b ≡ true
    → ((close_lane c cs s).lanes b).closed ≡ true
unfolding close_lane update
closed_lane c b cs s e = rw e refl

closing-Panics :
    {from : System} (before after : List Goroutine) (msg : GameTelemetry) (b : Batcher)
    (bs cs : List Batcher) (s : System)
    → Leads from s
    → s.added ≡ from.added
    → IsAlive s
    → s.cancelled ≡ true
    → s.closing ≡ cs
    → among b cs ≡ true
    → s.goroutines ≡ before ++ (msg, b ∷ bs) ∷ after
    → Panics from
unfolding among close_lane
closing-Panics before after msg b bs [] s r a v c e m g = cc
closing-Panics before after msg b bs (d ∷ cs) s r a v c e m g =
    let closed = next r v (close d cs c e) in
    let alive = close_lane-IsAlive d cs s v in
    elim (Bool-cases (same d b)) [
      | inl h ↦ record {
        state = record (close_lane d cs s) { panicked = true };
        reached = next closed alive (send_closed before after msg b bs g (closed_lane d b cs s h));
        panicked = refl;
        same_calls = a;
      }
      | inr h ↦
          closing-Panics before after msg b bs cs (close_lane d cs s) closed a alive c refl
            (grind (arith, m, h)) g
    ]

-- From every state that the running router can come to before the cancellation in which a goroutine
-- of `Add` has a send before it, steps of the router lead to a panic without a further call of `Add`:
-- the context is cancelled, the channels are closed, and the goroutine sends on a closed one.
pub add_may_panic :
    {n : ℕ} {s : System} (before after : List Goroutine) (msg : GameTelemetry) (b : Batcher)
    (bs : List Batcher)
    → Reach n s
    → IsAlive s
    → s.cancelled ≡ false
    → s.goroutines ≡ before ++ (msg, b ∷ bs) ∷ after
    → Panics s
add_may_panic {s = s} before after msg b bs r v c g =
    closing-Panics before after msg b bs all_batchers (record s { cancelled = true })
      (next here v cancel) refl v refl ((Reach-IsSystem r).unclosed c) (all-among b) g
