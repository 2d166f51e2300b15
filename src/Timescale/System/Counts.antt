-- ===== src/Timescale/System/Counts.antt =====
-- Messages counted where they are: called, waiting in a goroutine, in a channel, handled. A weight of
-- the messages stands for any way to count them.
use formulatel.Common.{ℕ, ◌+◌, ◌≡◌, List, [], ◌∷◌, ◌++◌, arith, if◌then◌else◌}
use formulatel.Telemetry.{GameTelemetry}
use formulatel.Timescale.Batcher.{Event, tick, message, context_done, channel_closed}
use formulatel.Timescale.Router.{Batcher, add}
use formulatel.Timescale.System.{Goroutine, same}

-- The weight of the sends to `b` that a goroutine still has to do.
unfoldable pub sends : (GameTelemetry → ℕ) → Batcher → GameTelemetry → List Batcher → ℕ
sends f b msg [] = 0
sends f b msg (c ∷ bs) = (if same c b then f msg else 0) + sends f b msg bs

unfoldable pub waiting : (GameTelemetry → ℕ) → Batcher → List Goroutine → ℕ
waiting f b [] = 0
waiting f b ((msg, bs) ∷ gs) = sends f b msg bs + waiting f b gs

-- The weight of the messages that the router was given for `b`.
unfoldable pub called : (GameTelemetry → ℕ) → Batcher → List GameTelemetry → ℕ
called f b [] = 0
called f b (msg ∷ msgs) = sends f b msg (add msg) + called f b msgs

unfoldable pub total : (GameTelemetry → ℕ) → List GameTelemetry → ℕ
total f [] = 0
total f (msg ∷ msgs) = f msg + total f msgs

-- The weight of the messages among the events.
unfoldable pub handled : (GameTelemetry → ℕ) → List Event → ℕ
handled f [] = 0
handled f (message msg ∷ events) = f msg + handled f events
handled f (_ ∷ events) = handled f events

module _ (f : GameTelemetry → ℕ) where
  pub total-append : (xs ys : List GameTelemetry) → total f (xs ++ ys) ≡ total f xs + total f ys
  unfolding total
  total-append [] ys = omega arith
  total-append (x ∷ xs) ys = omega (arith, total-append xs ys)

  pub handled-append : (xs ys : List Event) → handled f (xs ++ ys) ≡ handled f xs + handled f ys
  unfolding handled
  handled-append [] ys = omega arith
  handled-append (message msg ∷ xs) ys = omega (arith, handled-append xs ys)
  handled-append (tick ∷ xs) ys = handled-append xs ys
  handled-append (context_done ∷ xs) ys = handled-append xs ys
  handled-append (channel_closed ∷ xs) ys = handled-append xs ys

  module _ (b : Batcher) where
    pub waiting-append :
        (xs ys : List Goroutine) → waiting f b (xs ++ ys) ≡ waiting f b xs + waiting f b ys
    unfolding waiting
    waiting-append [] ys = omega arith
    waiting-append ((msg, bs) ∷ xs) ys = omega (arith, waiting-append xs ys)

    pub called-append :
        (xs ys : List GameTelemetry) → called f b (xs ++ ys) ≡ called f b xs + called f b ys
    unfolding called
    called-append [] ys = omega arith
    called-append (x ∷ xs) ys = omega (arith, called-append xs ys)
