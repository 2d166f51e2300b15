-- ===== src/Timescale/System/Settling/Measure.antt =====
-- How much the router has still to do: the messages in the channels, and twice the sends that wait.
use formulatel.Common.{
  ℕ, ◌+◌, ◌≡◌, ◌⊎◌, refl, ap, inl, inr, List, [], ◌∷◌, ◌++◌, All, length, arith,
}
use formulatel.Telemetry.{GameTelemetry}
use formulatel.Timescale.Router.{
  Batcher, vehicle, motion, session_lap_data, live_lap_data, extended_wheel_data,
}
use formulatel.Timescale.System.{Lane, Goroutine, same, update}
use formulatel.Timescale.System.Counts.{waiting, sends}

-- The goroutine has no send left.
abbrev pub IsDone : Goroutine → Type 0
IsDone (_, bs) = bs ≡ []

unfoldable pub pending : List Goroutine → ℕ
pending [] = 0
pending ((_, bs) ∷ gs) = length bs + pending gs

pub pending-append : (xs ys : List Goroutine) → pending (xs ++ ys) ≡ pending xs + pending ys
unfolding pending
pending-append [] ys = omega arith
pending-append ((msg, bs) ∷ xs) ys = omega (arith, pending-append xs ys)

unfoldable pub queued : (Batcher → Lane) → ℕ
queued lanes =
    length (lanes vehicle).queue
    + length (lanes motion).queue
    + length (lanes session_lap_data).queue
    + length (lanes live_lap_data).queue
    + length (lanes extended_wheel_data).queue

pub queued-update :
    (b : Batcher) (lane : Lane) (lanes : Batcher → Lane)
    → queued (update b lane lanes) + length (lanes b).queue ≡ queued lanes + length lane.queue
unfolding queued update same
queued-update vehicle lane lanes = omega arith
queued-update motion lane lanes = omega arith
queued-update session_lap_data lane lanes = omega arith
queued-update live_lap_data lane lanes = omega arith
queued-update extended_wheel_data lane lanes = omega arith

-- A channel that holds something, and what it holds first.
abbrev pub Front : (Batcher → Lane) → Batcher → Type 0
Front lanes b = (msg : GameTelemetry) × (rest : List GameTelemetry) × ((lanes b).queue ≡ msg ∷ rest)

list_front :
    (xs : List GameTelemetry)
    → (xs ≡ []) ⊎ ((msg : GameTelemetry) × (rest : List GameTelemetry) × (xs ≡ msg ∷ rest))
list_front [] = inl refl
list_front (x ∷ xs) = inr (x, xs, refl)

-- The first of the five channels that holds something, if any does.
pub pick_lane :
    (lanes : Batcher → Lane)
    → ((b : Batcher) × Front lanes b) ⊎ ((b : Batcher) → (lanes b).queue ≡ [])
pick_lane lanes = elim (list_front (lanes vehicle).queue) [
  | inr f ↦ inl (vehicle, f)
  | inl v ↦ elim (list_front (lanes motion).queue) [
    | inr f ↦ inl (motion, f)
    | inl m ↦ elim (list_front (lanes session_lap_data).queue) [
      | inr f ↦ inl (session_lap_data, f)
      | inl s ↦ elim (list_front (lanes live_lap_data).queue) [
        | inr f ↦ inl (live_lap_data, f)
        | inl l ↦ elim (list_front (lanes extended_wheel_data).queue) [
          | inr f ↦ inl (extended_wheel_data, f)
          | inl e ↦ inr (each lanes v m s l e)
        ]
      ]
    ]
  ]
]
  where
    each :
        (lanes : Batcher → Lane)
        → (lanes vehicle).queue ≡ []
        → (lanes motion).queue ≡ []
        → (lanes session_lap_data).queue ≡ []
        → (lanes live_lap_data).queue ≡ []
        → (lanes extended_wheel_data).queue ≡ []
        → (b : Batcher) → (lanes b).queue ≡ []
    each lanes v m s l e vehicle = v
    each lanes v m s l e motion = m
    each lanes v m s l e session_lap_data = s
    each lanes v m s l e live_lap_data = l
    each lanes v m s l e extended_wheel_data = e

-- A goroutine that has a send before it, among the others.
pub record Waits (gs : List Goroutine) : Type 0 where
  pub before : List Goroutine
  pub after : List Goroutine
  pub msg : GameTelemetry
  pub batcher : Batcher
  pub more : List Batcher
  pub found : gs ≡ before ++ (msg, batcher ∷ more) ∷ after

pub pick_goroutine : (gs : List Goroutine) → Waits gs ⊎ All IsDone gs
pick_goroutine [] = inr tt
pick_goroutine ((msg, b ∷ bs) ∷ gs) =
    inl (record { before = []; after = gs; msg = msg; batcher = b; more = bs; found = refl })
pick_goroutine ((msg, []) ∷ gs) = elim (pick_goroutine gs) [
  | inl w ↦ inl (record {
    before = (msg, []) ∷ w.before;
    after = w.after;
    msg = w.msg;
    batcher = w.batcher;
    more = w.more;
    found = ap (λ x. (msg, []) ∷ x) w.found;
  })
  | inr h ↦ inr (refl, h)
]

pub none_pending :
    (f : GameTelemetry → ℕ) (b : Batcher) (gs : List Goroutine) → All IsDone gs → waiting f b gs ≡ 0
unfolding waiting sends
none_pending f b [] h = refl
none_pending f b ((msg, []) ∷ gs) h = omega (arith, none_pending f b gs h.1)
none_pending f b ((msg, c ∷ bs) ∷ gs) (e, h) = cc
