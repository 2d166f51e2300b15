-- ===== src/Replay.antt =====
-- formulatel/cmd/replay/main.go: `ReplayPackets`, which writes captured packets to a UDP port, over and
-- over.
pub mod Rounds
use formulatel.Common.Int.{ℤ, is_positive}
use formulatel.Common.{
  not, ℕ, Bool, true, false, Option, none, some, List, [], ◌∷◌, ◌++◌, if◌then◌else◌,
}

-- What a `select` finds: the context is done, or it goes on (by its default, or by the ticker).
pub data Signal : Type 0 where
  context_done goes_on : Signal

-- Before the `select` of the outer loop; in the inner loop, with the packets of this round that are not
-- written yet, before the `select` behind a write; or returned with the connection closed, where
-- the packets are those that the round had left.
pub data Place : Type 0 where
  outer : Place
  inner : List (List ℕ) → Place
  returned : List (List ℕ) → Place

pub record Replayer : Type 0 where
  pub written : List (List ℕ)
  pub place : Place

-- `for _, packet := range packets`, up to the `select` behind its first write.
unfoldable pub next_packet : List (List ℕ) → Replayer → Replayer
next_packet [] r = record r { place = outer }
next_packet (packet ∷ rest) r = record { written = r.written ++ packet ∷ []; place = inner rest }

unfoldable pub replay_step : List (List ℕ) → Place → Signal → Replayer → Replayer
unfolding next_packet
replay_step packets outer context_done r = record r { place = returned [] }
replay_step packets outer goes_on r = next_packet packets r
replay_step packets (inner rest) context_done r = record r { place = returned rest }
replay_step packets (inner rest) goes_on r = next_packet rest r
replay_step packets (returned rest) s r = r

unfoldable pub replay_loop : List (List ℕ) → List Signal → Replayer → Replayer
unfolding replay_step
replay_loop packets [] r = r
replay_loop packets (s ∷ signals) r = replay_loop packets signals (replay_step packets r.place s r)

pub data ReplayError : Type 0 where
  no_packets no_port : ReplayError

-- `ReplayPackets` returns an error, panics, or replays.
pub data Replay : Type 0 where
  failed : ReplayError → Replay
  panicked : Replay
  replaying : Replayer → Replay

unfoldable pub new_replayer : Replayer
new_replayer = record { written = []; place = outer }

-- `delay` is the delay in nanoseconds; `time.NewTicker` panics if it is not positive. `dialled` tells
-- whether `net.Dial` has opened the port.
unfoldable pub replay_packets : ℤ → Bool → List (List ℕ) → List Signal → Replay
unfolding replay_loop new_replayer
replay_packets delay dialled [] signals = failed no_packets
replay_packets delay dialled (p ∷ packets) signals =
    if not dialled
    then failed no_port
    else if not (is_positive delay)
    then panicked
    else replaying (replay_loop (p ∷ packets) signals new_replayer)
