-- ===== src/F123/Transformer.antt =====
-- The packet transformer of formulatel/f123/f123.go: its state, the effects of its methods, and
-- what it takes from the world around it.
pub mod Laws
pub mod Normalize
pub mod History
pub mod Route
pub mod Capture
pub mod Consume
pub mod Delivery
pub mod Stream
pub mod Meaning
use formulatel.Common.{ℕ, ◌+◌, Bool, Option, none, some, List, [], ◌∷◌, ◌++◌, get_elem?}
use formulatel.Text.{Text, decimal}
use formulatel.Telemetry.{GameTelemetry, Data, GameTitle}
use formulatel.F123.Model.Header.{PacketHeader}
use formulatel.F123.LatestLaps.{LatestLapData, new_latest_lap_data}

-- The channels that the transformer writes to.
pub data Channel : Type 0 where
  vehicle_data_channel motion_data_channel current_lap_data_channel : Channel
  lap_times_data_channel extended_wheel_data_channel : Channel

-- The n-th reading of the clock in nanoseconds, whether the n-th capture file is written, what the
-- processor answers for a float that no uint32 holds, and the flag `capture`.
pub record Environment : Type 0 where
  pub clock : ℕ → ℕ
  pub disk : ℕ → Bool
  pub other : ℕ → ℕ
  pub capture : Bool

-- `F123PacketTransformer`, with all that was sent so far, in order, and the number of clock
-- readings and captures so far. `time_at_last_capture` is `none` for the zero time.
pub record State : Type 0 where
  pub latest_laps : LatestLapData
  pub sent : List (Channel × GameTelemetry)
  pub clock_reads : ℕ
  pub time_at_last_capture : Option ℕ
  pub capture_attempts : ℕ
  pub captured : List (List ℕ)

unfoldable pub new_state : State
unfolding new_latest_lap_data
new_state = record {
  latest_laps = new_latest_lap_data;
  sent = [];
  clock_reads = 0;
  time_at_last_capture = none;
  capture_attempts = 0;
  captured = [];
}

pub data Panic : Type 0 where
  nil_dereference index_out_of_range slice_out_of_range : Panic

pub data Outcome (A : Type 0) : Type 0 where
  returned : A → Outcome A
  panicked : Panic → Outcome A

-- What was done before a panic stays done.
abbrev pub Go : Type 0 → Type 0
Go A = State → Outcome A × State

continue : {A B : Type 0} → Outcome A → (A → Go B) → Go B
continue (returned a) f s = f a s
continue (panicked p) f s = (panicked p, s)

infixl 5 ◌>>=◌ ◌>>◌
unfoldable pub ◌>>=◌ : {A B : Type 0} → Go A → (A → Go B) → Go B
unfolding continue
◌>>=◌ m f s = let r = m s in continue r.0 f r.1

abbrev pub ◌>>◌ : {B : Type 0} → Go (Unit {0}) → Go B → Go B
m >> k = m >>= λ _. k

abbrev pub pure : {A : Type 0} → A → Go A
pure a s = (returned a, s)

abbrev pub panic : {A : Type 0} → Panic → Go A
panic p s = (panicked p, s)

-- `xs[i]`
unfoldable pub index : {A : Type 0} → List A → ℕ → Go A
index xs i = elim (get_elem? xs i) [ none ↦ panic index_out_of_range | some a ↦ pure a ]

-- `time.Now()`
unfoldable pub now : Environment → Go ℕ
now env s = (returned (env.clock s.clock_reads), record s { clock_reads = s.clock_reads + 1 })

-- `channel <- message`: the send is done once the reader has taken the message or it is buffered.
unfoldable pub send : Channel → GameTelemetry → Go (Unit {0})
send channel m s = (returned tt, record s { sent = s.sent ++ (channel, m) ∷ [] })

-- The `pb.GameTelemetry` that each branch of `Route` builds around its data.
abbrev pub game_telemetry : PacketHeader → ℕ → Data → GameTelemetry
game_telemetry header time content = record {
  title = GameTitle.f123;
  session_id = decimal header.session_uid;
  user_id = decimal header.player_car_index;
  timestamp = some time;
  content = content;
}

unfoldable pub send_telemetry : Environment → PacketHeader → Channel → Data → Go (Unit {0})
unfolding ◌>>=◌ now send
send_telemetry env header channel content = do
  time ← now env
  send channel (game_telemetry header time content)
