-- ===== src/Timescale/Router.antt =====
-- formulatel/internal/timescale/batcher.go: `BatchRouter`, which passes each message to the batcher
-- of its table.
pub mod Routing
pub mod Locks
use formulatel.Common.{
  Bool, true, false, Option, none, some, List, [], ◌∷◌, ◌++◌, if◌then◌else◌, String,
}
use formulatel.Telemetry.{
  GameTelemetry, get_vehicle_data, get_motion_data, get_current_lap_data, get_lap_times_data,
  get_wheel_data,
}

-- The five batchers of a router.
pub data Batcher : Type 0 where
  vehicle motion session_lap_data live_lap_data extended_wheel_data : Batcher

-- The table that `NewBatchRouter` gives each of them.
abbrev pub table_of : Batcher → String
table_of vehicle = "vehicle_data"
table_of motion = "motion_data"
table_of session_lap_data = "session_lap_data"
table_of live_lap_data = "live_lap_data"
table_of extended_wheel_data = "extended_wheel_data"

-- `if x != nil { batcher.msgChan <- wrapped }`
abbrev send_if {ℓ} : {A : Type ℓ} → Option A → Batcher → List Batcher
send_if none b = []
send_if (some _) b = b ∷ []

-- The batchers that the goroutine of `Add` sends the message to, in order.
unfoldable pub add : GameTelemetry → List Batcher
unfolding get_vehicle_data get_motion_data get_current_lap_data get_lap_times_data get_wheel_data
add msg =
    send_if (get_vehicle_data msg) vehicle
    ++ (send_if (get_motion_data msg) motion
        ++ (send_if (get_lap_times_data msg) session_lap_data
            ++ (send_if (get_current_lap_data msg) live_lap_data
                ++ send_if (get_wheel_data msg) extended_wheel_data)))
