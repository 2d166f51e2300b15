-- ===== src/Pipeline/Vehicle.antt =====
-- Car telemetry as a row of the table `vehicle_data`.
use formulatel.Common.{ℕ, zero, suc, ◌<◌, ◌≡◌, refl, List, [], ◌∷◌, String, All, get_or, arith}
use formulatel.Common.Float.{u32_of_f32}
use formulatel.Text.{decimal}
use formulatel.Telemetry.{GameTitle, vehicle_data}
use formulatel.F123.Model.Header.{PacketHeader}
use formulatel.F123.Model.Telemetry.{CarTelemetryData}
use formulatel.F123.Transformer.{Environment, game_telemetry}
use formulatel.F123.Transformer.Normalize.{normalize_vehicle_data, u32}
use formulatel.Timescale.Rows.{Value}
use formulatel.Timescale.Batcher.{build_row_for_copy}
use formulatel.Timescale.Copy.{value_at}
use formulatel.Timescale.Router.{vehicle, table_of}
use formulatel.Pipeline.{BuiltWith}

-- Each integer of the struct is of its width in the packet.
pub record InWidth (car : CarTelemetryData) : Type 0 where
  pub speed : car.speed < 65536
  pub engine_rpm : car.engine_rpm < 65536
  pub engine_temperature : car.engine_temperature < 65536
  pub brakes : All (λ t. t < 65536) car.brakes_temperature
  pub surface : All (λ t. t < 256) car.tyres_surface_temperature
  pub inner : All (λ t. t < 256) car.tyres_inner_temperature

u32-word : (x : ℕ) → x < 65536 → u32 x ≡ x
u32-word x h = omega arith

u32-get_or :
    (m : ℕ) (xs : List ℕ) (i : ℕ)
    → m < 65537
    → All (λ t. t < m) xs
    → u32 (get_or xs i 0) ≡ get_or xs i 0
u32-get_or m [] i k h = refl
u32-get_or m (x ∷ xs) zero k h = omega (arith, h.0)
u32-get_or m (x ∷ xs) (suc i) k h = u32-get_or m xs i k h.1

-- What the row should hold: the wheels of the game in the order rear left, rear right, front left,
-- front right.
abbrev pub vehicle_columns :
    Environment → PacketHeader → ℕ → CarTelemetryData → List (String × Value)
vehicle_columns env header time car =
    ("session_id", Value.string (decimal header.session_uid))
    ∷ ("user_id", Value.string (decimal header.player_car_index))
    ∷ ("time", Value.time time)
    ∷ ("title", Value.title GameTitle.f123)
    ∷ ("speed", Value.uint car.speed)
    ∷ ("rpm", Value.uint car.engine_rpm)
    ∷ ("throttle", Value.float car.throttle)
    ∷ ("brake", Value.float car.brake)
    ∷ ("steering", Value.float car.steer)
    ∷ ("gear", Value.int car.gear)
    ∷ ("engine_temperature", Value.uint car.engine_temperature)
    ∷ ("fl_brake_temp", Value.uint (get_or car.brakes_temperature 2 0))
    ∷ ("fl_inner_temp", Value.uint (get_or car.tyres_inner_temperature 2 0))
    ∷ ("fl_surface_temp", Value.uint (get_or car.tyres_surface_temperature 2 0))
    ∷ ("fl_pressure", Value.uint (u32_of_f32 env.other (get_or car.tyres_pressure 2 0)))
    ∷ ("fr_brake_temp", Value.uint (get_or car.brakes_temperature 3 0))
    ∷ ("fr_inner_temp", Value.uint (get_or car.tyres_inner_temperature 3 0))
    ∷ ("fr_surface_temp", Value.uint (get_or car.tyres_surface_temperature 3 0))
    ∷ ("fr_pressure", Value.uint (u32_of_f32 env.other (get_or car.tyres_pressure 3 0)))
    ∷ ("bl_brake_temp", Value.uint (get_or car.brakes_temperature 0 0))
    ∷ ("bl_inner_temp", Value.uint (get_or car.tyres_inner_temperature 0 0))
    ∷ ("bl_surface_temp", Value.uint (get_or car.tyres_surface_temperature 0 0))
    ∷ ("bl_pressure", Value.uint (u32_of_f32 env.other (get_or car.tyres_pressure 0 0)))
    ∷ ("br_brake_temp", Value.uint (get_or car.brakes_temperature 1 0))
    ∷ ("br_inner_temp", Value.uint (get_or car.tyres_inner_temperature 1 0))
    ∷ ("br_surface_temp", Value.uint (get_or car.tyres_surface_temperature 1 0))
    ∷ ("br_pressure", Value.uint (u32_of_f32 env.other (get_or car.tyres_pressure 1 0)))
    ∷ []

-- The telemetry of a car whose integers are of their width gives a row of `vehicle_data` that holds
-- the speed, the revolutions, the throttle, the brake, the steering, the gear and the temperature of the
-- engine, and of each wheel, under its own columns, the temperatures of its brake, of the inside and of
-- the surface of its tyre, and its pressure as the processor converts it to an integer, with the
-- session, the user, the time and the title; the integers are not cut off. The clutch, the DRS, the rev
-- lights and the type of the surface are not among them.
pub vehicle_row_lem :
    (env : Environment) (header : PacketHeader) (time : ℕ) (car : CarTelemetryData)
    → InWidth car
    → BuiltWith (vehicle_columns env header time car) (
        build_row_for_copy
          (game_telemetry header time (vehicle_data (normalize_vehicle_data env car)))
          (table_of vehicle))
unfolding build_row_for_copy normalize_vehicle_data value_at
vehicle_row_lem env header time car v =
    simp
      (
        u32-word car.speed v.speed,
        u32-word car.engine_rpm v.engine_rpm,
        u32-word car.engine_temperature v.engine_temperature,
        u32-get_or 65536 car.brakes_temperature 0 (omega arith) v.brakes,
        u32-get_or 256 car.tyres_inner_temperature 0 (omega arith) v.inner,
        u32-get_or 256 car.tyres_surface_temperature 0 (omega arith) v.surface,
        u32-get_or 65536 car.brakes_temperature 1 (omega arith) v.brakes,
        u32-get_or 256 car.tyres_inner_temperature 1 (omega arith) v.inner,
        u32-get_or 256 car.tyres_surface_temperature 1 (omega arith) v.surface,
        u32-get_or 65536 car.brakes_temperature 2 (omega arith) v.brakes,
        u32-get_or 256 car.tyres_inner_temperature 2 (omega arith) v.inner,
        u32-get_or 256 car.tyres_surface_temperature 2 (omega arith) v.surface,
        u32-get_or 65536 car.brakes_temperature 3 (omega arith) v.brakes,
        u32-get_or 256 car.tyres_inner_temperature 3 (omega arith) v.inner,
        u32-get_or 256 car.tyres_surface_temperature 3 (omega arith) v.surface,
      )
      (_, refl, refl)
