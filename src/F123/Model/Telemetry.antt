-- ===== src/F123/Model/Telemetry.antt =====
-- formulatel/f123/model.go: the car telemetry of one car, and how `binary.Read` fills it in.
use formulatel.Common.{ℕ, List, ◌*◌}
use formulatel.Common.Int.{ℤ}
use formulatel.Wire.{Decoder, pure, ◌>>=◌, Layout, get_i8, get_u16, get_u32, get_u8, get_array}

pub record CarTelemetryData : Type 0 where
  pub speed : ℕ
  pub throttle : ℕ
  pub steer : ℕ
  pub brake : ℕ
  pub clutch : ℕ
  pub gear : ℤ
  pub engine_rpm : ℕ
  pub drs : ℕ
  pub rev_lights_percent : ℕ
  pub rev_lights_bit_value : ℕ
  pub brakes_temperature : List ℕ
  pub tyres_surface_temperature : List ℕ
  pub tyres_inner_temperature : List ℕ
  pub engine_temperature : ℕ
  pub tyres_pressure : List ℕ
  pub surface_type : List ℕ

unfoldable pub get_car_telemetry_data : Decoder CarTelemetryData
get_car_telemetry_data = do
  speed_in ← get_u16
  throttle_in ← get_u32
  steer_in ← get_u32
  brake_in ← get_u32
  clutch_in ← get_u8
  gear_in ← get_i8
  engine_rpm_in ← get_u16
  drs_in ← get_u8
  rev_lights_percent_in ← get_u8
  rev_lights_bit_value_in ← get_u16
  brakes_temperature_in ← get_array get_u16 4
  tyres_surface_temperature_in ← get_array get_u8 4
  tyres_inner_temperature_in ← get_array get_u8 4
  engine_temperature_in ← get_u16
  tyres_pressure_in ← get_array get_u32 4
  surface_type_in ← get_array get_u8 4
  pure (record {
    speed = speed_in;
    throttle = throttle_in;
    steer = steer_in;
    brake = brake_in;
    clutch = clutch_in;
    gear = gear_in;
    engine_rpm = engine_rpm_in;
    drs = drs_in;
    rev_lights_percent = rev_lights_percent_in;
    rev_lights_bit_value = rev_lights_bit_value_in;
    brakes_temperature = brakes_temperature_in;
    tyres_surface_temperature = tyres_surface_temperature_in;
    tyres_inner_temperature = tyres_inner_temperature_in;
    engine_temperature = engine_temperature_in;
    tyres_pressure = tyres_pressure_in;
    surface_type = surface_type_in;
  })

-- `[22]CarTelemetryData`, one entry for each car.
abbrev pub car_telemetry_data_array_layout : Layout (List CarTelemetryData)
car_telemetry_data_array_layout = record {
  size = 22 * 60;
  decode = get_array get_car_telemetry_data 22;
}
