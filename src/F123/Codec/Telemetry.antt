-- ===== src/F123/Codec/Telemetry.antt =====
-- What the game writes of car telemetry (formulatel/f123/model.go), and how it is read.
use formulatel.Common.{List, arith, length, ℕ, ◌++◌, ◌≡◌}
use formulatel.Common.Int.{FitsSigned}
use formulatel.Wire.Scalars.{>>=-put_i8, get_put, put_i8, put_lengths, put_u16, put_u32, put_u8}
use formulatel.Wire.Arrays.{
  >>=-put_u16s, >>=-put_u32s, >>=-put_u8s, length-put_u16s, length-put_u32s, length-put_u8s,
  put_array,
}
use formulatel.F123.Model.Telemetry.{CarTelemetryData, get_car_telemetry_data}

unfoldable pub put_car_telemetry_data : CarTelemetryData → List ℕ
put_car_telemetry_data x =
    put_u16 x.speed
    ++ (put_u32 x.throttle
        ++ (put_u32 x.steer
            ++ (put_u32 x.brake
                ++ (put_u8 x.clutch
                    ++ (put_i8 x.gear
                        ++ (put_u16 x.engine_rpm
                            ++ (put_u8 x.drs
                                ++ (put_u8 x.rev_lights_percent
                                    ++ (put_u16 x.rev_lights_bit_value
                                        ++ (put_array put_u16 x.brakes_temperature
                                            ++ (put_array put_u8 x.tyres_surface_temperature
                                                ++ (put_array put_u8 x.tyres_inner_temperature
                                                    ++ (put_u16 x.engine_temperature
                                                        ++ (put_array put_u32 x.tyres_pressure
                                                            ++ (put_array put_u8
                                                            x.surface_type)))))))))))))))

-- The arrays have their declared lengths, and the signed field fits its width.
pub record IsCarTelemetryData (x : CarTelemetryData) : Type 0 where
  pub gear : FitsSigned 128 x.gear
  pub brakes_temperature : length x.brakes_temperature ≡ 4
  pub tyres_surface_temperature : length x.tyres_surface_temperature ≡ 4
  pub tyres_inner_temperature : length x.tyres_inner_temperature ≡ 4
  pub tyres_pressure : length x.tyres_pressure ≡ 4
  pub surface_type : length x.surface_type ≡ 4

-- The struct is read back, and the bytes behind it are left.
pub get_car_telemetry_data-put :
    (x : CarTelemetryData)
    → IsCarTelemetryData x
    → (r : List ℕ) → get_car_telemetry_data (put_car_telemetry_data x ++ r) ≡ (x, r)
unfolding get_car_telemetry_data put_car_telemetry_data
get_car_telemetry_data-put x v r = simp (
  get_put,
  >>=-put_i8 {B = CarTelemetryData} x.gear v.gear,
  >>=-put_u16s {B = CarTelemetryData} x.brakes_temperature 4 v.brakes_temperature,
  >>=-put_u8s {B = CarTelemetryData} x.tyres_surface_temperature 4 v.tyres_surface_temperature,
  >>=-put_u8s {B = CarTelemetryData} x.tyres_inner_temperature 4 v.tyres_inner_temperature,
  >>=-put_u32s {B = CarTelemetryData} x.tyres_pressure 4 v.tyres_pressure,
  >>=-put_u8s {B = CarTelemetryData} x.surface_type 4 v.surface_type,
)

pub length-put_car_telemetry_data :
    (x : CarTelemetryData) → IsCarTelemetryData x → length (put_car_telemetry_data x) ≡ 60
unfolding put_car_telemetry_data
length-put_car_telemetry_data x v = simp put_lengths (
    omega (
      arith,
      length-put_u16s x.brakes_temperature,
      length-put_u8s x.tyres_surface_temperature,
      length-put_u8s x.tyres_inner_temperature,
      length-put_u32s x.tyres_pressure,
      length-put_u8s x.surface_type,
    ))
