-- ===== src/F123/Codec/MotionEx.antt =====
-- What the game writes of extended motion (formulatel/f123/model.go), and how it is read.
use formulatel.Common.{List, arith, length, ℕ, ◌++◌, ◌≡◌}
use formulatel.Wire.Scalars.{get_put, put_lengths, put_u32}
use formulatel.Wire.Arrays.{>>=-put_u32s, length-put_u32s, put_array}
use formulatel.F123.Model.MotionEx.{ExtendedMotionData, get_extended_motion_data}

unfoldable pub put_extended_motion_data : ExtendedMotionData → List ℕ
put_extended_motion_data x =
    put_array put_u32 x.suspension_position
    ++ (put_array put_u32 x.suspension_velocity
        ++ (put_array put_u32 x.suspension_acceleration
            ++ (put_array put_u32 x.wheel_speed
                ++ (put_array put_u32 x.wheel_slip_ratio
                    ++ (put_array put_u32 x.wheel_slip_angle
                        ++ (put_array put_u32 x.wheel_lat_force
                            ++ (put_array put_u32 x.wheel_lon_force
                                ++ (put_u32 x.height_of_cog_above_ground
                                    ++ (put_u32 x.local_velocity_x
                                        ++ (put_u32 x.local_velocity_y
                                            ++ (put_u32 x.local_velocity_z
                                                ++ (put_u32 x.angular_velocity_x
                                                    ++ (put_u32 x.angular_velocity_y
                                                        ++ (put_u32 x.angular_velocity_z
                                                            ++ (put_u32 x.angular_acceleration_x
                                                            ++ (put_u32 x.angular_acceleration_y
                                                            ++ (put_u32 x.angular_acceleration_z
                                                            ++ (put_u32 x.front_wheels_angle
                                                            ++ (put_array put_u32
                                                            x.wheel_vert_force)))))))))))))))))))

-- The arrays have their declared lengths.
pub record IsExtendedMotionData (x : ExtendedMotionData) : Type 0 where
  pub suspension_position : length x.suspension_position ≡ 4
  pub suspension_velocity : length x.suspension_velocity ≡ 4
  pub suspension_acceleration : length x.suspension_acceleration ≡ 4
  pub wheel_speed : length x.wheel_speed ≡ 4
  pub wheel_slip_ratio : length x.wheel_slip_ratio ≡ 4
  pub wheel_slip_angle : length x.wheel_slip_angle ≡ 4
  pub wheel_lat_force : length x.wheel_lat_force ≡ 4
  pub wheel_lon_force : length x.wheel_lon_force ≡ 4
  pub wheel_vert_force : length x.wheel_vert_force ≡ 4

-- The struct is read back, and the bytes behind it are left.
pub get_extended_motion_data-put :
    (x : ExtendedMotionData)
    → IsExtendedMotionData x
    → (r : List ℕ) → get_extended_motion_data (put_extended_motion_data x ++ r) ≡ (x, r)
unfolding get_extended_motion_data put_extended_motion_data
get_extended_motion_data-put x v r = simp (
  get_put,
  >>=-put_u32s {B = ExtendedMotionData} x.suspension_position 4 v.suspension_position,
  >>=-put_u32s {B = ExtendedMotionData} x.suspension_velocity 4 v.suspension_velocity,
  >>=-put_u32s {B = ExtendedMotionData} x.suspension_acceleration 4 v.suspension_acceleration,
  >>=-put_u32s {B = ExtendedMotionData} x.wheel_speed 4 v.wheel_speed,
  >>=-put_u32s {B = ExtendedMotionData} x.wheel_slip_ratio 4 v.wheel_slip_ratio,
  >>=-put_u32s {B = ExtendedMotionData} x.wheel_slip_angle 4 v.wheel_slip_angle,
  >>=-put_u32s {B = ExtendedMotionData} x.wheel_lat_force 4 v.wheel_lat_force,
  >>=-put_u32s {B = ExtendedMotionData} x.wheel_lon_force 4 v.wheel_lon_force,
  >>=-put_u32s {B = ExtendedMotionData} x.wheel_vert_force 4 v.wheel_vert_force,
)

pub length-put_extended_motion_data :
    (x : ExtendedMotionData) → IsExtendedMotionData x → length (put_extended_motion_data x) ≡ 188
unfolding put_extended_motion_data
length-put_extended_motion_data x v = simp put_lengths (
    omega (
      arith,
      length-put_u32s x.suspension_position,
      length-put_u32s x.suspension_velocity,
      length-put_u32s x.suspension_acceleration,
      length-put_u32s x.wheel_speed,
      length-put_u32s x.wheel_slip_ratio,
      length-put_u32s x.wheel_slip_angle,
      length-put_u32s x.wheel_lat_force,
      length-put_u32s x.wheel_lon_force,
      length-put_u32s x.wheel_vert_force,
    ))
