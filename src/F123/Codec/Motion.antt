-- ===== src/F123/Codec/Motion.antt =====
-- What the game writes of car motion (formulatel/f123/model.go), and how it is read.
use formulatel.Common.{List, length, ℕ, ◌++◌, ◌≡◌}
use formulatel.Common.Int.{FitsSigned}
use formulatel.Wire.Scalars.{>>=-put_i16, get_put, put_i16, put_lengths, put_u32}
use formulatel.F123.Model.Motion.{CarMotionData, get_car_motion_data}

unfoldable pub put_car_motion_data : CarMotionData → List ℕ
put_car_motion_data x =
    put_u32 x.world_position_x
    ++ (put_u32 x.world_position_y
        ++ (put_u32 x.world_position_z
            ++ (put_u32 x.world_velocity_x
                ++ (put_u32 x.world_velocity_y
                    ++ (put_u32 x.world_velocity_z
                        ++ (put_i16 x.world_forward_dir_x
                            ++ (put_i16 x.world_forward_dir_y
                                ++ (put_i16 x.world_forward_dir_z
                                    ++ (put_i16 x.world_right_dir_x
                                        ++ (put_i16 x.world_right_dir_y
                                            ++ (put_i16 x.world_right_dir_z
                                                ++ (put_u32 x.g_force_lateral
                                                    ++ (put_u32 x.g_force_longitudinal
                                                        ++ (put_u32 x.g_force_vertical
                                                            ++ (put_u32 x.yaw
                                                            ++ (put_u32 x.pitch
                                                            ++ (put_u32 x.roll)))))))))))))))))

-- The signed fields fit their widths.
pub record IsCarMotionData (x : CarMotionData) : Type 0 where
  pub world_forward_dir_x : FitsSigned 32768 x.world_forward_dir_x
  pub world_forward_dir_y : FitsSigned 32768 x.world_forward_dir_y
  pub world_forward_dir_z : FitsSigned 32768 x.world_forward_dir_z
  pub world_right_dir_x : FitsSigned 32768 x.world_right_dir_x
  pub world_right_dir_y : FitsSigned 32768 x.world_right_dir_y
  pub world_right_dir_z : FitsSigned 32768 x.world_right_dir_z

-- The struct is read back, and the bytes behind it are left.
pub get_car_motion_data-put :
    (x : CarMotionData)
    → IsCarMotionData x
    → (r : List ℕ) → get_car_motion_data (put_car_motion_data x ++ r) ≡ (x, r)
unfolding get_car_motion_data put_car_motion_data
get_car_motion_data-put x v r = simp (
  get_put,
  >>=-put_i16 {B = CarMotionData} x.world_forward_dir_x v.world_forward_dir_x,
  >>=-put_i16 {B = CarMotionData} x.world_forward_dir_y v.world_forward_dir_y,
  >>=-put_i16 {B = CarMotionData} x.world_forward_dir_z v.world_forward_dir_z,
  >>=-put_i16 {B = CarMotionData} x.world_right_dir_x v.world_right_dir_x,
  >>=-put_i16 {B = CarMotionData} x.world_right_dir_y v.world_right_dir_y,
  >>=-put_i16 {B = CarMotionData} x.world_right_dir_z v.world_right_dir_z,
)

pub length-put_car_motion_data :
    (x : CarMotionData) → IsCarMotionData x → length (put_car_motion_data x) ≡ 60
unfolding put_car_motion_data
length-put_car_motion_data x v = simp put_lengths
