-- ===== src/F123/Model/Motion.antt =====
-- formulatel/f123/model.go: the motion of one car, and how `binary.Read` fills it in.
use formulatel.Common.{ℕ, List, ◌*◌}
use formulatel.Common.Int.{ℤ}
use formulatel.Wire.{Decoder, pure, ◌>>=◌, Layout, get_i16, get_u32, get_array}

pub record CarMotionData : Type 0 where
  pub world_position_x : ℕ
  pub world_position_y : ℕ
  pub world_position_z : ℕ
  pub world_velocity_x : ℕ
  pub world_velocity_y : ℕ
  pub world_velocity_z : ℕ
  pub world_forward_dir_x : ℤ
  pub world_forward_dir_y : ℤ
  pub world_forward_dir_z : ℤ
  pub world_right_dir_x : ℤ
  pub world_right_dir_y : ℤ
  pub world_right_dir_z : ℤ
  pub g_force_lateral : ℕ
  pub g_force_longitudinal : ℕ
  pub g_force_vertical : ℕ
  pub yaw : ℕ
  pub pitch : ℕ
  pub roll : ℕ

unfoldable pub get_car_motion_data : Decoder CarMotionData
get_car_motion_data = do
  world_position_x_in ← get_u32
  world_position_y_in ← get_u32
  world_position_z_in ← get_u32
  world_velocity_x_in ← get_u32
  world_velocity_y_in ← get_u32
  world_velocity_z_in ← get_u32
  world_forward_dir_x_in ← get_i16
  world_forward_dir_y_in ← get_i16
  world_forward_dir_z_in ← get_i16
  world_right_dir_x_in ← get_i16
  world_right_dir_y_in ← get_i16
  world_right_dir_z_in ← get_i16
  g_force_lateral_in ← get_u32
  g_force_longitudinal_in ← get_u32
  g_force_vertical_in ← get_u32
  yaw_in ← get_u32
  pitch_in ← get_u32
  roll_in ← get_u32
  pure (record {
    world_position_x = world_position_x_in;
    world_position_y = world_position_y_in;
    world_position_z = world_position_z_in;
    world_velocity_x = world_velocity_x_in;
    world_velocity_y = world_velocity_y_in;
    world_velocity_z = world_velocity_z_in;
    world_forward_dir_x = world_forward_dir_x_in;
    world_forward_dir_y = world_forward_dir_y_in;
    world_forward_dir_z = world_forward_dir_z_in;
    world_right_dir_x = world_right_dir_x_in;
    world_right_dir_y = world_right_dir_y_in;
    world_right_dir_z = world_right_dir_z_in;
    g_force_lateral = g_force_lateral_in;
    g_force_longitudinal = g_force_longitudinal_in;
    g_force_vertical = g_force_vertical_in;
    yaw = yaw_in;
    pitch = pitch_in;
    roll = roll_in;
  })

-- `[22]CarMotionData`, one entry for each car.
abbrev pub car_motion_data_array_layout : Layout (List CarMotionData)
car_motion_data_array_layout = record { size = 22 * 60; decode = get_array get_car_motion_data 22 }
