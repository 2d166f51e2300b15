-- ===== src/F123/Model/MotionEx.antt =====
-- formulatel/f123/model.go: the extended motion of the player's car, and how `binary.Read` fills it in.
use formulatel.Common.{ℕ, List}
use formulatel.Wire.{Decoder, pure, ◌>>=◌, Layout, get_u32, get_array}

pub record ExtendedMotionData : Type 0 where
  pub suspension_position : List ℕ
  pub suspension_velocity : List ℕ
  pub suspension_acceleration : List ℕ
  pub wheel_speed : List ℕ
  pub wheel_slip_ratio : List ℕ
  pub wheel_slip_angle : List ℕ
  pub wheel_lat_force : List ℕ
  pub wheel_lon_force : List ℕ
  pub height_of_cog_above_ground : ℕ
  pub local_velocity_x : ℕ
  pub local_velocity_y : ℕ
  pub local_velocity_z : ℕ
  pub angular_velocity_x : ℕ
  pub angular_velocity_y : ℕ
  pub angular_velocity_z : ℕ
  pub angular_acceleration_x : ℕ
  pub angular_acceleration_y : ℕ
  pub angular_acceleration_z : ℕ
  pub front_wheels_angle : ℕ
  pub wheel_vert_force : List ℕ

unfoldable pub get_extended_motion_data : Decoder ExtendedMotionData
get_extended_motion_data = do
  suspension_position_in ← get_array get_u32 4
  suspension_velocity_in ← get_array get_u32 4
  suspension_acceleration_in ← get_array get_u32 4
  wheel_speed_in ← get_array get_u32 4
  wheel_slip_ratio_in ← get_array get_u32 4
  wheel_slip_angle_in ← get_array get_u32 4
  wheel_lat_force_in ← get_array get_u32 4
  wheel_lon_force_in ← get_array get_u32 4
  height_of_cog_above_ground_in ← get_u32
  local_velocity_x_in ← get_u32
  local_velocity_y_in ← get_u32
  local_velocity_z_in ← get_u32
  angular_velocity_x_in ← get_u32
  angular_velocity_y_in ← get_u32
  angular_velocity_z_in ← get_u32
  angular_acceleration_x_in ← get_u32
  angular_acceleration_y_in ← get_u32
  angular_acceleration_z_in ← get_u32
  front_wheels_angle_in ← get_u32
  wheel_vert_force_in ← get_array get_u32 4
  pure (record {
    suspension_position = suspension_position_in;
    suspension_velocity = suspension_velocity_in;
    suspension_acceleration = suspension_acceleration_in;
    wheel_speed = wheel_speed_in;
    wheel_slip_ratio = wheel_slip_ratio_in;
    wheel_slip_angle = wheel_slip_angle_in;
    wheel_lat_force = wheel_lat_force_in;
    wheel_lon_force = wheel_lon_force_in;
    height_of_cog_above_ground = height_of_cog_above_ground_in;
    local_velocity_x = local_velocity_x_in;
    local_velocity_y = local_velocity_y_in;
    local_velocity_z = local_velocity_z_in;
    angular_velocity_x = angular_velocity_x_in;
    angular_velocity_y = angular_velocity_y_in;
    angular_velocity_z = angular_velocity_z_in;
    angular_acceleration_x = angular_acceleration_x_in;
    angular_acceleration_y = angular_acceleration_y_in;
    angular_acceleration_z = angular_acceleration_z_in;
    front_wheels_angle = front_wheels_angle_in;
    wheel_vert_force = wheel_vert_force_in;
  })

abbrev pub extended_motion_data_layout : Layout ExtendedMotionData
extended_motion_data_layout = record { size = 188; decode = get_extended_motion_data }
