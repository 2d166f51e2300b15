-- ===== src/F123/Model.antt =====
-- formulatel/f123/model.go: the packet types and the wheel indices.
pub mod Header
pub mod Telemetry
pub mod Motion
pub mod Lap
pub mod History
pub mod MotionEx
use formulatel.Common.{ℕ}

-- `PacketType`, a uint8: the `iota` constants in the order of the source.
abbrev pub car_motion_packet : ℕ
car_motion_packet = 0

abbrev pub session_packet : ℕ
session_packet = 1

abbrev pub lap_data_packet : ℕ
lap_data_packet = 2

abbrev pub event_packet : ℕ
event_packet = 3

abbrev pub participants_packet : ℕ
participants_packet = 4

abbrev pub car_setups_packet : ℕ
car_setups_packet = 5

abbrev pub car_telemetry_packet : ℕ
car_telemetry_packet = 6

abbrev pub car_status_packet : ℕ
car_status_packet = 7

abbrev pub final_classification_packet : ℕ
final_classification_packet = 8

abbrev pub lobby_info_packet : ℕ
lobby_info_packet = 9

abbrev pub car_damage_packet : ℕ
car_damage_packet = 10

abbrev pub session_history_packet : ℕ
session_history_packet = 11

abbrev pub tyre_sets_packet : ℕ
tyre_sets_packet = 12

abbrev pub motion_ex_packet : ℕ
motion_ex_packet = 13

-- The places of the wheels in every wheel array.
abbrev pub wheel_index_rear_left : ℕ
wheel_index_rear_left = 0

abbrev pub wheel_index_rear_right : ℕ
wheel_index_rear_right = 1

abbrev pub wheel_index_front_left : ℕ
wheel_index_front_left = 2

abbrev pub wheel_index_front_right : ℕ
wheel_index_front_right = 3
