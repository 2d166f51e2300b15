-- ===== src/F123/Model/Header.antt =====
-- formulatel/f123/model.go: the packet header, and how `binary.Read` fills it in.
use formulatel.Common.{ℕ}
use formulatel.Wire.{Decoder, pure, ◌>>=◌, Layout, get_u16, get_u32, get_u64, get_u8}

pub record PacketHeader : Type 0 where
  pub packet_format : ℕ
  pub game_year : ℕ
  pub game_major_version : ℕ
  pub game_minor_version : ℕ
  pub packet_version : ℕ
  pub packet_id : ℕ
  pub session_uid : ℕ
  pub session_time : ℕ
  pub frame_identifier : ℕ
  pub overall_frame_identifier : ℕ
  pub player_car_index : ℕ
  pub secondary_player_car_index : ℕ

unfoldable pub get_packet_header : Decoder PacketHeader
get_packet_header = do
  packet_format_in ← get_u16
  game_year_in ← get_u8
  game_major_version_in ← get_u8
  game_minor_version_in ← get_u8
  packet_version_in ← get_u8
  packet_id_in ← get_u8
  session_uid_in ← get_u64
  session_time_in ← get_u32
  frame_identifier_in ← get_u32
  overall_frame_identifier_in ← get_u32
  player_car_index_in ← get_u8
  secondary_player_car_index_in ← get_u8
  pure (record {
    packet_format = packet_format_in;
    game_year = game_year_in;
    game_major_version = game_major_version_in;
    game_minor_version = game_minor_version_in;
    packet_version = packet_version_in;
    packet_id = packet_id_in;
    session_uid = session_uid_in;
    session_time = session_time_in;
    frame_identifier = frame_identifier_in;
    overall_frame_identifier = overall_frame_identifier_in;
    player_car_index = player_car_index_in;
    secondary_player_car_index = secondary_player_car_index_in;
  })

abbrev pub packet_header_layout : Layout PacketHeader
packet_header_layout = record { size = 29; decode = get_packet_header }
