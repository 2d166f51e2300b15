-- ===== src/F123/Codec/Header.antt =====
-- What the game writes of packet headers (formulatel/f123/model.go), and how it is read.
use formulatel.Common.{List, length, ℕ, ◌++◌, ◌≡◌}
use formulatel.Wire.Scalars.{get_put, put_lengths, put_u16, put_u32, put_u64, put_u8}
use formulatel.F123.Model.Header.{PacketHeader, get_packet_header}

unfoldable pub put_packet_header : PacketHeader → List ℕ
put_packet_header x =
    put_u16 x.packet_format
    ++ (put_u8 x.game_year
        ++ (put_u8 x.game_major_version
            ++ (put_u8 x.game_minor_version
                ++ (put_u8 x.packet_version
                    ++ (put_u8 x.packet_id
                        ++ (put_u64 x.session_uid
                            ++ (put_u32 x.session_time
                                ++ (put_u32 x.frame_identifier
                                    ++ (put_u32 x.overall_frame_identifier
                                        ++ (put_u8 x.player_car_index
                                            ++ (put_u8 x.secondary_player_car_index)))))))))))

-- The struct is read back, and the bytes behind it are left.
pub get_packet_header-put :
    (x : PacketHeader) (r : List ℕ) → get_packet_header (put_packet_header x ++ r) ≡ (x, r)
unfolding get_packet_header put_packet_header
get_packet_header-put x r = simp (get_put)

pub length-put_packet_header : (x : PacketHeader) → length (put_packet_header x) ≡ 29
unfolding put_packet_header
length-put_packet_header x = simp put_lengths
