-- ===== src/F123/Transformer/Route/Rest.antt =====
-- The remaining branches of `Route`: extended motion, bodies that are too short, and packets that
-- are not read at all.
use formulatel.Common.{ℕ, ◌<◌, ◌≡◌, List, [], ◌++◌, none, some, length, arith, ◌==◌, if◌then◌else◌}
use mathlib.Core.List.{append-nil}
use formulatel.Wire.{eof, unexpected_eof}
use formulatel.Telemetry.{wheel_data}
use formulatel.F123.Model.{
  car_motion_packet, lap_data_packet, car_telemetry_packet, session_history_packet,
  motion_ex_packet,
}
use formulatel.F123.Model.Header.{PacketHeader}
use formulatel.F123.Model.Telemetry.{car_telemetry_data_array_layout}
use formulatel.F123.Model.Motion.{car_motion_data_array_layout}
use formulatel.F123.Model.Lap.{lap_data_array_layout}
use formulatel.F123.Model.History.{SessionHistoryData, session_history_data_layout}
use formulatel.F123.Model.MotionEx.{ExtendedMotionData, extended_motion_data_layout}
use formulatel.F123.Codec.MotionEx.{
  IsExtendedMotionData, put_extended_motion_data, get_extended_motion_data-put,
  length-put_extended_motion_data,
}
use formulatel.F123.Codec.History.{
  IsSessionHistoryData, put_session_history_data, get_session_history_data-put,
  length-put_session_history_data,
}
use formulatel.F123.Buffer.{read_failed}
use formulatel.F123.Transformer.{
  Environment, State, returned, extended_wheel_data_channel, send_telemetry,
}
use formulatel.F123.Transformer.Normalize.{normalize_motion_ex_data}
use formulatel.F123.Transformer.Route.{
  route, on_motion_ex, on_car_telemetry, on_car_motion, on_lap_data, on_session_history,
}
use formulatel.F123.Transformer.Route.Bodies.{body_buffer, with_body_short, with_body_whole}
use formulatel.F123.Transformer.Route.Cars.{sent_one}

-- How many bytes behind the header a packet of each type must have; none, for the types that are
-- not read.
abbrev pub body_size : ℕ → ℕ
body_size id =
    if id == car_telemetry_packet
    then 1320
    else if id == car_motion_packet
    then 1320
    else if id == lap_data_packet
    then 1100
    else if id == session_history_packet
    then 1431
    else if id == motion_ex_packet
    then 188
    else 0

module _ (env : Environment) (header : PacketHeader) (s : State) where
  pub route_motion_ex :
      (wheels : ExtendedMotionData) (r : List ℕ)
      → header.packet_id ≡ motion_ex_packet
      → IsExtendedMotionData wheels
      → route env (some header) (body_buffer header (put_extended_motion_data wheels ++ r)) s ≡ (
        returned none,
        sent_one env header extended_wheel_data_channel
            (wheel_data (normalize_motion_ex_data wheels))
            s,
      )
  unfolding route on_motion_ex send_telemetry
  route_motion_ex wheels r id v = simp id (
      rw (
        with_body_whole extended_motion_data_layout header (on_motion_ex env header)
          (put_extended_motion_data wheels) wheels r (length-put_extended_motion_data wheels v)
          (rw (append-nil) at (get_extended_motion_data-put wheels v []))))

  pub route_history :
      (history : SessionHistoryData) (r : List ℕ)
      → header.packet_id ≡ session_history_packet
      → IsSessionHistoryData history
      → route env (some header) (body_buffer header (put_session_history_data history ++ r)) s
        ≡ on_session_history env header history s
  unfolding route
  route_history history r id v = simp id (
      rw (
        with_body_whole session_history_data_layout header (on_session_history env header)
          (put_session_history_data history) history r (length-put_session_history_data history v)
          (rw (append-nil) at (get_session_history_data-put history v []))))

  pub route_truncated :
      (body : List ℕ)
      → length body < body_size header.packet_id
      → route env (some header) (body_buffer header body) s
        ≡ (returned (some (read_failed (if length body == 0 then eof else unexpected_eof))), s)
  unfolding route
  route_truncated body h = ground (
    arith,
    with_body_short car_telemetry_data_array_layout header (on_car_telemetry env header) body,
    with_body_short car_motion_data_array_layout header (on_car_motion env header) body,
    with_body_short lap_data_array_layout header (on_lap_data env header) body,
    with_body_short session_history_data_layout header (on_session_history env header) body,
    with_body_short extended_motion_data_layout header (on_motion_ex env header) body,
  )

  pub route_ignored :
      (body : List ℕ)
      → body_size header.packet_id ≡ 0
      → route env (some header) (body_buffer header body) s ≡ (returned none, s)
  unfolding route
  route_ignored body h = ground arith
