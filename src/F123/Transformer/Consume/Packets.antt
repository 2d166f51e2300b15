-- ===== src/F123/Transformer/Consume/Packets.antt =====
-- What the transformer does with a whole packet, header and body as the game writes them.
use formulatel.Common.{
  ℕ, ◌<◌, ◌≡◌, ◌≢◌, refl, ◌∙◌, inl, inr, Bool, true, false, List, [], ◌++◌, Option, ◌⊎◌, none, some,
  length, arith, if◌then◌else◌,
}
use mathlib.Core.List.{append-nil}
use formulatel.Wire.Reads.{binary_read_whole, binary_read_short}
use formulatel.F123.Model.{session_history_packet}
use formulatel.F123.Model.Header.{PacketHeader, packet_header_layout}
use formulatel.F123.Codec.Header.{
  put_packet_header, get_packet_header-put, length-put_packet_header,
}
use formulatel.F123.Buffer.{BufferError, new_packet_buffer, unpack_header}
use formulatel.F123.Transformer.{
  Environment, State, Panic, returned, panicked, nil_dereference, pure, ◌>>=◌,
}
use formulatel.F123.Transformer.Laws.{>>=-returned, >>=-panicked}
use formulatel.F123.Transformer.Route.{route}
use formulatel.F123.Transformer.Route.Bodies.{body_buffer}
use formulatel.F123.Transformer.Capture.{handle_capture}
use formulatel.F123.Transformer.Consume.{handle_packet}

module _ (header : PacketHeader) (body : List ℕ) where
  pub unpack_header-put :
      unpack_header (new_packet_buffer (put_packet_header header ++ body))
      ≡ (record { value = some header; error = none }, body_buffer header body)
  unfolding unpack_header new_packet_buffer
  unpack_header-put = rw (
      binary_read_whole packet_header_layout (put_packet_header header) header body
        (length-put_packet_header header) (rw (append-nil) at (get_packet_header-put header [])))

  handle_capture_other :
      (env : Environment) (s : State)
      → header.packet_id ≢ session_history_packet
      → handle_capture env (put_packet_header header ++ body) s ≡ (returned tt, s)
  unfolding handle_capture
  handle_capture_other env s other = rw unpack_header-put (ground arith)

-- A packet that is too short for a header stops the transformer: `Route` reads through a nil
-- header.
pub handle_packet_runt :
    (env : Environment) (packet : List ℕ) (s : State)
    → length packet < 29
    → handle_packet env packet s ≡ (panicked nil_dereference, s)
unfolding handle_packet handle_capture unpack_header new_packet_buffer route ◌>>=◌
handle_packet_runt env packet s h =
    rw (binary_read_short packet_header_layout packet h) (ground arith)

module _ (env : Environment) (header : PacketHeader) (body : List ℕ) (s : State)
    (plain : (env.capture ≡ false) ⊎ (header.packet_id ≢ session_history_packet)) where
  captured_or_not :
      (b : Bool)
      → ((b ≡ false) ⊎ (header.packet_id ≢ session_history_packet))
      → (if b then handle_capture env (put_packet_header header ++ body) else pure tt) s
        ≡ (returned tt, s)
  captured_or_not true (inl off) = cc
  captured_or_not true (inr other) = handle_capture_other header body env s other
  captured_or_not false h = refl

  routed :
      handle_packet env (put_packet_header header ++ body) s
      ≡ (route env (some header) (body_buffer header body) >>= λ _. pure tt) s
  unfolding handle_packet
  routed =
      >>=-returned
        (if env.capture then handle_capture env (put_packet_header header ++ body) else pure tt) _
        (captured_or_not env.capture plain)
      ∙ rw (unpack_header-put header body)

  -- Where `Route` returns, with an error or without, the packet is done.
  pub handle_packet_returned :
      {e : Option BufferError} {t : State}
      → route env (some header) (body_buffer header body) s ≡ (returned e, t)
      → handle_packet env (put_packet_header header ++ body) s ≡ (returned tt, t)
  handle_packet_returned e =
      routed ∙ >>=-returned (route env (some header) (body_buffer header body)) _ e

  -- Where `Route` fails, so does the transformer.
  pub handle_packet_panicked :
      {p : Panic} {t : State}
      → route env (some header) (body_buffer header body) s ≡ (panicked p, t)
      → handle_packet env (put_packet_header header ++ body) s ≡ (panicked p, t)
  handle_packet_panicked e =
      routed ∙ >>=-panicked (route env (some header) (body_buffer header body)) _ e
