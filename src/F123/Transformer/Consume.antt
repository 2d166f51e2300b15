-- ===== src/F123/Transformer/Consume.antt =====
-- formulatel/f123/f123.go, `handlePacket` and `Consume`. The header's error is logged and the
-- packet is routed all the same; what `Route` returns is dropped.
use formulatel.Common.{ℕ, none, some, List, [], ◌∷◌, if◌then◌else◌}
pub mod Packets
use formulatel.F123.Buffer.{PacketBuffer, Returned, new_packet_buffer, unpack_header}
use formulatel.F123.Model.Header.{PacketHeader}
use formulatel.F123.Transformer.{Environment, Go, pure, ◌>>=◌, ◌>>◌}
use formulatel.F123.Transformer.Route.{route}
use formulatel.F123.Transformer.Capture.{handle_capture}

route_unpacked : Environment → Returned PacketHeader × PacketBuffer → Go (Unit {0})
unfolding ◌>>=◌ route
route_unpacked env (r, b) = do _ ← route env r.value b; pure tt

unfoldable pub handle_packet : Environment → List ℕ → Go (Unit {0})
unfolding ◌>>=◌ route_unpacked new_packet_buffer unpack_header
handle_packet env packet = do
  if env.capture then handle_capture env packet else pure tt
  route_unpacked env (unpack_header (new_packet_buffer packet))

-- What the `select` of `Consume` may see next.
pub data Event : Type 0 where
  cancelled : Event
  received : List ℕ → Event
  closed : Event

-- Why `Consume` stands where it stands.
pub data Stop : Type 0 where
  context_done channel_closed waiting : Stop

unfoldable pub consume : Environment → List Event → Go Stop
unfolding ◌>>=◌
consume env [] = pure waiting
consume env (cancelled ∷ events) = pure context_done
consume env (closed ∷ events) = pure channel_closed
consume env (received packet ∷ events) = do handle_packet env packet; consume env events
