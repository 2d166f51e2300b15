-- ===== src/Tests/Rounds.antt =====
-- The listener over a few rounds.
use formulatel.Common.{◌≡◌, refl, inr, List, [], ◌∷◌, ◌++◌, some, none, All}
use formulatel.F123.Listener.{Listener, Turn, cancelled, read, deadline_exceeded, finished, listen}
use formulatel.F123.Listener.Packets.{packets_of, listen_cancelled, listen-IsPacket, IsPacket}

abbrev fresh : Listener
fresh = record { packet_buffer = []; finished_with_error = none }

abbrev rounds : List Turn
rounds = read [] (some deadline_exceeded) ∷ read (1 ∷ 2 ∷ []) none ∷ []

listen_cancelled_example :
    listen fresh (rounds ++ cancelled ∷ read (3 ∷ []) none ∷ [])
    ≡ (finished none, record fresh { packet_buffer = [] ++ packets_of rounds })
listen_cancelled_example =
    listen_cancelled fresh refl rounds (read (3 ∷ []) none ∷ []) (inr refl, (tt, tt))

listen-IsPacket_example : All IsPacket (listen fresh rounds).1.packet_buffer
listen-IsPacket_example = listen-IsPacket fresh rounds tt
