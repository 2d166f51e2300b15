-- ===== src/F123/Listener.antt =====
-- The packet listener of formulatel/f123/f123.go: datagrams from a connection, put in the channel of
-- packets until the context is cancelled or a read fails.
pub mod Packets
use formulatel.Common.{
  ℕ, Bool, true, false, Option, none, some, List, [], ◌∷◌, ◌++◌, length, take, ◌==◌, if◌then◌else◌,
}

-- An error of the connection; `errors.Is(err, os.ErrDeadlineExceeded)` tells the first apart.
pub data NetError : Type 0 where
  deadline_exceeded : NetError
  broken : ℕ → NetError

-- What one round of the loop meets: a cancelled context, or what `ReadFrom` finds, a datagram
-- (empty if there was none) and an error.
pub data Turn : Type 0 where
  cancelled : Turn
  read : List ℕ → Option NetError → Turn

-- `F123PacketListener`, with the packets put in the channel so far, in order.
pub record Listener : Type 0 where
  pub packet_buffer : List (List ℕ)
  pub finished_with_error : Option NetError

-- Where `Listen` stands: still in the loop, or returned with an error or nil.
pub data Listening : Type 0 where
  still_listening : Listening
  finished : Option NetError → Listening

abbrev pub max_packet_size : ℕ
max_packet_size = 2048

-- `err != nil && !errors.Is(err, os.ErrDeadlineExceeded)`
fatal : Option NetError → Option NetError
fatal none = none
fatal (some deadline_exceeded) = none
fatal (some (broken n)) = some (broken n)

-- The loop. A datagram that is larger than the buffer is cut off, as the connection does; an error
-- beside some bytes is logged only.
unfoldable pub listen_loop : Listener → List Turn → Listening × Listener
unfolding fatal
listen_loop f [] = (still_listening, f)
listen_loop f (cancelled ∷ turns) = (finished none, f)
listen_loop f (read datagram error ∷ turns) =
    let packet = take max_packet_size datagram in
    let on_packet =
      listen_loop (record f { packet_buffer = f.packet_buffer ++ packet ∷ [] }) turns in
    let on_nothing = listen_loop f turns in
    if length packet == 0
    then elim (fatal error) [
      | none ↦ on_nothing
      | some e ↦ (finished (some e), record f { finished_with_error = some e })
    ]
    else on_packet

unfoldable pub listen : Listener → List Turn → Listening × Listener
unfolding listen_loop
listen f turns = elim f.finished_with_error [
  | some e ↦ (finished (some e), f)
  | none ↦ listen_loop f turns
]
