-- ===== src/Ingest/Goroutines.antt =====
-- formulatel/cmd/ingest/main.go: the goroutines of `Listen` and `Consume` (formulatel/f123/f123.go), with
-- the channel of packets between them, in any order of their steps.
pub mod Flow
pub mod Hang
use formulatel.Common.{ℕ, ◌<◌, ◌≤◌, ◌≡◌, ◌≢◌, Bool, true, false, List, [], ◌∷◌, ◌++◌, length}
use formulatel.F123.Listener.{max_packet_size}

-- The listener is before its `select`, in `ReadFrom`, waits to put a packet in the channel, or has
-- returned.
pub data Listening : Type 0 where
  looking reading : Listening
  putting : List ℕ → Listening
  stopped : Listening

-- The transformer is before its `select`, handles a packet, or has returned or panicked.
pub data Transforming : Type 0 where
  selecting handling ended : Transforming

-- `read` are the packets that were read, `taken` those that `Consume` took, both in order.
pub record Ingesting : Type 0 where
  pub packets : List (List ℕ)
  pub listener : Listening
  pub transformer : Transforming
  pub cancelled : Bool
  pub read : List (List ℕ)
  pub taken : List (List ℕ)

unfoldable pub start_ingest : Ingesting
start_ingest = record {
  packets = [];
  listener = looking;
  transformer = selecting;
  cancelled = false;
  read = [];
  taken = [];
}

-- What `ReadFrom` gives: a byte at least, and no more than the buffer takes.
abbrev pub IsDatagram : List ℕ → Type 0
IsDatagram packet = (packet ≢ []) × (length packet ≤ max_packet_size)

-- One step of one goroutine; the channel of packets has the capacity `n`. A fatal error of the
-- listener, and a panic of the transformer, cancel the context, as a signal does. The `default` of the
-- listener's `select` is taken only while the context is not cancelled.
pub data Step (n : ℕ) (s : Ingesting) : Ingesting → Type 0 where
  look : s.listener ≡ looking → s.cancelled ≡ false → Step n s (record s { listener = reading })
  read_nothing : s.listener ≡ reading → Step n s (record s { listener = looking })
  read_packet :
      (packet : List ℕ)
      → s.listener ≡ reading
      → IsDatagram packet
      → Step n s (record s { listener = putting packet; read = s.read ++ packet ∷ [] })
  put_packet :
      (packet : List ℕ)
      → s.listener ≡ putting packet
      → length s.packets < n
      → Step n s (record s { listener = looking; packets = s.packets ++ packet ∷ [] })
  hand_over :
      (packet : List ℕ)
      → s.listener ≡ putting packet
      → s.packets ≡ []
      → s.transformer ≡ selecting
      → Step n s
          (record s { listener = looking; transformer = handling; taken = s.taken ++ packet ∷ [] })
  listener_done :
      s.listener ≡ looking → s.cancelled ≡ true → Step n s (record s { listener = stopped })
  listener_fails :
      s.listener ≡ reading → Step n s (record s { listener = stopped; cancelled = true })
  take_packet :
      (packet : List ℕ) (rest : List (List ℕ))
      → s.packets ≡ packet ∷ rest
      → s.transformer ≡ selecting
      → Step n s
          (record s { packets = rest; transformer = handling; taken = s.taken ++ packet ∷ [] })
  handled : s.transformer ≡ handling → Step n s (record s { transformer = selecting })
  panicked :
      s.transformer ≡ handling → Step n s (record s { transformer = ended; cancelled = true })
  transformer_done :
      s.transformer ≡ selecting → s.cancelled ≡ true → Step n s (record s { transformer = ended })
  signal : Step n s (record s { cancelled = true })

-- The states that come behind a state.
pub data Steps (n : ℕ) (s : Ingesting) : Ingesting → Type 0 where
  here : Steps n s s
  later : {t u : Ingesting} → Steps n s t → Step n t u → Steps n s u
