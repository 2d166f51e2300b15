-- ===== src/Ingest/Goroutines/Hang.antt =====
-- A listener that waits to put a packet in a full channel waits forever once the transformer has
-- returned: `Listen` does not look at its context there.
use formulatel.Common.{
  ℕ, ◌+◌, ◌≤◌, ◌≡◌, ◌≢◌, refl, sym, subst, true, false, List, [], ◌∷◌, ◌++◌, length, length-append,
  All, arith,
}
use mathlib.Core.List.{append_assoc, append-nil}
use formulatel.Ingest.Goroutines.{
  Listening, looking, reading, putting, IsDatagram, Transforming, selecting, handling, ended,
  Ingesting, start_ingest, Step, look, read_nothing, read_packet, put_packet, hand_over,
  listener_done, listener_fails, take_packet, handled, panicked, transformer_done, signal, Steps,
  here, later,
}

-- The packets are read and put in the channel, and none is taken.
filled : List (List ℕ) → Ingesting
filled ps = record {
  packets = ps;
  listener = looking;
  transformer = selecting;
  cancelled = false;
  read = ps;
  taken = [];
}

fill :
    {n : ℕ} (ps qs : List (List ℕ))
    → All IsDatagram ps
    → length qs + length ps ≤ n
    → Steps n start_ingest (filled qs)
    → Steps n start_ingest (filled (qs ++ ps))
unfolding filled
fill {n} [] qs v h r = subst (λ x. Steps n start_ingest (filled x)) (sym (append-nil qs)) r
fill {n} (p ∷ ps) qs v h r =
    let read = later (later r (look refl refl)) (read_packet p refl v.0) in
    let put = later read (put_packet p refl (omega arith)) in
    let more = fill ps (qs ++ p ∷ []) v.1 (omega (arith, length-append qs (p ∷ []))) put in
    subst (λ x. Steps n start_ingest (filled x)) (append_assoc qs (p ∷ []) ps) more

-- The listener waits, the channel is full, and nobody will take a packet.
record IsStuck (n : ℕ) (packet : List ℕ) (s : Ingesting) : Type 0 where
  waits : s.listener ≡ putting packet
  gone : s.transformer ≡ ended
  full : n ≤ length s.packets

looks_not : {l : Listening} {packet : List ℕ} → l ≡ putting packet → l ≢ looking
looks_not e h = cc

reads_not : {l : Listening} {packet : List ℕ} → l ≡ putting packet → l ≢ reading
reads_not e h = cc

gone_not : {t : Transforming} → t ≡ ended → t ≢ selecting
gone_not e h = cc

handles_not : {t : Transforming} → t ≡ ended → t ≢ handling
handles_not e h = cc

Step-IsStuck :
    {n : ℕ} {packet : List ℕ} {s t : Ingesting}
    → IsStuck n packet s
    → Step n s t
    → IsStuck n packet t
Step-IsStuck v (look e _) = absurd (looks_not v.waits e)
Step-IsStuck v (read_nothing e) = absurd (reads_not v.waits e)
Step-IsStuck v (read_packet p e _) = absurd (reads_not v.waits e)
Step-IsStuck v (put_packet p e room) = absurd (omega (arith, v.full))
Step-IsStuck v (hand_over p e none f) = absurd (gone_not v.gone f)
Step-IsStuck v (listener_done e _) = absurd (looks_not v.waits e)
Step-IsStuck v (listener_fails e) = absurd (reads_not v.waits e)
Step-IsStuck v (take_packet p rest e f) = absurd (gone_not v.gone f)
Step-IsStuck v (handled f) = absurd (handles_not v.gone f)
Step-IsStuck v (panicked f) = absurd (handles_not v.gone f)
Step-IsStuck v (transformer_done f _) = absurd (gone_not v.gone f)
Step-IsStuck v signal = record { waits = v.waits; gone = v.gone; full = v.full }

Steps-IsStuck :
    {n : ℕ} {packet : List ℕ} {s t : Ingesting}
    → IsStuck n packet s
    → Steps n s t
    → IsStuck n packet t
Steps-IsStuck v here = v
Steps-IsStuck v (later r t) = Step-IsStuck (Steps-IsStuck v r) t

-- A state that the program comes to, whose context is cancelled and transformer gone, and behind which
-- the listener waits to put the packet in the channel in every state.
pub record Hangs (n : ℕ) (packet : List ℕ) : Type 0 where
  state : Ingesting
  reached : Steps n start_ingest state
  cancelled : state.cancelled ≡ true
  forever : (t : Ingesting) → Steps n state t → t.listener ≡ putting packet

-- For any packets that fill the channel, and one more, none of them empty or too long for the buffer:
-- the program can come to a state with a cancelled context from which the listener never returns,
-- whatever steps follow.
pub listener_may_hang :
    (ps : List (List ℕ)) (packet : List ℕ)
    → All IsDatagram ps
    → IsDatagram packet
    → Hangs (length ps) packet
unfolding filled start_ingest
listener_may_hang ps packet v h =
    let full = fill ps [] v (omega arith) here in
    let waits = later (later full (look refl refl)) (read_packet packet refl h) in
    let told = later waits signal in
    let last : Ingesting = record (filled ps) {
      listener = putting packet;
      transformer = ended;
      cancelled = true;
      read = ps ++ packet ∷ [];
    } in
    record {
      state = last;
      reached = later told (transformer_done refl refl);
      cancelled = refl;
      forever =
          λ t r. (Steps-IsStuck (record { waits = refl; gone = refl; full = omega arith }) r).waits;
    }
