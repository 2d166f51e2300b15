-- ===== src/Tests/Systems.antt =====
-- The router and the goroutines of ingest, a few steps from their start.
use formulatel.Common.{
  ℕ, Option, some, ◌+◌, ◌≤◌, ◌≡◌, ◌≢◌, refl, ap, false, [], ◌∷◌, ◌++◌, length, All, arith,
}
use formulatel.Timescale.Batcher.{deadlocked, new_table_batcher}
use formulatel.Timescale.Router.{Batcher, vehicle, add}
use formulatel.Timescale.Router.Routing.{IsComplete}
use formulatel.Timescale.System.{
  System, capacity, new_batch_router, IsAlive, Reach, start, later, call_add,
}
use formulatel.Timescale.System.Counts.{called, handled, total, waiting}
use formulatel.Timescale.System.Invariant.{all_batchers}
use formulatel.Timescale.System.Safety.{router_safe, no_message_lost}
use formulatel.Timescale.System.Shutdown.{Panics, add_may_panic}
use formulatel.Timescale.System.Settling.{router_settles}
use formulatel.Timescale.System.Settling.Flushing.{Settled}
use formulatel.Ingest.Goroutines.{
  Ingesting, start_ingest, Steps, here, later as then, look, read_packet, IsDatagram, hand_over,
  handling, putting,
}
use formulatel.Ingest.Goroutines.Flow.{pending, packets_in_order}
use formulatel.Ingest.Goroutines.Hang.{Hangs, listener_may_hang}
use formulatel.Text.{Text}
use formulatel.Telemetry.{GameTelemetry}
use formulatel.Persist.{on_payload, receive}
use formulatel.Persist.Stored.{payloads_settle}
use formulatel.Tests.Data.{vehicle_message}
use formulatel.Tests.Batches.{added, complete}

-- `Add` was called once.
abbrev one_call : System
one_call = record (new_batch_router 2) {
  added = (new_batch_router 2).added ++ vehicle_message ∷ [];
  goroutines = (new_batch_router 2).goroutines ++ (vehicle_message, add vehicle_message) ∷ [];
}

runs : IsAlive (new_batch_router 2)
unfolding new_batch_router new_table_batcher
runs = (refl, λ b e. cc)

reached : Reach 2 one_call
reached = later start runs (call_add vehicle_message)

uncancelled : one_call.cancelled ≡ false
unfolding new_batch_router
uncancelled = refl

added-IsComplete : All (λ m. IsComplete m.content) one_call.added
unfolding new_batch_router
added-IsComplete = (complete, tt)

router_safe_example :
    (one_call.panicked ≡ false)
    × (one_call.closing ≡ all_batchers)
    × ((b : Batcher)
        → let lane = one_call.lanes b in
          (lane.closed ≡ false)
          × (length lane.queue ≤ capacity)
          × (lane.worker.locked ≡ false)
          × (lane.worker.status ≢ deadlocked))
router_safe_example = router_safe reached uncancelled

no_message_lost_example :
    let lane = one_call.lanes vehicle in
    called (λ m. 1) vehicle one_call.added
    ≡ handled (λ m. 1) lane.seen
      + total (λ m. 1) lane.queue
      + waiting (λ m. 1) vehicle one_call.goroutines
no_message_lost_example = no_message_lost (λ m. 1) vehicle reached

router_settles_example : Settled one_call one_call.added
router_settles_example = router_settles (omega arith) reached uncancelled added-IsComplete

-- Each payload is read as the same message.
abbrev unmarshal : Text → Option GameTelemetry
unmarshal payload = some vehicle_message

received-IsComplete : All (λ m. IsComplete m.content) (receive unmarshal ((1 ∷ []) ∷ (2 ∷ []) ∷ []))
unfolding receive on_payload
received-IsComplete = (complete, (complete, tt))

payloads_settle_example :
    Settled (new_batch_router 2) (receive unmarshal ((1 ∷ []) ∷ (2 ∷ []) ∷ []))
payloads_settle_example =
    payloads_settle 2 unmarshal ((1 ∷ []) ∷ (2 ∷ []) ∷ []) (omega arith) received-IsComplete

waits : one_call.goroutines ≡ [] ++ (vehicle_message, vehicle ∷ []) ∷ []
unfolding new_batch_router
waits = ap (λ bs. (vehicle_message, bs) ∷ []) added

runs_on : IsAlive one_call
unfolding new_batch_router new_table_batcher
runs_on = (refl, λ b e. cc)

add_may_panic_example : Panics one_call
add_may_panic_example =
    add_may_panic [] [] vehicle_message vehicle [] reached runs_on uncancelled waits

-- One packet was read and handed over, and another read.
abbrev two_packets : Ingesting
two_packets = record start_ingest {
  listener = putting (2 ∷ []);
  transformer = handling;
  read = (start_ingest.read ++ (1 ∷ []) ∷ []) ++ (2 ∷ []) ∷ [];
  taken = start_ingest.taken ++ (1 ∷ []) ∷ [];
}

datagram : (x : ℕ) → IsDatagram (x ∷ [])
datagram x = ((λ e. cc), ground arith)

came : Steps 3 start_ingest two_packets
unfolding start_ingest
came =
    then
      (then
        (then (then (then here (look refl refl)) (read_packet (1 ∷ []) refl (datagram 1)))
          (hand_over (1 ∷ []) refl refl refl))
        (look refl refl))
      (read_packet (2 ∷ []) refl (datagram 2))

packets_in_order_example :
    (two_packets.read ≡ two_packets.taken ++ (two_packets.packets ++ pending two_packets.listener))
    × (length two_packets.packets ≤ 3)
packets_in_order_example = packets_in_order came

listener_may_hang_example : Hangs 2 (3 ∷ [])
listener_may_hang_example =
    listener_may_hang ((1 ∷ []) ∷ (2 ∷ []) ∷ []) (3 ∷ []) (datagram 1, (datagram 2, tt))
      (datagram 3)
