-- ===== src/Persist/Stored.antt =====
-- From the payloads that the handler of formulatel/cmd/persist/main.go gets to the batches of
-- formulatel/internal/timescale/batcher.go.
use formulatel.Common.{
  ◌∙◌, ap, ℕ, ◌<◌, ◌≡◌, refl, sym, subst, false, Option, List, [], ◌∷◌, ◌++◌, All,
}
use mathlib.Core.List.{append_assoc, append-nil}
use formulatel.Text.{Text}
use formulatel.Telemetry.{GameTelemetry}
use formulatel.Timescale.System.{
  System, new_batch_router, Reach, start, later, Leads, Leads-trans, here, next, call_add,
}
use formulatel.Timescale.System.Counts.{called}
use formulatel.Timescale.System.Lanes.{All-snoc}
use formulatel.Timescale.System.Settling.{router_settles}
use formulatel.Timescale.System.Settling.Running.{CompleteMessage, still-IsAlive}
use formulatel.Timescale.System.Settling.Flushing.{Settled}
use formulatel.Persist.{receive}

-- A state of the router before its cancellation, in which `Add` was called with these messages.
record Called (from : System) (n : ℕ) (messages : List GameTelemetry) : Type 0 where
  state : System
  led : Leads from state
  reached : Reach n state
  uncancelled : state.cancelled ≡ false
  calls : state.added ≡ messages
  complete : All CompleteMessage state.added

call_all :
    {from : System} {n : ℕ} (ms : List GameTelemetry) (s : System)
    → 0 < n
    → Leads from s
    → Reach n s
    → s.cancelled ≡ false
    → All CompleteMessage s.added
    → All CompleteMessage ms
    → Called from n (s.added ++ ms)
call_all [] s pos l r c v h = record {
  state = s;
  led = l;
  reached = r;
  uncancelled = c;
  calls = sym (append-nil s.added);
  complete = v;
}
call_all {from} {n} (m ∷ ms) s pos l r c v h =
    let alive = still-IsAlive r c pos v in
    subst (Called from n) (append_assoc s.added (m ∷ []) ms) (
      call_all ms _ pos (next l alive (call_add m)) (later r alive (call_add m)) c
        (All-snoc CompleteMessage s.added m v h.0) h.1)

-- With a positive batch size, for any payloads whose messages hold the pointers that their rows need:
-- from the start of the router, the calls of the handler can lead to a state, before any
-- cancellation, in which each worker has taken the messages of the payloads that are for it, each as
-- often as it came, and has handed on their rows in batches, and nothing is left on the way.
pub payloads_settle :
    (n : ℕ) (unmarshal : Text → Option GameTelemetry) (payloads : List Text)
    → 0 < n
    → All CompleteMessage (receive unmarshal payloads)
    → Settled (new_batch_router n) (receive unmarshal payloads)
unfolding new_batch_router
payloads_settle n unmarshal payloads pos h =
    let all = call_all (receive unmarshal payloads) (new_batch_router n) pos here start refl tt h in
    let end = router_settles pos all.reached all.uncancelled all.complete in
    record {
      state = end.state;
      reached = Leads-trans all.led end.reached;
      uncancelled = end.uncancelled;
      same_calls = end.same_calls ∙ all.calls;
      sent = end.sent;
      emptied = end.emptied;
      taken = λ f b. end.taken f b ∙ ap (called f b) all.calls;
      rows = end.rows;
    }
