-- ===== src/Timescale/System/Invariant/Reached.antt =====
-- The shutdown keeps what holds in every state of the router, so it holds in all that it can come to.
use formulatel.Common.{ℕ, ◌≡◌, refl, inl, inr, true, List, arith, Bool-cases}
use formulatel.Timescale.Batcher.{tick, context_done, channel_closed}
use formulatel.Timescale.Router.{Batcher}
use formulatel.Timescale.System.{
  Lane, System, update, Step, call_add, send, send_closed, take, tick_round, see_done, see_closed,
  cancel, close, Reach, start, later,
}
use formulatel.Timescale.System.Counts.{handled}
use formulatel.Timescale.System.Lanes.{update-cases, IsLane, IsLane-cancelled, closed-IsLane}
use formulatel.Timescale.System.Invariant.{Counted, IsSystem, start-IsSystem}
use formulatel.Timescale.System.Invariant.Steps.{
  round-IsSystem, send-IsSystem, take-IsSystem, add-IsSystem,
}

-- A closed channel tells that the context is cancelled.
closed_cancelled :
    {n : ℕ} {s : System}
    → IsSystem n s
    → (b : Batcher) → (s.lanes b).closed ≡ true
    → s.cancelled ≡ true
closed_cancelled {s = s} v b c = elim (Bool-cases s.cancelled) [
  | inl e ↦ e
  | inr e ↦ absurd (grind (arith, (v.lane b).open_yet e, c))
]

close-IsSystem :
    {n : ℕ} {s : System}
    → IsSystem n s
    → (b : Batcher) (bs : List Batcher) → s.cancelled ≡ true
    → IsSystem n
        (record s { closing = bs; lanes = update b (record (s.lanes b) { closed = true }) s.lanes })
close-IsSystem {n} {s} v b bs c =
    let lane = record (s.lanes b) { closed = true } in
    record {
      lane =
          update-cases (λ d (x : Lane). IsLane n s.cancelled d x) b lane s.lanes
            (closed-IsLane (v.lane b) c) (λ d _. v.lane d);
      sending = v.sending;
      counted = λ f.
          update-cases (Counted f s.added s.goroutines) b lane s.lanes (v.counted f b)
            (λ d _. v.counted f d);
      calm = v.calm;
      unclosed = λ h. cc;
    }

Step-IsSystem : {n : ℕ} {s t : System} → IsSystem n s → Step s t → IsSystem n t
unfolding handled
Step-IsSystem v (call_add msg) = add-IsSystem v msg
Step-IsSystem v (send before after msg b bs e _ room) = send-IsSystem v before after msg b bs e room
Step-IsSystem {s = s} v (send_closed before after msg b bs e c) = record {
  lane = v.lane;
  sending = v.sending;
  counted = v.counted;
  calm = λ _. closed_cancelled v b c;
  unclosed = v.unclosed;
}
Step-IsSystem v (take b msg rest e _) = take-IsSystem v b msg rest e
Step-IsSystem v (tick_round b _) = round-IsSystem v b tick (λ _. tt) (λ f. refl)
Step-IsSystem v (see_done b c _) = round-IsSystem v b context_done (λ h. cc) (λ f. refl)
Step-IsSystem v (see_closed b c _ _) =
    let cancelled = closed_cancelled v b c in
    round-IsSystem v b channel_closed (λ h. cc) (λ f. refl)
Step-IsSystem v cancel = record {
  lane = λ b. IsLane-cancelled (v.lane b);
  sending = v.sending;
  counted = v.counted;
  calm = λ _. refl;
  unclosed = λ h. cc;
}
Step-IsSystem v (close b bs c e) = close-IsSystem v b bs c

pub Reach-IsSystem : {n : ℕ} {s : System} → Reach n s → IsSystem n s
Reach-IsSystem {n} start = start-IsSystem n
Reach-IsSystem (later r _ t) = Step-IsSystem (Reach-IsSystem r) t
