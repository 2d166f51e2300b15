-- ===== src/Ingest/Goroutines/Flow.antt =====
-- Each packet that the listener reads comes to the transformer once, and in order.
use formulatel.Common.{
  ℕ, ◌≤◌, ◌≡◌, refl, sym, ap, ◌∙◌, List, [], ◌∷◌, ◌++◌, length, length-append, arith,
}
use mathlib.Core.List.{append_assoc, append-nil}
use formulatel.Ingest.Goroutines.{
  Listening, putting, Ingesting, start_ingest, Step, look, read_nothing, read_packet, put_packet,
  hand_over, listener_done, listener_fails, take_packet, handled, panicked, transformer_done,
  signal, Steps, here, later,
}

-- The packet that the listener waits with.
unfoldable pub pending : Listening → List (List ℕ)
pending (putting packet) = packet ∷ []
pending _ = []

pub record IsFlow (n : ℕ) (s : Ingesting) : Type 0 where
  pub bounded : length s.packets ≤ n
  pub ordered : s.read ≡ s.taken ++ (s.packets ++ pending s.listener)

-- The listener's place is all that matters of it here.
place :
    {n : ℕ} {s : Ingesting}
    → IsFlow n s
    → {p : Listening} → s.listener ≡ p
    → s.read ≡ s.taken ++ (s.packets ++ pending p)
place {s = s} v e = v.ordered ∙ ap (λ p. s.taken ++ (s.packets ++ pending p)) e

Step-IsFlow : {n : ℕ} {s t : Ingesting} → IsFlow n s → Step n s t → IsFlow n t
unfolding pending
Step-IsFlow v (look e _) = record { bounded = v.bounded; ordered = place v e }
Step-IsFlow v (read_nothing e) = record { bounded = v.bounded; ordered = place v e }
Step-IsFlow {s = s} v (read_packet packet e _) = record {
  bounded = v.bounded;
  ordered = ap (λ x. x ++ packet ∷ []) (place v e) ∙ rw (append-nil, append_assoc);
}
Step-IsFlow {s = s} v (put_packet packet e room) = record {
  bounded = omega (arith, length-append s.packets (packet ∷ []));
  ordered = place v e ∙ ap (λ x. s.taken ++ x) (sym (append-nil (s.packets ++ packet ∷ [])));
}
Step-IsFlow {s = s} v (hand_over packet e none _) = record {
  bounded = v.bounded;
  ordered =
      place v e
      ∙ ap (λ x. s.taken ++ (x ++ packet ∷ [])) none
      ∙ sym (append-nil (s.taken ++ packet ∷ []))
      ∙ ap (λ x. (s.taken ++ packet ∷ []) ++ (x ++ [])) (sym none);
}
Step-IsFlow v (listener_done e _) = record { bounded = v.bounded; ordered = place v e }
Step-IsFlow v (listener_fails e) = record { bounded = v.bounded; ordered = place v e }
Step-IsFlow {s = s} v (take_packet packet rest e _) = record {
  bounded = omega (arith, v.bounded, ap length e);
  ordered =
      v.ordered
      ∙ ap (λ x. s.taken ++ (x ++ pending s.listener)) e
      ∙ sym (append_assoc s.taken (packet ∷ []) (rest ++ pending s.listener));
}
Step-IsFlow v (handled _) = record { bounded = v.bounded; ordered = v.ordered }
Step-IsFlow v (panicked _) = record { bounded = v.bounded; ordered = v.ordered }
Step-IsFlow v (transformer_done _ _) = record { bounded = v.bounded; ordered = v.ordered }
Step-IsFlow v signal = record { bounded = v.bounded; ordered = v.ordered }

start-IsFlow : (n : ℕ) → IsFlow n start_ingest
unfolding start_ingest pending
start-IsFlow n = record { bounded = omega arith; ordered = refl }

Steps-IsFlow : {n : ℕ} {s t : Ingesting} → IsFlow n s → Steps n s t → IsFlow n t
Steps-IsFlow v here = v
Steps-IsFlow v (later r t) = Step-IsFlow (Steps-IsFlow v r) t

-- In every state that the listener and the transformer can come to, in whatever order they take
-- their steps, the packets that were read are those that the transformer took, then those in the
-- channel, then the one that the listener waits with, in the order in which they were read; and the
-- channel holds at most its capacity.
pub packets_in_order :
    {n : ℕ} {s : Ingesting}
    → Steps n start_ingest s
    → (s.read ≡ s.taken ++ (s.packets ++ pending s.listener)) × (length s.packets ≤ n)
packets_in_order {n} r = let v = Steps-IsFlow (start-IsFlow n) r in (v.ordered, v.bounded)
