-- ===== src/Replay/Rounds.antt =====
-- formulatel/cmd/replay/main.go: the packets are written round by round.
use formulatel.Common.Int.{ℤ, is_positive}
use formulatel.Common.{
  ℕ, zero, suc, ◌+◌, ◌*◌, ◌≡◌, refl, sym, ap, ◌∙◌, true, List, [], ◌∷◌, ◌++◌, length, replicate,
  arith,
}
use mathlib.Core.List.{append_assoc, append-nil}
use formulatel.Replay.{
  Signal, context_done, goes_on, Place, outer, inner, returned, Replayer, next_packet, replay_step,
  replay_loop, new_replayer, replay_packets, replaying,
}

-- The packets, n times.
unfoldable pub rounds : ℕ → List (List ℕ) → List (List ℕ)
rounds zero packets = []
rounds (suc n) packets = rounds n packets ++ packets

-- What is left of the round.
unfoldable pub left : Place → List (List ℕ)
left outer = []
left (inner rest) = rest
left (returned rest) = rest

-- What was written, and what is left of the round, are whole rounds.
abbrev pub InRounds : List (List ℕ) → Replayer → Type 0
InRounds packets r = (n : ℕ) × (r.written ++ left r.place ≡ rounds n packets)

next_packet-InRounds :
    (packets rest : List (List ℕ)) (r : Replayer) (n : ℕ)
    → r.written ++ rest ≡ rounds n packets
    → InRounds packets (next_packet rest r)
unfolding next_packet left
next_packet-InRounds packets [] r n e = (n, e)
next_packet-InRounds packets (p ∷ rest) r n e = (n, append_assoc r.written (p ∷ []) rest ∙ e)

replay_step-InRounds :
    (packets : List (List ℕ)) (place : Place) (s : Signal) (r : Replayer)
    → r.place ≡ place
    → InRounds packets r
    → InRounds packets (replay_step packets place s r)
unfolding replay_step left rounds
replay_step-InRounds packets outer context_done r e (n, h) =
    (n, ap (λ p. r.written ++ left p) (sym e) ∙ h)
replay_step-InRounds packets outer goes_on r e (n, h) =
    next_packet-InRounds packets packets r (suc n) (
      ap (λ x. x ++ packets)
        (sym (append-nil r.written) ∙ ap (λ p. r.written ++ left p) (sym e) ∙ h))
replay_step-InRounds packets (inner rest) context_done r e (n, h) =
    (n, ap (λ p. r.written ++ left p) (sym e) ∙ h)
replay_step-InRounds packets (inner rest) goes_on r e (n, h) =
    next_packet-InRounds packets rest r n (ap (λ p. r.written ++ left p) (sym e) ∙ h)
replay_step-InRounds packets (returned rest) s r e h = h

-- At any time, whatever the signals were, what was written and then what is left of the current
-- round are the packets in their order, a whole number of times.
pub replay_loop-InRounds :
    (packets : List (List ℕ)) (signals : List Signal) (r : Replayer)
    → InRounds packets r
    → InRounds packets (replay_loop packets signals r)
unfolding replay_loop
replay_loop-InRounds packets [] r h = h
replay_loop-InRounds packets (s ∷ signals) r h =
    replay_loop-InRounds packets signals _ (replay_step-InRounds packets r.place s r refl h)

replay_loop-append :
    (packets : List (List ℕ)) (ss ts : List Signal) (r : Replayer)
    → replay_loop packets (ss ++ ts) r ≡ replay_loop packets ts (replay_loop packets ss r)
unfolding replay_loop
replay_loop-append packets [] ts r = refl
replay_loop-append packets (s ∷ ss) ts r = replay_loop-append packets ss ts _

replicate-append : (m n : ℕ) (s : Signal) → replicate (m + n) s ≡ replicate m s ++ replicate n s
replicate-append zero n s = ap (λ k. replicate k s) (omega arith)
replicate-append (suc m) n s =
    let e : suc m + n ≡ suc (m + n) = omega arith in
    ap (λ k. replicate k s) e ∙ ap (λ xs. s ∷ xs) (replicate-append m n s)

returned_stays :
    (packets rest : List (List ℕ)) (signals : List Signal) (w : List (List ℕ))
    → replay_loop packets signals (record { written = w; place = returned rest })
      ≡ record { written = w; place = returned rest }
unfolding replay_loop replay_step
returned_stays packets rest [] w = refl
returned_stays packets rest (s ∷ signals) w = returned_stays packets rest signals w

-- The rest of a round: one signal behind each packet.
finish_round :
    (packets rest : List (List ℕ)) (w : List (List ℕ))
    → replay_loop packets
        (replicate (suc (length rest)) goes_on)
        (record { written = w; place = inner rest })
      ≡ record { written = w ++ rest; place = outer }
unfolding replay_loop replay_step next_packet
finish_round packets [] w = ap (λ x. record { written = x; place = outer }) (sym (append-nil w))
finish_round packets (p ∷ rest) w =
    finish_round packets rest (w ++ p ∷ [])
    ∙ ap (λ x. record { written = x; place = outer }) (append_assoc w (p ∷ []) rest)

module _ (p : List ℕ) (packets : List (List ℕ)) where
  abbrev pub round_signals : ℕ
  round_signals = suc (length (p ∷ packets))

  one_round :
      (w : List (List ℕ))
      → replay_loop
          (p ∷ packets)
          (replicate round_signals goes_on)
          (record { written = w; place = outer })
        ≡ record { written = w ++ p ∷ packets; place = outer }
  unfolding replay_loop replay_step next_packet
  one_round w =
      finish_round (p ∷ packets) packets (w ++ p ∷ [])
      ∙ ap (λ x. record { written = x; place = outer }) (append_assoc w (p ∷ []) packets)

  all_rounds :
      (n : ℕ)
      → replay_loop (p ∷ packets) (replicate (n * round_signals) goes_on) new_replayer
        ≡ record { written = rounds n (p ∷ packets); place = outer }
  unfolding replay_loop new_replayer rounds
  all_rounds zero =
      let none_left : 0 * round_signals ≡ 0 = omega arith in
      ap (λ k. replay_loop (p ∷ packets) (replicate k goes_on) new_replayer) none_left
  all_rounds (suc n) =
      let more : suc n * round_signals ≡ n * round_signals + round_signals = omega arith in
      ap (λ k. replay_loop (p ∷ packets) (replicate k goes_on) new_replayer) more
      ∙ ap (λ ss. replay_loop (p ∷ packets) ss new_replayer)
          (replicate-append (n * round_signals) round_signals goes_on)
      ∙ replay_loop-append (p ∷ packets) (replicate (n * round_signals) goes_on)
          (replicate round_signals goes_on) new_replayer
      ∙ ap (replay_loop (p ∷ packets) (replicate round_signals goes_on)) (all_rounds n)
      ∙ one_round (rounds n (p ∷ packets))

  -- With a positive delay, an open port and at least one packet, for every n: while the context goes
  -- on for n rounds, the packets are written n times, in their order; when the context ends then,
  -- nothing more is written, whatever comes later, and the function returns.
  pub replay_packets_lem :
      (delay : ℤ) (n : ℕ) (later : List Signal)
      → is_positive delay ≡ true
      → replay_packets delay true
          (p ∷ packets)
          (replicate (n * round_signals) goes_on ++ context_done ∷ later)
        ≡ replaying (record { written = rounds n (p ∷ packets); place = returned [] })
  unfolding replay_packets replay_loop replay_step
  replay_packets_lem delay n later positive =
      rw (positive, replay_packets)
        (ap replaying (
          replay_loop-append (p ∷ packets) (replicate (n * round_signals) goes_on)
            (context_done ∷ later) new_replayer
          ∙ ap (replay_loop (p ∷ packets) (context_done ∷ later)) (all_rounds n)
          ∙ returned_stays (p ∷ packets) [] later (rounds n (p ∷ packets))))
