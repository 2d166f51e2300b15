-- ===== src/Timescale/System/Lanes.antt =====
-- One lane at a time: what an update of a lane leaves of the others, and what each lane keeps.
use formulatel.Common.{
  ℕ, ◌≤◌, ◌<◌, ◌≡◌, refl, ap, sym, subst, ◌∙◌, inl, inr, Bool, true, false, List, [], ◌∷◌, ◌++◌,
  All, length, length-append, arith, Bool-cases,
}
use formulatel.Telemetry.{
  GameTelemetry, Data, nothing, vehicle_data, motion_data, current_lap_data, lap_times_data,
  wheel_data,
}
use formulatel.Timescale.Batcher.{Event, new_table_batcher, step, flusher_worker}
use formulatel.Timescale.Batcher.Run.{flusher_worker-snoc}
use formulatel.Timescale.Router.{
  Batcher, vehicle, motion, session_lap_data, live_lap_data, extended_wheel_data, table_of, add,
}
use formulatel.Timescale.Router.Routing.{RoutedEvent, add-eq-batcher_of}
use formulatel.Timescale.System.{Lane, same, update, handle, enqueue, capacity}

pub same_refl : (b : Batcher) → same b b ≡ true
unfolding same
same_refl vehicle = refl
same_refl motion = refl
same_refl session_lap_data = refl
same_refl live_lap_data = refl
same_refl extended_wheel_data = refl

pub same_eq : (b c : Batcher) → same b c ≡ true → b ≡ c
unfolding same
same_eq vehicle c h = ground arith
same_eq motion c h = ground arith
same_eq session_lap_data c h = ground arith
same_eq live_lap_data c h = ground arith
same_eq extended_wheel_data c h = ground arith

-- What holds of the new lane, and of the other ones, holds of all of them.
pub update-cases :
    (P : Batcher → Lane → Type 0) (b : Batcher) (lane : Lane) (lanes : Batcher → Lane)
    → P b lane
    → ((c : Batcher) → same b c ≡ false → P c (lanes c))
    → (c : Batcher) → P c (update b lane lanes c)
unfolding update
update-cases P b lane lanes h k c = elim (Bool-cases (same b c)) [
  | inl e ↦ rw e (subst (λ d. P d lane) (same_eq b c e) h)
  | inr e ↦ rw e (k c e)
]

add-single :
    (msg : GameTelemetry) (d : Data) (b : Batcher) (bs : List Batcher)
    → msg.content ≡ d
    → add msg ≡ b ∷ bs
    → bs ≡ []
add-single msg nothing b bs e h = ground (arith, add-eq-batcher_of msg nothing e, h)
add-single msg (vehicle_data x) b bs e h =
    ground (arith, add-eq-batcher_of msg (vehicle_data x) e, h)
add-single msg (motion_data x) b bs e h = ground (arith, add-eq-batcher_of msg (motion_data x) e, h)
add-single msg (current_lap_data x) b bs e h =
    ground (arith, add-eq-batcher_of msg (current_lap_data x) e, h)
add-single msg (lap_times_data x) b bs e h =
    ground (arith, add-eq-batcher_of msg (lap_times_data x) e, h)
add-single msg (wheel_data x) b bs e h = ground (arith, add-eq-batcher_of msg (wheel_data x) e, h)

-- No message goes to more than one batcher.
pub add_once : (msg : GameTelemetry) (b : Batcher) (bs : List Batcher) → add msg ≡ b ∷ bs → bs ≡ []
add_once msg b bs h = add-single msg msg.content b bs refl h

pub All-snoc {ℓ κ} :
    {A : Type ℓ} (P : A → Type κ) (xs : List A) (x : A) → All P xs → P x → All P (xs ++ x ∷ [])
All-snoc P [] x h p = (p, tt)
All-snoc P (y ∷ xs) x h p = (h.0, All-snoc P xs x h.1 p)

-- A lane of the batcher `b`: its channel is not overfull and holds messages for `b`, its worker is
-- where its events have brought it; before the cancellation these are messages for `b` and ticks, and
-- the channel is open.
pub record IsLane (n : ℕ) (cancelled : Bool) (b : Batcher) (lane : Lane) : Type 0 where
  pub bounded : length lane.queue ≤ capacity
  pub queued : All (λ msg. add msg ≡ b ∷ []) lane.queue
  pub ran : lane.worker ≡ flusher_worker (new_table_batcher (table_of b) n) lane.seen
  pub routed : cancelled ≡ false → All (RoutedEvent b) lane.seen
  pub open_yet : cancelled ≡ false → lane.closed ≡ false

module _ {n : ℕ} {cancelled : Bool} {b : Batcher} {lane : Lane}
    (v : IsLane n cancelled b lane) where
  pub enqueue-IsLane :
      (msg : GameTelemetry)
      → add msg ≡ b ∷ []
      → length lane.queue < capacity
      → IsLane n cancelled b (enqueue msg lane)
  enqueue-IsLane msg to room = record {
    bounded = omega (arith, length-append lane.queue (msg ∷ []));
    queued = All-snoc (λ m. add m ≡ b ∷ []) lane.queue msg v.queued to;
    ran = v.ran;
    routed = v.routed;
    open_yet = v.open_yet;
  }

  pub handle-IsLane :
      (e : Event) → (cancelled ≡ false → RoutedEvent b e) → IsLane n cancelled b (handle e lane)
  handle-IsLane e r = record {
    bounded = v.bounded;
    queued = v.queued;
    ran =
        ap (λ w. step w e) v.ran
        ∙ sym (flusher_worker-snoc (new_table_batcher (table_of b) n) lane.seen e);
    routed = λ h. All-snoc (RoutedEvent b) lane.seen e (v.routed h) (r h);
    open_yet = v.open_yet;
  }

  pub rest-IsLane :
      (msg : GameTelemetry) (rest : List GameTelemetry)
      → lane.queue ≡ msg ∷ rest
      → (add msg ≡ b ∷ []) × IsLane n cancelled b (record lane { queue = rest })
  rest-IsLane msg rest e =
      let both : All (λ m. add m ≡ b ∷ []) (msg ∷ rest) =
        subst (All (λ m. add m ≡ b ∷ [])) e v.queued in
      (
        both.0,
        record {
          bounded = omega (arith, v.bounded, ap length e);
          queued = both.1;
          ran = v.ran;
          routed = v.routed;
          open_yet = v.open_yet;
        },
      )

-- After the cancellation nothing is asked of the events or of the channel.
pub IsLane-cancelled :
    {n : ℕ} {cancelled : Bool} {b : Batcher} {lane : Lane}
    → IsLane n cancelled b lane
    → IsLane n true b lane
IsLane-cancelled v = record {
  bounded = v.bounded;
  queued = v.queued;
  ran = v.ran;
  routed = λ h. cc;
  open_yet = λ h. cc;
}

pub closed-IsLane :
    {n : ℕ} {cancelled : Bool} {b : Batcher} {lane : Lane}
    → IsLane n cancelled b lane
    → cancelled ≡ true
    → IsLane n cancelled b (record lane { closed = true })
closed-IsLane v c = record {
  bounded = v.bounded;
  queued = v.queued;
  ran = v.ran;
  routed = v.routed;
  open_yet = λ h. cc;
}
