-- ===== src/Pipeline/Routes.antt =====
-- Where what ingest sends ends up in persist: the channels of formulatel/f123/f123.go against the
-- batchers of formulatel/internal/timescale/batcher.go.
use formulatel.Common.{
  ℕ, ◌+◌, ◌-◌, ◌≡◌, ◌==◌, refl, sym, subst, inl, inr, false, Option, none, some, List, [], ◌∷◌,
  ◌++◌, All, get_elem?, ltb, leb, Bool-cases,
}
use formulatel.Telemetry.{GameTelemetry, Data, lap_times_data, wheel_data, HistoricLapData}
use formulatel.F123.Model.Header.{PacketHeader}
use formulatel.F123.Model.History.{SessionHistoryData}
use formulatel.F123.Transformer.{
  Environment, State, Go, Channel, Outcome, returned, panicked, new_state, game_telemetry,
  vehicle_data_channel, motion_data_channel, current_lap_data_channel, lap_times_data_channel,
  extended_wheel_data_channel, ◌>>=◌,
}
use formulatel.F123.Transformer.Normalize.{normalize_motion_ex_data}
use formulatel.F123.Transformer.Laws.{>>=-returned, >>=-panicked}
use formulatel.F123.Transformer.Consume.{consume}
use formulatel.F123.Transformer.Meaning.{
  Body, GamePacket, telemetry, motion, laps, history, wheels, unread, cut, meaning, meanings,
  send_entry, send_history,
}
use formulatel.F123.Transformer.Meaning.Packets.{arrive, AreGamePackets, consume-meanings}
use formulatel.F123.Transformer.Route.Cars.{sent_one}
use formulatel.F123.Transformer.Route.Histories.{recorded, stamped_laps}
use formulatel.Timescale.Router.{
  Batcher, vehicle, motion as motion_batcher, session_lap_data, live_lap_data, extended_wheel_data,
  add,
}
use formulatel.Timescale.Router.Routing.{add-eq-batcher_of}

-- The batcher of the table that the messages of the channel are for.
unfoldable pub batcher_for : Channel → Batcher
batcher_for vehicle_data_channel = vehicle
batcher_for motion_data_channel = motion_batcher
batcher_for current_lap_data_channel = live_lap_data
batcher_for lap_times_data_channel = session_lap_data
batcher_for extended_wheel_data_channel = extended_wheel_data

-- The router sends the message to that batcher, and to no other.
abbrev pub IsRouted : Channel × GameTelemetry → Type 0
IsRouted (c, m) = add m ≡ batcher_for c ∷ []

All-append {ℓ κ} :
    {A : Type ℓ} (P : A → Type κ) (xs ys : List A) → All P xs → All P ys → All P (xs ++ ys)
All-append P [] ys h k = k
All-append P (x ∷ xs) ys h k = (h.0, All-append P xs ys h.1 k)

sent_one-IsRouted :
    (env : Environment) (header : PacketHeader) (channel : Channel) (content : Data) (s : State)
    → ((time : ℕ) → IsRouted (channel, game_telemetry header time content))
    → All IsRouted s.sent
    → All IsRouted (sent_one env header channel content s).sent
sent_one-IsRouted env header channel content s to h =
    All-append IsRouted s.sent _ h (to (env.clock s.clock_reads), tt)

stamped_laps-IsRouted :
    (env : Environment) (header : PacketHeader) (reads : ℕ) (ls : List HistoricLapData)
    → All IsRouted (stamped_laps env header reads ls)
unfolding stamped_laps batcher_for
stamped_laps-IsRouted env header reads [] = tt
stamped_laps-IsRouted env header reads (lap ∷ ls) =
    (add-eq-batcher_of _ (lap_times_data lap) refl, stamped_laps-IsRouted env header (reads + 1) ls)

send_entry-IsRouted {ℓ} :
    {A : Type ℓ} (env : Environment) (header : PacketHeader) (channel : Channel) (f : A → Data)
    (o : Option A) (s : State)
    → ((a : A) (time : ℕ) → IsRouted (channel, game_telemetry header time (f a)))
    → All IsRouted s.sent
    → All IsRouted (send_entry env header channel f o s).1.sent
send_entry-IsRouted env header channel f none s to h = h
send_entry-IsRouted env header channel f (some a) s to h =
    sent_one-IsRouted env header channel (f a) s (to a) h

send_history-IsRouted :
    (env : Environment) (header : PacketHeader) (h : SessionHistoryData) (s : State)
    → All IsRouted s.sent
    → All IsRouted (send_history env header h s).1.sent
send_history-IsRouted env header h s v =
    elim (Bool-cases (ltb (recorded env header h s) (h.num_laps - 1))) [
      | inr stale ↦ rw stale v
      | inl fresh ↦ elim (Bool-cases (leb (h.num_laps - 1) 100)) [
        | inr long ↦ rw (fresh, long) v
        | inl fits ↦
            rw (fresh, fits)
              (All-append IsRouted s.sent _ v (stamped_laps-IsRouted env header s.clock_reads _))
      ]
    ]

meaning-IsRouted :
    (env : Environment) (header : PacketHeader) (body : Body) (s : State)
    → All IsRouted s.sent
    → All IsRouted (meaning env header body s).1.sent
unfolding meaning batcher_for
meaning-IsRouted env header (telemetry cars) s v =
    send_entry-IsRouted env header vehicle_data_channel _ (get_elem? cars header.player_car_index) s
      (λ a time. add-eq-batcher_of _ _ refl) v
meaning-IsRouted env header (motion cars) s v =
    send_entry-IsRouted env header motion_data_channel _ (get_elem? cars header.player_car_index) s
      (λ a time. add-eq-batcher_of _ _ refl) v
meaning-IsRouted env header (laps cars) s v =
    send_entry-IsRouted env header current_lap_data_channel _
      (get_elem? cars header.player_car_index) s (λ a time. add-eq-batcher_of _ _ refl) v
meaning-IsRouted env header (history h) s v =
    elim (Bool-cases (h.current_car_idx == header.player_car_index)) [
      | inl mine ↦ rw mine (send_history-IsRouted env header h s v)
      | inr other ↦ rw other v
    ]
meaning-IsRouted env header (wheels w) s v =
    send_entry-IsRouted env header extended_wheel_data_channel
      (λ x. wheel_data (normalize_motion_ex_data x)) (some w) s
      (λ a time. add-eq-batcher_of _ _ refl) v
meaning-IsRouted env header unread s v = v
meaning-IsRouted env header (cut bytes) s v = v

-- What a method and the one behind it keep, both together keep.
module _ {A B : Type 0} (P : State → Type 0) (m : Go A) (f : A → Go B) (s : State) where
  kept-cases :
      (o : Outcome A) (t : State)
      → m s ≡ (o, t)
      → P t
      → ((a : A) (u : State) → P u → P (f a u).1)
      → P ((m >>= f) s).1
  kept-cases (returned a) t e h k = subst (λ r. P r.1) (sym (>>=-returned m f e)) (k a t h)
  kept-cases (panicked p) t e h k = subst (λ r. P r.1) (sym (>>=-panicked m f e)) h

  pub kept : P (m s).1 → ((a : A) (u : State) → P u → P (f a u).1) → P ((m >>= f) s).1
  kept = kept-cases (m s).0 (m s).1 refl

abbrev AllRouted : State → Type 0
AllRouted s = All IsRouted s.sent

meanings-IsRouted :
    (env : Environment) (ps : List GamePacket) (s : State)
    → AllRouted s
    → AllRouted (meanings env ps s).1
unfolding meanings
meanings-IsRouted env [] s v = v
meanings-IsRouted env (p ∷ ps) s v =
    kept AllRouted (meaning env p.header p.body) (λ _. meanings env ps) s
      (meaning-IsRouted env p.header p.body s v) (λ _ u. meanings-IsRouted env ps u)

-- Without capture, whatever packets of the game `Consume` gets from its start, and however far it
-- comes with them: each message that it has sent is one that the router sends to exactly one
-- batcher, that of the table which the message's channel is for.
pub consume-IsRouted :
    (env : Environment)
    → (off : env.capture ≡ false) → (ps : List GamePacket) → AreGamePackets env off ps
    → All IsRouted (consume env (arrive env off ps []) new_state).1.sent
unfolding consume new_state
consume-IsRouted env off ps v =
    subst (λ r. AllRouted r.1) (sym (consume-meanings env off ps [] new_state v))
      (kept AllRouted (meanings env ps) (λ _. consume env []) new_state
        (meanings-IsRouted env ps new_state tt) (λ _ u h. h))
