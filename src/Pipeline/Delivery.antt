-- ===== src/Pipeline/Delivery.antt =====
-- The way of the messages from `Consume` (formulatel/f123/f123.go) over the publisher of their channel
-- (formulatel/cmd/ingest/mqtt_v3.go) to the calls of `Add` (formulatel/cmd/persist/main.go).
use formulatel.Common.{
  ◌≡◌, refl, sym, ap, subst, ◌∙◌, inl, inr, Bool, true, false, Option, List, [], ◌∷◌, ◌++◌, All,
  if◌then◌else◌, Bool-cases, arith,
}
use mathlib.Core.List.{Perm}
use formulatel.Text.{Text}
use formulatel.Telemetry.{GameTelemetry}
use formulatel.F123.Transformer.{
  Environment, State, Go, Channel, new_state, pure, vehicle_data_channel, motion_data_channel,
  current_lap_data_channel, lap_times_data_channel, extended_wheel_data_channel, ◌>>=◌,
}
use formulatel.F123.Transformer.Consume.{consume, waiting}
use formulatel.F123.Transformer.Meaning.{GamePacket, meanings}
use formulatel.F123.Transformer.Meaning.Packets.{arrive, AreGamePackets, consume-meanings}
use formulatel.Timescale.Router.{add}
use formulatel.Ingest.Publisher.{PublisherEvent, new_publisher, run_mqtt_v3_publisher}
use formulatel.Ingest.Publisher.Order.{taken}
use formulatel.Persist.{receive}
use formulatel.Persist.Receive.{
  payloads, RoundTrips, marshalled, marshalled-All, received_lem, receive-append,
}
use formulatel.Pipeline.Routes.{batcher_for, IsRouted, consume-IsRouted, kept}

unfoldable pub same_channel : Channel → Channel → Bool
same_channel vehicle_data_channel vehicle_data_channel = true
same_channel motion_data_channel motion_data_channel = true
same_channel current_lap_data_channel current_lap_data_channel = true
same_channel lap_times_data_channel lap_times_data_channel = true
same_channel extended_wheel_data_channel extended_wheel_data_channel = true
same_channel _ _ = false

same_channel_eq : (c d : Channel) → same_channel c d ≡ true → c ≡ d
unfolding same_channel
same_channel_eq vehicle_data_channel d h = ground arith
same_channel_eq motion_data_channel d h = ground arith
same_channel_eq current_lap_data_channel d h = ground arith
same_channel_eq lap_times_data_channel d h = ground arith
same_channel_eq extended_wheel_data_channel d h = ground arith

-- What comes out of a channel.
unfoldable pub on_channel : Channel → List (Channel × GameTelemetry) → List GameTelemetry
unfolding same_channel
on_channel c [] = []
on_channel c ((d, m) ∷ sent) =
    let rest = on_channel c sent in if same_channel c d then m ∷ rest else rest

-- The messages that the router sends to the batcher of this channel, and to no other.
abbrev pub AllRoutedTo : Channel → List GameTelemetry → Type 0
AllRoutedTo c = All (λ m. add m ≡ batcher_for c ∷ [])

on_channel-AllRoutedTo :
    (c : Channel) (sent : List (Channel × GameTelemetry))
    → All IsRouted sent
    → AllRoutedTo c (on_channel c sent)
unfolding on_channel
on_channel-AllRoutedTo c [] v = tt
on_channel-AllRoutedTo c ((d, m) ∷ sent) v = elim (Bool-cases (same_channel c d)) [
  | inl e ↦ rw e (
    v.0 ∙ ap (λ x. batcher_for x ∷ []) (sym (same_channel_eq c d e)),
    on_channel-AllRoutedTo c sent v.1,
  )
  | inr e ↦ rw e (on_channel-AllRoutedTo c sent v.1)
]

same_state : (m : Go (Unit {0})) (s : State) → ((m >>= λ _. pure waiting) s).1 ≡ (m s).1
same_state m s = kept (λ t. t ≡ (m s).1) m (λ _. pure waiting) s refl (λ _ u h. h)

-- Without capture, for any packets of the game, any of the five channels, and a marshaller whose texts
-- are unmarshalled to the same message: where the publisher of the channel has taken what `Consume`
-- sent on it, and the broker delivers some of the published payloads in any order, each at most once, and
-- loses the others: the messages that persist adds, and those that the lost payloads hold, are together
-- the messages that the packets mean for this channel, each once, less those that cannot be
-- marshalled. The router sends each of these to one batcher, that of the table of the channel.
pub delivered_lem :
    (env : Environment) (off : env.capture ≡ false) (ps : List GamePacket)
    (marshal : GameTelemetry → Option Text) (unmarshal : Text → Option GameTelemetry) (topic : Text)
    (c : Channel) (events : List PublisherEvent) (delivered lost : List Text)
    → AreGamePackets env off ps
    → RoundTrips marshal unmarshal
    → taken marshal events ≡ on_channel c (consume env (arrive env off ps []) new_state).1.sent
    → Perm
        (delivered ++ lost)
        (payloads (run_mqtt_v3_publisher marshal topic events new_publisher).published)
    → let meant = marshalled marshal (on_channel c (meanings env ps new_state).1.sent) in
      Perm (receive unmarshal delivered ++ receive unmarshal lost) meant × AllRoutedTo c meant
unfolding consume
delivered_lem env off ps marshal unmarshal topic c events delivered lost v rt took p =
    let state : (consume env (arrive env off ps []) new_state).1 ≡ (meanings env ps new_state).1 =
      ap (λ r. r.1) (consume-meanings env off ps [] new_state v)
      ∙ same_state (meanings env ps) new_state in
    let all_taken = took ∙ ap (λ t. on_channel c t.sent) state in
    (
      subst (λ x. Perm x (marshalled marshal (on_channel c (meanings env ps new_state).1.sent)))
          (receive-append unmarshal delivered lost)
          (subst (λ ms. Perm (receive unmarshal (delivered ++ lost)) (marshalled marshal ms))
            all_taken (received_lem marshal unmarshal rt topic events (delivered ++ lost) p).0),
      marshalled-All (λ m. add m ≡ batcher_for c ∷ []) marshal
          (on_channel c (meanings env ps new_state).1.sent)
          (subst (λ t. AllRoutedTo c (on_channel c t.sent)) state
            (on_channel-AllRoutedTo c _ (consume-IsRouted env off ps v))),
    )
