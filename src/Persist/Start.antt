-- ===== src/Persist/Start.antt =====
-- formulatel/cmd/persist/main.go: when the service starts, and with which client identifier.
pub mod Asked
use formulatel.Common.{
  ◌⊎◌, ◌≤◌, ◌<◌, ◌≡◌, ◌≢◌, ◌↔◌, refl, sym, ap, ◌∙◌, inl, inr, true, false, none, some, [], ◌∷◌,
  ◌++◌, length, take, ltb, if◌then◌else◌, Bool-cases, Option-cases, arith,
}
use formulatel.Common.Int.{is_positive}
use formulatel.Text.{Text, text}
use formulatel.F123.Config.{is_empty}
use formulatel.Timescale.Config.{Config, validate}
use formulatel.Mqtt.{
  ClientOptions, generate_mqtt_v3_options, new_mqtt_v3_connection, default_mqtt_connect_timeout,
}
use formulatel.Persist.{
  Surroundings, panicked, subscribed, connection_string, client_id, persist_options, start_with,
  start_client, subscribe, main, sub_topic,
}

client_id_long : (id : Text) → 18 ≤ length id → client_id id ≡ some (text "ftel-p-" ++ take 18 id)
unfolding client_id
client_id_long id h = ground (arith, h)

client_id_short : (id : Text) → length id < 18 → client_id id ≡ none
unfolding client_id
client_id_short id h = ground (arith, h)

client_id_made : (id : Text) (c : Text) → client_id id ≡ some c → 18 ≤ length id
client_id_made id c e = elim (Bool-cases (ltb (length id) 18)) [
  | inl short ↦ absurd (grind (arith, client_id_short id (ground (arith, short)), e))
  | inr long ↦ ground (arith, long)
]

client_id_none : (id : Text) → client_id id ≡ none → length id < 18
client_id_none id e = elim (Bool-cases (ltb (length id) 18)) [
  | inl short ↦ ground (arith, short)
  | inr long ↦ absurd (grind (arith, client_id_long id (ground (arith, long)), e))
]

-- No client identifier is made, and the service panics, if and only if the configured or generated
-- identifier has fewer than 18 bytes. Those of two longer ones are equal if and only if the first 18
-- bytes of the two are.
pub client_id_lem :
    (id id2 : Text)
    → 18 ≤ length id2
    → ((client_id id ≡ none) ↔ (length id < 18))
      × (18 ≤ length id → (client_id id ≡ client_id id2) ↔ (take 18 id ≡ take 18 id2))
client_id_lem id id2 h = (
  (client_id_none id, client_id_short id),
  λ k.
      let one = client_id_long id k in
      let two = client_id_long id2 h in
      (λ e. cut (sym one ∙ e ∙ two), λ e. one ∙ ap (λ x. some (text "ftel-p-" ++ x)) e ∙ sym two),
)
  where
    cut : {a b : Text} → some (text "ftel-p-" ++ a) ≡ some (text "ftel-p-" ++ b) → a ≡ b
    cut e = cc

-- What `main` should hand to the client where it starts: the broker behind those that the library begins
-- with, the identifier cut to 25 bytes, no user, the order of messages not kept, and times in
-- milliseconds.
abbrev pub started_options : Surroundings → Config → Text → ClientOptions
started_options world cfg id = record {
  servers = world.new_client_options.servers ++ cfg.mqtt_broker ∷ [];
  client_id = text "ftel-p-" ++ take 18 id;
  username = world.new_client_options.username;
  password = world.new_client_options.password;
  order = false;
  connect_timeout = 5000;
  write_timeout = 5000;
  keep_alive = 10;
  ping_timeout = 1000;
  connect_retry = true;
  auto_reconnect = true;
  max_reconnect_interval = 10000;
}

abbrev pub identifier : Surroundings → Config → Text
identifier world cfg = if is_empty cfg.mqtt_client_id then world.uuid else cfg.mqtt_client_id

persist_options_long :
    (world : Surroundings) (cfg : Config)
    → 18 ≤ length (identifier world cfg)
    → persist_options world cfg ≡ some (started_options world cfg (identifier world cfg))
unfolding persist_options generate_mqtt_v3_options
persist_options_long world cfg h =
    rw (client_id_long (identifier world cfg) h, persist_options) refl

persist_options_short :
    (world : Surroundings) (cfg : Config)
    → length (identifier world cfg) < 18
    → persist_options world cfg ≡ none
unfolding persist_options
persist_options_short world cfg h =
    rw (client_id_short (identifier world cfg) h, persist_options) refl

start_with-client :
    (world : Surroundings) (cfg : Config)
    → validate cfg ≡ none
    → world.new_connection_pool (connection_string cfg) ≡ true
    → is_positive cfg.flush_interval ≡ true
    → start_with world (some cfg) ≡ start_client world cfg (persist_options world cfg)
unfolding start_with
start_with-client world cfg v p f = rw (v, start_with) (rw p (rw f refl))

start_with-no_ticker :
    (world : Surroundings) (cfg : Config)
    → validate cfg ≡ none
    → world.new_connection_pool (connection_string cfg) ≡ true
    → is_positive cfg.flush_interval ≡ false
    → start_with world (some cfg) ≡ panicked
unfolding start_with
start_with-no_ticker world cfg v p f = rw (v, start_with) (rw p (rw f refl))

-- The client is only started with a configuration that is valid, a database that is there, and tickers
-- that can be made.
start_with-panicked :
    (world : Surroundings) (cfg : Config)
    → start_with world (some cfg) ≡ panicked
    → (validate cfg ≡ none)
      × (world.new_connection_pool (connection_string cfg) ≡ true)
      × ((is_positive cfg.flush_interval ≡ false)
          ⊎ (start_client world cfg (persist_options world cfg) ≡ panicked))
unfolding start_with
start_with-panicked world cfg e = elim (Option-cases (validate cfg)) [
  | inr (x, v) ↦ absurd (grind (arith, v, e))
  | inl v ↦ elim (Bool-cases (world.new_connection_pool (connection_string cfg))) [
    | inr p ↦ absurd (grind (arith, v, p, e))
    | inl p ↦ elim (Bool-cases (is_positive cfg.flush_interval)) [
      | inr f ↦ (v, p, inl f)
      | inl f ↦ (v, p, inr (sym (start_with-client world cfg v p f) ∙ e))
    ]
  ]
]

start_client-connected :
    (world : Surroundings) (cfg : Config) (options : ClientOptions)
    → (world.connect options).in_time default_mqtt_connect_timeout ≡ true
    → (world.connect options).error ≡ none
    → start_client world cfg (some options)
      ≡ subscribed options sub_topic cfg.batch_size cfg.flush_interval
unfolding start_client new_mqtt_v3_connection subscribe
start_client-connected world cfg options t e = grind (arith, t, e)

start_client-none : (world : Surroundings) (cfg : Config) → start_client world cfg none ≡ panicked
unfolding start_client
start_client-none world cfg = refl

start_client-some :
    (world : Surroundings) (cfg : Config) (options : ClientOptions)
    → start_client world cfg (some options) ≢ panicked
unfolding start_client new_mqtt_v3_connection subscribe
start_client-some world cfg options e = ground (arith, e)

-- A valid configuration with a database: the start panics if and only if no ticker can be made or the
-- identifier is too short.
started-panicked :
    (world : Surroundings) (cfg : Config)
    → (is_positive cfg.flush_interval ≡ false)
      ⊎ (start_client world cfg (persist_options world cfg) ≡ panicked)
    → (is_positive cfg.flush_interval ≡ false) ⊎ (length (identifier world cfg) < 18)
started-panicked world cfg (inl f) = inl f
started-panicked world cfg (inr e) = elim (Bool-cases (ltb (length (identifier world cfg)) 18)) [
  | inl short ↦ inr (ground (arith, short))
  | inr long ↦ absurd (
      start_client-some world cfg (started_options world cfg (identifier world cfg)) (
        sym (ap (start_client world cfg) (persist_options_long world cfg (ground (arith, long))))
        ∙ e))
]

panicked-started :
    (world : Surroundings) (cfg : Config)
    → validate cfg ≡ none
    → world.new_connection_pool (connection_string cfg) ≡ true
    → (is_positive cfg.flush_interval ≡ false) ⊎ (length (identifier world cfg) < 18)
    → start_with world (some cfg) ≡ panicked
panicked-started world cfg v p (inl f) = start_with-no_ticker world cfg v p f
panicked-started world cfg v p (inr k) = elim (Bool-cases (is_positive cfg.flush_interval)) [
  | inr f ↦ start_with-no_ticker world cfg v p f
  | inl f ↦
      start_with-client world cfg v p f
      ∙ ap (start_client world cfg) (persist_options_short world cfg k)
      ∙ start_client-none world cfg
]

-- When the service panics and when it subscribes, in the code's own words.
pub main_cases :
    (world : Surroundings) (cfg : Config)
    → world.config ≡ some cfg
    → let id = identifier world cfg in
      let options = started_options world cfg id in
      let token = world.connect options in
      let database = world.new_connection_pool (connection_string cfg) in
      let ticks = is_positive cfg.flush_interval in
      ((main world ≡ panicked)
        ↔ ((validate cfg ≡ none) × (database ≡ true) × ((ticks ≡ false) ⊎ (length id < 18))))
      × (validate cfg ≡ none
          → database ≡ true
          → ticks ≡ true
          → 18 ≤ length id
          → token.in_time default_mqtt_connect_timeout ≡ true
          → token.error ≡ none
          → main world ≡ subscribed options sub_topic cfg.batch_size cfg.flush_interval)
unfolding main
main_cases world cfg c =
    let id = identifier world cfg in
    (
      (
        λ e.
            let read = start_with-panicked world cfg (sym (ap (start_with world) c) ∙ e) in
            (read.0, read.1, started-panicked world cfg read.2),
        λ h. ap (start_with world) c ∙ panicked-started world cfg h.0 h.1 h.2,
      ),
      λ v p f k t e.
          ap (start_with world) c
          ∙ start_with-client world cfg v p f
          ∙ ap (start_client world cfg) (persist_options_long world cfg k)
          ∙ start_client-connected world cfg (started_options world cfg id) t e,
    )
