-- ===== src/Ingest/Action/Start.antt =====
-- formulatel/cmd/ingest/main.go: when the command starts to publish, and with what.
use formulatel.Common.{
  ◌≡◌, ◌↔◌, refl, sym, ap, ◌∙◌, inl, inr, true, Option, none, some, List, Bool-cases, Option-cases,
  arith,
}
use formulatel.Common.Int.{ℤ}
use formulatel.Text.{Text}
use formulatel.F123.Config.{F123IngestConfig, validate}
use formulatel.F123.Config.Validity.{IsAccepted, validate_iff}
use formulatel.Mqtt.{ClientOptions, new_mqtt_v3_connection, default_mqtt_connect_timeout}
use formulatel.Ingest.{Flags, Resolved, resolve, channel_topics}
use formulatel.Ingest.LogLevel.{parse_log_level}
use formulatel.Ingest.Action.{
  Surroundings, started, client_options, start_publishers, with_level, with_environment, action,
}
use formulatel.Ingest.Action.Asked.{
  level_given, asked_config, asked_options, asked_topics, IsLevel, resolve_lem, client_options_lem,
  channel_topics_lem, parse-IsLevel, IsLevel-parse,
}

start_publishers-connected :
    (world : Surroundings) (r : Resolved) (level : ℤ) (o : ClientOptions)
    → (world.connect o).in_time default_mqtt_connect_timeout ≡ true
    → (world.connect o).error ≡ none
    → start_publishers r level (new_mqtt_v3_connection world.connect o)
      ≡ started level o (channel_topics r.config.username r.config.tenant_id)
unfolding start_publishers new_mqtt_v3_connection
start_publishers-connected world r level o t e = grind (arith, t, e)

with_level-some :
    (world : Surroundings) (r : Resolved) (level : ℤ)
    → validate r.config ≡ none
    → world.make_channel r.config.max_packets_buffered ≡ true
    → with_level world r (some level)
      ≡ start_publishers r level (new_mqtt_v3_connection world.connect (client_options world r))
unfolding with_level
with_level-some world r level v m = rw (v, with_level) (rw m refl)

started_inj :
    {l l2 : ℤ} {o o2 : ClientOptions} {ts ts2 : List Text}
    → started l o ts ≡ started l2 o2 ts2
    → (l ≡ l2) × (o ≡ o2) × (ts ≡ ts2)
started_inj e = (cc, cc, cc)

-- What a start tells.
abbrev HasStarted : Surroundings → Resolved → ℤ → ClientOptions → List Text → Type 0
HasStarted world r level o topics =
    ((world.connect o).in_time default_mqtt_connect_timeout ≡ true)
    × ((world.connect o).error ≡ none)
    × (o ≡ client_options world r)
    × (topics ≡ channel_topics r.config.username r.config.tenant_id)

module _ (world : Surroundings) (r : Resolved) (level : ℤ) (o : ClientOptions)
    (topics : List Text) where
  connected-HasStarted :
      (l : ℤ) (c : ClientOptions)
      → c ≡ client_options world r
      → start_publishers r l (new_mqtt_v3_connection world.connect c) ≡ started level o topics
      → (l ≡ level) × HasStarted world r level o topics
  unfolding start_publishers new_mqtt_v3_connection
  connected-HasStarted l c k e =
      elim (Bool-cases ((world.connect c).in_time default_mqtt_connect_timeout)) [
        | inr t ↦ absurd (grind (arith, t, e))
        | inl t ↦ elim (Option-cases (world.connect c).error) [
          | inr (x, f) ↦ absurd (grind (arith, t, f, e))
          | inl f ↦
              let same = started_inj (sym (start_publishers-connected world r l c t f) ∙ e) in
              (
                same.0,
                (
                  sym (ap (λ x. (world.connect x).in_time default_mqtt_connect_timeout) same.1) ∙ t,
                  sym (ap (λ x. (world.connect x).error) same.1) ∙ f,
                  sym same.1 ∙ k,
                  sym same.2,
                ),
              )
        ]
      ]

  level-HasStarted :
      (p : Option ℤ)
      → with_level world r p ≡ started level o topics
      → (p ≡ some level)
        × (validate r.config ≡ none)
        × (world.make_channel r.config.max_packets_buffered ≡ true)
        × HasStarted world r level o topics
  unfolding with_level
  level-HasStarted none e = cc
  level-HasStarted (some l) e = elim (Option-cases (validate r.config)) [
    | inr (x, v) ↦ absurd (grind (arith, v, e))
    | inl v ↦ elim (Bool-cases (world.make_channel r.config.max_packets_buffered)) [
      | inr m ↦ absurd (grind (arith, v, m, e))
      | inl m ↦
          let rest =
            connected-HasStarted l (client_options world r) refl
              (sym (with_level-some world r l v m) ∙ e) in
          (ap some rest.0, v, m, rest.1)
    ]
  ]

  HasStarted-level :
      validate r.config ≡ none
      → world.make_channel r.config.max_packets_buffered ≡ true
      → HasStarted world r level o topics
      → with_level world r (some level) ≡ started level o topics
  HasStarted-level v m (t, f, k, n) =
      with_level-some world r level v m
      ∙ ap (λ x. start_publishers r level (new_mqtt_v3_connection world.connect x)) (sym k)
      ∙ start_publishers-connected world r level o t f
      ∙ ap (started level o) (sym n)

with_port-level :
    (world : Surroundings) (flags : Flags) (env : F123IngestConfig)
    → world.environment ≡ some env
    → let r = resolve env flags in
      world.listen_packet r.config.udp_port ≡ true
      → with_level world r (parse_log_level world.level_behind r.config.log_level)
        ≡ action world flags
unfolding action with_environment
with_port-level world flags env h p = sym (ap (with_environment world flags) h ∙ rw p refl)

-- The code's own words for what a start needs.
started_iff :
    (world : Surroundings) (flags : Flags) (env : F123IngestConfig) (level : ℤ) (o : ClientOptions)
    (topics : List Text)
    → world.environment ≡ some env
    → let r = resolve env flags in
      (action world flags ≡ started level o topics) ↔ (
        (world.listen_packet r.config.udp_port ≡ true)
        × (parse_log_level world.level_behind r.config.log_level ≡ some level)
        × (validate r.config ≡ none)
        × (world.make_channel r.config.max_packets_buffered ≡ true)
        × HasStarted world r level o topics)
unfolding action with_environment
started_iff world flags env level o topics h =
    let r = resolve env flags in
    let parsed = parse_log_level world.level_behind r.config.log_level in
    (
      λ e. elim (Bool-cases (world.listen_packet r.config.udp_port)) [
        | inr p ↦ absurd (grind (arith, p, h, e))
        | inl p ↦
            let level_read =
              level-HasStarted world r level o topics parsed
                (with_port-level world flags env h p ∙ e) in
            (p, level_read.0, level_read.1, level_read.2, level_read.3)
      ],
      λ k.
          sym (with_port-level world flags env h k.0)
          ∙ ap (with_level world r) k.1
          ∙ HasStarted-level world r level o topics k.2 k.3 k.4,
    )

-- With an environment that `envconfig` accepts, the command starts to publish, at a level, with options
-- and topics, if and only if: the UDP port can be opened; the level is that of the flag, or of the
-- environment where the flag says `info`, as `slog` reads it, or that of `info` where the compiler reads
-- the variable before the call; the user and the broker, each of its flag or else of the environment,
-- and the tenant, that of its flag where that is not negative, are valid; the channel of packets can be
-- made; the options have the broker, the user, the given token as the password, a client identifier of
-- user and tenant, and the fixed times; the broker answers these in time and without an error; and
-- the topics are the five of the user and the tenant.
pub action_lem :
    (world : Surroundings) (flags : Flags) (env : F123IngestConfig) (level : ℤ) (o : ClientOptions)
    (topics : List Text)
    → world.environment ≡ some env
    → (action world flags ≡ started level o topics) ↔ (
        (world.listen_packet env.udp_port ≡ true)
        × IsLevel world.level_behind (level_given flags.verbosity env.log_level) level
        × IsAccepted (asked_config env flags)
        × (world.make_channel env.max_packets_buffered ≡ true)
        × ((world.connect o).in_time 5000 ≡ true)
        × ((world.connect o).error ≡ none)
        × (o ≡ asked_options env flags world.new_client_options)
        × (topics ≡ asked_topics env flags))
action_lem world flags env level o topics h =
    let code = started_iff world flags env level o topics h in
    let config = ap (λ r. r.config) (resolve_lem env flags) in
    let options = client_options_lem world env flags in
    let names = channel_topics_lem env flags in
    (
      λ e.
          let (port, parsed, valid, made, (in_time, no_error, os, ts)) = code.0 e in
          (
            sym (ap (λ c. world.listen_packet c.udp_port) config) ∙ port,
            parse-IsLevel world.level_behind _ level
                (sym (ap (λ c. parse_log_level world.level_behind c.log_level) config) ∙ parsed),
            (validate_iff (asked_config env flags)).0 (sym (ap validate config) ∙ valid),
            sym (ap (λ c. world.make_channel c.max_packets_buffered) config) ∙ made,
            in_time,
            no_error,
            os ∙ options,
            ts ∙ names,
          ),
      λ (port, parsed, valid, made, in_time, no_error, os, ts). code.1 (
        ap (λ c. world.listen_packet c.udp_port) config ∙ port,
        ap (λ c. parse_log_level world.level_behind c.log_level) config
            ∙ IsLevel-parse world.level_behind _ level parsed,
        ap validate config ∙ (validate_iff (asked_config env flags)).1 valid,
        ap (λ c. world.make_channel c.max_packets_buffered) config ∙ made,
        (in_time, no_error, os ∙ sym options, ts ∙ sym names),
      ),
    )
