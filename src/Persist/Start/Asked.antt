-- ===== src/Persist/Start/Asked.antt =====
-- formulatel/cmd/persist/main.go: when the service panics and when it subscribes, said of what its
-- configuration asks for, without the code's tests.
use formulatel.Common.{
  ◌⊎◌, ◌≤◌, ◌<◌, ◌≡◌, ◌≢◌, ◌↔◌, refl, sym, ap, subst, ◌∙◌, inl, inr, true, false, none, some, [],
  ◌∷◌, ◌++◌, length, if◌then◌else◌, arith,
}
use formulatel.Common.Int.{is_positive}
use formulatel.Text.{Text, text, decimal, first_given}
use formulatel.F123.Config.{is_empty}
use formulatel.Timescale.Config.{Config, validate}
use formulatel.Persist.{Surroundings, panicked, subscribed, connection_string, main, sub_topic}
use formulatel.Persist.Start.{identifier, started_options, main_cases}

-- A DSN, or all connection details.
abbrev pub IsUsable : Config → Type 0
IsUsable c =
    (c.timescale_dsn ≢ [])
    ⊎ ((c.db_user ≢ [])
        × (c.db_password ≢ [])
        × (c.db_host ≢ [])
        × (c.db_name ≢ [])
        × (c.db_port ≢ 0))

details_given : (c : Config) (dsn : Text) → c.timescale_dsn ≡ dsn → validate c ≡ none → IsUsable c
unfolding validate
details_given c [] e h = inr (ground arith, ground arith, ground arith, ground arith, ground arith)
details_given c (d ∷ ds) e h = inl (ground arith)

IsUsable-validate : (c : Config) → IsUsable c → validate c ≡ none
unfolding validate
IsUsable-validate c (inl h) = ground arith
IsUsable-validate c (inr (u, p, h, n, q)) = ground arith

-- The DSN, or the URL that the connection details make.
abbrev pub asked_string : Config → Text
asked_string c = first_given c.timescale_dsn (
    text "postgres://"
    ++ (c.db_user
        ++ b':'
          ∷ (c.db_password
              ++ b'@'
                ∷ (c.db_host
                    ++ b':'
                      ∷ (decimal c.db_port ++ b'/' ∷ (c.db_name ++ text "?sslmode=disable"))))))

given_lem :
    (first second : Text) → (if is_empty first then second else first) ≡ first_given first second
unfolding first_given
given_lem [] second = refl
given_lem (c ∷ cs) second = refl

connection_string_lem : (c : Config) → connection_string c ≡ asked_string c
unfolding connection_string
connection_string_lem c = given_lem c.timescale_dsn _

-- The configured identifier, or the generated one.
abbrev pub asked_id : Surroundings → Config → Text
asked_id world c = first_given c.mqtt_client_id world.uuid

-- With a configuration that `envconfig` accepts, the service panics if and only if the configuration
-- has a DSN or all of the connection details, the database takes the DSN, or the URL that the details
-- make where there is none, and the flush interval is not positive or the client identifier, or the
-- generated one where there is none, has fewer than 18 bytes. Where the DSN or the details are there, the
-- database takes them, the interval is positive, the identifier has at least 18 bytes, and the broker
-- answers in time and without an error, the service subscribes to the topics of all tenants, as a
-- client whose identifier is `ftel-p-` and the first 18 bytes, with the batch size and the flush interval
-- of the configuration.
pub main_lem :
    (world : Surroundings) (cfg : Config)
    → world.config ≡ some cfg
    → let id = asked_id world cfg in
      let options = started_options world cfg id in
      let token = world.connect options in
      let database = world.new_connection_pool (asked_string cfg) in
      let ticks = is_positive cfg.flush_interval in
      ((main world ≡ panicked)
        ↔ (IsUsable cfg × (database ≡ true) × ((ticks ≡ false) ⊎ (length id < 18))))
      × (IsUsable cfg
          → database ≡ true
          → ticks ≡ true
          → 18 ≤ length id
          → token.in_time 5000 ≡ true
          → token.error ≡ none
          → main world ≡ subscribed options sub_topic cfg.batch_size cfg.flush_interval)
main_lem world cfg c =
    let cases = main_cases world cfg c in
    let pool = ap world.new_connection_pool (connection_string_lem cfg) in
    let id : identifier world cfg ≡ asked_id world cfg = given_lem cfg.mqtt_client_id world.uuid in
    let options = ap (started_options world cfg) id in
    let ticks = is_positive cfg.flush_interval in
    (
      (
        λ e.
            let (valid, database, why) = cases.0.0 e in
            (
              details_given cfg cfg.timescale_dsn refl valid,
              sym pool ∙ database,
              subst (λ x. (ticks ≡ false) ⊎ (length x < 18)) id why,
            ),
        λ (usable, database, why). cases.0.1 (
          IsUsable-validate cfg usable,
          pool ∙ database,
          subst (λ x. (ticks ≡ false) ⊎ (length x < 18)) (sym id) why,
        ),
      ),
      λ usable database ticking long in_time no_error.
          cases.1 (IsUsable-validate cfg usable) (pool ∙ database) ticking
            (subst (λ x. 18 ≤ length x) (sym id) long)
            (ap (λ o. (world.connect o).in_time 5000) options ∙ in_time)
            (ap (λ o. (world.connect o).error) options ∙ no_error)
          ∙ ap (λ o. subscribed o sub_topic cfg.batch_size cfg.flush_interval) options,
    )
