-- ===== src/Mqtt/Filters.antt =====
-- What the programs rely on of the topic filters of the MQTT broker.
use formulatel.Common.{◌≡◌, ◌≢◌, Bool, true, [], ◌∷◌, ◌++◌, ◌&&◌, bytes_eq}
use formulatel.Text.{Text, text}
use formulatel.Text.Decimal.{Avoids}

-- The text does not begin with a `$`, which would make the topic special to the broker.
abbrev pub IsPlain : Text → Type 0
IsPlain [] = Unit {0}
IsPlain (c ∷ _) = c ≢ b'$'

-- A level of a filter that stands for itself.
pub record IsLiteral (level : Text) : Type 0 where
  pub plain : IsPlain level
  pub no_slash : Avoids b'/' level
  pub no_wildcard : level ≢ text "+"
  pub no_wildcards : level ≢ text "#"

-- Section 4.7 of the MQTT standard, as far as the filters of the programs use it: a literal level
-- matches an equal one, `+` any level, a final `#` all levels that are left, and a shared
-- subscription matches as its filter does.
pub record TopicFilters : Type 0 where
  pub matches : Text → Text → Bool
  pub literal :
      (level filter level2 topic : Text)
      → IsLiteral level
      → Avoids b'/' level2
      → IsPlain filter
      → IsPlain topic
      → matches (level ++ b'/' ∷ filter) (level2 ++ b'/' ∷ topic)
        ≡ (bytes_eq level level2 && matches filter topic)
  pub any_level :
      (filter level topic : Text)
      → Avoids b'/' level
      → IsPlain level
      → IsPlain filter
      → IsPlain topic
      → matches (b'+' ∷ b'/' ∷ filter) (level ++ b'/' ∷ topic) ≡ matches filter topic
  pub any_levels : (topic : Text) → IsPlain topic → matches (text "#") topic ≡ true
  pub shared :
      (group filter topic : Text)
      → Avoids b'/' group
      → IsPlain filter
      → matches (text "$share/" ++ (group ++ b'/' ∷ filter)) topic ≡ matches filter topic
