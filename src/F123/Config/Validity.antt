-- ===== src/F123/Config/Validity.antt =====
-- Which configurations `Validate` accepts.
use formulatel.Common.{ℕ, ◌≡◌, ◌≢◌, ◌↔◌, refl, ◌⊎◌, inl, inr, true, none, [], ◌∷◌, ◌++◌, arith}
use formulatel.Common.Int.{ℤ, pos, negsuc}
use formulatel.Text.{Text, text}
use formulatel.F123.Config.{F123IngestConfig, has_prefix, validate}

has_prefix-append : (p s : Text) → has_prefix (p ++ s) p ≡ true
unfolding has_prefix
has_prefix-append [] s = refl
has_prefix-append (c ∷ p) s = ground (arith, has_prefix-append p s)

has_prefix-rest : (s p : Text) → has_prefix s p ≡ true → (rest : Text) × (s ≡ p ++ rest)
unfolding has_prefix
has_prefix-rest s [] h = (s, refl)
has_prefix-rest [] (p ∷ ps) h = cc
has_prefix-rest (c ∷ s) (p ∷ ps) h =
    let (rest, e) = has_prefix-rest s ps (ground arith) in (rest, ground (arith, h, e))

-- A text begins with another.
abbrev pub Begins : Text → Text → Type 0
Begins s p = (rest : Text) × (s ≡ p ++ rest)

pub has_prefix_iff : (s p : Text) → (has_prefix s p ≡ true) ↔ Begins s p
has_prefix_iff s p = (has_prefix-rest s p, λ h. rw h.1 (has_prefix-append p h.0))

-- What `Validate` asks for.
pub record IsAccepted (c : F123IngestConfig) : Type 0 where
  pub username : c.username ≢ []
  pub token : c.token ≢ []
  pub broker : c.mqtt_broker ≢ []
  pub tenant : (n : ℕ) × (c.tenant_id ≡ pos n)
  pub scheme :
      Begins c.mqtt_broker (text "tcp")
      ⊎ (Begins c.mqtt_broker (text "mqtt") ⊎ Begins c.mqtt_broker (text "ws"))

has_wss : (s : Text) → has_prefix s (text "wss") ≡ true → has_prefix s (text "ws") ≡ true
unfolding has_prefix
has_wss [] h = h
has_wss (a ∷ []) h = ground arith
has_wss (a ∷ b ∷ []) h = ground arith
has_wss (a ∷ b ∷ c ∷ s) h = ground arith

accepted_tenant :
    (c : F123IngestConfig) (z : ℤ)
    → c.tenant_id ≡ z
    → validate c ≡ none
    → (n : ℕ) × (c.tenant_id ≡ pos n)
unfolding validate
accepted_tenant c (pos n) e h = (n, e)
accepted_tenant c (negsuc n) e h = ground arith

accepted_scheme :
    (c : F123IngestConfig)
    → validate c ≡ none
    → (has_prefix c.mqtt_broker (text "tcp") ≡ true)
      ⊎ ((has_prefix c.mqtt_broker (text "mqtt") ≡ true)
          ⊎ (has_prefix c.mqtt_broker (text "ws") ≡ true))
unfolding validate
accepted_scheme c h = ground (arith, has_wss c.mqtt_broker)

accepted : (c : F123IngestConfig) → validate c ≡ none → IsAccepted c
unfolding validate
accepted c h = record {
  username = ground arith;
  token = ground arith;
  broker = ground arith;
  tenant = accepted_tenant c c.tenant_id refl h;
  scheme = elim (accepted_scheme c h) [
    | inl p ↦ inl ((has_prefix_iff c.mqtt_broker (text "tcp")).0 p)
    | inr (inl p) ↦ inr (inl ((has_prefix_iff c.mqtt_broker (text "mqtt")).0 p))
    | inr (inr p) ↦ inr (inr ((has_prefix_iff c.mqtt_broker (text "ws")).0 p))
  ];
}

passes :
    (c : F123IngestConfig) (n : ℕ)
    → c.username ≢ []
    → c.token ≢ []
    → c.mqtt_broker ≢ []
    → c.tenant_id ≡ pos n
    → (has_prefix c.mqtt_broker (text "tcp") ≡ true)
      ⊎ ((has_prefix c.mqtt_broker (text "mqtt") ≡ true)
          ⊎ (has_prefix c.mqtt_broker (text "ws") ≡ true))
    → validate c ≡ none
unfolding validate
passes c n u t b i p = ground arith

-- `Validate` accepts a configuration exactly when the user name, the token and the broker are not
-- empty, the tenant is not negative, and the broker begins with `tcp`, `mqtt` or `ws` (so `wss` is
-- accepted too).
pub validate_iff : (c : F123IngestConfig) → (validate c ≡ none) ↔ IsAccepted c
validate_iff c = (
  accepted c,
  λ a. passes c a.tenant.0 a.username a.token a.broker a.tenant.1 (elim a.scheme [
    | inl p ↦ inl ((has_prefix_iff c.mqtt_broker (text "tcp")).1 p)
    | inr (inl p) ↦ inr (inl ((has_prefix_iff c.mqtt_broker (text "mqtt")).1 p))
    | inr (inr p) ↦ inr (inr ((has_prefix_iff c.mqtt_broker (text "ws")).1 p))
  ]),
)
