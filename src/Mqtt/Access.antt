-- ===== src/Mqtt/Access.antt =====
-- The topics of formulatel/cmd/ingest/main.go against the access lists of
-- formulatel/cmd/admin/tenants.go and the subscription of formulatel/cmd/persist/main.go.
use formulatel.Common.{
  ℕ, ◌≡◌, ◌≢◌, refl, sym, ap, subst, ◌∙◌, inl, inr, Bool, true, false, ◌&&◌, ◌==◌, [], ◌∷◌, ◌++◌,
  bytes_eq, bytes_eq→eq, bytes_eq_refl, Bool-cases, arith,
}
use formulatel.Common.Int.{ℤ, pos, negsuc}
use formulatel.Text.{Text, text, decimal}
use formulatel.Text.Decimal.{Avoids, decimal-Avoids, decimal_injective}
use formulatel.Ingest.{decimal_int, prefix_topic}
use formulatel.Admin.{user_acl, tenant_acl}
use formulatel.Persist.{sub_topic}
use formulatel.Mqtt.Filters.{IsPlain, IsLiteral, TopicFilters}

IsPlain-append : (xs ys : Text) → Avoids b'$' xs → IsPlain ys → IsPlain (xs ++ ys)
IsPlain-append [] ys h k = k
IsPlain-append (x ∷ xs) ys h k = h.0

decimal-IsPlain : (n : ℕ) → IsPlain (decimal n)
decimal-IsPlain n = first_plain (decimal n) (decimal-Avoids b'$' n (omega arith))
  where
    first_plain : (xs : Text) → Avoids b'$' xs → IsPlain xs
    first_plain [] h = tt
    first_plain (x ∷ xs) h = h.0

bytes_eq-decimal : (a b : ℕ) → bytes_eq (decimal a) (decimal b) ≡ (a == b)
bytes_eq-decimal a b = elim (Bool-cases (bytes_eq (decimal a) (decimal b))) [
  | inl e ↦
      let same = decimal_injective a b (bytes_eq→eq (decimal a) (decimal b) e) in
      ground (arith, e, same)
  | inr e ↦ elim (Bool-cases (a == b)) [
    | inl f ↦ absurd (differ a b e (ground (arith, f)))
    | inr f ↦ e ∙ sym f
  ]
]
  where
    differ : (a b : ℕ) → bytes_eq (decimal a) (decimal b) ≡ false → a ≢ b
    differ a b e f =
        let g : bytes_eq (decimal b) (decimal b) ≡ false =
          subst (λ x. bytes_eq (decimal x) (decimal b) ≡ false) f e in
        grind (arith, g, bytes_eq_refl (decimal b))

decimal-IsLiteral : (n : ℕ) → IsLiteral (decimal n)
decimal-IsLiteral n = record {
  plain = decimal-IsPlain n;
  no_slash = decimal-Avoids b'/' n (omega arith);
  no_wildcard = λ e. (subst (Avoids b'+') e (decimal-Avoids b'+' n (omega arith))).0 refl;
  no_wildcards = λ e. (subst (Avoids b'#') e (decimal-Avoids b'#' n (omega arith))).0 refl;
}

printed-IsPlain : (n : ℕ) (rest : Text) → IsPlain (decimal n ++ b'/' ∷ rest)
printed-IsPlain n rest =
    IsPlain-append (decimal n) (b'/' ∷ rest) (decimal-Avoids b'$' n (omega arith)) (omega arith)

-- A level before a slash is plain if it is.
IsPlain-level : (level rest : Text) → IsPlain level → IsPlain (level ++ b'/' ∷ rest)
IsPlain-level [] rest h = omega arith
IsPlain-level (c ∷ cs) rest h = h

game-IsLiteral : IsLiteral (text "formulatel")
game-IsLiteral = record {
  plain = omega arith;
  no_slash = omega arith;
  no_wildcard = λ e. cc;
  no_wildcards = λ e. cc;
}

and_true : (b : Bool) → (b && true) ≡ b
and_true true = refl
and_true false = refl

module _ (filters : TopicFilters) (user topic : Text) (tenant : ℕ) (no_slash : Avoids b'/' user)
    (plain : IsPlain user) (plain_topic : IsPlain topic) where
  -- The filters of `tenants.go` begin with an organization.
  matches-org :
      (org : ℕ) (filter : Text)
      → IsPlain filter
      → filters.matches
          (text "formulatel/+/" ++ (decimal org ++ b'/' ∷ filter))
          (prefix_topic topic user (pos tenant))
        ≡ (org == tenant && filters.matches filter (user ++ b'/' ∷ topic))
  unfolding prefix_topic decimal_int
  matches-org org filter p =
      let rest = decimal org ++ b'/' ∷ filter in
      let topics = decimal tenant ++ b'/' ∷ (user ++ b'/' ∷ topic) in
      filters.literal (text "formulatel") (b'+' ∷ b'/' ∷ rest) (text "formulatel")
        (text "f123" ++ b'/' ∷ topics) game-IsLiteral (omega arith) (omega arith) (omega arith)
      ∙ ap (λ x. x && filters.matches (b'+' ∷ b'/' ∷ rest) (text "f123" ++ b'/' ∷ topics))
          (bytes_eq_refl (text "formulatel"))
      ∙ filters.any_level rest (text "f123") topics (omega arith) (omega arith)
          (printed-IsPlain org filter) (printed-IsPlain tenant (user ++ b'/' ∷ topic))
      ∙ filters.literal (decimal org) filter (decimal tenant) (user ++ b'/' ∷ topic)
          (decimal-IsLiteral org) (decimal-Avoids b'/' tenant (omega arith)) p
          (IsPlain-level user topic plain)
      ∙ ap (λ x. x && filters.matches filter (user ++ b'/' ∷ topic)) (bytes_eq-decimal org tenant)

  user_acl_exact :
      (org : ℕ) (username : Text)
      → IsLiteral username
      → filters.matches (user_acl org username) (prefix_topic topic user (pos tenant))
        ≡ (org == tenant && bytes_eq username user)
  unfolding user_acl
  user_acl_exact org username l =
      matches-org org (username ++ text "/#") (IsPlain-level username (text "#") l.plain)
      ∙ ap (λ x. org == tenant && x)
          (filters.literal username (text "#") user topic l no_slash (omega arith) plain_topic
            ∙ ap (λ x. bytes_eq username user && x) (filters.any_levels topic plain_topic)
            ∙ and_true (bytes_eq username user))

  tenant_acl_exact :
      (org : ℕ)
      → filters.matches (tenant_acl org) (prefix_topic topic user (pos tenant)) ≡ (org == tenant)
  unfolding tenant_acl
  tenant_acl_exact org =
      matches-org org (text "#") (omega arith)
      ∙ ap (λ x. org == tenant && x)
          (filters.any_levels (user ++ b'/' ∷ topic) (IsPlain-level user topic plain))
      ∙ and_true (org == tenant)

  wildcard_user_acl :
      (org : ℕ)
      → filters.matches (user_acl org (text "+")) (prefix_topic topic user (pos tenant))
        ≡ (org == tenant)
  unfolding user_acl
  wildcard_user_acl org =
      matches-org org (text "+/#") (omega arith)
      ∙ ap (λ x. org == tenant && x)
          (filters.any_level (text "#") user topic no_slash plain (omega arith) plain_topic
            ∙ filters.any_levels topic plain_topic)
      ∙ and_true (org == tenant)

  -- At a broker that matches filters as the standard says, for a topic that ingest publishes on, of a
  -- tenant that is not negative, where the driver's name holds no slash and neither it nor the
  -- channel's name begins with a dollar sign: the access list of a driver's account whose name is a
  -- literal level admits the topic if and only if the tenant and the driver are this account's; that of
  -- a tenant's account if and only if the tenant is this one; and that of an account which is named
  -- `+` does so too, whoever the driver is.
  pub access_lists_exact :
      (org : ℕ) (username : Text)
      → IsLiteral username
      → let published = prefix_topic topic user (pos tenant) in
        (filters.matches (user_acl org username) published
          ≡ (org == tenant && bytes_eq username user))
        × (filters.matches (tenant_acl org) published ≡ (org == tenant))
        × (filters.matches (user_acl org (text "+")) published ≡ (org == tenant))
  access_lists_exact org username l =
      (user_acl_exact org username l, tenant_acl_exact org, wildcard_user_acl org)

printed_int-IsPlain : (z : ℤ) (rest : Text) → IsPlain (decimal_int z ++ b'/' ∷ rest)
unfolding decimal_int
printed_int-IsPlain (pos n) rest = printed-IsPlain n rest
printed_int-IsPlain (negsuc n) rest = omega arith

f123-IsLiteral : IsLiteral (text "f123")
f123-IsLiteral = record {
  plain = omega arith;
  no_slash = omega arith;
  no_wildcard = λ e. cc;
  no_wildcards = λ e. cc;
}

-- At a broker that matches filters as the standard says, persist's subscription is for every topic
-- that ingest publishes on, of whatever channel, driver and tenant.
pub sub_topic-all :
    (filters : TopicFilters) (topic user : Text) (tenant : ℤ)
    → filters.matches sub_topic (prefix_topic topic user tenant) ≡ true
unfolding prefix_topic
sub_topic-all filters topic user tenant =
    let behind = decimal_int tenant ++ b'/' ∷ (user ++ b'/' ∷ topic) in
    let filter = text "formulatel/f123/#" in
    filters.shared (text "persist") filter (text "formulatel/f123/" ++ behind) (omega arith)
      (omega arith)
    ∙ filters.literal (text "formulatel") (text "f123/#") (text "formulatel")
        (text "f123/" ++ behind) game-IsLiteral (omega arith) (omega arith) (omega arith)
    ∙ ap (λ x. x && filters.matches (text "f123/#") (text "f123/" ++ behind))
        (bytes_eq_refl (text "formulatel"))
    ∙ filters.literal (text "f123") (text "#") (text "f123") behind f123-IsLiteral (omega arith)
        (omega arith) (printed_int-IsPlain tenant (user ++ b'/' ∷ topic))
    ∙ ap (λ x. x && filters.matches (text "#") behind) (bytes_eq_refl (text "f123"))
    ∙ filters.any_levels behind (printed_int-IsPlain tenant (user ++ b'/' ∷ topic))
