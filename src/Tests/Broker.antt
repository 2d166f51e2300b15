-- ===== src/Tests/Broker.antt =====
-- A broker that matches topics level by level, and the access lists of some accounts.
use formulatel.Common.{
  ℕ, ◌≡◌, ◌≢◌, ◌==◌, ◌&&◌, ◌||◌, refl, sym, ap, ◌∙◌, inl, inr, Bool, true, false, List, [], ◌∷◌,
  ◌++◌, bytes_eq, bytes_eq→eq, bytes_eq_refl, if◌then◌else◌, Bool-cases, arith,
}
use formulatel.Common.Int.{pos}
use formulatel.Text.{Text, text}
use formulatel.Text.Decimal.{Avoids}
use formulatel.Ingest.{prefix_topic}
use formulatel.Admin.{user_acl, tenant_acl}
use formulatel.Mqtt.Filters.{IsPlain, IsLiteral, TopicFilters}
use formulatel.Mqtt.Access.{access_lists_exact, sub_topic-all}
use formulatel.Persist.{sub_topic}

-- The levels of a topic.
put_first : ℕ → List Text → List Text
put_first c [] = (c ∷ []) ∷ []
put_first c (l ∷ ls) = (c ∷ l) ∷ ls

split : Text → List Text
unfolding put_first
split [] = [] ∷ []
split (c ∷ cs) = let rest = split cs in if c == b'/' then [] ∷ rest else put_first c rest

match_levels : List Text → List Text → Bool
match_levels [] [] = true
match_levels [] (t ∷ ts) = false
match_levels (f ∷ fs) [] = bytes_eq f (text "#")
match_levels (f ∷ fs) (t ∷ ts) =
    let rest = match_levels fs ts in
    if bytes_eq f (text "#") then true else (bytes_eq f (text "+") || bytes_eq f t) && rest

-- The filter of a shared subscription stands behind two levels.
unshared : List Text → List Text
unshared (s ∷ g ∷ fs) = if bytes_eq s (text "$share") then fs else s ∷ g ∷ fs
unshared fs = fs

matches : Text → Text → Bool
unfolding split match_levels unshared
matches filter topic = match_levels (unshared (split filter)) (split topic)

split-level :
    (level rest : Text) → Avoids b'/' level → split (level ++ b'/' ∷ rest) ≡ level ∷ split rest
unfolding split put_first
split-level [] rest h = refl
split-level (c ∷ cs) rest h = ground (arith, h.0, split-level cs rest h.1)

bytes_neq : (f g : Text) → f ≢ g → bytes_eq f g ≡ false
bytes_neq f g h = elim (Bool-cases (bytes_eq f g)) [
  | inl e ↦ absurd (h (bytes_eq→eq f g e))
  | inr e ↦ e
]

first_char : {c d : ℕ} {cs ds : Text} → c ∷ cs ≡ d ∷ ds → c ≡ d
first_char e = cc

unshared_plain : (l : Text) (ls : List Text) → l ≢ text "$share" → unshared (l ∷ ls) ≡ l ∷ ls
unfolding unshared
unshared_plain l [] h = refl
unshared_plain l (g ∷ ls) h = rw (bytes_neq l (text "$share") h) refl

put_first_plain : (c : ℕ) (ls : List Text) → c ≢ b'$' → unshared (put_first c ls) ≡ put_first c ls
unfolding put_first
put_first_plain c [] h = unshared_plain (c ∷ []) [] (λ e. h (first_char e))
put_first_plain c (l ∷ ls) h = unshared_plain (c ∷ l) ls (λ e. h (first_char e))

split_plain : (f : Text) → IsPlain f → unshared (split f) ≡ split f
unfolding split unshared
split_plain [] h = refl
split_plain (c ∷ cs) h = elim (Bool-cases (c == b'/')) [
  | inl e ↦ rw e (unshared_plain [] (split cs) (λ x. cc))
  | inr e ↦ rw e (put_first_plain c (split cs) h)
]

level_plain : (l : Text) → IsPlain l → l ≢ text "$share"
level_plain [] h e = cc
level_plain (c ∷ cs) h e = h (first_char e)

any_rest : (ts : List Text) → match_levels (text "#" ∷ []) ts ≡ true
unfolding match_levels
any_rest [] = bytes_eq_refl (text "#")
any_rest (t ∷ ts) = rw (bytes_eq_refl (text "#")) refl

matches_level :
    (level filter level2 topic : Text)
    → Avoids b'/' level
    → level ≢ text "$share"
    → level ≢ text "#"
    → Avoids b'/' level2
    → IsPlain filter
    → matches (level ++ b'/' ∷ filter) (level2 ++ b'/' ∷ topic)
      ≡ ((bytes_eq level (text "+") || bytes_eq level level2) && matches filter topic)
unfolding matches match_levels
matches_level level filter level2 topic a own rest b p =
    ap (λ fs. match_levels (unshared fs) (split (level2 ++ b'/' ∷ topic)))
      (split-level level filter a)
    ∙ ap (λ ts. match_levels (unshared (level ∷ split filter)) ts) (split-level level2 topic b)
    ∙ ap (λ fs. match_levels fs (level2 ∷ split topic)) (unshared_plain level (split filter) own)
    ∙ rw (bytes_neq level (text "#") rest) refl
    ∙ ap
        (λ fs.
          (bytes_eq level (text "+") || bytes_eq level level2) && match_levels fs (split topic))
        (sym (split_plain filter p))

any_topic : (topic : Text) → matches (text "#") topic ≡ true
unfolding matches split put_first unshared
any_topic topic = any_rest (split topic)

shared_lem :
    (group filter topic : Text)
    → Avoids b'/' group
    → IsPlain filter
    → matches (text "$share/" ++ (group ++ b'/' ∷ filter)) topic ≡ matches filter topic
unfolding matches unshared
shared_lem group filter topic a p =
    ap (λ fs. match_levels (unshared fs) (split topic))
      (split-level (text "$share") (group ++ b'/' ∷ filter) (omega arith))
    ∙ ap (λ fs. match_levels (unshared (text "$share" ∷ fs)) (split topic))
        (split-level group filter a)
    ∙ rw (bytes_eq_refl (text "$share")) refl
    ∙ ap (λ fs. match_levels fs (split topic)) (sym (split_plain filter p))

abbrev broker : TopicFilters
broker = record {
  matches = matches;
  literal = λ level filter level2 topic l b p _.
      matches_level level filter level2 topic l.no_slash (level_plain level l.plain) l.no_wildcards
        b p
      ∙ ap (λ x. (x || bytes_eq level level2) && matches filter topic)
          (bytes_neq level (text "+") l.no_wildcard);
  any_level = λ filter level topic b _ p _.
      matches_level (text "+") filter level topic (omega arith) (λ e. cc) (λ e. cc) b p
      ∙ ap (λ x. (x || bytes_eq (text "+") level) && matches filter topic)
          (bytes_eq_refl (text "+"));
  any_levels = λ topic _. any_topic topic;
  shared = λ group filter topic a p. shared_lem group filter topic a p;
}

driver-IsLiteral : IsLiteral (text "driver")
driver-IsLiteral = record {
  plain = omega arith;
  no_slash = omega arith;
  no_wildcard = λ e. cc;
  no_wildcards = λ e. cc;
}

access_lists_exact_example :
    let topic = prefix_topic (text "motiondata") (text "driver") (pos 3) in
    (matches (user_acl 3 (text "driver")) topic
      ≡ (3 == 3 && bytes_eq (text "driver") (text "driver")))
    × (matches (tenant_acl 3) topic ≡ (3 == 3))
    × (matches (user_acl 3 (text "+")) topic ≡ (3 == 3))
access_lists_exact_example =
    access_lists_exact broker (text "driver") (text "motiondata") 3 (omega arith) (omega arith)
      (omega arith) 3 (text "driver") driver-IsLiteral

sub_topic-all_example :
    matches sub_topic (prefix_topic (text "motiondata") (text "driver") (pos 3)) ≡ true
sub_topic-all_example = sub_topic-all broker (text "motiondata") (text "driver") (pos 3)
