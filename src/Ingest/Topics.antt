-- ===== src/Ingest/Topics.antt =====
-- formulatel/cmd/ingest/main.go: the names of the topics, and what can be read from them.
use formulatel.Common.{ℕ, ◌≡◌, ◌++◌, ◌∷◌, [], arith}
use formulatel.Common.Int.{pos}
use formulatel.Text.{Text, text, decimal}
use formulatel.Text.Decimal.{Avoids, decimal-Avoids, decimal_injective, join_injective}
use formulatel.Ingest.{decimal_int, prefix_topic}

append_cancel : (p xs ys : Text) → p ++ xs ≡ p ++ ys → xs ≡ ys
append_cancel [] xs ys e = e
append_cancel (c ∷ p) xs ys e = append_cancel p xs ys (cc e)

-- Two topics with the same name are the same channel of the same user of the same tenant, if
-- no user name holds a slash and the tenants are not negative.
pub prefix_topic_injective :
    (topic topic2 user user2 : Text) (tenant tenant2 : ℕ)
    → Avoids 47 user
    → Avoids 47 user2
    → prefix_topic topic user (pos tenant) ≡ prefix_topic topic2 user2 (pos tenant2)
    → (tenant ≡ tenant2) × (user ≡ user2) × (topic ≡ topic2)
unfolding prefix_topic decimal_int
prefix_topic_injective topic topic2 user user2 tenant tenant2 h k e =
    let outer =
      join_injective 47 (decimal tenant) (user ++ 47 ∷ topic) (decimal tenant2)
        (user2 ++ 47 ∷ topic2) (decimal-Avoids 47 tenant (omega arith))
        (decimal-Avoids 47 tenant2 (omega arith)) (append_cancel (text "formulatel/f123/") _ _ e) in
    let inner = join_injective 47 user topic user2 topic2 h k outer.1 in
    (decimal_injective tenant tenant2 outer.0, inner.0, inner.1)
