-- ===== src/Tests/Tenants.antt =====
-- The tenant manager, with answers that grant everything, and with some that do not.
use formulatel.Common.{
  ℕ, zero, suc, ◌≡◌, ◌⊎◌, refl, [], ◌∷◌, ◌++◌, some, none, true, false, length, replicate, arith,
}
use formulatel.Text.{text}
use formulatel.Admin.{
  Answers, World, created, CreateOrgRequest, done, failed, not_committed, statement_refused,
  create_org, create_user, postgresql, mqtt, ◌>>=◌, exec, generate, must_hash, begin, commit,
  provision, finally, delete_on_error, rollback, add_data_source,
}
use formulatel.Admin.Orgs.{create_org_failed}
use formulatel.Admin.Orgs.Granted.{IsGranted, org_statements, create_org_granted}
use formulatel.Admin.Users.{create_user_left_open}

abbrev generous : Answers
generous = record {
  create_org = λ _. created 7;
  delete_org = λ _. true;
  begin = true;
  exec = λ _. true;
  commit = true;
  add_data_source = λ _ _. true;
  generate = λ size n. some (replicate size n);
  hash = λ p. some (0 ∷ p);
  quote_literal = λ t. t;
}

abbrev failing : Answers
failing = record generous { commit = false }

abbrev mean : Answers
mean = record generous { exec = λ _. false }

abbrev world : World
world = record {
  orgs = 3 ∷ [];
  data_sources = [];
  committed = [];
  pending = none;
  passwords_made = 0;
}

abbrev request : CreateOrgRequest
request = record { name = text "apex"; username = text "ann" }

length_of : (n x : ℕ) → length (replicate n x) ≡ n
length_of zero x = ground arith
length_of (suc n) x = ground (arith, length_of n x)

generous-IsGranted : IsGranted generous 7 replicate (λ p. 0 ∷ p)
generous-IsGranted = record {
  create_org = λ _. refl;
  begin = refl;
  exec = λ _. refl;
  commit = refl;
  add_data_source = λ _. refl;
  generate = λ _ _ _. refl;
  sized = length_of;
  hashes = λ _ _. refl;
}

create_org_granted_example : create_org generous request world ≡ (
  done tt,
  record {
    orgs = 7 ∷ 3 ∷ [];
    data_sources = ([] ++ (7, postgresql) ∷ []) ++ (7, mqtt) ∷ [];
    committed =
        []
        ++ org_statements generous request 7
            (λ p. 0 ∷ p)
            (replicate 32 0)
            (text "ftel-" ++ replicate 64 1)
          ∷ [];
    pending = none;
    passwords_made = 2;
  },
)
create_org_granted_example =
    create_org_granted generous request world 7 replicate (λ p. 0 ∷ p) generous-IsGranted

create_org_failed_example :
    ((create_org failing request world).1.committed ≡ [])
    × ((create_org failing request world).1.pending ≡ none)
    × (((create_org failing request world).1.orgs ≡ 3 ∷ [])
        ⊎ ((org : ℕ) × (failing.create_org request.name ≡ created org)
            × ((create_org failing request world).1.orgs ≡ org ∷ 3 ∷ [])
            × (failing.delete_org org ≡ false)))
unfolding create_org ◌>>=◌ exec generate must_hash begin commit provision finally delete_on_error
    rollback add_data_source create_user
create_org_failed_example = create_org_failed failing request world not_committed refl refl

create_user_left_open_example :
    create_user mean (text "ann") 7 false world
    ≡ (failed statement_refused, record world { pending = some []; passwords_made = 1 })
create_user_left_open_example =
    create_user_left_open mean (text "ann") 7 world (replicate 64 0)
      (0 ∷ (text "ftel-" ++ replicate 64 0)) refl refl refl refl
