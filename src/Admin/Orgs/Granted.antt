-- ===== src/Admin/Orgs/Granted.antt =====
-- formulatel/cmd/admin/tenants.go: what `CreateOrg` does where everything is granted.
use formulatel.Common.{
  ℕ, ◌+◌, ◌≡◌, ◌≤◌, refl, ap, length, ◌∙◌, true, false, none, some, List, [], ◌∷◌, ◌++◌, arith,
}
use formulatel.Text.{Text, text}
use formulatel.Admin.{
  Answers, World, done, created, CreateOrgRequest, Statement, insert_tenant, create_role,
  insert_account, postgresql, mqtt, Datasource, create_org, tenant_acl, tenant_role, user_acl,
  begin, finally, provision, rollback, delete_on_error, exec, generate, must_hash, add_data_source,
  create_user, commit,
}
use formulatel.Admin.Laws.{>>=-done}
use formulatel.Admin.Orgs.{create_org-created}

-- Everything that is asked for is granted, and the passwords and hashes are these. A password has the
-- length that is asked for, which is at least that of its four digits; bcrypt takes 72 bytes at most.
pub record IsGranted (answers : Answers) (org : ℕ) (password : ℕ → ℕ → Text) (hash : Text → Text)
    : Type 0 where
  pub create_org : (name : Text) → answers.create_org name ≡ created org
  pub begin : answers.begin ≡ true
  pub exec : (q : Statement) → answers.exec q ≡ true
  pub commit : answers.commit ≡ true
  pub add_data_source : (d : Datasource) → answers.add_data_source org d ≡ true
  pub generate : (size n : ℕ) → 4 ≤ size → answers.generate size n ≡ some (password size n)
  pub sized : (size n : ℕ) → length (password size n) ≡ size
  pub hashes : (p : Text) → length p ≤ 72 → answers.hash p ≡ some (hash p)

-- The rows, the role and the accounts of a new organization, with the password of its readers and the
-- token of its first user.
abbrev pub org_statements :
    Answers → CreateOrgRequest → ℕ → (hash : Text → Text) (password token : Text) → List Statement
org_statements answers request org hash password token =
    insert_tenant org (answers.quote_literal request.name)
    ∷ create_role (tenant_role org) (answers.quote_literal password)
    ∷ insert_account org (tenant_role org) (answers.quote_literal (hash password)) false
        (tenant_acl org) 1
    ∷ insert_account org request.username (answers.quote_literal (hash token)) true
        (user_acl org request.username) 3
    ∷ []

module _ {answers : Answers} {org : ℕ} {password : ℕ → ℕ → Text} {hash : Text → Text}
    (g : IsGranted answers org password hash) where
  exec-granted :
      (q : Statement) (w : World) (qs : List Statement)
      → w.pending ≡ some qs
      → exec answers q w ≡ (done tt, record w { pending = some (qs ++ q ∷ []) })
  unfolding exec
  exec-granted q w qs e = ground (arith, g.exec q, e)

  generate-granted :
      (size : ℕ) (w : World)
      → 4 ≤ size
      → generate answers size w ≡ (
        done (password size w.passwords_made),
        record w { passwords_made = w.passwords_made + 1 },
      )
  unfolding generate
  generate-granted size w h = ground (arith, g.generate size w.passwords_made h)

  must_hash-granted :
      (p : Text) (w : World) → length p ≤ 72 → must_hash answers p w ≡ (done (hash p), w)
  unfolding must_hash
  must_hash-granted p w h = ground (arith, g.hashes p h)

  password_fits : (n : ℕ) → length (password 32 n) ≤ 72
  password_fits n = let e = g.sized 32 n in omega arith

  token_fits : (n : ℕ) → length (text "ftel-" ++ password 64 n) ≤ 72
  token_fits n = let e = g.sized 64 n in omega arith

  add_data_source-granted :
      (d : Datasource) (w : World)
      → add_data_source answers org d w
        ≡ (done tt, record w { data_sources = w.data_sources ++ (org, d) ∷ [] })
  unfolding add_data_source
  add_data_source-granted d w = ground (arith, g.add_data_source d)

  commit-granted :
      (w : World) (qs : List Statement)
      → w.pending ≡ some qs
      → commit answers w
        ≡ (done tt, record w { committed = w.committed ++ qs ∷ []; pending = none })
  unfolding commit
  commit-granted w qs e = ground (arith, g.commit, e)

  create_user-granted :
      (username : Text) (w : World) (qs : List Statement)
      → w.pending ≡ some qs
      → let token = text "ftel-" ++ password 64 w.passwords_made in
        create_user answers username org true w ≡ (
          done token,
          record w {
            pending = some (
                qs
                ++ insert_account org username
                    (answers.quote_literal (hash token))
                    true
                    (user_acl org username)
                    3
                  ∷ []);
            passwords_made = w.passwords_made + 1;
          },
        )
  unfolding create_user
  create_user-granted username w qs e =
      >>=-done _ _ (generate-granted 64 w (ground arith))
      ∙ >>=-done _ _ refl
      ∙ >>=-done _ _ (must_hash-granted _ _ (token_fits w.passwords_made))
      ∙ >>=-done _ _ (exec-granted _ _ qs e)
      ∙ >>=-done _ _ refl

  provision-granted :
      (request : CreateOrgRequest) (w : World)
      → provision answers request org (record w { pending = some [] }) ≡ (
        done tt,
        record w {
          data_sources = (w.data_sources ++ (org, postgresql) ∷ []) ++ (org, mqtt) ∷ [];
          committed =
              w.committed
              ++ org_statements answers request org hash
                  (password 32 w.passwords_made)
                  (text "ftel-" ++ password 64 (w.passwords_made + 1))
                ∷ [];
          pending = none;
          passwords_made = w.passwords_made + 1 + 1;
        },
      )
  unfolding provision
  provision-granted request w =
      >>=-done _ _ (exec-granted _ _ [] refl)
      ∙ >>=-done _ _ (generate-granted 32 _ (ground arith))
      ∙ >>=-done _ _ (exec-granted _ _ _ refl)
      ∙ >>=-done _ _ (add_data_source-granted postgresql _)
      ∙ >>=-done _ _ (add_data_source-granted mqtt _)
      ∙ >>=-done _ _ (must_hash-granted _ _ (password_fits w.passwords_made))
      ∙ >>=-done _ _ (exec-granted _ _ _ refl)
      ∙ >>=-done _ _ (create_user-granted request.username _ _ refl)
      ∙ commit-granted _ _ refl

-- Where everything is granted, passwords of the lengths asked for, and hashes of texts of at most 72
-- bytes: `CreateOrg` returns without an error, the organization is there with its two data sources, and
-- the database has committed one transaction more, with its row, the role, the account that reads the
-- topics of the tenant and the account of the first user.
pub create_org_granted :
    (answers : Answers) (request : CreateOrgRequest) (w : World) (org : ℕ) (password : ℕ → ℕ → Text)
    (hash : Text → Text)
    → IsGranted answers org password hash
    → create_org answers request w ≡ (
      done tt,
      record {
        orgs = org ∷ w.orgs;
        data_sources = (w.data_sources ++ (org, postgresql) ∷ []) ++ (org, mqtt) ∷ [];
        committed =
            w.committed
            ++ org_statements answers request org hash
                (password 32 w.passwords_made)
                (text "ftel-" ++ password 64 (w.passwords_made + 1))
              ∷ [];
        pending = none;
        passwords_made = w.passwords_made + 1 + 1;
      },
    )
unfolding finally begin rollback delete_on_error
create_org_granted answers request w org password hash g =
    create_org-created answers request w org (g.create_org request.name)
    ∙ ap (λ r. (r.0, delete_on_error answers org r.0 r.1))
        (>>=-done (begin answers) _ {w = record w { orgs = org ∷ w.orgs }} (ground (arith, g.begin))
          ∙ ap (λ r. (r.0, rollback r.1))
              (provision-granted g request (record w { orgs = org ∷ w.orgs })))
