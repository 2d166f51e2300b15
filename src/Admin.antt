-- ===== src/Admin.antt =====
-- formulatel/cmd/admin/tenants.go: `TenantManager`, which creates an organization in Grafana and its
-- rows, roles and accounts in the database, and takes the organization back if that fails.
pub mod Laws
pub mod Orgs
pub mod Users
pub mod Dashboards
use formulatel.Common.{
  ℕ, ◌+◌, Bool, true, false, Option, none, some, List, [], ◌∷◌, ◌++◌, ◌==◌, if◌then◌else◌,
}
use formulatel.Text.{Text, text, decimal}

-- The statements that are sent to the database, with what is written into them: `quoted` texts are
-- literals of the statement, the others its arguments. An account comes with its access to topics,
-- and that of a human with a row of `telemetry.users`.
pub data Statement : Type 0 where
  insert_tenant : (org : ℕ) (name : Text) → Statement
  create_role : (role quoted_password : Text) → Statement
  insert_account :
      (org : ℕ) (username quoted_hash : Text) (is_human : Bool) (acl_topic : Text)
      (access_level : ℕ)
      → Statement

pub data Datasource : Type 0 where
  postgresql mqtt : Datasource

-- What Grafana answers to the creation of an organization.
pub data OrgAnswer : Type 0 where
  refused no_payload : OrgAnswer
  created : ℕ → OrgAnswer

-- The answers of the database, of Grafana, of the generator of passwords (the n-th password, of this
-- length) and of bcrypt, and how `pq.QuoteLiteral` quotes.
pub record Answers : Type 0 where
  pub create_org : Text → OrgAnswer
  pub delete_org : ℕ → Bool
  pub begin : Bool
  pub exec : Statement → Bool
  pub commit : Bool
  pub add_data_source : ℕ → Datasource → Bool
  pub generate : (size n : ℕ) → Option Text
  pub hash : Text → Option Text
  pub quote_literal : Text → Text

-- The organizations and data sources of Grafana, the transactions that the database has committed, each
-- with its statements (a statement outside of a transaction is one of its own), and the open
-- transaction of the connection.
pub record World : Type 0 where
  pub orgs : List ℕ
  pub data_sources : List (ℕ × Datasource)
  pub committed : List (List Statement)
  pub pending : Option (List Statement)
  pub passwords_made : ℕ

pub data AdminError : Type 0 where
  org_refused no_transaction statement_refused no_password data_source_refused not_committed :
      AdminError

-- A Go function returns, with an error or without, or panics.
pub data Result (A : Type 0) : Type 0 where
  done : A → Result A
  failed : AdminError → Result A
  panicked : Result A

abbrev pub Step : Type 0 → Type 0
Step A = World → Result A × World

continue : {A B : Type 0} → Result A → (A → Step B) → Step B
continue (done a) f w = f a w
continue (failed e) f w = (failed e, w)
continue panicked f w = (panicked, w)

infixl 5 ◌>>=◌ ◌>>◌
unfoldable pub ◌>>=◌ : {A B : Type 0} → Step A → (A → Step B) → Step B
unfolding continue
◌>>=◌ m f w = let r = m w in continue r.0 f r.1

abbrev pub ◌>>◌ : {B : Type 0} → Step (Unit {0}) → Step B → Step B
m >> k = m >>= λ _. k

abbrev pub pure : {A : Type 0} → A → Step A
pure a w = (done a, w)

-- `if err != nil { return err }`
abbrev pub check : Bool → AdminError → Step (Unit {0})
check ok e w = if ok then (done tt, w) else (failed e, w)

-- A deferred call: it runs however the body ends, and sees how.
unfoldable pub finally : {A : Type 0} → Step A → (Result A → World → World) → Step A
finally m f w = let r = m w in (r.0, f r.0 r.1)

unfoldable pub begin : Answers → Step (Unit {0})
begin answers w =
    if answers.begin then (done tt, record w { pending = some [] }) else (failed no_transaction, w)

-- The statement joins the open transaction.
unfoldable pub exec : Answers → Statement → Step (Unit {0})
exec answers q w =
    if answers.exec q
    then (
      done tt,
      elim w.pending [
        | none ↦ record w { committed = w.committed ++ (q ∷ []) ∷ [] }
        | some qs ↦ record w { pending = some (qs ++ q ∷ []) }
      ],
    )
    else (failed statement_refused, w)

unfoldable pub rollback : World → World
rollback w = record w { pending = none }

-- A commit that fails leaves nothing behind of the transaction.
unfoldable pub commit : Answers → Step (Unit {0})
commit answers w = elim w.pending [
  | none ↦ (failed not_committed, w)
  | some qs ↦
      if answers.commit
      then (done tt, record w { committed = w.committed ++ qs ∷ []; pending = none })
      else (failed not_committed, record w { pending = none })
]

-- `password.Generate`, for a password of this length.
unfoldable pub generate : Answers → ℕ → Step Text
generate answers size w =
    let w' = record w { passwords_made = w.passwords_made + 1 } in
    elim (answers.generate size w.passwords_made) [
      | none ↦ (failed no_password, w')
      | some p ↦ (done p, w')
    ]

-- `mustHash`
unfoldable pub must_hash : Answers → Text → Step Text
must_hash answers p w = elim (answers.hash p) [ none ↦ (panicked, w) | some h ↦ (done h, w) ]

unfoldable pub add_data_source : Answers → ℕ → Datasource → Step (Unit {0})
add_data_source answers org d w =
    if answers.add_data_source org d
    then (done tt, record w { data_sources = w.data_sources ++ (org, d) ∷ [] })
    else (failed data_source_refused, w)

-- The topics of a driver, which may read and write them, and those of a tenant, which may be read.
unfoldable pub user_acl : ℕ → Text → Text
user_acl org username = text "formulatel/+/" ++ (decimal org ++ b'/' ∷ (username ++ text "/#"))

unfoldable pub tenant_acl : ℕ → Text
tenant_acl org = text "formulatel/+/" ++ (decimal org ++ text "/#")

unfoldable pub tenant_role : ℕ → Text
tenant_role org = text "tenant_" ++ decimal org

-- `CreateUser`; `given` says whether the caller passes its transaction. The answer is the token.
unfoldable pub create_user : Answers → Text → ℕ → Bool → Step Text
create_user answers username org given = do
  p ← generate answers 64
  if given then pure tt else begin answers
  h ← must_hash answers (text "ftel-" ++ p)
  exec answers
      (insert_account org username (answers.quote_literal h) true (user_acl org username) 3)
  if given then pure tt else commit answers
  pure (text "ftel-" ++ p)

pub record CreateOrgRequest : Type 0 where
  pub name : Text
  pub username : Text

-- The body of `CreateOrg` behind the start of the transaction.
unfoldable pub provision : Answers → CreateOrgRequest → ℕ → Step (Unit {0})
provision answers request org = do
  exec answers (insert_tenant org (answers.quote_literal request.name))
  p ← generate answers 32
  exec answers (create_role (tenant_role org) (answers.quote_literal p))
  add_data_source answers org postgresql
  add_data_source answers org mqtt
  h ← must_hash answers p
  exec answers
      (insert_account org (tenant_role org) (answers.quote_literal h) false (tenant_acl org) 1)
  _ ← create_user answers request.username org true
  commit answers

remove : ℕ → List ℕ → List ℕ
remove org [] = []
remove org (x ∷ xs) = let rest = remove org xs in if x == org then xs else x ∷ rest

-- The deferred function of `CreateOrg`: an error takes the organization back.
unfoldable pub delete_on_error : Answers → ℕ → Result (Unit {0}) → World → World
unfolding remove
delete_on_error answers org (failed e) w =
    if answers.delete_org org then record w { orgs = remove org w.orgs } else w
delete_on_error answers org _ w = w

unfoldable pub create_org : Answers → CreateOrgRequest → Step (Unit {0})
create_org answers request w = elim (answers.create_org request.name) [
  | refused ↦ (failed org_refused, w)
  | no_payload ↦ (done tt, w)
  | created org ↦
      finally (begin answers >>= λ _. finally (provision answers request org) (λ _. rollback))
        (delete_on_error answers org) (record w { orgs = org ∷ w.orgs })
]
