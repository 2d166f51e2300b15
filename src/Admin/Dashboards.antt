-- ===== src/Admin/Dashboards.antt =====
-- formulatel/cmd/admin/tenants.go: `CreateDashboard`, which posts a file to Grafana, and the actions of
-- the commands `dashboard create`, `user create` and `tenant create`.
use formulatel.Common.{
  ℕ, ◌≡◌, ◌↔◌, refl, inl, inr, Bool, true, false, Option, none, some, List, [], ◌∷◌, bytes_eq,
  if◌then◌else◌, Option-cases, arith,
}
use formulatel.Text.{Text, text}
use formulatel.Admin.{Answers, World, Result, CreateOrgRequest, create_org, create_user}

-- What Grafana answers to a dashboard: an error, a code that is no success, or its URL and its number,
-- which may be missing.
pub data PostAnswer : Type 0 where
  post_failed unsuccessful : PostAnswer
  posted : (has_url : Bool) (id : Option ℕ) → PostAnswer

-- The files, what `json.Unmarshal` makes of a text as a map of fields (none if it refuses it; the map of
-- `null` has no field), and what Grafana answers to a dashboard for an organization.
pub record DashboardAnswers (Json : Type 0) : Type 0 where
  pub read_file : Text → Option Text
  pub unmarshal : Text → Option (List (Text × Json))
  pub post : ℕ → Option Json → PostAnswer

pub data DashboardError : Type 0 where
  unreadable invalid_json not_created : DashboardError

pub data Dashboard : Type 0 where
  refused : DashboardError → Dashboard
  crashed : Dashboard
  created : ℕ → Dashboard

-- A success without a URL or a number is read through a nil pointer.
unfoldable pub answered : PostAnswer → Dashboard
answered post_failed = refused not_created
answered unsuccessful = refused not_created
answered (posted true (some id)) = created id
answered (posted _ _) = crashed

-- `m[key]`: none where the map has no such key.
unfoldable pub field : {A : Type 0} → Text → List (Text × A) → Option A
field key [] = none
field key ((k, a) ∷ m) = let rest = field key m in if bytes_eq k key then some a else rest

unfoldable pub post_dashboard :
    {Json : Type 0} → DashboardAnswers Json → ℕ → Option (List (Text × Json)) → Dashboard
unfolding answered field
post_dashboard answers tenant none = refused invalid_json
post_dashboard answers tenant (some dashboard_map) =
    answered (answers.post tenant (field (text "dashboard") dashboard_map))

unfoldable pub create_dashboard : {Json : Type 0} → DashboardAnswers Json → ℕ → Text → Dashboard
unfolding post_dashboard
create_dashboard answers tenant file = elim (answers.read_file file) [
  | none ↦ refused unreadable
  | some raw ↦ post_dashboard answers tenant (answers.unmarshal raw)
]

answered-created : (a : PostAnswer) (id : ℕ) → answered a ≡ created id → a ≡ posted true (some id)
unfolding answered
answered-created post_failed id e = cc
answered-created unsuccessful id e = cc
answered-created (posted true (some x)) id e = cc
answered-created (posted true none) id e = cc
answered-created (posted false x) id e = cc

module _ {Json : Type 0} (answers : DashboardAnswers Json) (tenant id : ℕ) where
  post-created :
      (o : Option (List (Text × Json)))
      → post_dashboard answers tenant o ≡ created id
      → (m : List (Text × Json)) × (o ≡ some m)
        × (answers.post tenant (field (text "dashboard") m) ≡ posted true (some id))
  unfolding post_dashboard
  post-created none e = cc
  post-created (some m) e = (m, refl, answered-created _ id e)

  -- A dashboard with this number is reported if and only if the file is read, its text is unmarshalled
  -- as a map, and Grafana answers to the field `dashboard` of that map, or to nothing where it has no
  -- such field, with a URL and this number.
  pub create_dashboard_lem :
      (file : Text)
      → (create_dashboard answers tenant file ≡ created id) ↔ (
          (raw : Text) × (m : List (Text × Json)) × (answers.read_file file ≡ some raw)
          × (answers.unmarshal raw ≡ some m)
          × (answers.post tenant (field (text "dashboard") m) ≡ posted true (some id)))
  unfolding create_dashboard post_dashboard answered
  create_dashboard_lem file = (
    λ e. elim (Option-cases (answers.read_file file)) [
      | inl f ↦ absurd (grind (arith, f, e))
      | inr (raw, f) ↦
          let rest = post-created (answers.unmarshal raw) (grind (arith, f, e)) in
          (raw, rest.0, f, rest.1, rest.2)
    ],
    λ h. grind (arith, h.2, h.3, h.4),
  )

-- The manager that `Before` puts in the context may be missing.
pub data CommandResult (A : Type 0) : Type 0 where
  no_manager : CommandResult A
  ran : A → CommandResult A

unfoldable pub with_manager : {A : Type 0} → Bool → A → CommandResult A
with_manager has_manager a = if has_manager then ran a else no_manager

unfoldable pub tenant_create :
    Bool → Answers → CreateOrgRequest → World → CommandResult (Result (Unit {0}) × World)
unfolding with_manager create_org
tenant_create has_manager answers request w =
    with_manager has_manager (create_org answers request w)

-- The user that the command creates is added in a transaction of its own.
unfoldable pub user_create : Bool → Answers → Text → ℕ → World → CommandResult (Result Text × World)
unfolding with_manager create_user
user_create has_manager answers username tenant w =
    with_manager has_manager (create_user answers username tenant false w)

unfoldable pub dashboard_create :
    {Json : Type 0} → Bool → DashboardAnswers Json → ℕ → Text → CommandResult Dashboard
unfolding with_manager create_dashboard
dashboard_create has_manager answers tenant file =
    with_manager has_manager (create_dashboard answers tenant file)
