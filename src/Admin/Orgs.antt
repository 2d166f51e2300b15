-- ===== src/Admin/Orgs.antt =====
-- formulatel/cmd/admin/tenants.go: what a `CreateOrg` that fails leaves behind.
pub mod Granted
use formulatel.Common.{
  ℕ, ◌+◌, ◌≡◌, ◌≤◌, ◌⊎◌, inl, inr, refl, ap, sym, subst, length, ◌∙◌, true, false, none, some, List,
  [], ◌∷◌, ◌++◌, arith, Bool-cases,
}
use formulatel.Text.{Text, text}
use formulatel.Admin.{
  Answers, World, Result, Step, done, failed, AdminError, OrgAnswer, refused, org_refused,
  no_payload, created, CreateOrgRequest, Statement, insert_tenant, create_role, insert_account,
  postgresql, mqtt, Datasource, create_org, tenant_acl, tenant_role, user_acl, begin, finally,
  provision, rollback, delete_on_error, ◌>>=◌, exec, generate, must_hash, add_data_source,
  create_user, commit,
}
use formulatel.Admin.Laws.{provision-Atomic, >>=-done}

module _ (answers : Answers) (request : CreateOrgRequest) where
  -- `CreateOrg` behind the creation of the organization.
  abbrev behind : ℕ → Step (Unit {0})
  behind org = begin answers >>= λ _. finally (provision answers request org) (λ _. rollback)

  -- It leaves no transaction open and the organizations as they were, and what fails or panics has
  -- committed nothing.
  record IsBehind (w : World) (r : Result (Unit {0}) × World) : Type 0 where
    orgs : r.1.orgs ≡ w.orgs
    pending : r.1.pending ≡ none
    committed : (r.0 ≡ done tt) ⊎ (r.1.committed ≡ w.committed)

  behind-IsBehind : (org : ℕ) (w : World) → w.pending ≡ none → IsBehind w (behind org w)
  unfolding ◌>>=◌ begin finally rollback
  behind-IsBehind org w closed = elim (Bool-cases answers.begin) [
    | inr denied ↦ simp denied (record { orgs = refl; pending = closed; committed = inr refl })
    | inl ok ↦
        let a =
          (provision-Atomic answers request org).atomic (record w { pending = some [] })
            ([], refl) in
        simp ok (record {
          orgs = a.orgs;
          pending = refl;
          committed = elim a.committed [ inl (u, d) ↦ inl d | inr c ↦ inr c ];
        })
  ]

  pub create_org-created :
      (w : World) (org : ℕ)
      → answers.create_org request.name ≡ created org
      → create_org answers request w
        ≡ finally (behind org) (delete_on_error answers org) (record w { orgs = org ∷ w.orgs })
  unfolding create_org
  create_org-created w org e = rw (e, create_org) refl

  -- The organizations are those of before, or Grafana has refused to delete the new one.
  IsTakenBack : World → World → Type 0
  IsTakenBack w v =
      (v.orgs ≡ w.orgs)
      ⊎ ((org : ℕ) × (answers.create_org request.name ≡ created org)
          × (v.orgs ≡ org ∷ w.orgs)
          × (answers.delete_org org ≡ false))

  -- What an error leaves, once the organization is to be deleted.
  taken_back :
      (org : ℕ) (e : AdminError) (w : World) (r : Result (Unit {0}) × World)
      → answers.create_org request.name ≡ created org
      → r.0 ≡ failed e
      → r.1.orgs ≡ org ∷ w.orgs
      → r.1.pending ≡ none
      → (r.0 ≡ done tt) ⊎ (r.1.committed ≡ w.committed)
      → let v = delete_on_error answers org r.0 r.1 in
        (v.committed ≡ w.committed) × (v.pending ≡ none) × IsTakenBack w v
  unfolding delete_on_error IsTakenBack
  taken_back org e w (r, v) a h orgs closed (inl d) = ground (arith, h, d)
  taken_back org e w (r, v) a h orgs closed (inr c) = elim (Bool-cases (answers.delete_org org)) [
    | inl deleted ↦ simp (h, deleted) (c, closed, inl (simp orgs (ground arith)))
    | inr kept ↦ simp (h, kept) (c, closed, inr (org, a, orgs, kept))
  ]

  failed-cases :
      (w : World) (e : AdminError) (a : OrgAnswer)
      → answers.create_org request.name ≡ a
      → w.pending ≡ none
      → (create_org answers request w).0 ≡ failed e
      → let v = (create_org answers request w).1 in
        (v.committed ≡ w.committed) × (v.pending ≡ none) × IsTakenBack w v
  unfolding create_org finally IsTakenBack
  failed-cases w e refused a closed h =
      let k : create_org answers request w ≡ (failed org_refused, w) = rw (a, create_org) refl in
      (ap (λ r. r.1.committed) k, ap (λ r. r.1.pending) k ∙ closed, inl (ap (λ r. r.1.orgs) k))
  failed-cases w e no_payload a closed h =
      let k : create_org answers request w ≡ (done tt, w) = rw (a, create_org) refl in
      (ap (λ r. r.1.committed) k, ap (λ r. r.1.pending) k ∙ closed, inl (ap (λ r. r.1.orgs) k))
  failed-cases w e (created org) a closed h =
      let v = record w { orgs = org ∷ w.orgs } in
      let k = create_org-created w org a in
      let b = behind-IsBehind org v closed in
      let t =
        taken_back org e w (behind org v) a (sym (ap (λ r. r.0) k) ∙ h) b.orgs b.pending
          b.committed in
      (
        ap (λ r. r.1.committed) k ∙ t.0,
        ap (λ r. r.1.pending) k ∙ t.1,
        subst (λ r. IsTakenBack w r.1) (sym k) t.2,
      )

  -- Where `CreateOrg` fails, with no transaction open before: the database has committed nothing more,
  -- no transaction is open, and the organizations of Grafana are those of before, or those and the one
  -- that Grafana has created for it, which Grafana then has refused to delete.
  pub create_org_failed :
      (w : World) (e : AdminError)
      → w.pending ≡ none
      → (create_org answers request w).0 ≡ failed e
      → let v = (create_org answers request w).1 in
        (v.committed ≡ w.committed)
        × (v.pending ≡ none)
        × ((v.orgs ≡ w.orgs)
            ⊎ ((org : ℕ) × (answers.create_org request.name ≡ created org)
                × (v.orgs ≡ org ∷ w.orgs)
                × (answers.delete_org org ≡ false)))
  unfolding IsTakenBack
  create_org_failed w e closed h = failed-cases w e (answers.create_org request.name) refl closed h
