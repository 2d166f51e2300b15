-- ===== src/Admin/Laws.antt =====
-- How steps of the tenant manager compose: those that leave nothing behind but an open transaction,
-- and those that commit all of it or nothing.
use formulatel.Common.{
  ℕ, ◌≡◌, ◌⊎◌, inl, inr, refl, sym, ◌∙◌, subst, true, false, some, List, [], ◌∷◌, ◌++◌, arith,
  Bool-cases,
}
use formulatel.Text.{Text, text}
use formulatel.Admin.{
  Answers, World, Result, done, failed, panicked, AdminError, Statement, Step, Datasource, pure,
  ◌>>=◌, exec, commit, generate, must_hash, add_data_source, create_user, provision,
  CreateOrgRequest, insert_tenant, create_role, insert_account, postgresql, mqtt, user_acl,
  tenant_acl, tenant_role,
}

-- A transaction is open.
abbrev pub IsOpen : World → Type 0
IsOpen w = (qs : List Statement) × (w.pending ≡ some qs)

-- The organizations and the committed statements are as before, and the transaction is open.
pub record IsQuiet (w w' : World) : Type 0 where
  pub orgs : w'.orgs ≡ w.orgs
  pub committed : w'.committed ≡ w.committed
  pub still_open : IsOpen w'

pub record Quiet {A : Type 0} (m : Step A) : Type 0 where
  pub quiet : (w : World) → IsOpen w → IsQuiet w (m w).1

-- A step that is done, or has committed nothing.
pub record IsAtomic {A : Type 0} (w : World) (r : Result A × World) : Type 0 where
  pub orgs : r.1.orgs ≡ w.orgs
  pub committed : ((a : A) × (r.0 ≡ done a)) ⊎ (r.1.committed ≡ w.committed)

pub record Atomic {A : Type 0} (m : Step A) : Type 0 where
  pub atomic : (w : World) → IsOpen w → IsAtomic w (m w)

module _ {A B : Type 0} (m : Step A) (f : A → Step B) where
  pub >>=-done : {w : World} {a : A} {v : World} → m w ≡ (done a, v) → (m >>= f) w ≡ f a v
  unfolding ◌>>=◌
  >>=-done e = rw e refl

  pub >>=-failed :
      {w : World} {x : AdminError} {v : World} → m w ≡ (failed x, v) → (m >>= f) w ≡ (failed x, v)
  unfolding ◌>>=◌
  >>=-failed e = rw e refl

  pub >>=-panicked : {w : World} {v : World} → m w ≡ (panicked, v) → (m >>= f) w ≡ (panicked, v)
  unfolding ◌>>=◌
  >>=-panicked e = rw e refl

  Quiet-cases :
      (w : World) (r : Result A) (v : World)
      → m w ≡ (r, v)
      → IsQuiet w v
      → ((a : A) → Quiet (f a))
      → IsQuiet w ((m >>= f) w).1
  Quiet-cases w (done a) v e q h =
      let k = (h a).quiet v q.still_open in
      subst (λ x. IsQuiet w x.1) (sym (>>=-done e))
        (record {
          orgs = k.orgs ∙ q.orgs;
          committed = k.committed ∙ q.committed;
          still_open = k.still_open;
        })
  Quiet-cases w (failed x) v e q h = subst (λ y. IsQuiet w y.1) (sym (>>=-failed e)) q
  Quiet-cases w panicked v e q h = subst (λ y. IsQuiet w y.1) (sym (>>=-panicked e)) q

  Atomic-cases :
      (w : World) (r : Result A) (v : World)
      → m w ≡ (r, v)
      → IsQuiet w v
      → ((a : A) → Atomic (f a))
      → IsAtomic w ((m >>= f) w)
  Atomic-cases w (done a) v e q h =
      let k = (h a).atomic v q.still_open in
      subst (IsAtomic w) (sym (>>=-done e)) (record {
        orgs = k.orgs ∙ q.orgs;
        committed = elim k.committed [ inl d ↦ inl d | inr c ↦ inr (c ∙ q.committed) ];
      })
  Atomic-cases w (failed x) v e q h =
      subst (IsAtomic w) (sym (>>=-failed e))
        (record { orgs = q.orgs; committed = inr q.committed })
  Atomic-cases w panicked v e q h =
      subst (IsAtomic w) (sym (>>=-panicked e))
        (record { orgs = q.orgs; committed = inr q.committed })

module _ {A B : Type 0} {m : Step A} {f : A → Step B} (q : Quiet m) where
  pub >>=-Quiet : ((a : A) → Quiet (f a)) → Quiet (m >>= f)
  >>=-Quiet h = record { quiet = λ w o. Quiet-cases m f w (m w).0 (m w).1 refl (q.quiet w o) h }

  pub >>=-Atomic : ((a : A) → Atomic (f a)) → Atomic (m >>= f)
  >>=-Atomic h = record { atomic = λ w o. Atomic-cases m f w (m w).0 (m w).1 refl (q.quiet w o) h }

module _ (answers : Answers) where
  pub pure-Quiet : {A : Type 0} (a : A) → Quiet (pure a)
  pure-Quiet a = record { quiet = λ w o. record { orgs = refl; committed = refl; still_open = o } }

  exec-IsOpen : (q : Statement) (w : World) → IsOpen w → IsOpen (exec answers q w).1
  unfolding exec
  exec-IsOpen q w (qs, e) = elim (Bool-cases (answers.exec q)) [
    | inl accepted ↦ (qs ++ q ∷ [], ground (arith, e, accepted))
    | inr rejected ↦ (qs, ground (arith, e, rejected))
  ]

  pub exec-Quiet : (q : Statement) → Quiet (exec answers q)
  unfolding exec
  exec-Quiet q = record {
    quiet = λ w o. record {
      orgs = ground (arith, o.1);
      committed = ground (arith, o.1);
      still_open = exec-IsOpen q w o;
    };
  }

  pub generate-Quiet : (size : ℕ) → Quiet (generate answers size)
  unfolding generate
  generate-Quiet size = record {
    quiet = λ w o. record {
      orgs = ground arith;
      committed = ground arith;
      still_open = (o.0, ground (arith, o.1));
    };
  }

  pub must_hash-Quiet : (p : Text) → Quiet (must_hash answers p)
  unfolding must_hash
  must_hash-Quiet p = record {
    quiet = λ w o. record {
      orgs = ground arith;
      committed = ground arith;
      still_open = (o.0, ground (arith, o.1));
    };
  }

  pub add_data_source-Quiet : (org : ℕ) (d : Datasource) → Quiet (add_data_source answers org d)
  unfolding add_data_source
  add_data_source-Quiet org d = record {
    quiet = λ w o. record {
      orgs = ground arith;
      committed = ground arith;
      still_open = (o.0, ground (arith, o.1));
    };
  }

  pub commit-Atomic : Atomic (commit answers)
  unfolding commit
  commit-Atomic = record {
    atomic = λ w o. record { orgs = ground (arith, o.1); committed = ground (arith, o.1) };
  }

  -- `CreateUser` within the caller's transaction.
  pub create_user-Quiet :
      (username : Text) (org : ℕ) → Quiet (create_user answers username org true)
  unfolding create_user
  create_user-Quiet username org = >>=-Quiet (generate-Quiet 64) λ p. >>=-Quiet (pure-Quiet tt) λ _.
      >>=-Quiet (must_hash-Quiet (text "ftel-" ++ p)) λ h.
        >>=-Quiet
          (exec-Quiet
            (insert_account org username (answers.quote_literal h) true (user_acl org username) 3))
          λ _. >>=-Quiet (pure-Quiet tt) λ _. pure-Quiet (text "ftel-" ++ p)

  pub provision-Atomic :
      (request : CreateOrgRequest) (org : ℕ) → Atomic (provision answers request org)
  unfolding provision
  provision-Atomic request org =
      >>=-Atomic (exec-Quiet (insert_tenant org (answers.quote_literal request.name))) λ _.
        >>=-Atomic (generate-Quiet 32) λ p.
          >>=-Atomic (exec-Quiet (create_role (tenant_role org) (answers.quote_literal p))) λ _.
            >>=-Atomic (add_data_source-Quiet org postgresql) λ _.
              >>=-Atomic (add_data_source-Quiet org mqtt) λ _. >>=-Atomic (must_hash-Quiet p) λ h.
                >>=-Atomic
                  (exec-Quiet (
                    insert_account org (tenant_role org) (answers.quote_literal h) false
                      (tenant_acl org) 1))
                  λ _. >>=-Atomic (create_user-Quiet request.username org) λ _. commit-Atomic
