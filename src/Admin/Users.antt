-- ===== src/Admin/Users.antt =====
-- `CreateUser` with a transaction of its own.
use formulatel.Common.{ℕ, ◌+◌, ◌≡◌, true, false, some, none, [], ◌∷◌, ◌++◌, arith}
use formulatel.Text.{Text, text}
use formulatel.Admin.{
  Answers, World, done, failed, statement_refused, create_user, insert_account, user_acl, ◌>>=◌,
  generate, begin, must_hash, exec, commit,
}

module _ (answers : Answers) (username : Text) (org : ℕ) (w : World) (password hash : Text)
    (begins : answers.begin ≡ true) (made : answers.generate 64 w.passwords_made ≡ some password)
    (hashed : answers.hash (text "ftel-" ++ password) ≡ some hash) where
  -- Where the database takes the account and commits, the account and its access to the topics of the
  -- user are committed, no transaction is left open, and the answer is the token.
  pub create_user_committed :
      answers.exec
          (insert_account org username (answers.quote_literal hash) true (user_acl org username) 3)
        ≡ true
      → answers.commit ≡ true
      → create_user answers username org false w ≡ (
        done (text "ftel-" ++ password),
        record w {
          committed =
              w.committed
              ++ (insert_account org username
                    (answers.quote_literal hash)
                    true
                    (user_acl org username)
                    3
                  ∷ [])
                ∷ [];
          pending = none;
          passwords_made = w.passwords_made + 1;
        },
      )
  unfolding create_user ◌>>=◌ generate begin must_hash exec commit
  create_user_committed taken commits = ground (arith, made, begins, hashed, taken, commits)

  -- With a transaction of its own that was begun, a password and its hash, where the database refuses
  -- the account: `CreateUser` returns the error and leaves its transaction open.
  pub create_user_left_open :
      answers.exec
          (insert_account org username (answers.quote_literal hash) true (user_acl org username) 3)
        ≡ false
      → create_user answers username org false w ≡ (
        failed statement_refused,
        record w { pending = some []; passwords_made = w.passwords_made + 1 },
      )
  unfolding create_user ◌>>=◌ generate begin must_hash exec commit
  create_user_left_open refuses = ground (arith, made, begins, hashed, refuses)
