-- ===== src/Database/Login.antt =====
-- Logging in against the table of users.
use npacn_fisac.Base.{ℕ, ◌≡◌, ◌≢◌, refl, arith, ◌∙◌, ap, sym, subst, ◌⊎◌, inl, inr}
use npacn_fisac.Base.{Bool, true, false, Option, none, some, List, [], ◌∷◌, if◌then◌else◌}
use npacn_fisac.Base.{M, return, Ensures, returns, Ensures-bind, ◌>>=◌}
use npacn_fisac.Base.Int.{ℤ}
use npacn_fisac.Sqlite.{Sqlite, IsSqlite, Account, HasName, HasAccount, StepResult, row, finished}
use npacn_fisac.Sqlite.{constraint, step_error, int_of}
use npacn_fisac.Database.{Database, query, if_db, hash_password, select_user}
use npacn_fisac.Database.{minus_one, select_user_with, after_select_user, db_add_user, db_auth_user}
use npacn_fisac.Database.Accounts.{
  IsReady, bound, ready, Leaves, users_in, Adds, added, not_added, db_add_user-Adds,
}

-- A database whose statements can always be prepared, and on which a selection does not fail.
pub record IsReliable {sql : Sqlite} (laws : IsSqlite sql) : Type 0 where
  pub prepares : (text : List ℕ) (s : sql.State) → (sql.prepare text s).0 ≢ none
  pub selects :
      (stmt : sql.Stmt) (s : sql.State)
      → laws.text_of stmt s ≡ select_user
      → ((sql.step stmt s).0 ≡ row) ⊎ ((sql.step stmt s).0 ≡ finished)

HasName-HasAccount :
    (name hash : List ℕ) (id : ℕ) (accounts : List Account)
    → HasAccount name hash id accounts
    → HasName name accounts
HasName-HasAccount name hash id [] h = h
HasName-HasAccount name hash id (a ∷ accounts) (inl h) = inl h.0
HasName-HasAccount name hash id (a ∷ accounts) (inr h) =
    inr (HasName-HasAccount name hash id accounts h)

module _ {sql : Sqlite} (laws : IsSqlite sql) where
  -- The number of an account with this name and hash, or -1 for one of these reasons.
  pub data Finds (name hash : List ℕ) (before : Database sql) : ℤ → Database sql → Type 0 where
    found :
        {after : Database sql} (id : ℕ)
        → HasAccount name hash id (users_in laws before)
        → users_in laws after ≡ users_in laws before
        → Leaves laws before after
        → Finds name hash before (int_of id) after
    absent :
        {after : Database sql}
        → ((id : ℕ) → ¬ HasAccount name hash id (users_in laws before))
        → users_in laws after ≡ users_in laws before
        → Leaves laws before after
        → Finds name hash before minus_one after
    broken_down :
        {after : Database sql}
        → ((before.db ≡ true) → IsReliable laws → ⊥)
        → users_in laws after ≡ users_in laws before
        → Leaves laws before after
        → Finds name hash before minus_one after

  module _ (name hash : List ℕ) (database : Database sql) (stmt : sql.Stmt)
      (prepared : (sql.prepare select_user database.state).0 ≡ some stmt) where
    abbrev at_step : sql.State
    at_step = bound laws stmt name hash (sql.prepare select_user database.state).1

    abbrev stepped : sql.State
    stepped = (sql.step stmt at_step).1

    here : IsReady laws select_user stmt name hash database.state at_step
    here = ready laws select_user stmt name hash database.state prepared

    abbrev done_with : Database sql
    done_with = record database { state = sql.finalize stmt stepped }

    leaves : Leaves laws database done_with
    leaves = record {
      same_db = refl;
      same_pending = omega (
        arith,
        laws.pending-finalize stmt stepped,
        laws.pending-step stmt at_step,
        here.one_more,
      );
    }

    users_after : users_in laws done_with ≡ users_in laws database
    users_after =
        (laws.finalize-Unchanged stmt stepped).users_kept
        ∙ laws.step-select_user stmt at_step here.source
        ∙ here.kept

    -- What the statement looks for is the name and the hash, among the accounts of before.
    HasAccount-here :
        (id : ℕ)
        → HasAccount
            (laws.parameter stmt 1 at_step)
            (laws.parameter stmt 2 at_step)
            id
            (laws.users at_step)
          ≡ HasAccount name hash id (users_in laws database)
    HasAccount-here id i = HasAccount (here.at_one i) (here.at_two i) id (here.kept i)

    failed :
        (sql.step stmt at_step).0 ≢ row
        → (sql.step stmt at_step).0 ≢ finished
        → Ensures (Finds name hash database) (return minus_one done_with)
    failed no_row unfinished = returns (
        broken_down (λ open_one reliable. never (reliable.selects stmt at_step here.source))
          users_after leaves)
      where
        never : ((sql.step stmt at_step).0 ≡ row) ⊎ ((sql.step stmt at_step).0 ≡ finished) → ⊥
        never (inl e) = no_row e
        never (inr e) = unfinished e

    after_select_user-Finds :
        (rc : StepResult)
        → (sql.step stmt at_step).0 ≡ rc
        → Ensures
            (Finds name hash database)
            (after_select_user sql stmt rc (record database { state = stepped }))
    unfolding after_select_user
    after_select_user-Finds row e =
        let law = laws.step-select_user_row stmt at_step here.source e in
        subst (λ (r : ℤ). Ensures (Finds name hash database) (return r done_with)) (sym law.2)
          (returns (
            found law.0 (subst (λ (t : Type 0). t) (HasAccount-here law.0) law.1) users_after
              leaves))
    after_select_user-Finds finished e = returns (
        absent
          (λ id h.
            laws.step-select_user_finished stmt at_step id here.source e
              (subst (λ (t : Type 0). t) (sym (HasAccount-here id)) h))
          users_after leaves)
    after_select_user-Finds constraint e = failed (λ q. cc) (λ q. cc)
    after_select_user-Finds (step_error n) e = failed (λ q. cc) (λ q. cc)

  select_user_with-Finds :
      (name hash : List ℕ) (database : Database sql) (o : Option sql.Stmt)
      → (sql.prepare select_user database.state).0 ≡ o
      → Ensures (Finds name hash database) (
          select_user_with sql name hash o
            (record database { state = (sql.prepare select_user database.state).1 }))
  unfolding select_user_with
  select_user_with-Finds name hash database none e = returns (
      broken_down (λ open_one reliable. reliable.prepares select_user database.state e)
        (laws.prepare-Unchanged select_user database.state).users_kept
        (record {
          same_db = refl;
          same_pending = laws.pending-prepare_none select_user database.state e;
        }))
  select_user_with-Finds name hash database (some stmt) e =
      after_select_user-Finds name hash database stmt e _ refl

  -- `db_auth_user` returns the number of an account, as an int, only if the account has the name and
  -- the hash of the password; else it returns -1, which on an open and reliable database is for want
  -- of such an account. The accounts stay as they are, and each statement that was prepared is
  -- finalized.
  pub db_auth_user-Finds :
      (name password : List ℕ) (database : Database sql)
      → Ensures
          (Finds name (hash_password password 64) database)
          (db_auth_user sql name password database)
  unfolding db_auth_user if_db
  db_auth_user-Finds name password database = pick database.db refl
    where
      hash : List ℕ
      hash = hash_password password 64

      run : M (Database sql) ℤ
      run = query sql (sql.prepare select_user) >>= select_user_with sql name hash

      pick :
          (b : Bool)
          → database.db ≡ b
          → Ensures
              (Finds name hash database)
              (if b then run database else return minus_one database)
      pick true e = select_user_with-Finds name hash database _ refl
      pick false e =
          returns
            (broken_down (λ open_one r. cc) refl (record { same_db = refl; same_pending = refl }))

  -- On an open and reliable database, a user that `db_add_user` adds can log in with the same password:
  -- unless it returned -1, `db_auth_user` returns the number that it returned.
  pub db_auth_user-db_add_user :
      (name password : List ℕ) (database : Database sql)
      → IsReliable laws
      → database.db ≡ true
      → Ensures
          (λ (r : ℤ × ℤ) (after : Database sql). (r.0 ≡ minus_one) ⊎ (r.1 ≡ r.0))
          ((db_add_user sql name password >>= λ user_id.
              db_auth_user sql name password >>= λ again. return (user_id, again))
            database)
  db_auth_user-db_add_user name password database reliable open_one =
      Ensures-bind (Adds laws name hash database) (db_add_user-Adds laws name password database)
        λ user_id mid adds.
          Ensures-bind (Finds name hash mid) (db_auth_user-Finds name password mid)
            λ again after finds. returns (agree user_id mid again after adds finds)
    where
      hash : List ℕ
      hash = hash_password password 64

      one_account :
          (id other : ℕ) (mid : Database sql)
          → ¬ HasName name (users_in laws database)
          → users_in laws mid
            ≡ record { id = id; name = name; password_hash = hash } ∷ users_in laws database
          → HasAccount name hash other (users_in laws mid)
          → id ≡ other
      one_account id other mid free e h = among (subst (HasAccount name hash other) e h)
        where
          among :
              HasAccount name hash other
                (record { id = id; name = name; password_hash = hash } ∷ users_in laws database)
              → id ≡ other
          among (inl p) = p.2
          among (inr p) = absurd (free (HasName-HasAccount name hash other _ p))

      agree :
          (user_id : ℤ) (mid : Database sql) (again : ℤ) (after : Database sql)
          → Adds laws name hash database user_id mid
          → Finds name hash mid again after
          → (user_id ≡ minus_one) ⊎ (again ≡ user_id)
      agree _ mid again after (not_added u l) finds = inl refl
      agree _ mid _ after (added id free u l) (found other h v k) =
          inr (ap int_of (sym (one_account id other mid free u h)))
      agree _ mid _ after (added id free u l) (absent no_such v k) =
          absurd (no_such id (subst (HasAccount name hash id) (sym u) (inl (refl, refl, refl))))
      agree _ mid _ after (added id free u l) (broken_down bad v k) =
          absurd (bad (l.same_db ∙ open_one) reliable)
