-- ===== src/Database/Accounts.antt =====
-- Accounts: what the functions of the database do to the table of users.
use npacn_fisac.Base.{ℕ, suc, ◌≡◌, ◌≢◌, refl, arith, ◌∙◌, sym, subst}
use npacn_fisac.Base.{Bool, true, false, Option, none, some, List, ◌∷◌, if◌then◌else◌}
use npacn_fisac.Base.{M, return, Ensures, returns, ◌>>=◌}
use npacn_fisac.Base.Int.{ℤ}
use npacn_fisac.Sqlite.{Sqlite, IsSqlite, Account, HasName, StepResult, row, finished}
use npacn_fisac.Sqlite.{constraint, step_error, int_of}
use npacn_fisac.Database.{Database, query, if_db, hash_password, insert_user}
use npacn_fisac.Database.{minus_one, insert_user_with, after_insert_user}
use npacn_fisac.Database.{db_add_user}

module _ {sql : Sqlite} (laws : IsSqlite sql) where
  -- A statement with its two texts, ready to be stepped; nothing has changed but that it is pending.
  pub record IsReady (text : List ℕ) (stmt : sql.Stmt) (first second : List ℕ)
      (before now : sql.State) : Type 0 where
    pub kept : laws.users now ≡ laws.users before
    pub one_more : laws.pending now ≡ suc (laws.pending before)
    pub source : laws.text_of stmt now ≡ text
    pub at_one : laws.parameter stmt 1 now ≡ first
    pub at_two : laws.parameter stmt 2 now ≡ second

  abbrev pub bound : sql.Stmt → List ℕ → List ℕ → sql.State → sql.State
  bound stmt first second s = sql.bind_text stmt 2 second (sql.bind_text stmt 1 first s)

  pub ready :
      (text : List ℕ) (stmt : sql.Stmt) (a b : List ℕ) (s : sql.State)
      → (sql.prepare text s).0 ≡ some stmt
      → IsReady text stmt a b s (bound stmt a b (sql.prepare text s).1)
  ready text stmt a b s e = record {
    kept =
        (laws.bind_text-Unchanged stmt 2 b _).users_kept
        ∙ (laws.bind_text-Unchanged stmt 1 a _).users_kept
        ∙ (laws.prepare-Unchanged text s).users_kept;
    one_more =
        laws.pending-bind_text stmt 2 b _
        ∙ laws.pending-bind_text stmt 1 a _
        ∙ laws.pending-prepare_some text s stmt e;
    source =
        laws.text_of-bind_text stmt 2 b _
        ∙ laws.text_of-bind_text stmt 1 a _
        ∙ laws.text_of-prepare text s stmt e;
    at_one = laws.parameter-bind_text stmt 2 1 b _ ∙ laws.parameter-bind_text stmt 1 1 a _;
    at_two = laws.parameter-bind_text stmt 2 2 b _;
  }

  -- What both functions leave alone.
  pub record Leaves (before after : Database sql) : Type 0 where
    pub same_db : after.db ≡ before.db
    pub same_pending : laws.pending after.state ≡ laws.pending before.state

  abbrev pub users_in : Database sql → List Account
  users_in database = laws.users database.state

  -- An account was added under a name that was free, or the table is as it was and the result is -1.
  pub data Adds (name hash : List ℕ) (before : Database sql) : ℤ → Database sql → Type 0 where
    added :
        {after : Database sql} (id : ℕ)
        → ¬ HasName name (users_in before)
        → users_in after ≡ record { id = id; name = name; password_hash = hash } ∷ users_in before
        → Leaves before after
        → Adds name hash before (int_of id) after
    not_added :
        {after : Database sql}
        → users_in after ≡ users_in before
        → Leaves before after
        → Adds name hash before minus_one after

  module _ (name hash : List ℕ) (database : Database sql) (stmt : sql.Stmt)
      (prepared : (sql.prepare insert_user database.state).0 ≡ some stmt) where
    abbrev at_step : sql.State
    at_step = bound stmt name hash (sql.prepare insert_user database.state).1

    abbrev stepped : sql.State
    stepped = (sql.step stmt at_step).1

    here : IsReady insert_user stmt name hash database.state at_step
    here = ready insert_user stmt name hash database.state prepared

    leaves : Leaves database (record database { state = sql.finalize stmt stepped })
    leaves = record {
      same_db = refl;
      same_pending = omega (
        arith,
        laws.pending-finalize stmt stepped,
        laws.pending-step stmt at_step,
        here.one_more,
      );
    }

    not_finished :
        (sql.step stmt at_step).0 ≢ finished
        → Ensures
            (Adds name hash database)
            (return minus_one (record database { state = sql.finalize stmt stepped }))
    not_finished ne = returns (
        not_added
          ((laws.finalize-Unchanged stmt stepped).users_kept
            ∙ laws.step-insert_user_failed stmt at_step here.source ne
            ∙ here.kept)
          leaves)

    after_insert_user-Adds :
        (rc : StepResult)
        → (sql.step stmt at_step).0 ≡ rc
        → Ensures
            (Adds name hash database)
            (after_insert_user sql stmt rc (record database { state = stepped }))
    unfolding after_insert_user
    after_insert_user-Adds finished e =
        let law = laws.step-insert_user stmt at_step here.source e in
        returns (
          added (sql.last_insert_rowid stepped)
            (λ h. law.0 (
              subst (λ (n : List ℕ). HasName n (laws.users at_step)) (sym here.at_one)
                (subst (HasName name) (sym here.kept) h)))
            ((laws.finalize-Unchanged stmt stepped).users_kept ∙ law.1 ∙ λ i.
              record {
                id = sql.last_insert_rowid stepped;
                name = here.at_one i;
                password_hash = here.at_two i;
              }
              ∷ here.kept i)
            leaves)
    after_insert_user-Adds row e = not_finished (λ q. cc)
    after_insert_user-Adds constraint e = not_finished (λ q. cc)
    after_insert_user-Adds (step_error n) e = not_finished (λ q. cc)

  insert_user_with-Adds :
      (name hash : List ℕ) (database : Database sql) (o : Option sql.Stmt)
      → (sql.prepare insert_user database.state).0 ≡ o
      → Ensures (Adds name hash database) (
          insert_user_with sql name hash o
            (record database { state = (sql.prepare insert_user database.state).1 }))
  unfolding insert_user_with
  insert_user_with-Adds name hash database none e = returns (
      not_added (laws.prepare-Unchanged insert_user database.state).users_kept (record {
        same_db = refl;
        same_pending = laws.pending-prepare_none insert_user database.state e;
      }))
  insert_user_with-Adds name hash database (some stmt) e =
      after_insert_user-Adds name hash database stmt e _ refl

  -- `db_add_user` returns. Either it has added one account with the name and the hash of the password,
  -- under a name that no account had, and returns the number of its row as an int; or the accounts
  -- are as they were and it returns -1. On every path each statement that was prepared is finalized.
  pub db_add_user-Adds :
      (name password : List ℕ) (database : Database sql)
      → Ensures
          (Adds name (hash_password password 64) database)
          (db_add_user sql name password database)
  unfolding db_add_user if_db
  db_add_user-Adds name password database = pick database.db
    where
      hash : List ℕ
      hash = hash_password password 64

      run : M (Database sql) ℤ
      run = query sql (sql.prepare insert_user) >>= insert_user_with sql name hash

      pick :
          (b : Bool)
          → Ensures
              (Adds name hash database)
              (if b then run database else return minus_one database)
      pick true = insert_user_with-Adds name hash database _ refl
      pick false = returns (not_added refl (record { same_db = refl; same_pending = refl }))
