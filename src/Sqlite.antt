-- ===== src/Sqlite.antt =====
-- What FISAC1/src/database.c calls of SQLite, of the clock and of the random numbers of the C library.
-- None of it is code of the repository, so it is a parameter; `IsSqlite` states the behaviour of the
-- statements that the code relies on, as the documentation of SQLite has it.
use npacn_fisac.Base.{
  ℕ, suc, ◌-◌, ◌%◌, ◌^◌, ◌≡◌, ◌≢◌, ◌⊎◌, ◌==◌, ltb, if◌then◌else◌, Bool, Option, none, some, List,
  [], ◌∷◌,
}
use npacn_fisac.Base.CText.{codes}
use npacn_fisac.Base.Int.{ℤ, pos, negsuc}

-- `sqlite3_open`: a connection, or an error, with whether the handle was set all the same.
pub data OpenResult : Type 0 where
  opened : OpenResult
  not_opened : Bool → OpenResult

-- `sqlite3_step`: SQLITE_ROW, SQLITE_DONE, SQLITE_CONSTRAINT, or another code.
pub data StepResult : Type 0 where
  row finished constraint : StepResult
  step_error : ℕ → StepResult

pub record Sqlite : Type 1 where
  pub State : Type 0
  pub Stmt : Type 0
  pub Double : Type 0
  pub open_db : List ℕ → State → OpenResult × State
  pub close_db : State → State
  pub exec : List ℕ → State → Bool × State
  pub prepare : List ℕ → State → Option Stmt × State
  -- The parameters of a statement are numbered from 1.
  pub bind_text : Stmt → ℕ → List ℕ → State → State
  pub bind_int : Stmt → ℕ → ℤ → State → State
  pub bind_double : Stmt → ℕ → Double → State → State
  pub step : Stmt → State → StepResult × State
  pub column_int : Stmt → ℕ → State → ℤ
  pub finalize : Stmt → State → State
  -- A 64-bit number.
  pub last_insert_rowid : State → ℕ
  -- `time(NULL)`, `GetCurrentProcessId()`, and the n-th number of `rand` after `srand(seed)`.
  pub time : State → ℕ
  pub process_id : ℕ
  pub rand : ℕ → ℕ → ℕ

pub record Account : Type 0 where
  pub id : ℕ
  pub name : List ℕ
  pub password_hash : List ℕ

-- An account of this name, and one with this name and hash, with the number `id`.
abbrev pub HasName : List ℕ → List Account → Type 0
HasName name [] = ⊥
HasName name (a ∷ accounts) = (a.name ≡ name) ⊎ HasName name accounts

abbrev pub HasAccount : List ℕ → List ℕ → ℕ → List Account → Type 0
HasAccount name hash id [] = ⊥
HasAccount name hash id (a ∷ accounts) =
    ((a.name ≡ name) × (a.password_hash ≡ hash) × (a.id ≡ id)) ⊎ HasAccount name hash id accounts

abbrev pub HasToken : List ℕ → List (List ℕ) → Type 0
HasToken token [] = ⊥
HasToken token (t ∷ tokens) = (t ≡ token) ⊎ HasToken token tokens

-- `(int)` of a 64-bit number.
unfoldable pub int_of : ℕ → ℤ
int_of n = let low = n % 2 ^ 32 in if ltb low (2 ^ 31) then pos low else negsuc (2 ^ 32 - 1 - low)

-- Nothing in the tables of accounts and sessions changed.
pub record Unchanged {State : Type 0} (users : State → List Account)
    (tokens : State → List (List ℕ)) (before after : State) : Type 0 where
  pub users_kept : users after ≡ users before
  pub tokens_kept : tokens after ≡ tokens before

-- The rows of the tables, newest first, the statements that were prepared and not yet finalized, and
-- what a statement was prepared from and which texts it was given. What a step does is stated for three
-- texts of SQL, written out here; of the step of any other text nothing is known.
pub record IsSqlite (sql : Sqlite) : Type 0 where
  pub users : sql.State → List Account
  pub tokens : sql.State → List (List ℕ)
  pub pending : sql.State → ℕ
  pub text_of : sql.Stmt → sql.State → List ℕ
  pub parameter : sql.Stmt → ℕ → sql.State → List ℕ
  -- `sqlite3_prepare_v2`
  pub prepare-Unchanged :
      (text : List ℕ) (s : sql.State) → Unchanged users tokens s (sql.prepare text s).1
  pub pending-prepare_none :
      (text : List ℕ) (s : sql.State)
      → (sql.prepare text s).0 ≡ none
      → pending (sql.prepare text s).1 ≡ pending s
  pub pending-prepare_some :
      (text : List ℕ) (s : sql.State) (stmt : sql.Stmt)
      → (sql.prepare text s).0 ≡ some stmt
      → pending (sql.prepare text s).1 ≡ suc (pending s)
  pub text_of-prepare :
      (text : List ℕ) (s : sql.State) (stmt : sql.Stmt)
      → (sql.prepare text s).0 ≡ some stmt
      → text_of stmt (sql.prepare text s).1 ≡ text
  -- `sqlite3_bind_text`, `sqlite3_bind_int` and `sqlite3_bind_double`
  pub bind_text-Unchanged :
      (stmt : sql.Stmt) (i : ℕ) (t : List ℕ) (s : sql.State)
      → Unchanged users tokens s (sql.bind_text stmt i t s)
  pub pending-bind_text :
      (stmt : sql.Stmt) (i : ℕ) (t : List ℕ) (s : sql.State)
      → pending (sql.bind_text stmt i t s) ≡ pending s
  pub text_of-bind_text :
      (stmt : sql.Stmt) (i : ℕ) (t : List ℕ) (s : sql.State)
      → text_of stmt (sql.bind_text stmt i t s) ≡ text_of stmt s
  pub parameter-bind_text :
      (stmt : sql.Stmt) (i j : ℕ) (t : List ℕ) (s : sql.State)
      → parameter stmt j (sql.bind_text stmt i t s) ≡ (if i == j then t else parameter stmt j s)
  pub bind_int-Unchanged :
      (stmt : sql.Stmt) (i : ℕ) (n : ℤ) (s : sql.State)
      → Unchanged users tokens s (sql.bind_int stmt i n s)
  pub pending-bind_int :
      (stmt : sql.Stmt) (i : ℕ) (n : ℤ) (s : sql.State)
      → pending (sql.bind_int stmt i n s) ≡ pending s
  pub text_of-bind_int :
      (stmt : sql.Stmt) (i : ℕ) (n : ℤ) (s : sql.State)
      → text_of stmt (sql.bind_int stmt i n s) ≡ text_of stmt s
  pub pending-bind_double :
      (stmt : sql.Stmt) (i : ℕ) (x : sql.Double) (s : sql.State)
      → pending (sql.bind_double stmt i x s) ≡ pending s
  -- `sqlite3_step` of an insertion into a table with a UNIQUE column, and of the selection.
  pub pending-step : (stmt : sql.Stmt) (s : sql.State) → pending (sql.step stmt s).1 ≡ pending s
  pub step-insert_user :
      (stmt : sql.Stmt) (s : sql.State)
      → text_of stmt s ≡ codes "INSERT INTO users (username, password_hash) VALUES (?, ?)"
      → (sql.step stmt s).0 ≡ finished
      → (¬ HasName (parameter stmt 1 s) (users s))
        × (users (sql.step stmt s).1
            ≡ record {
              id = sql.last_insert_rowid (sql.step stmt s).1;
              name = parameter stmt 1 s;
              password_hash = parameter stmt 2 s;
            }
              ∷ users s)
  pub step-insert_user_failed :
      (stmt : sql.Stmt) (s : sql.State)
      → text_of stmt s ≡ codes "INSERT INTO users (username, password_hash) VALUES (?, ?)"
      → (sql.step stmt s).0 ≢ finished
      → users (sql.step stmt s).1 ≡ users s
  pub step-select_user :
      (stmt : sql.Stmt) (s : sql.State)
      → text_of stmt s ≡ codes "SELECT id FROM users WHERE username = ? AND password_hash = ?"
      → users (sql.step stmt s).1 ≡ users s
  pub step-select_user_row :
      (stmt : sql.Stmt) (s : sql.State)
      → text_of stmt s ≡ codes "SELECT id FROM users WHERE username = ? AND password_hash = ?"
      → (sql.step stmt s).0 ≡ row
      → (id : ℕ) × HasAccount (parameter stmt 1 s) (parameter stmt 2 s) id (users s)
        × (sql.column_int stmt 0 (sql.step stmt s).1 ≡ int_of id)
  pub step-select_user_finished :
      (stmt : sql.Stmt) (s : sql.State) (id : ℕ)
      → text_of stmt s ≡ codes "SELECT id FROM users WHERE username = ? AND password_hash = ?"
      → (sql.step stmt s).0 ≡ finished
      → ¬ HasAccount (parameter stmt 1 s) (parameter stmt 2 s) id (users s)
  pub step-insert_session :
      (stmt : sql.Stmt) (s : sql.State)
      → text_of stmt s
        ≡ codes
            "INSERT INTO sessions (user_id, session_token, expires_at) VALUES (?, ?, datetime('now', '+24 hours'))"
      → (sql.step stmt s).0 ≡ finished
      → (¬ HasToken (parameter stmt 2 s) (tokens s))
        × (tokens (sql.step stmt s).1 ≡ parameter stmt 2 s ∷ tokens s)
  -- `sqlite3_finalize`
  pub finalize-Unchanged :
      (stmt : sql.Stmt) (s : sql.State) → Unchanged users tokens s (sql.finalize stmt s)
  pub pending-finalize :
      (stmt : sql.Stmt) (s : sql.State) → pending (sql.finalize stmt s) ≡ pending s - 1
