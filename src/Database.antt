-- ===== src/Database.antt =====
-- FISAC1/src/database.c: accounts, sessions, locations and logs in a SQLite database.
pub mod Hash
pub mod Accounts
pub mod Login
pub mod Sessions
use npacn_fisac.Base.{
  ℕ, zero, suc, ◌+◌, ◌-◌, ◌*◌, ◌/◌, ◌%◌, ◌^◌, bit_xor, Bool, true, false, not, ltb, if◌then◌else◌,
}
use npacn_fisac.Base.{
  Option, none, some, List, [], ◌∷◌, ◌++◌, get_or, M, fault, return, call, perform, ◌>>=◌, ◌>>◌,
}
use npacn_fisac.Base.CText.{codes, c_str, fit}
use npacn_fisac.Base.Int.{ℤ, pos, negsuc}
use npacn_fisac.Sqlite.{Sqlite, OpenResult, opened, not_opened, StepResult, row, finished}
use npacn_fisac.Sqlite.{constraint, step_error, int_of}

-- A `char` is signed, so a byte from 128 on is negative; as an `unsigned long`, which has 32 bits on
-- Windows, it is that much below 2 ^ 32.
unfoldable pub sign_extend : ℕ → ℕ
sign_extend c = if ltb c 128 then c else c + (2 ^ 32 - 2 ^ 8)

unfoldable pub djb2_loop : ℕ → List ℕ → ℕ
djb2_loop hash [] = hash
djb2_loop hash (c ∷ str) = djb2_loop ((hash * 2 ^ 5 % 2 ^ 32 + hash + sign_extend c) % 2 ^ 32) str

unfoldable pub djb2_hash : List ℕ → ℕ
djb2_hash str = djb2_loop 5381 (c_str str)

abbrev pub hex : List ℕ
hex = codes "0123456789abcdef"

unfoldable pub hex_digit : ℕ → ℕ
hex_digit d = get_or hex d 0

-- `%0*lx` of a number with at most `width` digits.
unfoldable pub hex_digits : ℕ → ℕ → List ℕ
hex_digits zero h = []
hex_digits (suc width) h = hex_digit (h / 16 ^ width % 16) ∷ hex_digits width h

unfoldable pub hash_password : List ℕ → ℕ → List ℕ
hash_password password out_size = fit out_size (hex_digits 16 (djb2_hash password))

abbrev pub minus_one : ℤ
minus_one = negsuc 0

abbrev pub insert_user : List ℕ
insert_user = codes "INSERT INTO users (username, password_hash) VALUES (?, ?)"

abbrev pub select_user : List ℕ
select_user = codes "SELECT id FROM users WHERE username = ? AND password_hash = ?"

abbrev pub insert_session : List ℕ
insert_session =
    codes "INSERT INTO sessions (user_id, session_token, expires_at) "
    ++ codes "VALUES (?, ?, datetime('now', '+24 hours'))"

abbrev pub insert_location : List ℕ
insert_location = codes "INSERT INTO locations (user_id, latitude, longitude) VALUES (?, ?, ?)"

abbrev pub insert_log : List ℕ
insert_log = codes "INSERT INTO logs (level, message) VALUES (?, ?)"

abbrev pub schema : List ℕ
schema =
    codes "CREATE TABLE IF NOT EXISTS users (  id INTEGER PRIMARY KEY AUTOINCREMENT,"
    ++ (codes "  username TEXT UNIQUE NOT NULL,  password_hash TEXT NOT NULL,"
        ++ (codes "  created_at DATETIME DEFAULT CURRENT_TIMESTAMP);"
            ++ (codes
                  "CREATE TABLE IF NOT EXISTS locations (  id INTEGER PRIMARY KEY AUTOINCREMENT,"
                ++ (codes
                      "  user_id INTEGER NOT NULL REFERENCES users(id),  latitude REAL NOT NULL,"
                    ++ (codes
                          "  longitude REAL NOT NULL,  timestamp DATETIME DEFAULT CURRENT_TIMESTAMP);"
                        ++ (codes
                              "CREATE TABLE IF NOT EXISTS sessions (  id INTEGER PRIMARY KEY AUTOINCREMENT,"
                            ++ (codes "  user_id INTEGER NOT NULL REFERENCES users(id),"
                                ++ (codes "  session_token TEXT UNIQUE NOT NULL,"
                                    ++ (codes
                                          "  created_at DATETIME DEFAULT CURRENT_TIMESTAMP,  expires_at DATETIME NOT NULL);"
                                        ++ (codes
                                              "CREATE TABLE IF NOT EXISTS logs (  id INTEGER PRIMARY KEY AUTOINCREMENT,"
                                            ++ (codes
                                                  "  level TEXT NOT NULL,  message TEXT NOT NULL,"
                                                ++ (codes
                                                      "  timestamp DATETIME DEFAULT CURRENT_TIMESTAMP);"
                                                    ++ (codes
                                                          "CREATE INDEX IF NOT EXISTS idx_locations_user ON locations(user_id);"
                                                        ++ (codes
                                                            "CREATE INDEX IF NOT EXISTS idx_locations_ts ON locations(timestamp);"
                                                            ++ (codes
                                                            "CREATE INDEX IF NOT EXISTS idx_sessions_user ON sessions(user_id);"
                                                            ++ (codes
                                                            "CREATE INDEX IF NOT EXISTS idx_logs_level ON logs(level);"
                                                            ++ codes
                                                            "CREATE INDEX IF NOT EXISTS idx_logs_ts ON logs(timestamp);"))))))))))))))))

module _ (sql : Sqlite) where
  open sql use {
    State, Stmt, Double, open_db, close_db, exec, prepare, bind_text, bind_int, bind_double,
  }
  open sql use {step, column_int, finalize, last_insert_rowid, time, process_id, rand}

  -- The global `db`, which is NULL or not, and what lies behind it.
  pub record Database : Type 0 where
    pub db : Bool
    pub state : State

  -- A call of SQLite with a result, and one without.
  abbrev pub query : {A : Type 0} → (State → A × State) → M Database A
  query f database = let (a, s) = f database.state in return a (record database { state = s })

  abbrev pub command : (State → State) → M Database (Unit {0})
  command f database = return tt (record database { state = f database.state })

  abbrev pub look : {A : Type 0} → (State → A) → M Database A
  look f database = return (f database.state) database

  -- `if (!db) return -1;`
  unfoldable pub if_db : {A : Type 0} → A → M Database A → M Database A
  if_db failure next database =
      let run = next database in if database.db then run else return failure database

  -- `len - 1` characters, and the terminator behind them.
  unfoldable pub token_from : ℕ → ℕ → ℕ → List ℕ
  token_from seed i zero = []
  token_from seed i (suc len) = hex_digit (rand seed i % 16) ∷ token_from seed (suc i) len

  -- The characters of a token, in front of its terminator.
  unfoldable pub token_text : ℕ → State → List ℕ
  token_text digits s = token_from (bit_xor (time s % 2 ^ 32) process_id) 0 digits

  -- The terminator is written to `out[len - 1]`, so for a length of 0 in front of the buffer.
  unfoldable pub generate_token : ℕ → M Database (List ℕ)
  generate_token zero = λ database. fault
  generate_token (suc digits) = look (token_text digits)

  -- 0 and -1 are `true` and `false`.
  unfoldable pub after_schema : Bool → M Database Bool
  after_schema ok = return ok

  unfoldable pub after_open : OpenResult → M Database Bool
  after_open (not_opened handle) database = return false (record database { db = handle })
  after_open opened database =
      (do
        wal ← query (exec (codes "PRAGMA journal_mode=WAL;"))
        synchronous ← query (exec (codes "PRAGMA synchronous=NORMAL;"))
        ok ← query (exec schema)
        after_schema ok)
        (record database { db = true })

  unfoldable pub db_init : List ℕ → M Database Bool
  db_init db_path = query (open_db db_path) >>= after_open

  unfoldable pub db_close : M Database (Unit {0})
  db_close database =
      if database.db
      then return tt (record { db = false; state = close_db database.state })
      else return tt database

  unfoldable pub after_insert_user : Stmt → StepResult → M Database ℤ
  after_insert_user stmt finished = do
    user_id ← look last_insert_rowid
    command (finalize stmt)
    return (int_of user_id)
  after_insert_user stmt _ = command (finalize stmt) >> return minus_one

  unfoldable pub insert_user_with : List ℕ → List ℕ → Option Stmt → M Database ℤ
  insert_user_with username pwd_hash none = return minus_one
  insert_user_with username pwd_hash (some stmt) = do
    command (bind_text stmt 1 username)
    command (bind_text stmt 2 pwd_hash)
    rc ← query (step stmt)
    after_insert_user stmt rc

  unfoldable pub db_add_user : List ℕ → List ℕ → M Database ℤ
  db_add_user username password =
      if_db minus_one
        (query (prepare insert_user) >>= insert_user_with username (hash_password password 64))

  unfoldable pub after_select_user : Stmt → StepResult → M Database ℤ
  after_select_user stmt row = do
    user_id ← look (column_int stmt 0)
    command (finalize stmt)
    return user_id
  after_select_user stmt _ = command (finalize stmt) >> return minus_one

  unfoldable pub select_user_with : List ℕ → List ℕ → Option Stmt → M Database ℤ
  select_user_with username pwd_hash none = return minus_one
  select_user_with username pwd_hash (some stmt) = do
    command (bind_text stmt 1 username)
    command (bind_text stmt 2 pwd_hash)
    rc ← query (step stmt)
    after_select_user stmt rc

  unfoldable pub db_auth_user : List ℕ → List ℕ → M Database ℤ
  db_auth_user username password =
      if_db minus_one
        (query (prepare select_user) >>= select_user_with username (hash_password password 64))

  abbrev pub is_finished : StepResult → Bool
  is_finished finished = true
  is_finished _ = false

  -- The end that the other insertions share: `rc == SQLITE_DONE` after `sqlite3_finalize`.
  unfoldable pub step_and_finalize : Stmt → M Database Bool
  step_and_finalize stmt = do
    rc ← query (step stmt)
    command (finalize stmt)
    return (is_finished rc)

  unfoldable pub insert_session_with : ℤ → List ℕ → Option Stmt → M Database (Option (List ℕ))
  insert_session_with user_id token none = return none
  insert_session_with user_id token (some stmt) = do
    command (bind_int stmt 1 user_id)
    command (bind_text stmt 2 token)
    ok ← step_and_finalize stmt
    return (if ok then some token else none)

  -- `none` is -1; with 0 comes the token in the caller's buffer.
  unfoldable pub db_create_session : ℤ → ℕ → M Database (Option (List ℕ))
  db_create_session user_id token_buf_size =
      let create = do
        token_out ← generate_token 33
        stmt ← query (prepare insert_session)
        insert_session_with user_id token_out stmt
      in if_db none (if ltb token_buf_size 33 then return none else create)

  unfoldable pub insert_location_with : ℤ → Double → Double → Option Stmt → M Database Bool
  insert_location_with user_id latitude longitude none = return false
  insert_location_with user_id latitude longitude (some stmt) = do
    command (bind_int stmt 1 user_id)
    command (bind_double stmt 2 latitude)
    command (bind_double stmt 3 longitude)
    step_and_finalize stmt

  unfoldable pub db_add_location : ℤ → Double → Double → M Database Bool
  db_add_location user_id latitude longitude =
      if_db false
        (query (prepare insert_location) >>= insert_location_with user_id latitude longitude)

  unfoldable pub insert_log_with : List ℕ → List ℕ → Option Stmt → M Database Bool
  insert_log_with level message none = return false
  insert_log_with level message (some stmt) = do
    command (bind_text stmt 1 level)
    command (bind_text stmt 2 message)
    step_and_finalize stmt

  unfoldable pub db_add_log : List ℕ → List ℕ → M Database Bool
  db_add_log level message =
      if_db false (query (prepare insert_log) >>= insert_log_with level message)

  unfoldable pub db_seed_users : M Database (Unit {0})
  db_seed_users = do
    user1 ← db_add_user (codes "user1") (codes "pass1")
    user2 ← db_add_user (codes "user2") (codes "pass2")
    user3 ← db_add_user (codes "user3") (codes "pass3")
    admin ← db_add_user (codes "admin") (codes "admin123")
    return tt
