-- ===== src/Tests/Accounts.antt =====
-- Accounts and sessions in the test database.
use npacn_fisac.Base.{◌+◌}
use npacn_fisac.Base.{
  ℕ, ◌≡◌, refl, arith, inl, ◌⊎◌, true, List, [], ◌∷◌, length, return, ◌>>=◌, Ensures, none, Option,
}
use npacn_fisac.Base.CText.{codes, c_str}
use npacn_fisac.Base.Int.{ℤ}
use npacn_fisac.Database.{
  djb2_loop, sign_extend, hex_digits, hex_digit, Database, minus_one, djb2_hash, hash_password,
  db_add_user, db_auth_user, token_text, generate_token, db_create_session,
}
use npacn_fisac.Database.Hash.{read_hex, read_hex-hash_password}
use npacn_fisac.Database.Accounts.{Adds, db_add_user-Adds}
use npacn_fisac.Database.Login.{Finds, db_auth_user-Finds, db_auth_user-db_add_user}
use npacn_fisac.Database.Sessions.{
  AreHexDigits, generate_token-AreHexDigits, db_create_session_same_second,
}
use npacn_fisac.Tests.Memory.{Tables, memory, memory-IsSqlite, memory-IsReliable}

abbrev empty_tables : Tables
empty_tables = record {
  users = [];
  tokens = [];
  pending = 0;
  source = [];
  texts = λ i. [];
  column = minus_one;
  last = 0;
}

abbrev empty_database : Database memory
empty_database = record { db = true; state = empty_tables }

-- A session was opened in this second.
abbrev one_session : Database memory
one_session = record {
  db = true;
  state = record empty_tables { tokens = token_text memory 32 empty_tables ∷ [] };
}

read_hex-hash_password_example :
    (length (hash_password (codes "pass1") 64) ≡ 16)
    × (read_hex 0 (hash_password (codes "pass1") 64) ≡ djb2_hash (codes "pass1"))
read_hex-hash_password_example = read_hex-hash_password (codes "pass1") 64 (omega arith)

db_add_user-Adds_example :
    Ensures
      (Adds memory-IsSqlite (codes "user1") (hash_password (codes "pass1") 64) empty_database)
      (db_add_user memory (codes "user1") (codes "pass1") empty_database)
db_add_user-Adds_example =
    db_add_user-Adds memory-IsSqlite (codes "user1") (codes "pass1") empty_database

db_auth_user-Finds_example :
    Ensures
      (Finds memory-IsSqlite (codes "user1") (hash_password (codes "pass1") 64) empty_database)
      (db_auth_user memory (codes "user1") (codes "pass1") empty_database)
db_auth_user-Finds_example =
    db_auth_user-Finds memory-IsSqlite (codes "user1") (codes "pass1") empty_database

db_auth_user-db_add_user_example :
    Ensures
      (λ (r : ℤ × ℤ) (after : Database memory). (r.0 ≡ minus_one) ⊎ (r.1 ≡ r.0))
      ((db_add_user memory (codes "user1") (codes "pass1") >>= λ user_id.
          db_auth_user memory (codes "user1") (codes "pass1") >>= λ again. return (user_id, again))
        empty_database)
db_auth_user-db_add_user_example =
    db_auth_user-db_add_user memory-IsSqlite (codes "user1") (codes "pass1") empty_database
      memory-IsReliable refl

generate_token-AreHexDigits_example :
    Ensures
      (λ (token : List ℕ) (after : Database memory).
        (length token + 1 ≡ 33)
        × AreHexDigits token
        × (after ≡ empty_database)
        × ((other : Database memory)
            → memory.time other.state ≡ memory.time empty_database.state
            → generate_token memory 33 other ≡ return token other))
      (generate_token memory 33 empty_database)
generate_token-AreHexDigits_example =
    generate_token-AreHexDigits memory 33 empty_database (omega arith)

db_create_session_same_second_example :
    Ensures
      (λ (r : Option (List ℕ)) (after : Database memory). r ≡ none)
      (db_create_session memory minus_one 64 one_session)
db_create_session_same_second_example =
    db_create_session_same_second memory-IsSqlite minus_one 64 empty_tables one_session refl
      (inl refl)

-- Two passwords that the database takes for each other.
same_hash : hash_password (codes "pass1") 64 ≡ hash_password (codes "pbRs1") 64
unfolding hash_password djb2_hash djb2_loop sign_extend hex_digits hex_digit c_str
same_hash = refl
