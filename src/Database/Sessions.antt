-- ===== src/Database/Sessions.antt =====
-- Session tokens.
use npacn_fisac.Base.{
  ℕ, zero, suc, ◌+◌, ◌%◌, ◌^◌, ◌<◌, ◌≡◌, ◌≢◌, refl, arith, ◌∙◌, ap, sym, subst, bit_xor,
}
use npacn_fisac.Base.{
  Bool, true, false, Option, none, some, List, [], ◌∷◌, length, ltb, if◌then◌else◌, Bool-cases, inl,
  inr, ◌⊎◌,
}
use npacn_fisac.Base.{M, return, Ensures, returns, ◌>>=◌, passes_under, passes_under_lem}
use npacn_fisac.Base.Int.{ℤ}
use npacn_fisac.Sqlite.{
  Sqlite, IsSqlite, HasToken, StepResult, row, finished, constraint, step_error,
}
use npacn_fisac.Database.{Database, query, if_db, insert_session, hex_digit}
use npacn_fisac.Database.{
  token_from, token_text, generate_token, insert_session_with, step_and_finalize, is_finished,
  db_create_session,
}

-- The digits 0 to 9 and a to f.
abbrev pub IsHexDigit : ℕ → Type 0
IsHexDigit c = ((47 < c) × (c < 58)) ⊎ ((96 < c) × (c < 103))

abbrev pub AreHexDigits : List ℕ → Type 0
AreHexDigits [] = Unit
AreHexDigits (c ∷ cs) = IsHexDigit c × AreHexDigits cs

looks_hex : ℕ → Bool
looks_hex d =
    let c = hex_digit d in
    if ltb 47 c then (if ltb c 58 then true else if ltb 96 c then ltb c 103 else false) else false

all_hex : passes_under looks_hex 16 ≡ true
unfolding looks_hex hex_digit
all_hex = refl

hex_digit-IsHexDigit : (d : ℕ) → d < 16 → IsHexDigit (hex_digit d)
hex_digit-IsHexDigit d h =
    decide (hex_digit d) (unfold looks_hex in passes_under_lem looks_hex 16 d h all_hex)
  where
    decide :
        (c : ℕ)
        → (if ltb 47 c
            then (if ltb c 58 then true else if ltb 96 c then ltb c 103 else false)
            else false)
          ≡ true
        → IsHexDigit c
    decide c e = elim (Bool-cases (ltb c 58)) [
      | inl low ↦ inl (ground arith, ground arith)
      | inr high ↦ inr (ground arith, ground arith)
    ]

module _ (sql : Sqlite) where
  token_from-AreHexDigits :
      (seed i n : ℕ)
      → (length (token_from sql seed i n) ≡ n) × AreHexDigits (token_from sql seed i n)
  unfolding token_from
  token_from-AreHexDigits seed i zero = (refl, tt)
  token_from-AreHexDigits seed i (suc n) =
      let rest = token_from-AreHexDigits seed (suc i) n in
      (ap suc rest.0, (hex_digit-IsHexDigit (sql.rand seed i % 16) (omega arith), rest.1))

  token_text-AreHexDigits :
      (digits : ℕ) (s : sql.State)
      → (length (token_text sql digits s) ≡ digits) × AreHexDigits (token_text sql digits s)
  unfolding token_text
  token_text-AreHexDigits digits s =
      token_from-AreHexDigits (bit_xor (sql.time s % 2 ^ 32) sql.process_id) 0 digits

  token_text_same_second :
      (digits : ℕ) (s t : sql.State)
      → sql.time t ≡ sql.time s
      → token_text sql digits t ≡ token_text sql digits s
  unfolding token_text
  token_text_same_second digits s t e i =
      token_from sql (bit_xor (e i % 2 ^ 32) sql.process_id) 0 digits

  -- For a buffer of at least one byte, `generate_token` returns a token of one character less than the
  -- buffer has bytes, all of them lower-case hexadecimal digits, and leaves the database as it is. In
  -- every state of the same second the token is the same.
  pub generate_token-AreHexDigits :
      (len : ℕ) (database : Database sql)
      → 0 < len
      → Ensures
          (λ (token : List ℕ) (after : Database sql).
            (length token + 1 ≡ len)
            × AreHexDigits token
            × (after ≡ database)
            × ((other : Database sql)
                → sql.time other.state ≡ sql.time database.state
                → generate_token sql len other ≡ return token other))
          (generate_token sql len database)
  unfolding generate_token
  generate_token-AreHexDigits zero database pos = absurd (omega (arith, pos))
  generate_token-AreHexDigits (suc digits) database pos =
      let shape = token_text-AreHexDigits digits database.state in
      returns (
        omega (arith, shape.0),
        shape.1,
        refl,
        λ other e.
            ap (λ (token : List ℕ). return token other)
              (token_text_same_second digits database.state other.state e),
      )

module _ {sql : Sqlite} (laws : IsSqlite sql) where
  abbrev Refused : Option (List ℕ) → Database sql → Type 0
  Refused r after = r ≡ none

  module _ (user_id : ℤ) (token : List ℕ) (database : Database sql) (stmt : sql.Stmt)
      (prepared : (sql.prepare insert_session database.state).0 ≡ some stmt)
      (taken : HasToken token (laws.tokens database.state)) where
    abbrev at_step : sql.State
    at_step =
        sql.bind_text stmt 2 token
          (sql.bind_int stmt 1 user_id (sql.prepare insert_session database.state).1)

    source : laws.text_of stmt at_step ≡ insert_session
    source =
        laws.text_of-bind_text stmt 2 token _
        ∙ laws.text_of-bind_int stmt 1 user_id _
        ∙ laws.text_of-prepare insert_session database.state stmt prepared

    tokens_at_step : laws.tokens at_step ≡ laws.tokens database.state
    tokens_at_step =
        (laws.bind_text-Unchanged stmt 2 token _).tokens_kept
        ∙ (laws.bind_int-Unchanged stmt 1 user_id _).tokens_kept
        ∙ (laws.prepare-Unchanged insert_session database.state).tokens_kept

    not_inserted : (sql.step stmt at_step).0 ≢ finished
    not_inserted e = (laws.step-insert_session stmt at_step source e).0 (
        subst (λ (t : List ℕ). HasToken t (laws.tokens at_step))
          (sym (laws.parameter-bind_text stmt 2 2 token _))
          (subst (HasToken token) (sym tokens_at_step) taken))

    refused :
        (rc : StepResult)
        → rc ≢ finished
        → (after : Database sql)
        → Ensures Refused (return (if is_finished sql rc then some token else none) after)
    refused finished ne after = absurd (ne refl)
    refused row ne after = returns refl
    refused constraint ne after = returns refl
    refused (step_error n) ne after = returns refl

  -- While the token of 32 characters that is made in a state `made` is stored, every call of `db_create_session` in the
  -- same second returns -1, for every user and every buffer: the new token is the stored one.
  pub db_create_session_same_second :
      (user_id : ℤ) (size : ℕ) (made : sql.State) (database : Database sql)
      → sql.time database.state ≡ sql.time made
      → HasToken (token_text sql 32 made) (laws.tokens database.state)
      → Ensures Refused (db_create_session sql user_id size database)
  unfolding db_create_session generate_token if_db insert_session_with step_and_finalize
  db_create_session_same_second user_id size made database same taken =
      pick database.db (ltb size 33)
    where
      token : List ℕ
      token = token_text sql 32 database.state

      stored : HasToken token (laws.tokens database.state)
      stored =
          subst (λ (t : List ℕ). HasToken t (laws.tokens database.state))
            (sym (token_text_same_second sql 32 made database.state same)) taken

      prepared : Database sql
      prepared = record database { state = (sql.prepare insert_session database.state).1 }

      insert :
          (o : Option sql.Stmt)
          → (sql.prepare insert_session database.state).0 ≡ o
          → Ensures Refused (insert_session_with sql user_id token o prepared)
      insert none e = returns refl
      insert (some stmt) e =
          refused user_id token database stmt e stored _
            (not_inserted user_id token database stmt e stored) _

      create : M (Database sql) (Option (List ℕ))
      create = do
        token_out ← generate_token sql 33
        stmt ← query sql (sql.prepare insert_session)
        insert_session_with sql user_id token_out stmt

      pick :
          (a b : Bool)
          → Ensures Refused
              (if a then (if b then return none else create) database else return none database)
      pick false b = returns refl
      pick true true = returns refl
      pick true false = insert _ refl
