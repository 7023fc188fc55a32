-- ===== src/Tests/Memory.antt =====
-- A database for the tests: three tables in memory, with one statement at a time.
use npacn_fisac.Base.{ℕ, suc, ◌+◌, ◌-◌, ◌≡◌, ◌≢◌, refl, arith, ◌∙◌, ap, sym, ◌⊎◌, inl, inr}
use npacn_fisac.Base.{
  Bool, true, false, Bool-cases, ◌==◌, ◌&&◌, if◌then◌else◌, Option, none, some, List, [], ◌∷◌,
  length,
}
use npacn_fisac.Base.CText.{strcmp_eq, strcmp_eq_self, strcmp_eq_sound}
use npacn_fisac.Base.Int.{ℤ}
use npacn_fisac.Sqlite.{
  Sqlite, IsSqlite, Account, HasName, HasAccount, HasToken, StepResult, row, finished,
}
use npacn_fisac.Sqlite.{constraint, opened, int_of}
use npacn_fisac.Database.{insert_user, select_user, insert_session}
use npacn_fisac.Database.Login.{IsReliable}

pub record Tables : Type 0 where
  pub users : List Account
  pub tokens : List (List ℕ)
  pub pending : ℕ
  pub source : List ℕ
  pub texts : ℕ → List ℕ
  pub column : ℤ
  pub last : ℕ

abbrev has_name : List ℕ → List Account → Bool
has_name name [] = false
has_name name (a ∷ accounts) = if strcmp_eq a.name name then true else has_name name accounts

abbrev has_token : List ℕ → List (List ℕ) → Bool
has_token token [] = false
has_token token (t ∷ tokens) = if strcmp_eq t token then true else has_token token tokens

abbrev find : List ℕ → List ℕ → List Account → Option ℕ
find name hash [] = none
find name hash (a ∷ accounts) =
    if strcmp_eq a.name name && strcmp_eq a.password_hash hash
    then some a.id
    else find name hash accounts

abbrev new_account : Tables → Account
new_account s = record { id = suc (length s.users); name = s.texts 1; password_hash = s.texts 2 }

abbrev insert_account : Bool → Tables → StepResult × Tables
insert_account true s = (constraint, s)
insert_account false s =
    (finished, record s { users = new_account s ∷ s.users; last = suc (length s.users) })

abbrev select_account : Option ℕ → Tables → StepResult × Tables
select_account none s = (finished, s)
select_account (some id) s = (row, record s { column = int_of id })

abbrev insert_token : Bool → Tables → StepResult × Tables
insert_token true s = (constraint, s)
insert_token false s = (finished, record s { tokens = s.texts 2 ∷ s.tokens })

abbrev run_step : Tables → StepResult × Tables
run_step s =
    if strcmp_eq s.source insert_user
    then insert_account (has_name (s.texts 1) s.users) s
    else if strcmp_eq s.source select_user
    then select_account (find (s.texts 1) (s.texts 2) s.users) s
    else if strcmp_eq s.source insert_session
    then insert_token (has_token (s.texts 2) s.tokens) s
    else (finished, s)

abbrev pub memory : Sqlite
memory = record {
  State = Tables;
  Stmt = Unit {0};
  Double = ℕ;
  open_db = λ path s. (opened, s);
  close_db = λ s. s;
  exec = λ text s. (true, s);
  prepare = λ text s. (some tt, record s { pending = suc s.pending; source = text });
  bind_text = λ stmt i t s. record s { texts = λ j. if i == j then t else s.texts j };
  bind_int = λ stmt i n s. s;
  bind_double = λ stmt i x s. s;
  step = λ stmt s. run_step s;
  column_int = λ stmt i s. s.column;
  finalize = λ stmt s. record s { pending = s.pending - 1 };
  last_insert_rowid = λ s. s.last;
  time = λ s. 1700000000;
  process_id = 4242;
  rand = λ seed i. seed + i;
}

has_name_sound :
    (name : List ℕ) (accounts : List Account)
    → has_name name accounts ≡ false
    → ¬ HasName name accounts
has_name_sound name [] e h = h
has_name_sound name (a ∷ accounts) e (inl same) =
    cc (e, ap (λ n. strcmp_eq n name) same, strcmp_eq_self name)
has_name_sound name (a ∷ accounts) e (inr h) = has_name_sound name accounts (ground arith) h

has_token_sound :
    (token : List ℕ) (tokens : List (List ℕ))
    → has_token token tokens ≡ false
    → ¬ HasToken token tokens
has_token_sound token [] e h = h
has_token_sound token (t ∷ tokens) e (inl same) =
    ground (arith, ap (λ n. strcmp_eq n token) same, strcmp_eq_self token)
has_token_sound token (t ∷ tokens) e (inr h) = has_token_sound token tokens (ground arith) h

find_sound :
    (name hash : List ℕ) (accounts : List Account) (id : ℕ)
    → find name hash accounts ≡ some id
    → HasAccount name hash id accounts
find_sound name hash [] id e = cc
find_sound name hash (a ∷ accounts) id e =
    elim (Bool-cases (strcmp_eq a.name name && strcmp_eq a.password_hash hash)) [
      | inl both ↦
          inl (strcmp_eq_sound _ _ (ground arith), strcmp_eq_sound _ _ (ground arith), ground arith)
      | inr other ↦ inr (find_sound name hash accounts id (ground arith))
    ]

find_complete :
    (name hash : List ℕ) (accounts : List Account) (id : ℕ)
    → find name hash accounts ≡ none
    → ¬ HasAccount name hash id accounts
find_complete name hash [] id e h = h
find_complete name hash (a ∷ accounts) id e (inl same) = ground (
  arith,
  ap (λ n. strcmp_eq n name) same.0,
  strcmp_eq_self name,
  ap (λ n. strcmp_eq n hash) same.1,
  strcmp_eq_self hash,
)
find_complete name hash (a ∷ accounts) id e (inr h) =
    find_complete name hash accounts id (ground arith) h

-- A step of each of the three statements.
module _ (s : Tables) where
  pub insert_account-finished :
      (b : Bool)
      → has_name (s.texts 1) s.users ≡ b
      → (insert_account b s).0 ≡ finished
      → (¬ HasName (s.texts 1) s.users)
        × ((insert_account b s).1.users
            ≡ record {
              id = (insert_account b s).1.last;
              name = s.texts 1;
              password_hash = s.texts 2;
            }
              ∷ s.users)
  insert_account-finished true e f = cc
  insert_account-finished false e f = (has_name_sound (s.texts 1) s.users e, refl)

  pub insert_account-failed :
      (b : Bool) → (insert_account b s).0 ≢ finished → (insert_account b s).1.users ≡ s.users
  insert_account-failed true ne = refl
  insert_account-failed false ne = absurd (ne refl)

  pub select_account-users : (o : Option ℕ) → (select_account o s).1.users ≡ s.users
  select_account-users none = refl
  select_account-users (some id) = refl

  pub select_account-row :
      (o : Option ℕ)
      → find (s.texts 1) (s.texts 2) s.users ≡ o
      → (select_account o s).0 ≡ row
      → (id : ℕ) × HasAccount (s.texts 1) (s.texts 2) id s.users
        × ((select_account o s).1.column ≡ int_of id)
  select_account-row none e f = cc
  select_account-row (some id) e f = (id, find_sound (s.texts 1) (s.texts 2) s.users id e, refl)

  pub select_account-finished :
      (o : Option ℕ) (id : ℕ)
      → find (s.texts 1) (s.texts 2) s.users ≡ o
      → (select_account o s).0 ≡ finished
      → ¬ HasAccount (s.texts 1) (s.texts 2) id s.users
  select_account-finished none id e f = find_complete (s.texts 1) (s.texts 2) s.users id e
  select_account-finished (some n) id e f = cc

  select_account-result :
      (o : Option ℕ) → ((select_account o s).0 ≡ row) ⊎ ((select_account o s).0 ≡ finished)
  select_account-result none = inr refl
  select_account-result (some id) = inl refl

  pub insert_token-finished :
      (b : Bool)
      → has_token (s.texts 2) s.tokens ≡ b
      → (insert_token b s).0 ≡ finished
      → (¬ HasToken (s.texts 2) s.tokens) × ((insert_token b s).1.tokens ≡ s.texts 2 ∷ s.tokens)
  insert_token-finished true e f = cc
  insert_token-finished false e f = (has_token_sound (s.texts 2) s.tokens e, refl)

  pub step_insert :
      s.source ≡ insert_user → run_step s ≡ insert_account (has_name (s.texts 1) s.users) s
  step_insert e =
      choose (ap (λ (t : List ℕ). strcmp_eq t insert_user) e ∙ strcmp_eq_self insert_user)
    where
      choose :
          strcmp_eq s.source insert_user ≡ true
          → run_step s ≡ insert_account (has_name (s.texts 1) s.users) s
      choose q = rw q

  pub step_select :
      s.source ≡ select_user → run_step s ≡ select_account (find (s.texts 1) (s.texts 2) s.users) s
  step_select e =
      choose (ap (λ (t : List ℕ). strcmp_eq t insert_user) e ∙ other)
        (ap (λ (t : List ℕ). strcmp_eq t select_user) e ∙ strcmp_eq_self select_user)
    where
      other : strcmp_eq select_user insert_user ≡ false
      other = unfold strcmp_eq in refl

      choose :
          strcmp_eq s.source insert_user ≡ false
          → strcmp_eq s.source select_user ≡ true
          → run_step s ≡ select_account (find (s.texts 1) (s.texts 2) s.users) s
      choose p q = rw (p, q)

  pub step_session :
      s.source ≡ insert_session → run_step s ≡ insert_token (has_token (s.texts 2) s.tokens) s
  step_session e =
      choose (ap (λ (t : List ℕ). strcmp_eq t insert_user) e ∙ not_user)
        (ap (λ (t : List ℕ). strcmp_eq t select_user) e ∙ not_select)
        (ap (λ (t : List ℕ). strcmp_eq t insert_session) e ∙ strcmp_eq_self insert_session)
    where
      not_user : strcmp_eq insert_session insert_user ≡ false
      not_user = unfold strcmp_eq in refl

      not_select : strcmp_eq insert_session select_user ≡ false
      not_select = unfold strcmp_eq in refl

      choose :
          strcmp_eq s.source insert_user ≡ false
          → strcmp_eq s.source select_user ≡ false
          → strcmp_eq s.source insert_session ≡ true
          → run_step s ≡ insert_token (has_token (s.texts 2) s.tokens) s
      choose p q r = rw (p, q, r)

  pub pending-step : (run_step s).1.pending ≡ s.pending
  pending-step =
      pick (strcmp_eq s.source insert_user) (strcmp_eq s.source select_user)
        (strcmp_eq s.source insert_session) (has_name (s.texts 1) s.users)
        (find (s.texts 1) (s.texts 2) s.users) (has_token (s.texts 2) s.tokens)
    where
      pick :
          (a b c d : Bool) (o : Option ℕ) (e : Bool)
          → (if a
              then insert_account d s
              else if b
              then select_account o s
              else if c
              then insert_token e s
              else (finished, s)).1.pending
            ≡ s.pending
      pick true b c true o e = refl
      pick true b c false o e = refl
      pick false true c d none e = refl
      pick false true c d (some id) e = refl
      pick false false true d o true = refl
      pick false false true d o false = refl
      pick false false false d o e = refl

pub some_not_none : some (tt {0}) ≡ none → ⊥
some_not_none e = cc

abbrev pub memory-IsSqlite : IsSqlite memory
memory-IsSqlite = record {
  users = λ s. s.users;
  tokens = λ s. s.tokens;
  pending = λ s. s.pending;
  text_of = λ stmt s. s.source;
  parameter = λ stmt i s. s.texts i;
  prepare-Unchanged = λ text s. record { users_kept = refl; tokens_kept = refl };
  pending-prepare_none = λ text s e. absurd (some_not_none e);
  pending-prepare_some = λ text s stmt e. refl;
  text_of-prepare = λ text s stmt e. refl;
  bind_text-Unchanged = λ stmt i t s. record { users_kept = refl; tokens_kept = refl };
  pending-bind_text = λ stmt i t s. refl;
  text_of-bind_text = λ stmt i t s. refl;
  parameter-bind_text = λ stmt i j t s. refl;
  bind_int-Unchanged = λ stmt i n s. record { users_kept = refl; tokens_kept = refl };
  pending-bind_int = λ stmt i n s. refl;
  text_of-bind_int = λ stmt i n s. refl;
  pending-bind_double = λ stmt i x s. refl;
  pending-step = λ stmt s. pending-step s;
  step-insert_user = λ stmt s e f.
      rw (step_insert s e)
        (insert_account-finished s _ refl (ap (λ r. r.0) (sym (step_insert s e)) ∙ f));
  step-insert_user_failed = λ stmt s e ne.
      rw (step_insert s e)
        (insert_account-failed s _ (λ f. ne (ap (λ r. r.0) (step_insert s e) ∙ f)));
  step-select_user = λ stmt s e. rw (step_select s e) (select_account-users s _);
  step-select_user_row = λ stmt s e f.
      rw (step_select s e)
        (select_account-row s _ refl (ap (λ r. r.0) (sym (step_select s e)) ∙ f));
  step-select_user_finished = λ stmt s id e f.
      select_account-finished s _ id refl (ap (λ r. r.0) (sym (step_select s e)) ∙ f);
  step-insert_session = λ stmt s e f.
      rw (step_session s e)
        (insert_token-finished s _ refl (ap (λ r. r.0) (sym (step_session s e)) ∙ f));
  finalize-Unchanged = λ stmt s. record { users_kept = refl; tokens_kept = refl };
  pending-finalize = λ stmt s. refl;
}

pub memory-IsReliable : IsReliable memory-IsSqlite
memory-IsReliable = record {
  prepares = λ text s e. cc;
  selects = λ stmt s e. rw (step_select s e) (select_account-result s _);
}
