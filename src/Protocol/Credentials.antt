-- ===== src/Protocol/Credentials.antt =====
-- The messages with credentials and their texts, written out apart from the code.
use npacn_fisac.Base.{
  ℕ, ◌≡◌, ◌≤◌, refl, arith, true, false, Bool, Bool-cases, ltb, ◌||◌, inl, inr, ◌⊎◌,
}
use npacn_fisac.Base.{Option, none, some, List, ◌++◌, length, take}
use npacn_fisac.Base.CText.{codes}
use npacn_fisac.Base.Int.{ℤ, print_int}
use npacn_fisac.Escape.{json_escape_minimal}
use npacn_fisac.Backend.{Verdict, granted, denied}
use npacn_fisac.Protocol.{bad_length}

-- The two messages with credentials: their type, where the backend is asked, and with which text.
pub data Login : Type 0 where
  auth register : Login

abbrev pub type_of : Login → List ℕ
type_of auth = codes "auth"
type_of register = codes "register"

abbrev pub endpoint_of : Login → List ℕ
endpoint_of auth = codes "/auth"
endpoint_of register = codes "/register"

abbrev pub is_login : Login → Bool
is_login auth = true
is_login register = false

abbrev pub asked_text : List ℕ → List ℕ → List ℕ
asked_text username password = take 511 (
    codes "{\"username\":\""
    ++ (username ++ (codes "\",\"password\":\"" ++ (password ++ codes "\"}"))))

-- The answers to a client.
abbrev pub failure_text : List ℕ → List ℕ
failure_text message =
    codes "{\"type\":\"auth_response\",\"payload\":{\"success\":false,\"message\":\""
    ++ (message ++ codes "\"}}")

abbrev success_text : List ℕ → ℤ → List ℕ → List ℕ
success_text message user_id username =
    codes "{\"type\":\"auth_response\",\"payload\":{\"success\":true,\"message\":\""
    ++ (message
        ++ (codes "\",\"user_id\":"
            ++ (print_int user_id ++ (codes ",\"username\":\"" ++ (username ++ codes "\"}}")))))

abbrev pub answer_of : Login → List ℕ → Verdict → List ℕ
answer_of auth username (granted user_id) =
    take 767
      (success_text (codes "Authentication successful") user_id (json_escape_minimal username 128))
answer_of auth username (denied message) = take 767 (failure_text message)
answer_of register username (granted user_id) =
    take 1023
      (success_text (codes "Registration successful") user_id (json_escape_minimal username 128))
answer_of register username (denied message) =
    take 1023 (failure_text (json_escape_minimal message 384))

-- A registration wants a name of 2 to 50 bytes and a password of at least 3.
abbrev pub AreAllowed : Login → List ℕ → List ℕ → Type 0
AreAllowed auth username password = Unit
AreAllowed register username password =
    (2 ≤ length username) × (length username ≤ 50) × (3 ≤ length password)

pub bad_length-AreAllowed :
    (username password : List ℕ)
    → ((bad_length username password ≡ true) × (¬ AreAllowed register username password))
      ⊎ ((bad_length username password ≡ false) × AreAllowed register username password)
bad_length-AreAllowed username password = decide (length username) (length password)
  where
    decide :
        (u p : ℕ)
        → (((ltb u 2 || ltb 50 u || ltb p 3) ≡ true) × (¬ ((2 ≤ u) × (u ≤ 50) × (3 ≤ p))))
          ⊎ (((ltb u 2 || ltb 50 u || ltb p 3) ≡ false) × ((2 ≤ u) × (u ≤ 50) × (3 ≤ p)))
    decide u p = elim (Bool-cases (ltb u 2)) [
      | inl a ↦ inl (rw a refl, λ h. ground (arith, h, a))
      | inr a ↦ elim (Bool-cases (ltb 50 u)) [
        | inl b ↦ inl (rw (a, b) refl, λ h. ground (arith, h, b))
        | inr b ↦ elim (Bool-cases (ltb p 3)) [
          | inl c ↦ inl (rw (a, b, c) refl, λ h. ground (arith, h, c))
          | inr c ↦ inr (rw (a, b, c) refl, (ground arith, ground arith, ground arith))
        ]
      ]
    ]

-- Credentials that are refused without asking the backend, with the text of the refusal.
pub data Refuses : Login → Option (List ℕ) → Option (List ℕ) → List ℕ → Type 0 where
  no_username :
      {login : Login} {p : Option (List ℕ)}
      → Refuses login none p (failure_text (codes "Missing username or password"))
  no_password :
      {login : Login} {u : Option (List ℕ)}
      → Refuses login u none (failure_text (codes "Missing username or password"))
  bad_lengths :
      {username password : List ℕ}
      → ¬ AreAllowed register username password
      → Refuses register
          (some username)
          (some password)
          (failure_text (codes "Invalid username or password length"))
