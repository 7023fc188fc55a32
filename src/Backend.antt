-- ===== src/Backend.antt =====
-- FISAC1/src/protocol.c: the texts that the handlers send, and what they read in the backend's
-- answers.
pub mod Replies
use npacn_fisac.Base.{ℕ, Bool, true, false, ◌||◌, ◌==◌, if◌then◌else◌}
use npacn_fisac.Base.{Option, none, some, List, ◌++◌}
use npacn_fisac.Base.CText.{codes, fit}
use npacn_fisac.Base.Int.{ℤ, pos, negsuc, print_int}
use npacn_fisac.Json.{Json, Kind, same_kind, is_true, number, string}
use npacn_fisac.Client.{ClientInfo, max_username}

-- `{"success":…}` responses are all of type `auth_response`.
abbrev pub failure_response : List ℕ → List ℕ
failure_response message =
    codes "{\"type\":\"auth_response\",\"payload\":{\"success\":false,\"message\":\""
    ++ (message ++ codes "\"}}")

abbrev pub success_response : List ℕ → ℤ → List ℕ → List ℕ
success_response message user_id username =
    codes "{\"type\":\"auth_response\",\"payload\":{\"success\":true,\"message\":\""
    ++ (message
        ++ (codes "\",\"user_id\":"
            ++ (print_int user_id ++ (codes ",\"username\":\"" ++ (username ++ codes "\"}}")))))

abbrev pub missing_credentials : List ℕ
missing_credentials = failure_response (codes "Missing username or password")

abbrev pub authentication_required : List ℕ
authentication_required =
    codes "{\"type\":\"error\",\"payload\":{\"message\":\"Authentication required\"}}"

-- The request to the backend, as `snprintf` leaves it in 512 bytes. The strings are not escaped.
unfoldable pub credentials_json : List ℕ → List ℕ → List ℕ
credentials_json username password = fit 512 (
    codes "{\"username\":\""
    ++ (username ++ (codes "\",\"password\":\"" ++ (password ++ codes "\"}"))))

unfoldable pub log_json : List ℕ → List ℕ → List ℕ
log_json level message =
    fit 512
      (codes "{\"level\":\"" ++ (level ++ (codes "\",\"message\":\"" ++ (message ++ codes "\"}"))))

-- What the backend said of a user: an id, or a message to pass on.
pub data Verdict : Type 0 where
  granted : ℤ → Verdict
  denied : List ℕ → Verdict

-- The client once a user is logged in.
unfoldable pub log_in : ClientInfo → ℤ → List ℕ → ClientInfo
log_in client user_id username = record client {
  authenticated = true;
  user_id = user_id;
  username = fit max_username username;
}

module _ (json : Json) where
  open json use {
    Item, parse, get_object_item, kind, valuestring, valueint, valuedouble, print_double,
  }

  abbrev pub has_kind : Item → Kind → Bool
  has_kind item k = same_kind (kind item) k

  abbrev pub string_of : Option Item → Option (List ℕ)
  string_of none = none
  string_of (some item) = if has_kind item string then some (valuestring item) else none

  -- `item->type == cJSON_Number` of an item that may be NULL, and its number as an int.
  abbrev pub number_of : Option Item → Option ℤ
  number_of none = none
  number_of (some item) = if has_kind item number then some (valueint item) else none

  abbrev pub is_one : ℤ → Bool
  is_one (pos n) = n == 1
  is_one (negsuc n) = false

  -- `succ && (succ->type == cJSON_True || succ->valueint == 1)`
  abbrev pub succeeded : Option Item → Bool
  succeeded none = false
  succeeded (some item) = has_kind item is_true || is_one (valueint item)

  abbrev pub granted_or : Option ℤ → Verdict → Verdict
  granted_or (some user_id) other = granted user_id
  granted_or none other = other

  abbrev pub auth_denied : Verdict
  auth_denied = denied (codes "Invalid credentials or service unavailable")

  abbrev pub register_denied : Verdict
  register_denied = denied (codes "Registration failed")

  -- The backend's answer to `/auth`; `none` when the request failed.
  unfoldable pub auth_verdict : Option (List ℕ) → Verdict
  auth_verdict none = auth_denied
  auth_verdict (some resp_json) = elim (parse resp_json) [
    | none ↦ auth_denied
    | some parsed_resp ↦
        if succeeded (get_object_item parsed_resp (codes "success"))
        then granted_or (number_of (get_object_item parsed_resp (codes "user_id"))) auth_denied
        else auth_denied
  ]

  abbrev pub denied_with : Option (List ℕ) → Verdict
  denied_with none = register_denied
  denied_with (some message) = denied (fit 256 message)

  -- The backend's answer to `/register`.
  unfoldable pub register_verdict : Option (List ℕ) → Verdict
  register_verdict none = register_denied
  register_verdict (some resp_json) = elim (parse resp_json) [
    | none ↦ register_denied
    | some parsed_resp ↦
        if succeeded (get_object_item parsed_resp (codes "success"))
        then granted_or (number_of (get_object_item parsed_resp (codes "user_id"))) register_denied
        else denied_with (string_of (get_object_item parsed_resp (codes "message")))
  ]
