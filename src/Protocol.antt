-- ===== src/Protocol.antt =====
-- FISAC1/src/protocol.c: the messages of a client. Console output is left out.
pub mod Credentials
pub mod Access
pub mod Gate
pub mod Sizes
pub mod Requests
pub mod Handlers
use npacn_fisac.Base.{
  ℕ, zero, suc, ◌+◌, ◌*◌, Bool, true, false, not, ◌&&◌, ◌||◌, ltb, ◌==◌, if◌then◌else◌,
}
use npacn_fisac.Base.{Option, none, some, List, [], ◌∷◌, ◌++◌, length}
use npacn_fisac.Base.{M, return, fault, stuck, ◌>>=◌, ◌>>◌}
use npacn_fisac.Base.CText.{codes, c_str, strcmp_eq, fit}
use npacn_fisac.Base.Int.{ℤ, pos, negsuc, print_int}
use npacn_fisac.Winsock.{Socket, Winsock}
use npacn_fisac.Websocket.{websocket_frame_send}
use npacn_fisac.HttpClient.{http_post_json}
use npacn_fisac.Json.{Json, Kind, same_kind, is_true, number, string}
use npacn_fisac.Client.{ClientInfo, max_username}
use npacn_fisac.Escape.{json_escape_minimal}
use npacn_fisac.Backend.{failure_response, success_response, missing_credentials}
use npacn_fisac.Backend.{
  authentication_required, credentials_json, log_json, Verdict, granted, denied,
}
use npacn_fisac.Backend.{log_in, has_kind, string_of, auth_verdict, register_verdict}

-- The lengths that a registration refuses.
abbrev pub bad_length : List ℕ → List ℕ → Bool
bad_length username password =
    ltb (length username) 2 || ltb 50 (length username) || ltb (length password) 3

module _ (json : Json) (net : Winsock) (fuel : ℕ) where
  open json use {Item, parse, get_object_item, kind, valuedouble, print_double}
  open net use {Os}

  unfoldable pub log_event : List ℕ → List ℕ → M Os (Unit {0})
  log_event level message =
      http_post_json net fuel (codes "/log") (log_json level message) 0 >> return tt

  unfoldable pub send_json_response : Socket → List ℕ → M Os (Unit {0})
  send_json_response sock json_str =
      websocket_frame_send net fuel sock json_str (length json_str) 1 >> return tt

  -- The answer to the client, and its new state.
  unfoldable pub finish_auth : ClientInfo → List ℕ → Verdict → M Os ClientInfo
  finish_auth client username (granted user_id) = do
    let client' = log_in client user_id username
    log_event (codes "INFO") (
        fit 256 (
          codes "User authenticated: "
          ++ (client'.username ++ (codes " (id=" ++ (print_int user_id ++ codes ")")))))
    send_json_response client.sock (
        fit 768 (
          success_response (codes "Authentication successful") user_id
            (json_escape_minimal username 128)))
    return client'
  finish_auth client username (denied message) = do
    log_event (codes "WARN") (fit 256 (codes "Failed auth attempt: " ++ username))
    send_json_response client.sock (fit 768 (failure_response message))
    return client

  unfoldable pub finish_register : ClientInfo → List ℕ → Verdict → M Os ClientInfo
  finish_register client username (granted user_id) = do
    let client' = log_in client user_id username
    log_event (codes "INFO") (
        fit 256 (
          codes "New user registered: "
          ++ (client'.username ++ (codes " (id=" ++ (print_int user_id ++ codes ")")))))
    send_json_response client.sock (
        fit 1024 (
          success_response (codes "Registration successful") user_id
            (json_escape_minimal username 128)))
    return client'
  finish_register client username (denied message) = do
    send_json_response client.sock (fit 1024 (failure_response (json_escape_minimal message 384)))
    return client

  unfoldable pub auth_with : ClientInfo → Option (List ℕ) → Option (List ℕ) → M Os ClientInfo
  auth_with client (some username) (some password) = do
    resp ← http_post_json net fuel (codes "/auth") (credentials_json username password) 1024
    finish_auth client username (auth_verdict json resp)
  auth_with client _ _ = do send_json_response client.sock missing_credentials; return client

  unfoldable pub register_with : ClientInfo → Option (List ℕ) → Option (List ℕ) → M Os ClientInfo
  register_with client (some username) (some password) =
      let refuse = do
        send_json_response client.sock
            (failure_response (codes "Invalid username or password length"))
        return client
      in let ask = do
        resp ← http_post_json net fuel (codes "/register") (credentials_json username password) 1024
        finish_register client username (register_verdict json resp)
        in if bad_length username password then refuse else ask
  register_with client _ _ = do send_json_response client.sock missing_credentials; return client

  -- `cJSON_GetObjectItem` reads a field of its argument, so with NULL it faults.
  unfoldable pub handle_auth : ClientInfo → Option Item → M Os ClientInfo
  handle_auth client none = λ os. fault
  handle_auth client (some payload) =
      auth_with client (string_of json (get_object_item payload (codes "username")))
        (string_of json (get_object_item payload (codes "password")))

  unfoldable pub handle_register : ClientInfo → Option Item → M Os ClientInfo
  handle_register client none = λ os. fault
  handle_register client (some payload) =
      register_with client (string_of json (get_object_item payload (codes "username")))
        (string_of json (get_object_item payload (codes "password")))

  abbrev double_of : Option Item → Option Item
  double_of none = none
  double_of (some item) = if has_kind json item number then some item else none

  unfoldable pub location_json : ClientInfo → Item → Item → List ℕ
  location_json client latitude longitude = fit 256 (
      codes "{\"user_id\":"
      ++ (print_int client.user_id
          ++ (codes ",\"latitude\":"
              ++ (print_double (valuedouble latitude)
                  ++ (codes ",\"longitude\":"
                      ++ (print_double (valuedouble longitude) ++ codes "}"))))))

  unfoldable pub location_with : ClientInfo → Option Item → Option Item → M Os (Unit {0})
  location_with client (some latitude) (some longitude) =
      http_post_json net fuel (codes "/location") (location_json client latitude longitude) 0
      >> return tt
  location_with client _ _ = return tt

  unfoldable pub handle_location : ClientInfo → Option Item → M Os (Unit {0})
  handle_location client none = λ os. fault
  handle_location client (some payload) =
      location_with client (double_of (get_object_item payload (codes "latitude")))
        (double_of (get_object_item payload (codes "longitude")))

  -- A message that is refused before the login.
  unfoldable pub refuse_unauthenticated : ClientInfo → List ℕ → M Os ClientInfo
  refuse_unauthenticated client type = do
    send_json_response client.sock authentication_required
    log_event (codes "WARN")
        (fit 256 (codes "Unauthorized message attempt (type: " ++ (type ++ codes ")")))
    return client

  -- The subscription handler only looks the channel up, to print it.
  unfoldable pub handle_subscribe : ClientInfo → Option Item → M Os ClientInfo
  handle_subscribe client none = λ os. fault
  handle_subscribe client (some payload) = return client

  unfoldable pub dispatch : ClientInfo → List ℕ → Option Item → M Os ClientInfo
  dispatch client type payload =
      if strcmp_eq type (codes "auth")
      then handle_auth client payload
      else if strcmp_eq type (codes "register")
      then handle_register client payload
      else if not client.authenticated
      then refuse_unauthenticated client type
      else if strcmp_eq type (codes "location")
      then (handle_location client payload >> return client)
      else if strcmp_eq type (codes "subscribe")
      then handle_subscribe client payload
      else return client

  -- The type of a message, and the message if it is JSON.
  unfoldable pub dispatch_typed : ClientInfo → Item → Option (List ℕ) → M Os ClientInfo
  dispatch_typed client item none = return client
  dispatch_typed client item (some type) =
      dispatch client type (get_object_item item (codes "payload"))

  unfoldable pub dispatch_item : ClientInfo → Option Item → M Os ClientInfo
  dispatch_item client none = return client
  dispatch_item client (some item) =
      dispatch_typed client item (string_of json (get_object_item item (codes "type")))

  unfoldable pub handle_message : ClientInfo → List ℕ → M Os ClientInfo
  handle_message client_info message = dispatch_item client_info (parse (c_str message))
