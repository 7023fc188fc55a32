-- ===== src/Protocol/Sizes.antt =====
-- The texts that are sent to the backend and to clients, and that they stay below the sizes of their
-- buffers.
use npacn_fisac.Base.{ℕ, ◌≤◌, List, ◌++◌, length}
use npacn_fisac.Base.Slices.{length-take_le}
use npacn_fisac.Base.CText.{codes, fit}
use npacn_fisac.Base.Int.{print_int}
use npacn_fisac.Winsock.{Winsock}
use npacn_fisac.Json.{Json}
use npacn_fisac.Client.{ClientInfo}
use npacn_fisac.Backend.{
  Verdict, granted, denied, log_json, credentials_json, success_response, failure_response,
}
use npacn_fisac.Escape.{json_escape_minimal}
use npacn_fisac.Protocol.{location_json}

pub length-log_json : (level message : List ℕ) → length (log_json level message) ≤ 511
unfolding log_json
length-log_json level message =
    length-take_le 511
      (codes "{\"level\":\"" ++ (level ++ (codes "\",\"message\":\"" ++ (message ++ codes "\"}"))))

pub length-credentials_json :
    (username password : List ℕ) → length (credentials_json username password) ≤ 511
unfolding credentials_json
length-credentials_json username password = length-take_le 511 (
    codes "{\"username\":\""
    ++ (username ++ (codes "\",\"password\":\"" ++ (password ++ codes "\"}"))))

pub length-location_json :
    (json : Json) (net : Winsock) (fuel : ℕ) (client : ClientInfo) (latitude longitude : json.Item)
    → length (location_json json net fuel client latitude longitude) ≤ 255
unfolding location_json
length-location_json json net fuel client latitude longitude = length-take_le 255 (
    codes "{\"user_id\":"
    ++ (print_int client.user_id
        ++ (codes ",\"latitude\":"
            ++ (json.print_double (json.valuedouble latitude)
                ++ (codes ",\"longitude\":"
                    ++ (json.print_double (json.valuedouble longitude) ++ codes "}"))))))

-- The texts that tell a client of a verdict.
abbrev pub auth_answer : List ℕ → Verdict → List ℕ
auth_answer username (granted user_id) = fit 768 (
    success_response (codes "Authentication successful") user_id (json_escape_minimal username 128))
auth_answer username (denied message) = fit 768 (failure_response message)

abbrev pub register_answer : List ℕ → Verdict → List ℕ
register_answer username (granted user_id) =
    fit 1024 (
      success_response (codes "Registration successful") user_id (json_escape_minimal username 128))
register_answer username (denied message) =
    fit 1024 (failure_response (json_escape_minimal message 384))

pub length-auth_answer : (username : List ℕ) (v : Verdict) → length (auth_answer username v) ≤ 767
length-auth_answer username (granted user_id) = length-take_le 767 (
    success_response (codes "Authentication successful") user_id (json_escape_minimal username 128))
length-auth_answer username (denied message) = length-take_le 767 (failure_response message)

pub length-register_answer :
    (username : List ℕ) (v : Verdict) → length (register_answer username v) ≤ 1023
length-register_answer username (granted user_id) =
    length-take_le 1023 (
      success_response (codes "Registration successful") user_id (json_escape_minimal username 128))
length-register_answer username (denied message) =
    length-take_le 1023 (failure_response (json_escape_minimal message 384))
