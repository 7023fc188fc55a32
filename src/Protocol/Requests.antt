-- ===== src/Protocol/Requests.antt =====
-- The parts of the handlers, over whatever the requests to the backend and the frames to the client keep.
use npacn_fisac.Base.{ℕ, ◌≤◌, arith, Option, none, some, List, length}
use npacn_fisac.Base.{M, return, ◌>>◌, Keep, return-Keep, bind-Keep, then-Keep, if-Keep}
use npacn_fisac.Base.CText.{codes}
use npacn_fisac.Winsock.{Socket, Winsock}
use npacn_fisac.HttpClient.{http_post_json}
use npacn_fisac.Websocket.{websocket_frame_send}
use npacn_fisac.Json.{Json}
use npacn_fisac.Client.{ClientInfo}
use npacn_fisac.Backend.{
  Verdict, granted, denied, credentials_json, log_json, auth_verdict, register_verdict,
}
use npacn_fisac.Protocol.{
  log_event, send_json_response, finish_auth, finish_register, auth_with, register_with,
}
use npacn_fisac.Protocol.{location_json, location_with, bad_length}
use npacn_fisac.Protocol.Sizes.{length-log_json, length-credentials_json, length-location_json}
use npacn_fisac.Protocol.Sizes.{length-auth_answer, length-register_answer}

-- The handlers reach the network through these two alone, with texts of at most these lengths.
pub record AreKept (net : Winsock) (fuel : ℕ) (F G : Type 0) (I : net.Os → Type 0) : Type 0 where
  pub asking :
      (endpoint payload : List ℕ) (size : ℕ)
      → length endpoint ≤ 100
      → length payload ≤ 511
      → Keep F G I (http_post_json net fuel endpoint payload size)
  pub saying :
      (s : Socket) (response : List ℕ)
      → length response ≤ 1023
      → Keep F G I (websocket_frame_send net fuel s response (length response) 1)

module _ (json : Json) {net : Winsock} {fuel : ℕ} {F G : Type 0} {I : net.Os → Type 0}
    (kept : AreKept net fuel F G I) where
  pub log_event-Keep : (level message : List ℕ) → Keep F G I (log_event json net fuel level message)
  unfolding log_event
  log_event-Keep level message =
      then-Keep F G I _ _
        (kept.asking (codes "/log") (log_json level message) 0 (omega arith)
          (length-log_json level message))
        (return-Keep F G I tt)

  send_json_response-Keep :
      (s : Socket) (response : List ℕ)
      → length response ≤ 1023
      → Keep F G I (send_json_response json net fuel s response)
  unfolding send_json_response
  send_json_response-Keep s response le =
      then-Keep F G I _ _ (kept.saying s response le) (return-Keep F G I tt)

  pub after_log :
      {A : Type 0} (level message : List ℕ) (k : M net.Os A)
      → Keep F G I k
      → Keep F G I (log_event json net fuel level message >> k)
  after_log level message k h = then-Keep F G I _ _ (log_event-Keep level message) h

  pub after_reply :
      {A : Type 0} (s : Socket) (response : List ℕ) (k : M net.Os A)
      → length response ≤ 1023
      → Keep F G I k
      → Keep F G I (send_json_response json net fuel s response >> k)
  after_reply s response k le h = then-Keep F G I _ _ (send_json_response-Keep s response le) h

  pub unchanged : {A : Type 0} (a : A) → Keep F G I (return a)
  unchanged a = return-Keep F G I a

  finish_auth-Keep :
      (client : ClientInfo) (username : List ℕ) (v : Verdict)
      → Keep F G I (finish_auth json net fuel client username v)
  unfolding finish_auth
  finish_auth-Keep client username (granted user_id) = after_log _ _ _ (
      after_reply _ _ _ (omega (arith, length-auth_answer username (granted user_id)))
        (unchanged _))
  finish_auth-Keep client username (denied message) = after_log _ _ _ (
      after_reply _ _ _ (omega (arith, length-auth_answer username (denied message))) (unchanged _))

  finish_register-Keep :
      (client : ClientInfo) (username : List ℕ) (v : Verdict)
      → Keep F G I (finish_register json net fuel client username v)
  unfolding finish_register
  finish_register-Keep client username (granted user_id) =
      after_log _ _ _
        (after_reply _ _ _ (length-register_answer username (granted user_id)) (unchanged _))
  finish_register-Keep client username (denied message) =
      after_reply _ _ _ (length-register_answer username (denied message)) (unchanged _)

  pub auth_with-Keep :
      (client : ClientInfo) (u p : Option (List ℕ))
      → Keep F G I (auth_with json net fuel client u p)
  unfolding auth_with
  auth_with-Keep client (some username) (some password) =
      bind-Keep F G I _ _
        (kept.asking (codes "/auth") (credentials_json username password) 1024 (omega arith)
          (length-credentials_json username password))
        λ resp. finish_auth-Keep client username (auth_verdict json resp)
  auth_with-Keep client (some username) none = after_reply _ _ _ (omega arith) (unchanged _)
  auth_with-Keep client none (some password) = after_reply _ _ _ (omega arith) (unchanged _)
  auth_with-Keep client none none = after_reply _ _ _ (omega arith) (unchanged _)

  pub register_with-Keep :
      (client : ClientInfo) (u p : Option (List ℕ))
      → Keep F G I (register_with json net fuel client u p)
  unfolding register_with
  register_with-Keep client (some username) (some password) =
      if-Keep F G I (bad_length username password) _ _
        (after_reply _ _ _ (omega arith) (unchanged _))
        (bind-Keep F G I _ _
          (kept.asking (codes "/register") (credentials_json username password) 1024 (omega arith)
            (length-credentials_json username password))
          λ resp. finish_register-Keep client username (register_verdict json resp))
  register_with-Keep client (some username) none = after_reply _ _ _ (omega arith) (unchanged _)
  register_with-Keep client none (some password) = after_reply _ _ _ (omega arith) (unchanged _)
  register_with-Keep client none none = after_reply _ _ _ (omega arith) (unchanged _)

  pub location_with-Keep :
      (client : ClientInfo) (latitude longitude : Option json.Item)
      → Keep F G I (location_with json net fuel client latitude longitude)
  unfolding location_with
  location_with-Keep client (some latitude) (some longitude) =
      then-Keep F G I _ _
        (kept.asking (codes "/location") (location_json json net fuel client latitude longitude) 0
          (omega arith)
          (omega (arith, length-location_json json net fuel client latitude longitude)))
        (unchanged tt)
  location_with-Keep client (some latitude) none = unchanged tt
  location_with-Keep client none (some longitude) = unchanged tt
  location_with-Keep client none none = unchanged tt
