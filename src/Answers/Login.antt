-- ===== src/Answers/Login.antt =====
-- Each message with credentials is answered once, and the answer tells what became of the client.
use npacn_fisac.Base.{ℕ, ◌+◌, ◌≤◌, ◌<◌, ◌≡◌, ◌≢◌, refl, arith, ◌∙◌, sym, subst, true, inl, inr}
use npacn_fisac.Base.{Option, none, some, List, [], length}
use npacn_fisac.Base.{M, return, ◌>>=◌, ◌>>◌, Ensures, Ensures-bind, Ensures-mono, Ensures-both}
use npacn_fisac.Base.CText.{codes, c_str, strcmp_eq}
use npacn_fisac.Winsock.{invalid_socket, Winsock, IsTcp, IsDraining, IsBroken}
use npacn_fisac.HttpClient.{http_post_json}
use npacn_fisac.Websocket.Rfc.{server_frame}
use npacn_fisac.Json.{Json}
use npacn_fisac.Client.{ClientInfo}
use npacn_fisac.Backend.Replies.{Decides, auth_verdict-Decides, register_verdict-Decides}
use npacn_fisac.Backend.{Verdict, auth_verdict, register_verdict, credentials_json, string_of}
use npacn_fisac.Protocol.{auth_with, register_with, handle_auth, handle_register}
use npacn_fisac.Protocol.{
  dispatch, dispatch_typed, dispatch_item, handle_message, send_json_response,
}
use npacn_fisac.Protocol.Sizes.{length-credentials_json}
use npacn_fisac.Sockets.{HasSockets}
use npacn_fisac.Exchange.{IsApart}
use npacn_fisac.Exchange.Post.{Exchanges, http_post_json-Exchanges}
use npacn_fisac.Answers.{Told, Told-append, http_post_json-Says}
use npacn_fisac.Answers.Handlers.{decided, IsReady, Talks}
use npacn_fisac.Protocol.Credentials.{
  Login, auth, register, type_of, endpoint_of, is_login, asked_text, AreAllowed,
  bad_length-AreAllowed, answer_of, Refuses, no_username, no_password, bad_lengths,
}
use npacn_fisac.Answers.Verdicts.{answer_then, finish_auth-Speaks, finish_register-Speaks}

-- How the code reads the reply.
abbrev verdict_of : Json → Login → Option (List ℕ) → Verdict
verdict_of json auth resp = auth_verdict json resp
verdict_of json register resp = register_verdict json resp

verdict_of-Decides :
    (json : Json) (login : Login) (resp : Option (List ℕ))
    → Decides json (is_login login) resp (verdict_of json login resp)
verdict_of-Decides json auth resp = auth_verdict-Decides json resp
verdict_of-Decides json register resp = register_verdict-Decides json resp

module _ (json : Json) {net : Winsock} {tcp : IsTcp net} {drains : IsDraining net}
    (apart : IsApart tcp drains) (sockets : HasSockets net) (fuel : ℕ) (client : ClientInfo)
    (valid : client.sock ≢ invalid_socket) (sound : ¬ IsBroken net client.sock) where
  -- The backend was asked, and its verdict decides both the client's state and the answer; or the
  -- credentials were refused, and the client is as it was.
  pub data Replies (login : Login) (before : net.Os)
      : Option (List ℕ) → Option (List ℕ) → ClientInfo → net.Os → Type 0 where
    asked :
        {after : net.Os} (username password : List ℕ) (resp : Option (List ℕ)) (mid : net.Os)
        (v : Verdict)
        → AreAllowed login username password
        → Exchanges apart sockets
            (endpoint_of login)
            (asked_text username password)
            1024
            before
            resp
            mid
        → Decides json (is_login login) resp v
        → Told apart sockets client.sock (server_frame 1 (answer_of login username v)) before after
        → Replies login before (some username) (some password) (decided client username v) after
    refused :
        {u p : Option (List ℕ)} {after : net.Os} (text : List ℕ)
        → Refuses login u p text
        → Told apart sockets client.sock (server_frame 1 text) before after
        → Replies login before u p client after

  abbrev Speaks : List ℕ → {A : Type 0} → (A → Type 0) → M net.Os A → Type 0
  Speaks said P m = Talks json apart sockets fuel client.sock valid said P m

  asked_then :
      (login : Login) (username password : List ℕ) (k : Option (List ℕ) → M net.Os ClientInfo)
      → AreAllowed login username password
      → ((resp : Option (List ℕ))
          → Speaks
              (server_frame 1 (answer_of login username (verdict_of json login resp)))
              (λ c. c ≡ decided client username (verdict_of json login resp))
              (k resp))
      → (os : net.Os) → IsReady json apart sockets fuel client.sock valid os
      → Ensures (Replies login os (some username) (some password)) (
          (http_post_json net fuel (endpoint_of login) (credentials_json username password) 1024
              >>= k)
            os)
  unfolding credentials_json
  asked_then login username password k allowed h os ready =
      Ensures-bind
        (λ resp mid.
          Exchanges apart sockets (endpoint_of login) (credentials_json username password) 1024 os
            resp mid
          × (Unit {0} × Told apart sockets client.sock [] os mid))
        (Ensures-both
          (http_post_json-Exchanges apart sockets fuel (endpoint_of login)
            (credentials_json username password) 1024 os enough (short login) small)
          (http_post_json-Says apart sockets client.sock valid os ready.open_one fuel
            (endpoint_of login) (credentials_json username password) 1024 enough (short login)
            small))
        λ resp mid p.
          Ensures-mono
            (h resp mid (record {
              open_one = p.1.1.same_open client.sock ∙ ready.open_one;
              enough = omega (arith, p.1.1.calm, ready.enough);
            }))
            λ c after q.
              subst (λ (d : ClientInfo). Replies login os (some username) (some password) d after)
                (sym q.0)
                (asked username password resp mid (verdict_of json login resp) allowed p.0
                  (verdict_of-Decides json login resp)
                  (Told-append apart sockets client.sock [] _ os mid after p.1.1 q.1))
    where
      enough : 8191 < fuel
      enough = omega (arith, ready.enough)

      small : length (credentials_json username password) ≤ 1900
      small = omega (arith, length-credentials_json username password)

      short : (login : Login) → length (endpoint_of login) ≤ 100
      short auth = omega arith
      short register = omega arith

  refused_then :
      (login : Login) (u p : Option (List ℕ)) (text : List ℕ)
      → Refuses login u p text
      → length text ≤ 1023
      → (os : net.Os) → IsReady json apart sockets fuel client.sock valid os
      → Ensures
          (Replies login os u p)
          ((send_json_response json net fuel client.sock text >> return client) os)
  refused_then login u p text why le os ready =
      Ensures-mono
        (answer_then json apart sockets fuel client valid sound {P = λ c. c ≡ client} text client le
          refl os ready)
        λ c after q.
          subst (λ (d : ClientInfo). Replies login os u p d after) (sym q.0) (refused text why q.1)

  auth_with-Replies :
      (u p : Option (List ℕ)) (os : net.Os)
      → IsReady json apart sockets fuel client.sock valid os
      → Ensures (Replies auth os u p) (auth_with json net fuel client u p os)
  unfolding auth_with
  auth_with-Replies (some username) (some password) = asked_then auth username password _ tt λ resp.
      finish_auth-Speaks json apart sockets fuel client valid sound username
        (auth_verdict json resp)
  auth_with-Replies (some username) none = refused_then auth _ _ _ no_password (omega arith)
  auth_with-Replies none (some password) = refused_then auth _ _ _ no_username (omega arith)
  auth_with-Replies none none = refused_then auth _ _ _ no_username (omega arith)

  register_with-Replies :
      (u p : Option (List ℕ)) (os : net.Os)
      → IsReady json apart sockets fuel client.sock valid os
      → Ensures (Replies register os u p) (register_with json net fuel client u p os)
  unfolding register_with
  register_with-Replies (some username) (some password) os ready =
      elim (bad_length-AreAllowed username password) [
        | inl bad ↦
            rw bad.0 (refused_then register _ _ _ (bad_lengths bad.1) (omega arith) os ready)
        | inr fine ↦ rw fine.0 (
            asked_then register username password _ fine.1
              (λ resp.
                finish_register-Speaks json apart sockets fuel client valid sound username
                  (register_verdict json resp))
              os ready)
      ]
  register_with-Replies (some username) none os ready =
      refused_then register _ _ _ no_password (omega arith) os ready
  register_with-Replies none (some password) os ready =
      refused_then register _ _ _ no_username (omega arith) os ready
  register_with-Replies none none os ready =
      refused_then register _ _ _ no_username (omega arith) os ready

  -- A login or registration message with a payload, from an open connection on which no send fails for
  -- good, is answered with exactly one text frame on that connection, on a TCP network whose peers read and
  -- with enough fuel. Either there are a username and a password, for a registration of 2 to 50 and of at
  -- least 3 bytes; then the backend is asked with these. If its reply is a JSON object in which
  -- `success` is true or 1 and `user_id` is a number, the client is logged in with this number, and the
  -- answer says so; if not, the client stays as it was, and the answer says that it failed. Or the
  -- credentials are refused without asking, and the client stays as it was. On the other open
  -- connections nothing is sent, nothing is read from any, and the open sockets are the same.
  pub handle_message-Replies :
      (login : Login) (message : List ℕ) (item payload : json.Item) (os : net.Os)
      → json.parse (c_str message) ≡ some item
      → string_of json (json.get_object_item item (codes "type")) ≡ some (type_of login)
      → json.get_object_item item (codes "payload") ≡ some payload
      → sockets.is_open client.sock os ≡ true
      → 8191 + drains.patience os < fuel
      → Ensures
          (Replies login os
            (string_of json (json.get_object_item payload (codes "username")))
            (string_of json (json.get_object_item payload (codes "password"))))
          (handle_message json net fuel client message os)
  unfolding handle_message dispatch_item dispatch_typed dispatch handle_auth handle_register
      strcmp_eq
  handle_message-Replies auth message item payload os parsed typed there open_one enough =
      rw (parsed, typed, there)
        (auth_with-Replies _ _ os (record { open_one = open_one; enough = enough }))
  handle_message-Replies register message item payload os parsed typed there open_one enough =
      rw (parsed, typed, there)
        (register_with-Replies _ _ os (record { open_one = open_one; enough = enough }))
