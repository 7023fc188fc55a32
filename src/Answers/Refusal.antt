-- ===== src/Answers/Refusal.antt =====
-- What a client hears that is not logged in.
use npacn_fisac.Base.{
  ℕ, ◌+◌, ◌<◌, ◌≡◌, ◌≢◌, refl, arith, ◌∙◌, subst, false, true, some, List, [], ◌++◌, append-nil,
}
use npacn_fisac.Base.{Ensures}
use npacn_fisac.Base.CText.{codes, c_str, strcmp_eq}
use npacn_fisac.Winsock.{invalid_socket, Winsock, IsTcp, IsDraining, IsBroken}
use npacn_fisac.Websocket.Rfc.{server_frame}
use npacn_fisac.Json.{Json}
use npacn_fisac.Client.{ClientInfo}
use npacn_fisac.Backend.{string_of, authentication_required}
use npacn_fisac.Protocol.{handle_message, refuse_unauthenticated}
use npacn_fisac.Protocol.Gate.{handle_message-unauthenticated}
use npacn_fisac.Sockets.{HasSockets}
use npacn_fisac.Exchange.{IsApart}
use npacn_fisac.Answers.{Told}
use npacn_fisac.Answers.Handlers.{
  Talks, then-Talks, return-Talks, log_event-Talks, send_json_response-Talks,
}

module _ (json : Json) {net : Winsock} {tcp : IsTcp net} {drains : IsDraining net}
    (apart : IsApart tcp drains) (sockets : HasSockets net) (fuel : ℕ) (client : ClientInfo)
    (valid : client.sock ≢ invalid_socket) (sound : ¬ IsBroken net client.sock) where
  abbrev refusal : List ℕ
  refusal = server_frame 1 authentication_required

  refuse_unauthenticated-Talks :
      (type : List ℕ)
      → Talks json apart sockets fuel client.sock valid refusal
          (λ c. c ≡ client)
          (refuse_unauthenticated json net fuel client type)
  unfolding refuse_unauthenticated
  refuse_unauthenticated-Talks type =
      subst
        (λ (said : List ℕ).
          Talks json apart sockets fuel client.sock valid said (λ c. c ≡ client)
            (refuse_unauthenticated json net fuel client type))
        (append-nil (refusal ++ []) ∙ append-nil refusal)
        (then-Talks json apart sockets fuel client.sock valid (refusal ++ []) [] _ _
          (send_json_response-Talks json apart sockets fuel client.sock valid
            authentication_required sound (omega arith))
          λ u v.
            then-Talks json apart sockets fuel client.sock valid [] [] _ _
              (log_event-Talks json apart sockets fuel client.sock valid _ _)
              λ w x. return-Talks json apart sockets fuel client.sock valid client refl)

  -- A client that is not logged in, and whose connection is open and has no send that fails for good, is
  -- answered each JSON message of a type other than "auth" and "register" with one text frame, which says
  -- that a login is required, whatever the payload. The client is as it was, on the other open connections
  -- nothing is sent, and nothing is read from any, on a TCP network whose peers read and with enough
  -- fuel.
  pub handle_message-Refused :
      (message : List ℕ) (item : json.Item) (type : List ℕ) (os : net.Os)
      → json.parse (c_str message) ≡ some item
      → string_of json (json.get_object_item item (codes "type")) ≡ some type
      → strcmp_eq type (codes "auth") ≡ false
      → strcmp_eq type (codes "register") ≡ false
      → client.authenticated ≡ false
      → sockets.is_open client.sock os ≡ true
      → 8191 + drains.patience os < fuel
      → Ensures
          (λ (c : ClientInfo) (after : net.Os).
            (c ≡ client)
            × Told apart sockets client.sock (server_frame 1 authentication_required) os after)
          (handle_message json net fuel client message os)
  handle_message-Refused message item type os parsed typed not_auth not_register guest open_one
        enough =
      rw
        (handle_message-unauthenticated json net fuel client message item type parsed typed not_auth
          not_register guest)
        (refuse_unauthenticated-Talks type os (record { open_one = open_one; enough = enough }))
