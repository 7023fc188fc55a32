-- ===== src/Answers/Handlers.antt =====
-- What the parts of the handlers say on the client's connection.
use npacn_fisac.Base.{
  ℕ, ◌+◌, ◌≤◌, ◌<◌, ◌≡◌, ◌≢◌, arith, true, Option, none, some, List, [], ◌++◌, length,
}
use npacn_fisac.Base.{M, return, ◌>>=◌}
use npacn_fisac.Base.{take}
use npacn_fisac.Base.CText.{codes}
use npacn_fisac.Winsock.{Socket, invalid_socket, Winsock, IsTcp, IsDraining, IsBroken}
use npacn_fisac.Websocket.Rfc.{server_frame}
use npacn_fisac.Json.{Json}
use npacn_fisac.Client.{ClientInfo}
use npacn_fisac.Backend.{Verdict, granted, denied, log_json}
use npacn_fisac.Protocol.{
  log_event, send_json_response, location_json, location_with, handle_location,
}
use npacn_fisac.Sockets.{HasSockets}
use npacn_fisac.Protocol.Sizes.{length-log_json, length-location_json}
use npacn_fisac.Exchange.{IsApart}
use npacn_fisac.Answers.{
  Says, Says-bind, return-Says, http_post_json-Says, websocket_frame_send-Says,
}

-- What each verdict makes of the client.
abbrev pub decided : ClientInfo → List ℕ → Verdict → ClientInfo
decided client username (granted user_id) = record client {
  authenticated = true;
  user_id = user_id;
  username = take 63 username;
}
decided client username (denied message) = client

module _ (json : Json) {net : Winsock} {tcp : IsTcp net} {drains : IsDraining net}
    (apart : IsApart tcp drains) (sockets : HasSockets net) (fuel : ℕ) (s : Socket)
    (valid : s ≢ invalid_socket) where
  -- The connection is open, and there is fuel for a request and an answer.
  pub record IsReady (os : net.Os) : Type 0 where
    pub open_one : sockets.is_open s os ≡ true
    pub enough : 8191 + drains.patience os < fuel

  abbrev pub Talks : List ℕ → {A : Type 0} → (A → Type 0) → M net.Os A → Type 0
  Talks said P m = (os : net.Os) → IsReady os → Says apart sockets s said P os (m os)

  abbrev pub Any : {A : Type 0} → A → Type 0
  Any a = Unit {0}

  pub then-Talks :
      {A B : Type 0} {P : A → Type 0} {Q : B → Type 0} (first second : List ℕ) (m : M net.Os A)
      (k : A → M net.Os B)
      → Talks first P m
      → ((a : A) → P a → Talks second Q (k a))
      → Talks (first ++ second) Q (m >>= k)
  then-Talks first second m k h go os ready =
      Says-bind apart sockets s first second os (m os) k ready.open_one (h os ready)
        λ a mid p open_mid calm.
          go a p mid (record { open_one = open_mid; enough = omega (arith, calm, ready.enough) })

  pub return-Talks : {A : Type 0} {P : A → Type 0} (a : A) → P a → Talks [] P (return a)
  return-Talks a p os ready = return-Says apart sockets s a os p

  pub log_event-Says :
      (level message : List ℕ) (os : net.Os)
      → sockets.is_open s os ≡ true
      → 8191 < fuel
      → Says apart sockets s [] Any os (log_event json net fuel level message os)
  unfolding log_event
  log_event-Says level message os open_one enough =
      Says-bind apart sockets s [] [] os _ _ open_one
        (http_post_json-Says apart sockets s valid os open_one fuel (codes "/log")
          (log_json level message) 0 enough (omega arith)
          (omega (arith, length-log_json level message)))
        λ r mid u open_mid calm. return-Says apart sockets s tt mid tt

  pub log_event-Talks :
      (level message : List ℕ) → Talks [] Any (log_event json net fuel level message)
  log_event-Talks level message os ready =
      log_event-Says level message os ready.open_one (omega (arith, ready.enough))

  pub send_json_response-Talks :
      (response : List ℕ)
      → ¬ IsBroken net s
      → length response ≤ 1023
      → Talks (server_frame 1 response ++ []) Any (send_json_response json net fuel s response)
  unfolding send_json_response
  send_json_response-Talks response sound le =
      then-Talks (server_frame 1 response) [] _ _
        (λ os ready.
          websocket_frame_send-Says apart sockets s valid os ready.open_one fuel response 1 sound
            (omega arith) (omega (arith, le)) (omega (arith, le, ready.enough)))
        λ r u. return-Talks tt tt

  pub handle_location-Talks :
      (client : ClientInfo) (payload : json.Item)
      → Talks [] Any (handle_location json net fuel client (some payload))
  unfolding handle_location
  handle_location-Talks client payload = with_numbers _ _
    where
      with_numbers :
          (latitude longitude : Option json.Item)
          → Talks [] Any (location_with json net fuel client latitude longitude)
      with_numbers (some latitude) (some longitude) =
          unfold location_with in
          then-Talks [] [] _ _
            (λ os ready.
              http_post_json-Says apart sockets s valid os ready.open_one fuel (codes "/location")
                (location_json json net fuel client latitude longitude) 0
                (omega (arith, ready.enough)) (omega arith)
                (omega (arith, length-location_json json net fuel client latitude longitude)))
            λ r u. return-Talks tt tt
      with_numbers (some latitude) none = unfold location_with in return-Talks tt tt
      with_numbers none (some longitude) = unfold location_with in return-Talks tt tt
      with_numbers none none = unfold location_with in return-Talks tt tt
