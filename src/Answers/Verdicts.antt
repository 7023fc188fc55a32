-- ===== src/Answers/Verdicts.antt =====
-- A verdict of the backend is told to the client.
use npacn_fisac.Base.{ℕ, ◌≤◌, ◌≡◌, ◌≢◌, refl, arith, ◌∙◌, subst}
use npacn_fisac.Base.{List, [], ◌++◌, length, append-nil}
use npacn_fisac.Base.{M, return, ◌>>◌}
use npacn_fisac.Winsock.{invalid_socket, Winsock, IsTcp, IsDraining, IsBroken}
use npacn_fisac.Websocket.Rfc.{server_frame}
use npacn_fisac.Json.{Json}
use npacn_fisac.Client.{ClientInfo}
use npacn_fisac.Backend.{log_in}
use npacn_fisac.Backend.{Verdict, granted, denied}
use npacn_fisac.Protocol.{finish_auth, finish_register}
use npacn_fisac.Protocol.{send_json_response, log_event}
use npacn_fisac.Protocol.Sizes.{
  auth_answer, register_answer, length-auth_answer, length-register_answer,
}
use npacn_fisac.Sockets.{HasSockets}
use npacn_fisac.Exchange.{IsApart}
use npacn_fisac.Answers.Handlers.{decided, Talks, then-Talks, return-Talks}
use npacn_fisac.Answers.Handlers.{log_event-Talks, send_json_response-Talks}

module _ (json : Json) {net : Winsock} {tcp : IsTcp net} {drains : IsDraining net}
    (apart : IsApart tcp drains) (sockets : HasSockets net) (fuel : ℕ) (client : ClientInfo)
    (valid : client.sock ≢ invalid_socket) (sound : ¬ IsBroken net client.sock) where
  abbrev Speaks : List ℕ → {A : Type 0} → (A → Type 0) → M net.Os A → Type 0
  Speaks said P m = Talks json apart sockets fuel client.sock valid said P m

  -- An answer, and then a result.
  pub answer_then :
      {A : Type 0} {P : A → Type 0} (text : List ℕ) (a : A)
      → length text ≤ 1023
      → P a
      → Speaks
          (server_frame 1 text)
          P
          (send_json_response json net fuel client.sock text >> return a)
  answer_then {A} {P} text a le p =
      subst
        (λ (said : List ℕ).
          Speaks said P (send_json_response json net fuel client.sock text >> return a))
        (append-nil (server_frame 1 text ++ []) ∙ append-nil (server_frame 1 text))
        (then-Talks json apart sockets fuel client.sock valid (server_frame 1 text ++ []) [] _ _
          (send_json_response-Talks json apart sockets fuel client.sock valid text sound le)
          λ u v. return-Talks json apart sockets fuel client.sock valid a p)

  logged_then :
      {A : Type 0} {P : A → Type 0} (level message said : List ℕ) (k : M net.Os A)
      → Speaks said P k
      → Speaks said P (log_event json net fuel level message >> k)
  logged_then level message said k h =
      then-Talks json apart sockets fuel client.sock valid [] said _ _
        (log_event-Talks json apart sockets fuel client.sock valid level message) λ u v. h

  pub finish_auth-Speaks :
      (username : List ℕ) (v : Verdict)
      → Speaks
          (server_frame 1 (auth_answer username v))
          (λ c. c ≡ decided client username v)
          (finish_auth json net fuel client username v)
  unfolding finish_auth log_in
  finish_auth-Speaks username (granted user_id) =
      logged_then _ _ _ _
        (answer_then _ _ (omega (arith, length-auth_answer username (granted user_id))) refl)
  finish_auth-Speaks username (denied message) =
      logged_then _ _ _ _
        (answer_then _ _ (omega (arith, length-auth_answer username (denied message))) refl)

  pub finish_register-Speaks :
      (username : List ℕ) (v : Verdict)
      → Speaks
          (server_frame 1 (register_answer username v))
          (λ c. c ≡ decided client username v)
          (finish_register json net fuel client username v)
  unfolding finish_register log_in
  finish_register-Speaks username (granted user_id) =
      logged_then _ _ _ _ (answer_then _ _ (length-register_answer username (granted user_id)) refl)
  finish_register-Speaks username (denied message) =
      answer_then _ _ (length-register_answer username (denied message)) refl
