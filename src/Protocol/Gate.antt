-- ===== src/Protocol/Gate.antt =====
-- What a message cannot do.
use npacn_fisac.Base.{ℕ, ◌≡◌, refl, false, some, List}
use npacn_fisac.Base.CText.{codes, c_str, strcmp_eq}
use npacn_fisac.Winsock.{Winsock}
use npacn_fisac.Json.{Json}
use npacn_fisac.Client.{ClientInfo}
use npacn_fisac.Backend.{string_of}
use npacn_fisac.Protocol.{
  handle_message, dispatch_item, dispatch_typed, dispatch, refuse_unauthenticated,
}

module _ (json : Json) (net : Winsock) (fuel : ℕ) (client : ClientInfo) (message : List ℕ)
    (item : json.Item) (type : List ℕ) (parsed : json.parse (c_str message) ≡ some item)
    (typed : string_of json (json.get_object_item item (codes "type")) ≡ some type) where
  -- For a client that is not logged in, all that a JSON message with a type does is the refusal, for
  -- every type but "auth" and "register" and every payload.
  pub handle_message-unauthenticated :
      strcmp_eq type (codes "auth") ≡ false
      → strcmp_eq type (codes "register") ≡ false
      → client.authenticated ≡ false
      → handle_message json net fuel client message
        ≡ refuse_unauthenticated json net fuel client type
  unfolding handle_message dispatch_item dispatch_typed dispatch
  handle_message-unauthenticated not_auth not_register guest =
      rw (parsed, typed, not_auth, not_register, guest) refl
