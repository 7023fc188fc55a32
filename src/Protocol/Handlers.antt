-- ===== src/Protocol/Handlers.antt =====
-- The handlers of messages, over whatever their requests and answers keep; they fault only where a
-- payload is missing.
use npacn_fisac.Base.{ℕ, ◌≡◌, refl, arith, not, Option, none, some, List}
use npacn_fisac.Base.{Keep, then-Keep, if-Keep, faulty}
use npacn_fisac.Base.CText.{codes, c_str, strcmp_eq}
use npacn_fisac.Winsock.{Winsock}
use npacn_fisac.Json.{Json}
use npacn_fisac.Client.{ClientInfo}
use npacn_fisac.Protocol.{handle_auth, handle_register, handle_location}
use npacn_fisac.Protocol.{
  refuse_unauthenticated, handle_subscribe, dispatch, dispatch_typed, dispatch_item, handle_message,
}
use npacn_fisac.Protocol.Requests.{
  AreKept, after_log, after_reply, unchanged, auth_with-Keep, register_with-Keep,
  location_with-Keep,
}

-- For a payload that is there or whose absence is in `F`.
module _ (json : Json) {net : Winsock} {fuel : ℕ} {F G : Type 0} {I : net.Os → Type 0}
    (kept : AreKept net fuel F G I) (client : ClientInfo) where
  handle_auth-Keep :
      (payload : Option json.Item)
      → (payload ≡ none → F)
      → Keep F G I (handle_auth json net fuel client payload)
  unfolding handle_auth
  handle_auth-Keep none missing os h = faulty (missing refl)
  handle_auth-Keep (some payload) missing os h = auth_with-Keep json kept client _ _ os h

  handle_register-Keep :
      (payload : Option json.Item)
      → (payload ≡ none → F)
      → Keep F G I (handle_register json net fuel client payload)
  unfolding handle_register
  handle_register-Keep none missing os h = faulty (missing refl)
  handle_register-Keep (some payload) missing os h = register_with-Keep json kept client _ _ os h

  handle_location-Keep :
      (payload : Option json.Item)
      → (payload ≡ none → F)
      → Keep F G I (handle_location json net fuel client payload)
  unfolding handle_location
  handle_location-Keep none missing os h = faulty (missing refl)
  handle_location-Keep (some payload) missing os h = location_with-Keep json kept client _ _ os h

  handle_subscribe-Keep :
      (payload : Option json.Item)
      → (payload ≡ none → F)
      → Keep F G I (handle_subscribe json net fuel client payload)
  unfolding handle_subscribe
  handle_subscribe-Keep none missing os h = faulty (missing refl)
  handle_subscribe-Keep (some payload) missing os h = unchanged json kept client os h

  dispatch-Keep :
      (type : List ℕ) (payload : Option json.Item)
      → (payload ≡ none → F)
      → Keep F G I (dispatch json net fuel client type payload)
  unfolding dispatch refuse_unauthenticated
  dispatch-Keep type payload missing =
      if-Keep F G I (strcmp_eq type (codes "auth")) _ _ (handle_auth-Keep payload missing) (
        if-Keep F G I (strcmp_eq type (codes "register")) _ _ (handle_register-Keep payload missing)
          (if-Keep F G I (not client.authenticated) _ _
            (after_reply json kept _ _ _ (omega arith)
              (after_log json kept _ _ _ (unchanged json kept client)))
            (if-Keep F G I (strcmp_eq type (codes "location")) _ _
              (then-Keep F G I _ _ (handle_location-Keep payload missing)
                (unchanged json kept client))
              (if-Keep F G I (strcmp_eq type (codes "subscribe")) _ _
                (handle_subscribe-Keep payload missing) (unchanged json kept client)))))

  typed :
      (item : json.Item) (type : Option (List ℕ))
      → (json.get_object_item item (codes "payload") ≡ none → F)
      → Keep F G I (dispatch_typed json net fuel client item type)
  unfolding dispatch_typed
  typed item none missing = unchanged json kept client
  typed item (some type) missing = dispatch-Keep type _ missing

  parsed :
      (o : Option json.Item)
      → ((item : json.Item)
          → o ≡ some item
          → json.get_object_item item (codes "payload") ≡ none
          → F)
      → Keep F G I (dispatch_item json net fuel client o)
  unfolding dispatch_item
  parsed none missing = unchanged json kept client
  parsed (some item) missing = typed item _ (missing item refl)

-- The message is a JSON value without the key `payload`.
abbrev pub MissesPayload : Json → List ℕ → Type 0
MissesPayload json message =
    (item : json.Item) × (json.parse (c_str message) ≡ some item)
    × (json.get_object_item item (codes "payload") ≡ none)

pub handle_message-Keep :
    (json : Json) {net : Winsock} {fuel : ℕ} {F G : Type 0} {I : net.Os → Type 0}
    (kept : AreKept net fuel F G I) (client : ClientInfo) (message : List ℕ)
    → (MissesPayload json message → F)
    → Keep F G I (handle_message json net fuel client message)
unfolding handle_message
handle_message-Keep json kept client message missing =
    parsed json kept client (json.parse (c_str message))
      λ item e none_there. missing (item, e, none_there)
