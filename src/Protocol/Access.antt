-- ===== src/Protocol/Access.antt =====
-- Who is logged in after a message.
use npacn_fisac.Base.{ℕ, ◌≡◌, refl, Bool, true, false, not, inl, inr}
use npacn_fisac.Base.{Option, none, some, List, if◌then◌else◌}
use npacn_fisac.Base.{
  M, Outcome, done, fault, stuck, ◌▷◌, ◌>>◌, Keeps, kept, at_fault, at_stuck, Keeps-after,
}
use npacn_fisac.Base.CText.{codes, c_str, strcmp_eq}
use npacn_fisac.Base.Int.{ℤ}
use npacn_fisac.Winsock.{Socket, Winsock}
use npacn_fisac.Base.{take, ap, ◌∙◌}
use npacn_fisac.Base.CText.{strcmp_eq_sound}
use npacn_fisac.Backend.Replies.{Admits, auth_verdict-Admits, register_verdict-Admits}
use npacn_fisac.Protocol.Credentials.{
  Login, auth, register, type_of, endpoint_of, asked_text, AreAllowed, bad_length-AreAllowed,
}
use npacn_fisac.HttpClient.{http_post_json}
use npacn_fisac.Json.{Json}
use npacn_fisac.Client.{ClientInfo}
use npacn_fisac.Backend.{
  Verdict, granted, denied, log_in, auth_verdict, register_verdict, string_of, credentials_json,
}
use npacn_fisac.Protocol.{log_event, send_json_response, finish_auth, finish_register, auth_with}
use npacn_fisac.Protocol.{
  register_with, handle_auth, handle_register, handle_location, handle_subscribe,
}
use npacn_fisac.Protocol.{
  refuse_unauthenticated, dispatch, dispatch_typed, dispatch_item, handle_message,
}

module _ (json : Json) (net : Winsock) (fuel : ℕ) (message : List ℕ) (before : net.Os) where
  -- The message is a login or a registration with this name and some password; the backend, asked with
  -- these two in the state `before`, replied, and the reply admits the user.
  pub record IsAdmitted (username : List ℕ) (user_id : ℤ) : Type 0 where
    pub login : Login
    pub item : json.Item
    pub payload : json.Item
    pub password : List ℕ
    pub resp : Option (List ℕ)
    pub after : net.Os
    pub parsed : json.parse (c_str message) ≡ some item
    pub typed : string_of json (json.get_object_item item (codes "type")) ≡ some (type_of login)
    pub there : json.get_object_item item (codes "payload") ≡ some payload
    pub named : string_of json (json.get_object_item payload (codes "username")) ≡ some username
    pub secret : string_of json (json.get_object_item payload (codes "password")) ≡ some password
    pub allowed : AreAllowed login username password
    pub asked :
        http_post_json net fuel (endpoint_of login) (asked_text username password) 1024 before
        ≡ done resp after
    pub admits : Admits json resp user_id

  -- The client is as it was, or it is logged in as a user who was admitted.
  pub data IsServed (client : ClientInfo) : ClientInfo → Type 0 where
    same : IsServed client client
    logged_in :
        (username : List ℕ) (user_id : ℤ)
        → IsAdmitted username user_id
        → IsServed client
            (record client { authenticated = true; user_id = user_id; username = take 63 username })

  abbrev Serves : ClientInfo → Outcome net.Os ClientInfo → Type 0
  Serves client = Keeps (λ c after. IsServed client c)

  after_log :
      {client : ClientInfo} {k : M net.Os ClientInfo} (level message : List ℕ) (os : net.Os)
      → ((s : net.Os) → Serves client (k s))
      → Serves client ((log_event json net fuel level message >> k) os)
  after_log level message os h = Keeps-after (log_event json net fuel level message os) λ a s. h s

  after_reply :
      {client : ClientInfo} {k : M net.Os ClientInfo} (sock : Socket) (response : List ℕ)
      (os : net.Os)
      → ((s : net.Os) → Serves client (k s))
      → Serves client ((send_json_response json net fuel sock response >> k) os)
  after_reply sock response os h =
      Keeps-after (send_json_response json net fuel sock response os) λ a s. h s

  after_location :
      {client : ClientInfo} {k : M net.Os ClientInfo} (payload : Option json.Item) (os : net.Os)
      → ((s : net.Os) → Serves client (k s))
      → Serves client ((handle_location json net fuel client payload >> k) os)
  after_location {client} payload os h =
      Keeps-after (handle_location json net fuel client payload os) λ a s. h s

  finish_auth-Serves :
      (client : ClientInfo) (username : List ℕ) (v : Verdict) (os : net.Os)
      → ((user_id : ℤ) → v ≡ granted user_id → IsAdmitted username user_id)
      → Serves client (finish_auth json net fuel client username v os)
  unfolding finish_auth log_in
  finish_auth-Serves client username (granted user_id) os h =
      after_log _ _ _
        λ s. after_reply _ _ _ λ s'. kept (logged_in username user_id (h user_id refl))
  finish_auth-Serves client username (denied message) os h =
      after_log _ _ _ λ s. after_reply _ _ _ λ s'. kept same

  finish_register-Serves :
      (client : ClientInfo) (username : List ℕ) (v : Verdict) (os : net.Os)
      → ((user_id : ℤ) → v ≡ granted user_id → IsAdmitted username user_id)
      → Serves client (finish_register json net fuel client username v os)
  unfolding finish_register log_in
  finish_register-Serves client username (granted user_id) os h =
      after_log _ _ _
        λ s. after_reply _ _ _ λ s'. kept (logged_in username user_id (h user_id refl))
  finish_register-Serves client username (denied message) os h = after_reply _ _ _ λ s. kept same

  -- The handlers' common shape: a request, and what is done with its result.
  after_asking :
      (client : ClientInfo) (o : Outcome net.Os (Option (List ℕ)))
      (k : Option (List ℕ) → M net.Os ClientInfo)
      → ((resp : Option (List ℕ)) (after : net.Os)
          → o ≡ done resp after
          → Serves client (k resp after))
      → Serves client (o ▷ k)
  after_asking client (done resp after) k h = h resp after refl
  after_asking client fault k h = at_fault
  after_asking client stuck k h = at_stuck

  -- The credentials of this kind of message admit a user when the backend does.
  abbrev Reaches : Login → Option (List ℕ) → Option (List ℕ) → Type 0
  Reaches login u p =
      (username password : List ℕ) (resp : Option (List ℕ)) (after : net.Os) (user_id : ℤ)
      → u ≡ some username
      → p ≡ some password
      → AreAllowed login username password
      → http_post_json net fuel (endpoint_of login) (asked_text username password) 1024 before
        ≡ done resp after
      → Admits json resp user_id
      → IsAdmitted username user_id

  auth_with-Serves :
      (client : ClientInfo) (u p : Option (List ℕ))
      → Reaches auth u p
      → Serves client (auth_with json net fuel client u p before)
  unfolding auth_with credentials_json
  auth_with-Serves client (some username) (some password) reach =
      after_asking client
        (http_post_json net fuel (codes "/auth") (asked_text username password) 1024 before) _
        λ resp after e.
          finish_auth-Serves client username (auth_verdict json resp) after λ user_id v.
            reach username password resp after user_id refl refl tt e
              (auth_verdict-Admits json resp user_id v)
  auth_with-Serves client (some username) none reach = after_reply _ _ _ λ s. kept same
  auth_with-Serves client none (some password) reach = after_reply _ _ _ λ s. kept same
  auth_with-Serves client none none reach = after_reply _ _ _ λ s. kept same

  register_with-Serves :
      (client : ClientInfo) (u p : Option (List ℕ))
      → Reaches register u p
      → Serves client (register_with json net fuel client u p before)
  unfolding register_with credentials_json
  register_with-Serves client (some username) (some password) reach =
      elim (bad_length-AreAllowed username password) [
        | inl bad ↦ rw bad.0 (after_reply _ _ _ λ s. kept same)
        | inr fine ↦ rw fine.0 (
            after_asking client
              (http_post_json net fuel (codes "/register") (asked_text username password) 1024
                before)
              _
              λ resp after e.
                finish_register-Serves client username (register_verdict json resp) after
                  λ user_id v.
                    reach username password resp after user_id refl refl fine.1 e
                      (register_verdict-Admits json resp user_id v))
      ]
  register_with-Serves client (some username) none reach = after_reply _ _ _ λ s. kept same
  register_with-Serves client none (some password) reach = after_reply _ _ _ λ s. kept same
  register_with-Serves client none none reach = after_reply _ _ _ λ s. kept same

  -- A conditional serves when both of its branches do.
  if-Serves :
      (client : ClientInfo) (b : Bool) (x y : M net.Os ClientInfo)
      → (b ≡ true → Serves client (x before))
      → Serves client (y before)
      → Serves client ((if b then x else y) before)
  if-Serves client true x y p q = p refl
  if-Serves client false x y p q = q

  handle_subscribe-Serves :
      (client : ClientInfo) (payload : Option json.Item)
      → Serves client (handle_subscribe json net fuel client payload before)
  unfolding handle_subscribe
  handle_subscribe-Serves client none = at_fault
  handle_subscribe-Serves client (some payload) = kept same

  module _ (item : json.Item) (parsed : json.parse (c_str message) ≡ some item) (type : List ℕ)
      (typed : string_of json (json.get_object_item item (codes "type")) ≡ some type) where
    reaches :
        (login : Login) (payload : json.Item)
        → strcmp_eq type (type_of login) ≡ true
        → json.get_object_item item (codes "payload") ≡ some payload
        → Reaches login
            (string_of json (json.get_object_item payload (codes "username")))
            (string_of json (json.get_object_item payload (codes "password")))
    reaches login payload same_type there username password resp after user_id u p allowed e
          admits =
        record {
          login = login;
          item = item;
          payload = payload;
          password = password;
          resp = resp;
          after = after;
          parsed = parsed;
          typed =
              typed ∙ ap (λ (t : List ℕ). some t) (strcmp_eq_sound type (type_of login) same_type);
          there = there;
          named = u;
          secret = p;
          allowed = allowed;
          asked = e;
          admits = admits;
        }

    handle_auth-Serves :
        (client : ClientInfo) (o : Option json.Item)
        → strcmp_eq type (codes "auth") ≡ true
        → json.get_object_item item (codes "payload") ≡ o
        → Serves client (handle_auth json net fuel client o before)
    unfolding handle_auth
    handle_auth-Serves client none t e = at_fault
    handle_auth-Serves client (some payload) t e =
        auth_with-Serves client _ _ (reaches auth payload t e)

    handle_register-Serves :
        (client : ClientInfo) (o : Option json.Item)
        → strcmp_eq type (codes "register") ≡ true
        → json.get_object_item item (codes "payload") ≡ o
        → Serves client (handle_register json net fuel client o before)
    unfolding handle_register
    handle_register-Serves client none t e = at_fault
    handle_register-Serves client (some payload) t e =
        register_with-Serves client _ _ (reaches register payload t e)

    dispatch-Serves :
        (client : ClientInfo)
        → Serves client (
            dispatch json net fuel client type (json.get_object_item item (codes "payload")) before)
    unfolding dispatch refuse_unauthenticated
    dispatch-Serves client =
        if-Serves client (strcmp_eq type (codes "auth")) _ _
          (λ t. handle_auth-Serves client _ t refl)
          (if-Serves client (strcmp_eq type (codes "register")) _ _
            (λ t. handle_register-Serves client _ t refl)
            (if-Serves client (not client.authenticated) _ _
              (λ t. after_reply _ _ _ λ s. after_log _ _ _ λ s'. kept same)
              (if-Serves client (strcmp_eq type (codes "location")) _ _
                (λ t. after_location _ _ λ s. kept same)
                (if-Serves client (strcmp_eq type (codes "subscribe")) _ _
                  (λ t. handle_subscribe-Serves client _) (kept same)))))

  -- Whatever a client sends, after `handle_message` its slot is unchanged, or it is logged in, and then
  -- this message was a login or a registration with a name and a password; the backend, asked with these
  -- two in this very run, replied with a JSON object in which `success` is true or 1 and `user_id` is a
  -- number; and the slot has this number and the first 63 bytes of the name. There is no other way to
  -- become logged in.
  pub handle_message-Serves :
      (client : ClientInfo)
      → Keeps (λ c after. IsServed client c) (handle_message json net fuel client message before)
  unfolding handle_message dispatch_item dispatch_typed
  handle_message-Serves client = item_Serves (json.parse (c_str message)) refl
    where
      typed_Serves :
          (item : json.Item)
          → json.parse (c_str message) ≡ some item
          → (type : Option (List ℕ))
          → string_of json (json.get_object_item item (codes "type")) ≡ type
          → Serves client (dispatch_typed json net fuel client item type before)
      typed_Serves item e none t = kept same
      typed_Serves item e (some type) t = dispatch-Serves item e type t client

      item_Serves :
          (o : Option json.Item)
          → json.parse (c_str message) ≡ o
          → Serves client (dispatch_item json net fuel client o before)
      item_Serves none e = kept same
      item_Serves (some item) e = typed_Serves item e _ refl
