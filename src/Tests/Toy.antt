-- ===== src/Tests/Toy.antt =====
-- A reader of a few JSON texts, for the tests.
use npacn_fisac.Base.{ℕ, true, false, if◌then◌else◌, Option, none, some, List, []}
use npacn_fisac.Base.CText.{codes, strcmp_eq}
use npacn_fisac.Base.Int.{ℤ, pos}
use npacn_fisac.Json.{Json, Kind, is_true, number, string, object}
use npacn_fisac.Client.{ClientInfo, Server}
use npacn_fisac.Handshake.{Stack}
use npacn_fisac.Base.{replicate}
use npacn_fisac.Server.Slots.{empty_slots}

pub data Value : Type 0 where
  str : List ℕ → Value
  num : ℤ → Value
  -- `{"type":…}`
  bare : List ℕ → Value
  -- `{"type":…,"payload":…}`
  full : List ℕ → Value → Value
  -- `{"username":…,"password":…}`
  account : List ℕ → List ℕ → Value
  -- `{"success":true,"user_id":…}`
  granted : ℤ → Value
  yes : Value

abbrev pub auth_text : List ℕ
auth_text = codes "{\"type\":\"auth\",\"payload\":{\"username\":\"ann\",\"password\":\"secret\"}}"

abbrev pub location_text : List ℕ
location_text = codes "{\"type\":\"location\",\"payload\":{}}"

abbrev pub granted_text : List ℕ
granted_text = codes "{\"success\":true,\"user_id\":7}"

abbrev pub toy_parse : List ℕ → Option Value
toy_parse text =
    if strcmp_eq text (codes "{\"type\":\"auth\"}")
    then some (bare (codes "auth"))
    else if strcmp_eq text (codes "{\"type\":\"location\"}")
    then some (bare (codes "location"))
    else if strcmp_eq text auth_text
    then some (full (codes "auth") (account (codes "ann") (codes "secret")))
    else if strcmp_eq text location_text
    then some (full (codes "location") (bare []))
    else if strcmp_eq text granted_text
    then some (granted (pos 7))
    else none

abbrev pub toy_get : Value → List ℕ → Option Value
toy_get (bare type) name = if strcmp_eq name (codes "type") then some (str type) else none
toy_get (full type payload) name =
    if strcmp_eq name (codes "type")
    then some (str type)
    else if strcmp_eq name (codes "payload")
    then some payload
    else none
toy_get (account username password) name =
    if strcmp_eq name (codes "username")
    then some (str username)
    else if strcmp_eq name (codes "password")
    then some (str password)
    else none
toy_get (granted id) name =
    if strcmp_eq name (codes "success")
    then some yes
    else if strcmp_eq name (codes "user_id")
    then some (num id)
    else none
toy_get _ name = none

abbrev pub toy_kind : Value → Kind
toy_kind (str s) = string
toy_kind (num n) = number
toy_kind yes = is_true
toy_kind _ = object

abbrev pub toy_string : Value → List ℕ
toy_string (str s) = s
toy_string _ = []

abbrev pub toy_int : Value → ℤ
toy_int (num n) = n
toy_int _ = pos 0

abbrev pub toy : Json
toy = record {
  Item = Value;
  Double = ℤ;
  parse = toy_parse;
  get_object_item = toy_get;
  kind = toy_kind;
  valuestring = toy_string;
  valueint = toy_int;
  valuedouble = toy_int;
  print_double = λ d. [];
}

abbrev pub guest : ClientInfo
guest = record { sock = 3; authenticated = false; user_id = pos 0; username = [] }

abbrev pub member : ClientInfo
member = record { sock = 4; authenticated = true; user_id = pos 12; username = codes "ann" }

abbrev pub zero_stack : Stack
zero_stack = record { block = replicate 64 0; beyond_key = λ i. 0; beyond_padding = λ i. 0 }

abbrev pub new_server : Server
new_server = record { sock = 2; running = true; clients = empty_slots }
