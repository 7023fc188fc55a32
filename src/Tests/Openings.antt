-- ===== src/Tests/Openings.antt =====
-- The opening handshake on the connection 3 of the test network, and a response of the backend.
use npacn_fisac.Base.{ℕ, ◌<◌, ◌≡◌, refl, arith, ap, sym, ◌∙◌, Bool, true, false, not, some}
use npacn_fisac.Base.{
  List, [], ◌++◌, length, length-append, take, Ensures, passes_under, passes_under_lem,
}
use npacn_fisac.Base.CText.{codes, c_str, strstr, starts_with}
use npacn_fisac.Base.Slices.{take-append}
use npacn_fisac.Handshake.{
  has_end, request_key, websocket_handshake, crlf, key_header, end_of_headers,
}
use npacn_fisac.HttpClient.{response_body}
use npacn_fisac.HttpClient.Body.{response_body-finds}
use npacn_fisac.Handshake.Session.{IsAnswered, websocket_handshake-IsAnswered}
use npacn_fisac.Tests.Script.{
  script, script_tcp, script_drains, script_delivers, script_unbroken, from_three,
}
use npacn_fisac.Tests.Toy.{toy, zero_stack, member, new_server}
use npacn_fisac.Tests.Sockets.{open_sockets}
use npacn_fisac.Tests.Answers.{script_apart, script_accepts}
use npacn_fisac.Tests.Script.{Peers}
use npacn_fisac.Client.{Server, fresh_slot}
use npacn_fisac.Server.{after_accept}
use npacn_fisac.Server.Slots.{place_client}
use npacn_fisac.Winsock.{invalid_socket, accepted}
use npacn_fisac.Answers.Opening.{IsRequest, IsOpened, after_accept-IsOpened}
use npacn_fisac.Base.{◌∷◌, ◌==◌}

abbrev nonce : List ℕ
nonce = codes "dGhlIHNhbXBsZSBub25jZQ=="

abbrev request : List ℕ
request = codes "GET /" ++ (crlf ++ (key_header ++ (nonce ++ (crlf ++ crlf))))

-- No part of the request that leaves out its end has an empty line.
only_end : (front back : List ℕ) → front ++ back ≡ request → 0 < length back → has_end front ≡ false
only_end front back e some_left =
    ap has_end (sym (take-append (length front) front back refl) ∙ ap (take (length front)) e)
    ∙ negated _ (
        passes_under_lem (λ k. not (has_end (take k request))) (length request) (length front)
          (omega (arith, length-append front back, ap length e)) every)
  where
    negated : (b : Bool) → not b ≡ true → b ≡ false
    negated true h = cc
    negated false h = refl

    every : passes_under (λ k. not (has_end (take k request))) (length request) ≡ true
    every = unfold strstr starts_with c_str in refl

websocket_handshake-IsAnswered_example :
    Ensures
      (IsAnswered script_tcp script_delivers script_drains 3 zero_stack 1000 request nonce
        (from_three request))
      (websocket_handshake script zero_stack 1000 3 (from_three request))
unfolding strstr starts_with c_str request_key
websocket_handshake-IsAnswered_example =
    websocket_handshake-IsAnswered script_tcp script_delivers script_drains 3 zero_stack 1000
      request nonce (from_three request) refl refl only_end (omega arith) (omega arith) refl
      (omega arith) (omega arith) (script_unbroken 3) (omega arith) refl

-- One slot is free, the first.
abbrev one_free : Server
one_free = record new_server { clients = fresh_slot invalid_socket ∷ member ∷ [] }

abbrev asking : Peers
asking = record (from_three request) { opened = λ s. s == 3 }

request-IsRequest : IsRequest request nonce
unfolding strstr starts_with c_str request_key
request-IsRequest = record {
  ends = refl;
  only_here = only_end;
  pos = omega arith;
  fits = omega arith;
  keyed = refl;
  short = omega arith;
  usual = λ e. omega (arith, e);
}

after_accept-IsOpened_example :
    Ensures
      (IsOpened toy script_apart open_sockets 9000 zero_stack one_free
        (fresh_slot 3 ∷ member ∷ [])
        3
        nonce
        asking)
      (after_accept toy script 9000 zero_stack one_free
        (accepted 3 (codes "10.0.0.9") 50000)
        asking)
unfolding place_client
after_accept-IsOpened_example =
    after_accept-IsOpened toy script_apart script_accepts open_sockets script_delivers 9000
      zero_stack one_free (fresh_slot 3 ∷ member ∷ []) 3 (codes "10.0.0.9") 50000 request nonce
      asking (λ e. omega (arith, e)) refl refl request-IsRequest refl (script_unbroken 3) refl
      (omega arith)

response_body-finds_example :
    response_body 4 (codes "HTTP/1.0 200 OK" ++ (end_of_headers ++ codes "{\"success\":true}"))
    ≡ some (codes "{\"s")
unfolding strstr starts_with
response_body-finds_example =
    response_body-finds 4 (codes "HTTP/1.0 200 OK") (codes "{\"success\":true}") refl
