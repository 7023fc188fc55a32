-- ===== src/Handshake.antt =====
-- FISAC1/src/websocket.c: `websocket_handshake`.
pub mod Keeping
pub mod Accept
pub mod Request
pub mod Session
pub mod Waiting
use mathlib.Core.Option
use npacn_fisac.Base.{
  ℕ, zero, suc, ◌+◌, ◌-◌, Bool, true, false, ltb, if◌then◌else◌, Option, none, some,
}
use npacn_fisac.Base.{List, [], ◌∷◌, ◌++◌, length, take, drop}
use npacn_fisac.Base.{M, return, stuck, perform, ◌>>=◌, ◌>>◌}
use npacn_fisac.Base.CText.{codes, c_str, strstr, fit}
use npacn_fisac.Winsock.{Socket, Winsock}
use npacn_fisac.Network.{RecvStatus, bytes, closed, again, broken, robust_recv, robust_send}
use npacn_fisac.Sha1.{sha1}
use npacn_fisac.Base64.{base64_encode}

abbrev pub crlf : List ℕ
crlf = 13 ∷ 10 ∷ []

abbrev pub end_of_headers : List ℕ
end_of_headers = 13 ∷ 10 ∷ 13 ∷ 10 ∷ []

abbrev pub websocket_guid : List ℕ
websocket_guid = codes "258EAFA5-E914-47DA-95CA-C5AB0DC85B11"

abbrev pub key_header : List ℕ
key_header = codes "Sec-WebSocket-Key: "

-- What the stack holds where the function reads without having written: the block of the hash
-- context, and the memory behind the key and behind the padding.
pub record Stack : Type 0 where
  pub block : List ℕ
  pub beyond_key : ℕ → ℕ
  pub beyond_padding : ℕ → ℕ

-- The value of the `Sec-WebSocket-Key` header, up to the end of its line.
unfoldable pub request_key : List ℕ → Option (List ℕ)
request_key buffer = elim (strstr buffer key_header) [
  | none ↦ none
  | some at ↦
      let key_start = drop (at + 19) buffer in
      elim (strstr key_start crlf) [ none ↦ none | some n ↦ some (take n key_start) ]
]

-- The response with its accept value, cut off to the buffers that it is built in.
unfoldable pub accept_response : List ℕ → List ℕ
accept_response sha1_digest = fit 512 (
    codes "HTTP/1.1 101 Switching Protocols"
    ++ (crlf
        ++ (codes "Upgrade: websocket"
            ++ (crlf
                ++ (codes "Connection: Upgrade"
                    ++ (crlf
                        ++ (codes "Sec-WebSocket-Accept: "
                            ++ (base64_encode sha1_digest ++ end_of_headers))))))))

unfoldable pub handshake_response : Stack → List ℕ → Option (List ℕ)
handshake_response stack key =
    Option.map accept_response
      (sha1 stack.block stack.beyond_key stack.beyond_padding (fit 256 (key ++ websocket_guid)))

abbrev pub has_end : List ℕ → Bool
has_end buffer = elim (strstr (c_str buffer) end_of_headers) [ none ↦ false | some n ↦ true ]

module _ (net : Winsock) where
  open net use {Os, sleep}

  -- The body of the loop that reads the request, after its call of `robust_recv`.
  unfoldable pub after_request_recv :
      (List ℕ → M Os (Option (List ℕ))) → List ℕ → RecvStatus → M Os (Option (List ℕ))
  after_request_recv loop buffer (bytes bs) =
      let buffer' = buffer ++ bs in if has_end buffer' then return (some buffer') else loop buffer'
  after_request_recv loop buffer again = perform (sleep 1) >> loop buffer
  after_request_recv loop buffer _ = return none

  unfoldable pub request_loop : ℕ → Socket → List ℕ → M Os (Option (List ℕ))
  request_loop zero client_sock buffer os = stuck
  request_loop (suc fuel) client_sock buffer os =
      let step =
        robust_recv net client_sock (4095 - length buffer)
        >>= after_request_recv (λ b. request_loop fuel client_sock b) buffer in
      if ltb (length buffer) 4095 then step os else return (some buffer) os

  unfoldable pub after_response : Option ℕ → M Os Bool
  after_response none = return false
  after_response (some n) = return true

  -- The request is complete: find the key and answer.
  unfoldable pub answer_request : Stack → ℕ → Socket → List ℕ → M Os Bool
  answer_request stack fuel client_sock buffer = elim (request_key (c_str buffer)) [
    | none ↦ return false
    | some key ↦ elim (handshake_response stack key) [
      | none ↦ λ os. stuck
      | some response ↦
          robust_send net fuel client_sock response (length response) >>= after_response
    ]
  ]

  unfoldable pub after_request : Stack → ℕ → Socket → Option (List ℕ) → M Os Bool
  after_request stack fuel client_sock none = return false
  after_request stack fuel client_sock (some buffer) =
      if has_end buffer then answer_request stack fuel client_sock buffer else return false

  -- `true` is the result 0 and `false` the result -1.
  unfoldable pub websocket_handshake : Stack → ℕ → Socket → M Os Bool
  websocket_handshake stack fuel client_sock =
      request_loop fuel client_sock [] >>= after_request stack fuel client_sock
