-- ===== src/HttpClient.antt =====
-- FISAC1/src/http_client.c: one POST to the backend on 127.0.0.1, over a connection of its own.
pub mod Body
use npacn_fisac.Base.{
  ℕ, zero, suc, ◌+◌, ◌-◌, Bool, true, false, ltb, ◌==◌, if◌then◌else◌, Option, none, some,
}
use npacn_fisac.Base.{List, [], ◌∷◌, ◌++◌, length, take, drop}
use npacn_fisac.Base.{M, return, fault, stuck, call, perform, ◌>>=◌, ◌>>◌}
use npacn_fisac.Base.CText.{codes, c_str, strstr, fit, decimal}
use npacn_fisac.Winsock.{Socket, invalid_socket, Winsock, SendResult, sent, send_error}
use npacn_fisac.Winsock.{RecvResult, received, recv_error}
use npacn_fisac.Handshake.{crlf, end_of_headers}

abbrev pub backend_port : ℕ
backend_port = 5000

-- The text of the request before it is cut off to its buffer of 4096 bytes.
unfoldable pub request_text : List ℕ → List ℕ → List ℕ
request_text endpoint json_payload =
    codes "POST "
    ++ (endpoint
        ++ (codes " HTTP/1.0"
            ++ (crlf
                ++ (codes "Host: 127.0.0.1:5000"
                    ++ (crlf
                        ++ (codes "Content-Type: application/json"
                            ++ (crlf
                                ++ (codes "Connection: close"
                                    ++ (crlf
                                        ++ (codes "Content-Length: "
                                            ++ (decimal (length json_payload)
                                                ++ (end_of_headers ++ json_payload))))))))))))

-- The body of the response, behind the empty line, cut off to the caller's buffer.
unfoldable pub response_body : ℕ → List ℕ → Option (List ℕ)
response_body buffer_size recv_buf = elim (strstr recv_buf end_of_headers) [
  | none ↦ none
  | some at ↦ some (fit buffer_size (drop (at + 4) recv_buf))
]

module _ (net : Winsock) where
  open net use {Os, send, recv, socket, connect, closesocket, set_timeout}

  unfoldable pub after_post : (ℕ → M Os Bool) → ℕ → SendResult → M Os Bool
  after_post loop total_sent (sent zero) = return false
  after_post loop total_sent (sent (suc n)) = loop (total_sent + suc n)
  after_post loop total_sent (send_error e) = return false

  -- `snprintf` returns the length of the whole text, so the loop also sends `req_len` bytes where
  -- the text was cut off: it then runs past the buffer, which is undefined behaviour.
  unfoldable pub post_loop : ℕ → Socket → List ℕ → ℕ → ℕ → M Os Bool
  post_loop zero client_sock request req_len total_sent os = stuck
  post_loop (suc fuel) client_sock request req_len total_sent os =
      let step =
        call (send client_sock (take (req_len - total_sent) (drop total_sent request)))
        >>= after_post (λ t. post_loop fuel client_sock request req_len t) total_sent in
      if ltb total_sent req_len then step os else return true os

  unfoldable pub after_response_recv :
      (List ℕ → M Os (List ℕ)) → List ℕ → RecvResult → M Os (List ℕ)
  after_response_recv loop recv_buf (received []) = return recv_buf
  after_response_recv loop recv_buf (received (b ∷ bs)) = loop (recv_buf ++ (b ∷ bs))
  after_response_recv loop recv_buf (recv_error e) = return recv_buf

  unfoldable pub response_loop : ℕ → Socket → List ℕ → M Os (List ℕ)
  response_loop zero client_sock recv_buf os = stuck
  response_loop (suc fuel) client_sock recv_buf os =
      let step =
        call (recv client_sock (8191 - length recv_buf))
        >>= after_response_recv (λ b. response_loop fuel client_sock b) recv_buf in
      if ltb (length recv_buf) 8191 then step os else return recv_buf os

  -- The response is read, or sending failed; then the connection is closed.
  unfoldable pub after_posted : ℕ → Socket → ℕ → Bool → M Os (Option (List ℕ))
  after_posted fuel client_sock buffer_size true = do
    recv_buf ← response_loop fuel client_sock []
    perform (closesocket client_sock)
    return (response_body buffer_size (c_str recv_buf))
  after_posted fuel client_sock buffer_size false = do
    perform (closesocket client_sock)
    return none

  unfoldable pub after_connect : ℕ → Socket → List ℕ → ℕ → Bool → M Os (Option (List ℕ))
  after_connect fuel client_sock request buffer_size true =
      if ltb 4095 (length request)
      then (λ os. fault)
      else (post_loop fuel client_sock request (length request) 0
          >>= after_posted fuel client_sock buffer_size)
  after_connect fuel client_sock request buffer_size false = do
    perform (closesocket client_sock)
    return none

  unfoldable pub with_socket : ℕ → List ℕ → List ℕ → ℕ → Socket → M Os (Option (List ℕ))
  with_socket fuel endpoint json_payload buffer_size client_sock =
      let request = do
        perform (set_timeout client_sock 2000)
        perform (set_timeout client_sock 2000)
        connected ← call (connect client_sock backend_port)
        after_connect fuel client_sock (request_text endpoint json_payload) buffer_size connected
      in if client_sock == invalid_socket then return none else request

  -- `none` is the result -1; with 0 comes what is put into the caller's buffer.
  unfoldable pub http_post_json : ℕ → List ℕ → List ℕ → ℕ → M Os (Option (List ℕ))
  http_post_json fuel endpoint json_payload buffer_size = do
    client_sock ← call socket
    with_socket fuel endpoint json_payload buffer_size client_sock
