-- ===== src/Sockets/Handlers.antt =====
-- The handlers of messages leave the same sockets open, and fault only where a payload is missing.
use npacn_fisac.Base.{ℕ, ◌≡◌, refl, arith, List}
use npacn_fisac.Base.{Clean}
use npacn_fisac.Winsock.{Socket, Winsock}
use npacn_fisac.Json.{Json}
use npacn_fisac.Client.{ClientInfo}
use npacn_fisac.Protocol.{handle_message}
use npacn_fisac.Protocol.Requests.{AreKept}
use npacn_fisac.Protocol.Handlers.{MissesPayload, handle_message-Keep}
use npacn_fisac.Sockets.{HasSockets, Same}
use npacn_fisac.Sockets.Frames.{websocket_frame_send-Still}
use npacn_fisac.Sockets.Http.{http_post_json-Quiet, length-request_text}

-- The payloads of the handlers are cut off to 512 bytes at most, so a request fits its buffer.
pub Same-AreKept :
    {net : Winsock} (sockets : HasSockets net) (F : Type 0) (before : net.Os) (fuel : ℕ)
    → AreKept net fuel F (Unit {0}) (Same sockets F before)
Same-AreKept sockets F before fuel = record {
  asking = λ endpoint payload size le le'.
      http_post_json-Quiet sockets F before fuel endpoint payload size
        λ long. absurd (omega (arith, long, le, le', length-request_text endpoint payload));
  saying = λ s response le. websocket_frame_send-Still sockets F before fuel s response _ 1;
}

-- Whatever a client sends, its message faults only if it has no payload: the requests to the backend
-- stay within their buffers. When the handler returns, the same sockets are open as before, the
-- client's connection and the listening socket included, whatever became of those requests.
pub handle_message-IsQuiet :
    (json : Json) {net : Winsock} (sockets : HasSockets net) (fuel : ℕ) (client : ClientInfo)
    (message : List ℕ) (before : net.Os)
    → Clean
        (MissesPayload json message)
        (λ (c : ClientInfo) (after : net.Os).
          (t : Socket) → sockets.is_open t after ≡ sockets.is_open t before)
        (handle_message json net fuel client message before)
handle_message-IsQuiet json sockets fuel client message before =
    handle_message-Keep json (Same-AreKept sockets (MissesPayload json message) before fuel) client
      message (λ m. m) before λ t. refl
