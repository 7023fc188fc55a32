-- ===== src/Settling.antt =====
-- Which waits of the server come to an end: what a send waits for is bounded by the patience of the network,
-- and each wait costs some of it. The calls of WinSock2 return here.
pub mod Reading
pub mod Serving
pub mod Rounds
pub mod Waiting
pub mod Stopping
use native.Mathlib.Nat.{le_trans}
use npacn_fisac.Base.{ℕ, ◌+◌, ◌≤◌, ◌<◌, ◌≡◌, refl, arith, Option, none, some, List, length}
use npacn_fisac.Base.{M, Keep, perform, perform-Keep, Ensures-Ends, Ends-mono}
use npacn_fisac.Winsock.{Socket, Winsock, IsTcp, IsDraining}
use npacn_fisac.Websocket.{websocket_frame_send}
use npacn_fisac.Websocket.Rfc.{server_frame}
use npacn_fisac.Websocket.SendFrame.{Sends, whole, cut, websocket_frame_send-Sends}
use npacn_fisac.Protocol.Requests.{AreKept}
use npacn_fisac.Sockets.{HasSockets}
use npacn_fisac.Exchange.{IsApart}
use npacn_fisac.Exchange.Post.{
  IsBeside, Exchanges, answered, not_answered, http_post_json-Exchanges,
}

-- The waits that are left are at most `limit`.
abbrev pub Calm : {net : Winsock} → IsDraining net → ℕ → net.Os → Type 0
Calm drains limit os = drains.patience os ≤ limit

module _ {net : Winsock} {tcp : IsTcp net} {drains : IsDraining net} (apart : IsApart tcp drains)
    (sockets : HasSockets net) (F G : Type 0) (limit fuel : ℕ) (enough : 12300 + limit < fuel) where
  abbrev pub Settles : {A : Type 0} → M net.Os A → Type 0
  Settles m = Keep F G (Calm drains limit) m

  pub websocket_frame_send-Settles :
      (s : Socket) (message : List ℕ) (len type : ℕ)
      → length message ≡ len
      → len ≤ 4096
      → type < 16
      → Settles (websocket_frame_send net fuel s message len type)
  websocket_frame_send-Settles s message len type e le low os h = rw (← e) (
      Ensures-Ends
        (websocket_frame_send-Sends tcp drains fuel s message type os low (omega arith)
          (omega arith))
        sent)
    where
      sent :
          (r : Option (Unit {0})) (after : net.Os)
          → Sends tcp drains s (server_frame type message) os r after
          → Calm drains limit after
      sent _ after (whole p) = le_trans p.calm h
      sent _ after (cut count le p bad) = le_trans p.calm h

  pub close-Settles : (s : Socket) → Settles (perform (net.closesocket s))
  close-Settles s =
      perform-Keep F G (Calm drains limit) (net.closesocket s)
        λ os h. le_trans (apart.patience-closesocket s os) h

  pub Calm-AreKept : AreKept net fuel F G (Calm drains limit)
  Calm-AreKept = record {
    asking = λ endpoint payload size le le' os h.
        Ensures-Ends
          (http_post_json-Exchanges apart sockets fuel endpoint payload size os (omega arith) le
            (omega arith))
          (asked endpoint payload size os h);
    saying = λ s response le.
        websocket_frame_send-Settles s response (length response) 1 refl (omega arith)
          (omega arith);
  }
    where
      asked :
          (endpoint payload : List ℕ) (size : ℕ) (os : net.Os)
          → Calm drains limit os
          → (r : Option (List ℕ)) (after : net.Os)
          → Exchanges apart sockets endpoint payload size os r after
          → Calm drains limit after
      asked endpoint payload size os h _ after (answered got rest sent part all_of b) =
          le_trans b.calm h
      asked endpoint payload size os h _ after (not_answered why b) = le_trans b.calm h
