-- ===== src/Sockets/Frames.antt =====
-- Frames and the handshake open and close no socket, and do not fault.
use npacn_fisac.Base.{ℕ, List}
use npacn_fisac.Winsock.{Socket, Winsock}
use npacn_fisac.Websocket.{websocket_frame_send, websocket_frame_recv}
use npacn_fisac.Websocket.Keeping.{websocket_frame_send-Keep, websocket_frame_recv-Keep}
use npacn_fisac.Handshake.{Stack, websocket_handshake}
use npacn_fisac.Handshake.Keeping.{websocket_handshake-Keep}
use npacn_fisac.Sockets.{HasSockets, Quiet, Same-AreCallsKept}

module _ {net : Winsock} (sockets : HasSockets net) (F : Type 0) (before : net.Os) where
  pub websocket_frame_send-Still :
      (fuel : ℕ) (s : Socket) (message : List ℕ) (len type : ℕ)
      → Quiet sockets F before (websocket_frame_send net fuel s message len type)
  websocket_frame_send-Still = websocket_frame_send-Keep F (Same-AreCallsKept sockets F before)

  pub websocket_frame_recv-Still :
      (fuel : ℕ) (s : Socket) (size : ℕ)
      → Quiet sockets F before (websocket_frame_recv net fuel s size)
  websocket_frame_recv-Still = websocket_frame_recv-Keep F (Same-AreCallsKept sockets F before)

  pub websocket_handshake-Still :
      (stack : Stack) (fuel : ℕ) (s : Socket)
      → Quiet sockets F before (websocket_handshake net stack fuel s)
  websocket_handshake-Still = websocket_handshake-Keep F (Same-AreCallsKept sockets F before)
