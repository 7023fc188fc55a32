-- ===== src/Tests/Frames.antt =====
-- Sends, reads and frames on the connection 3 of the test network.
use npacn_fisac.Base.{ℕ, ◌+◌, ◌≡◌, ◌≢◌, refl, arith, List, [], ◌∷◌, ◌++◌, Ensures}
use npacn_fisac.Base.CText.{codes}
use npacn_fisac.Winsock.{Socket}
use npacn_fisac.Network.{robust_send}
use npacn_fisac.Network.Sending.{SendsAll, robust_send-SendsAll}
use npacn_fisac.Websocket.{
  websocket_frame_send, websocket_frame_recv, recv_exact, text, ignored, disconnected,
}
use npacn_fisac.Websocket.Reading.{ReadsExactly, recv_exact-ReadsExactly}
use npacn_fisac.Websocket.Rfc.{client_frame, server_frame}
use npacn_fisac.Websocket.SendFrame.{Sends, websocket_frame_send-Sends}
use npacn_fisac.Websocket.RecvFrame.{Leaves}
use npacn_fisac.Websocket.Frames.{websocket_frame_recv-text, websocket_frame_recv-ping}
use npacn_fisac.Base.{Keeps}
use npacn_fisac.Websocket.Bounds.{IsWithin, websocket_frame_recv-IsWithin}
use npacn_fisac.Websocket.Closing.{websocket_frame_recv-empty}
use npacn_fisac.Tests.Script.{
  Peers, script, script_tcp, script_drains, script_delivers, script_unbroken, from_three,
}

robust_send-SendsAll_example :
    Ensures
      (SendsAll script_tcp script_drains 3 (codes "hello") 5 (from_three []))
      (robust_send script 6 3 (codes "hello") 5 (from_three []))
robust_send-SendsAll_example =
    robust_send-SendsAll script_tcp script_drains 6 3 (codes "hello") 5 (from_three [])
      (omega arith) (omega arith)

websocket_frame_send-Sends_example :
    Ensures
      (Sends script_tcp script_drains 3 (server_frame 1 (codes "hello")) (from_three []))
      (websocket_frame_send script 20 3 (codes "hello") 5 1 (from_three []))
websocket_frame_send-Sends_example =
    websocket_frame_send-Sends script_tcp script_drains 20 3 (codes "hello") 1 (from_three [])
      (omega arith) (omega arith) (omega arith)

recv_exact-ReadsExactly_example :
    Ensures
      (ReadsExactly script_tcp 3 2 (from_three (codes "hello")))
      (recv_exact script 3 2 (from_three (codes "hello")))
recv_exact-ReadsExactly_example =
    recv_exact-ReadsExactly script_tcp 3 2 (from_three (codes "hello"))

-- A frame with the payload "hi" and the key 1 2 3 4, and what follows it.
abbrev stream : ℕ → List ℕ
stream op = client_frame op 1 2 3 4 (codes "hi") ++ codes "more"

websocket_frame_recv-text_example :
    Ensures
      (λ r after.
        (r ≡ text (codes "hi")) × Leaves script_tcp 3 (codes "more") (from_three (stream 1)) after)
      (websocket_frame_recv script 20 3 4096 (from_three (stream 1)))
websocket_frame_recv-text_example =
    websocket_frame_recv-text script_tcp script_delivers 20 3 4096 1 2 3 4 (codes "hi")
      (codes "more") (from_three (stream 1)) (omega arith) (omega arith) (omega arith) (omega arith)
      (omega arith) refl

websocket_frame_recv-ping_example :
    Ensures
      (λ r after.
        (r ≡ ignored)
        × (script_tcp.incoming 3 after ≡ codes "more")
        × (script_tcp.wire 3 after
            ≡ script_tcp.wire 3 (from_three (stream 9)) ++ server_frame 10 (codes "hi"))
        × ((t : Socket)
            → t ≢ 3
            → script_tcp.wire t after ≡ script_tcp.wire t (from_three (stream 9))))
      (websocket_frame_recv script 20 3 4096 (from_three (stream 9)))
websocket_frame_recv-ping_example =
    websocket_frame_recv-ping script_tcp script_delivers 20 3 4096 1 2 3 4 (codes "hi")
      (codes "more") (from_three (stream 9)) (omega arith) (omega arith) (omega arith) (omega arith)
      (omega arith) script_drains (script_unbroken 3) (omega arith) refl

-- A ping without data.
abbrev empty_ping : Peers
empty_ping = from_three ((128 + 9) ∷ 128 ∷ 1 ∷ 2 ∷ 3 ∷ 4 ∷ codes "more")

websocket_frame_recv-empty_example :
    Ensures
      (λ r after. (r ≡ disconnected) × Leaves script_tcp 3 (codes "more") empty_ping after)
      (websocket_frame_recv script 20 3 4096 empty_ping)
websocket_frame_recv-empty_example =
    websocket_frame_recv-empty script_tcp script_delivers 20 3 4096 (codes "more") empty_ping 9 1 2
      3 4 (omega arith) (omega arith) refl

websocket_frame_recv-IsWithin_example :
    Keeps
      (λ r after. IsWithin 4096 r)
      (websocket_frame_recv script 20 3 4096 (from_three (stream 1)))
websocket_frame_recv-IsWithin_example =
    websocket_frame_recv-IsWithin script_tcp 20 3 4096 (omega arith) (from_three (stream 1))
