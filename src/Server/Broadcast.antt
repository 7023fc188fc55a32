-- ===== src/Server/Broadcast.antt =====
-- Who a broadcast reaches.
use native.Mathlib.Nat.{le_refl}
use npacn_fisac.Base.{ℕ, ◌+◌, ◌^◌, ◌≤◌, ◌<◌, ◌≡◌, ◌≢◌, refl, arith, ◌∙◌, ap, sym, subst}
use npacn_fisac.Base.{Bool, true, false, ◌==◌, not, ◌&&◌, Bool-cases, inl, inr, Option}
use npacn_fisac.Base.{List, [], ◌∷◌, ◌++◌, length, append_assoc, append-nil, if◌then◌else◌}
use npacn_fisac.Base.{Ensures, returns, Ensures-bind, Ensures-mono, ==_iff}
use npacn_fisac.Base.Slices.{take_all}
use npacn_fisac.Base.CText.{c_str}
use npacn_fisac.Winsock.{Socket, invalid_socket, Winsock, IsTcp, IsDraining, IsBroken}
use npacn_fisac.Websocket.Rfc.{server_frame}
use npacn_fisac.Websocket.SendFrame.{Sends, whole, cut, websocket_frame_send-Sends}
use npacn_fisac.Client.{ClientInfo, Server}
use npacn_fisac.Server.Slots.{is_receiver}
use npacn_fisac.Server.{broadcast_loop, server_broadcast}

-- What the connection `t` is to receive: nothing if it is the sender's or no socket, and else the
-- frame, once for every logged-in client that has this socket.
unfoldable pub frames_for : Socket → List ClientInfo → List ℕ → Socket → List ℕ
frames_for sender_sock [] frame t = []
frames_for sender_sock (client ∷ clients) frame t =
    (if client.authenticated
        && (t == client.sock)
        && (not (t == sender_sock) && not (t == invalid_socket))
      then frame
      else [])
    ++ frames_for sender_sock clients frame t

module _ {net : Winsock} (tcp : IsTcp net) (drains : IsDraining net) (fuel : ℕ) (message : List ℕ)
    (sender : Socket) where
  abbrev frame : List ℕ
  frame = server_frame 1 message

  abbrev Reaches : List ClientInfo → net.Os → Unit {0} → net.Os → Type 0
  Reaches clients before u after =
      ((t : Socket)
        → ¬ IsBroken net t
        → tcp.wire t after ≡ tcp.wire t before ++ frames_for sender clients frame t)
      × ((t : Socket) → tcp.incoming t after ≡ tcp.incoming t before)

  -- What one send adds, on every connection that is not broken.
  wire-Sends :
      (s t : Socket) (before : net.Os) (r : Option (Unit {0})) (after : net.Os)
      → Sends tcp drains s frame before r after
      → ¬ IsBroken net t
      → tcp.wire t after ≡ tcp.wire t before ++ (if t == s then frame else [])
  wire-Sends s t before r after sends sound = elim (Bool-cases (t == s)) [
    | inl same ↦ rw same (on_it ((==_iff t s).0 same) r sends)
    | inr other ↦ rw other (off_it (λ e. distinct other e) r sends ∙ sym (append-nil _))
  ]
    where
      distinct : (t == s) ≡ false → t ≡ s → ⊥
      distinct other e = ground arith

      on_it :
          t ≡ s
          → (r : Option (Unit {0})) → Sends tcp drains s frame before r after
          → tcp.wire t after ≡ tcp.wire t before ++ frame
      on_it e _ (whole p) =
          ap (λ (u : Socket). tcp.wire u after) e
          ∙ p.on_wire
          ∙ ap (λ (b : List ℕ). tcp.wire s before ++ b) (take_all (length frame) frame (le_refl _))
          ∙ ap (λ (u : Socket). tcp.wire u before ++ frame) (sym e)
      on_it e _ (cut count le p bad) = absurd (sound (subst (IsBroken net) (sym e) bad))

      off_it :
          t ≢ s
          → (r : Option (Unit {0})) → Sends tcp drains s frame before r after
          → tcp.wire t after ≡ tcp.wire t before
      off_it ne _ (whole p) = p.others t ne
      off_it ne _ (cut count le p bad) = p.others t ne

  quiet :
      (s : Socket) (before : net.Os) (r : Option (Unit {0})) (after : net.Os)
      → Sends tcp drains s frame before r after
      → ((t : Socket) → tcp.incoming t after ≡ tcp.incoming t before)
        × (drains.patience after ≤ drains.patience before)
  quiet s before _ after (whole p) = (p.inbox, p.calm)
  quiet s before _ after (cut count le p bad) = (p.inbox, p.calm)

  frames_chosen :
      (client : ClientInfo) (clients : List ClientInfo) (t : Socket)
      → is_receiver sender client ≡ true
      → frames_for sender (client ∷ clients) frame t
        ≡ (if t == client.sock then frame else []) ++ frames_for sender clients frame t
  unfolding frames_for is_receiver
  frames_chosen client clients t chosen =
      ap (λ (b : Bool). (if b then frame else []) ++ frames_for sender clients frame t)
        (same client.sock client.authenticated chosen)
    where
      same :
          (s : Socket) (auth : Bool)
          → (not (s == invalid_socket) && (not (s == sender) && auth)) ≡ true
          → (auth && (t == s) && (not (t == sender) && not (t == invalid_socket))) ≡ (t == s)
      same s auth h = ground arith

  frames_skipped :
      (client : ClientInfo) (clients : List ClientInfo) (t : Socket)
      → is_receiver sender client ≡ false
      → frames_for sender (client ∷ clients) frame t ≡ frames_for sender clients frame t
  unfolding frames_for is_receiver
  frames_skipped client clients t skipped =
      ap (λ (b : Bool). (if b then frame else []) ++ frames_for sender clients frame t)
        (nothing client.sock client.authenticated skipped)
    where
      nothing :
          (s : Socket) (auth : Bool)
          → (not (s == invalid_socket) && (not (s == sender) && auth)) ≡ false
          → (auth && (t == s) && (not (t == sender) && not (t == invalid_socket))) ≡ false
      nothing s auth h = ground arith

  broadcast_loop-Reaches :
      (clients : List ClientInfo) (os : net.Os)
      → length message < 2 ^ 31
      → length message + 10 + drains.patience os < fuel
      → Ensures (Reaches clients os) (broadcast_loop net fuel clients message sender os)
  unfolding broadcast_loop frames_for
  broadcast_loop-Reaches [] os small enough =
      returns ((λ t sound. sym (append-nil (tcp.wire t os))), λ t. refl)
  broadcast_loop-Reaches (client ∷ clients) os small enough =
      elim (Bool-cases (is_receiver sender client)) [
        | inl chosen ↦ rw chosen (
            Ensures-bind (Sends tcp drains client.sock frame os)
              (websocket_frame_send-Sends tcp drains fuel client.sock message 1 os (omega arith)
                small enough)
              λ r mid sends.
                let still = quiet client.sock os r mid sends in
                Ensures-mono (broadcast_loop-Reaches clients mid small (omega (arith, still.1)))
                  λ u after more. (
                    (λ t sound.
                        more.0 t sound
                        ∙ ap (λ (w : List ℕ). w ++ frames_for sender clients frame t)
                            (wire-Sends client.sock t os r mid sends sound)
                        ∙ append_assoc (tcp.wire t os) (if t == client.sock then frame else []) _
                        ∙ ap (λ (l : List ℕ). tcp.wire t os ++ l)
                            (sym (frames_chosen client clients t chosen))),
                    λ t. more.1 t ∙ still.0 t,
                  ))
        | inr skipped ↦ rw skipped (
            Ensures-mono (broadcast_loop-Reaches clients os small enough) λ u after more. (
              (λ t sound.
                  more.0 t sound
                  ∙ ap (λ (l : List ℕ). tcp.wire t os ++ l)
                      (sym (frames_skipped client clients t skipped))),
              more.1,
            ))
      ]

-- With peers that read, a broadcast of a string returns. On every connection `t` on which no send
-- fails for good, it has then put the text frame of the string once for every slot of a logged-in
-- client with this socket, and nothing if `t` is the sender's connection; this holds also when sends
-- on other connections fail. Nothing is read.
pub server_broadcast-Reaches :
    {net : Winsock} (tcp : IsTcp net) (drains : IsDraining net) (fuel : ℕ) (server : Server)
    (message : List ℕ) (sender t : Socket) (os : net.Os)
    → length (c_str message) < 2 ^ 31
    → length (c_str message) + 10 + drains.patience os < fuel
    → ¬ IsBroken net t
    → Ensures
        (λ u after.
          (tcp.wire t after
            ≡ tcp.wire t os ++ frames_for sender server.clients (server_frame 1 (c_str message)) t)
          × ((s : Socket) → tcp.incoming s after ≡ tcp.incoming s os))
        (server_broadcast net fuel server message sender os)
unfolding server_broadcast
server_broadcast-Reaches tcp drains fuel server message sender t os small enough sound =
    Ensures-mono
      (broadcast_loop-Reaches tcp drains fuel (c_str message) sender server.clients os small enough)
      λ u after h. (h.0 t sound, h.1)
