-- ===== src/Answers.antt =====
-- What the server says on a client's connection, while it talks to the backend on others.
pub mod Handlers
pub mod Verdicts
pub mod Login
pub mod Forwarding
pub mod Opening
pub mod Refusal
use native.Mathlib.Nat.{le_refl, le_trans}
use npacn_fisac.Base.{
  ℕ, ◌+◌, ◌^◌, ◌≤◌, ◌<◌, ◌≡◌, ◌≢◌, refl, arith, ◌∙◌, ap, sym, Bool, true, Option, none, some,
}
use npacn_fisac.Base.{List, [], ◌++◌, length, append_assoc, append-nil}
use npacn_fisac.Base.{
  M, Outcome, ◌▷◌, ◌>>=◌, ◌>>◌, return, Ensures, returns, Ensures-bind, Ensures-mono, Clean, clean,
  Ensures-Clean,
}
use npacn_fisac.Base.Slices.{take_all}
use npacn_fisac.Winsock.{Socket, invalid_socket, Winsock, IsTcp, IsDraining, IsBroken}
use npacn_fisac.HttpClient.{http_post_json}
use npacn_fisac.Websocket.{websocket_frame_send}
use npacn_fisac.Websocket.Rfc.{server_frame}
use npacn_fisac.Websocket.SendFrame.{Sends, whole, cut, websocket_frame_send-Sends}
use npacn_fisac.Sockets.{HasSockets, Same}
use npacn_fisac.Sockets.Http.{http_post_json-IsQuiet}
use npacn_fisac.Sockets.Frames.{websocket_frame_send-Still}
use npacn_fisac.Exchange.{IsApart}
use npacn_fisac.Exchange.Post.{
  IsBeside, Exchanges, answered, not_answered, http_post_json-Exchanges,
}

module _ {net : Winsock} {tcp : IsTcp net} {drains : IsDraining net} (apart : IsApart tcp drains)
    (sockets : HasSockets net) (s : Socket) where
  -- Of the connections that were open, `said` was sent on `s`, and nothing on any other; nothing was
  -- read, and the same sockets are open.
  pub record Told (said : List ℕ) (before after : net.Os) : Type 0 where
    pub on_wire : tcp.wire s after ≡ tcp.wire s before ++ said
    pub others :
        (t : Socket)
        → t ≢ s
        → t ≢ invalid_socket
        → sockets.is_open t before ≡ true
        → tcp.wire t after ≡ tcp.wire t before
    pub inboxes :
        (t : Socket)
        → t ≢ invalid_socket
        → sockets.is_open t before ≡ true
        → tcp.incoming t after ≡ tcp.incoming t before
    pub calm : drains.patience after ≤ drains.patience before
    pub same_open : (t : Socket) → sockets.is_open t after ≡ sockets.is_open t before

  pub Told-append :
      (first second : List ℕ) (before mid after : net.Os)
      → Told first before mid
      → Told second mid after
      → Told (first ++ second) before after
  Told-append first second before mid after p q = record {
    on_wire =
        q.on_wire
        ∙ ap (λ (w : List ℕ). w ++ second) p.on_wire
        ∙ append_assoc (tcp.wire s before) first second;
    others = λ t ne valid e. q.others t ne valid (p.same_open t ∙ e) ∙ p.others t ne valid e;
    inboxes = λ t valid e. q.inboxes t valid (p.same_open t ∙ e) ∙ p.inboxes t valid e;
    calm = le_trans q.calm p.calm;
    same_open = λ t. q.same_open t ∙ p.same_open t;
  }

  -- Runs from a state in which the connection is open, by what they say.
  abbrev pub Says : List ℕ → {A : Type 0} → (A → Type 0) → net.Os → Outcome net.Os A → Type 0
  Says said {A} P before = Ensures (λ (a : A) (after : net.Os). P a × Told said before after)

  module _ (valid : s ≢ invalid_socket) (before : net.Os)
      (open_one : sockets.is_open s before ≡ true) where
    pub http_post_json-Says :
        (fuel : ℕ) (endpoint payload : List ℕ) (size : ℕ)
        → 8191 < fuel
        → length endpoint ≤ 100
        → length payload ≤ 1900
        → Says []
            (λ (r : Option (List ℕ)). Unit {0})
            before
            (http_post_json net fuel endpoint payload size before)
    http_post_json-Says fuel endpoint payload size enough le le' =
        Ensures-mono
          (Ensures-Clean
            (http_post_json-Exchanges apart sockets fuel endpoint payload size before enough le le')
            (http_post_json-IsQuiet sockets fuel endpoint payload size before le le'))
          λ r after h. (tt, told after (beside r after h.0) h.1)
      where
        beside :
            (r : Option (List ℕ)) (after : net.Os)
            → Exchanges apart sockets endpoint payload size before r after
            → IsBeside apart sockets before after
        beside _ after (answered got rest sent part all_of b) = b
        beside _ after (not_answered why b) = b

        told :
            (after : net.Os)
            → IsBeside apart sockets before after
            → ((t : Socket) → sockets.is_open t after ≡ sockets.is_open t before)
            → Told [] before after
        told after b same = record {
          on_wire = b.wires s valid open_one ∙ sym (append-nil (tcp.wire s before));
          others = λ t ne t_valid e. b.wires t t_valid e;
          inboxes = λ t t_valid e. b.inboxes t t_valid e;
          calm = b.calm;
          same_open = same;
        }

    pub websocket_frame_send-Says :
        (fuel : ℕ) (message : List ℕ) (type : ℕ)
        → ¬ IsBroken net s
        → type < 16
        → length message < 2 ^ 31
        → length message + 10 + drains.patience before < fuel
        → Says
            (server_frame type message)
            (λ (r : Option (Unit {0})). Unit {0})
            before
            (websocket_frame_send net fuel s message (length message) type before)
    websocket_frame_send-Says fuel message type sound low small enough =
        Ensures-mono
          (Ensures-Clean
            (websocket_frame_send-Sends tcp drains fuel s message type before low small enough)
            (websocket_frame_send-Still sockets ⊥ before fuel s message (length message) type before
              λ t. refl))
          λ r after h. (tt, told r after h.0 h.1)
      where
        frame : List ℕ
        frame = server_frame type message

        told :
            (r : Option (Unit {0})) (after : net.Os)
            → Sends tcp drains s frame before r after
            → ((t : Socket) → sockets.is_open t after ≡ sockets.is_open t before)
            → Told frame before after
        told _ after (whole p) same = record {
          on_wire =
              p.on_wire
              ∙ ap (λ (b : List ℕ). tcp.wire s before ++ b)
                  (take_all (length frame) frame (le_refl _));
          others = λ t ne t_valid e. p.others t ne;
          inboxes = λ t t_valid e. p.inbox t;
          calm = p.calm;
          same_open = same;
        }
        told _ after (cut count le p bad) same = absurd (sound bad)

  -- One run after another.
  pub Says-bind :
      {A B : Type 0} {P : A → Type 0} {Q : B → Type 0} (first second : List ℕ) (before : net.Os)
      (o : Outcome net.Os A) (k : A → M net.Os B)
      → sockets.is_open s before ≡ true
      → Says first P before o
      → ((a : A) (mid : net.Os)
          → P a
          → sockets.is_open s mid ≡ true
          → drains.patience mid ≤ drains.patience before
          → Says second Q mid (k a mid))
      → Says (first ++ second) Q before (o ▷ k)
  Says-bind {P = P} first second before o k open_one h go =
      Ensures-bind (λ a mid. P a × Told first before mid) h
        λ a mid p.
          Ensures-mono (go a mid p.0 (p.1.same_open s ∙ open_one) p.1.calm)
            λ b after q. (q.0, Told-append first second before mid after p.1 q.1)

  pub return-Says :
      {A : Type 0} {P : A → Type 0} (a : A) (os : net.Os) → P a → Says [] P os (return a os)
  return-Says a os p = returns (
    p,
    record {
      on_wire = sym (append-nil (tcp.wire s os));
      others = λ t ne valid e. refl;
      inboxes = λ t valid e. refl;
      calm = le_refl _;
      same_open = λ t. refl;
    },
  )
