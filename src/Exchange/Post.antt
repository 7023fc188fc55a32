-- ===== src/Exchange/Post.antt =====
-- What one request to the backend does on the wire.
use npacn_fisac.Base.{ℕ, ◌≤◌, ◌<◌, ◌≡◌, ◌≢◌, ◌⊎◌, refl, arith, ◌∙◌, ap, sym, ◌==◌, ==_iff}
use npacn_fisac.Base.{Bool, true, false, ltb, ltb→lt, Bool-cases, inl, inr, Option, none}
use npacn_fisac.Base.{List, [], ◌++◌, length, take}
use npacn_fisac.Base.{return, perform, ◌>>◌, Ensures, returns, Ensures-bind}
use npacn_fisac.Base.CText.{c_str}
use npacn_fisac.Winsock.{Socket, invalid_socket, Winsock, IsTcp, IsDraining, IsDelivering}
use npacn_fisac.HttpClient.{request_text, response_body, backend_port}
use npacn_fisac.HttpClient.{after_posted, after_connect, with_socket, http_post_json}
use npacn_fisac.Sockets.{HasSockets}
use npacn_fisac.Sockets.Http.{length-request_text}
use npacn_fisac.Exchange.{
  IsApart, Aside, Aside-socket, Aside-set_timeout, Aside-connect, Aside-closesocket, IsStopped,
}
use npacn_fisac.Exchange.Loops.{
  Posting, Posted, posted, cut_off, post_loop-Posted, Reading, HasReply, HasReply-take,
  response_loop-HasReply,
}

module _ {net : Winsock} {tcp : IsTcp net} {drains : IsDraining net} (apart : IsApart tcp drains)
    (sockets : HasSockets net) where
  -- On the connections that were open, nothing was sent or read.
  pub record IsBeside (before after : net.Os) : Type 0 where
    pub wires :
        (t : Socket)
        → t ≢ invalid_socket
        → sockets.is_open t before ≡ true
        → tcp.wire t after ≡ tcp.wire t before
    pub inboxes :
        (t : Socket)
        → t ≢ invalid_socket
        → sockets.is_open t before ≡ true
        → tcp.incoming t after ≡ tcp.incoming t before
    pub calm : drains.patience after ≤ drains.patience before

  module _ (endpoint payload : List ℕ) (size : ℕ) (before : net.Os) where
    abbrev pub backend : Socket
    backend = (net.socket before).0

    abbrev limited : net.Os
    limited = net.set_timeout backend 2000 (net.set_timeout backend 2000 (net.socket before).1)

    -- The state in which the connection is open, and what the backend sends on it.
    abbrev pub connected : net.Os
    connected = (net.connect backend backend_port limited).1

    abbrev pub reply : List ℕ
    reply = tcp.incoming backend connected

    -- Why there can be no answer.
    pub data Fails : Type 0 where
      no_socket : backend ≡ invalid_socket → Fails
      no_connection : (net.connect backend backend_port limited).0 ≡ false → Fails
      no_sending : IsStopped net backend → Fails

    pub data Exchanges : Option (List ℕ) → net.Os → Type 0 where
      answered :
          {after : net.Os} (got rest : List ℕ)
          → tcp.wire backend after ≡ request_text endpoint payload
          → reply ≡ got ++ rest
          → (IsDelivering tcp → got ≡ take 8191 reply)
          → IsBeside before after
          → Exchanges (response_body size (c_str got)) after
      not_answered : {after : net.Os} → Fails → IsBeside before after → Exchanges none after

    module _ (valid : backend ≢ invalid_socket) where
      beside : (after : net.Os) → Aside apart backend before after → IsBeside before after
      beside after h = record {
        wires = λ t ne open_one. h.wires t (other t open_one);
        inboxes = λ t ne open_one. h.inboxes t (other t open_one);
        calm = h.calm;
      }
        where
          clash : {b : Bool} → b ≡ true → b ≡ false → ⊥
          clash p q = cc

          other : (t : Socket) → sockets.is_open t before ≡ true → t ≢ backend
          other t open_one e =
              clash open_one (
                ap (λ (u : Socket). sockets.is_open u before) e ∙ sockets.fresh-socket before valid)

      closed :
          (os : net.Os)
          → Aside apart backend before os
          → IsBeside before (net.closesocket backend os)
      closed os h =
          beside (net.closesocket backend os) (Aside-closesocket apart backend before os h)

      Aside-limited : Aside apart backend before limited
      Aside-limited =
          Aside-set_timeout apart backend before 2000 _
            (Aside-set_timeout apart backend before 2000 _ (Aside-socket apart before))

      wire_connected : tcp.wire backend connected ≡ []
      wire_connected =
          apart.wire-connect backend backend backend_port limited
          ∙ apart.wire-set_timeout backend backend 2000 _
          ∙ apart.wire-set_timeout backend backend 2000 _
          ∙ apart.wire-new_socket before valid

      after_posted-Exchanges :
          (fuel : ℕ) (ok : Bool) (os : net.Os)
          → 8191 < fuel
          → Posted apart backend before (request_text endpoint payload) reply ok os
          → Ensures Exchanges (after_posted net fuel backend size ok os)
      unfolding after_posted
      after_posted-Exchanges fuel _ os enough (cut_off stopped h) =
          returns (not_answered (no_sending stopped) (closed os h))
      after_posted-Exchanges fuel _ os enough (posted sent unread h) =
          Ensures-bind (HasReply apart backend before request reply)
            (response_loop-HasReply apart backend before request reply fuel [] os (omega arith)
              start)
            finish
        where
          request : List ℕ
          request = request_text endpoint payload

          start : Reading apart backend before request reply [] os
          start = record { on_wire = sent; split = sym unread; size = omega arith; aside = h }

          finish :
              (got : List ℕ) (mid : net.Os)
              → HasReply apart backend before request reply got mid
              → Ensures Exchanges (
                  (perform (net.closesocket backend) >> return (response_body size (c_str got)))
                    mid)
          finish got mid r = returns (
              answered got (tcp.incoming backend mid)
                (apart.wire-closesocket backend backend mid ∙ r.reading.on_wire) r.reading.split
                (HasReply-take apart backend before request reply got mid r)
                (closed mid r.reading.aside))

      after_connect-Exchanges :
          (fuel : ℕ) (ok : Bool)
          → (net.connect backend backend_port limited).0 ≡ ok
          → 8191 < fuel
          → length (request_text endpoint payload) ≤ 4095
          → Ensures Exchanges
              (after_connect net fuel backend (request_text endpoint payload) size ok connected)
      unfolding after_connect
      after_connect-Exchanges fuel false e enough fits = returns (
          not_answered (no_connection e) (
            closed connected
              (Aside-connect apart backend before backend_port limited Aside-limited)))
      after_connect-Exchanges fuel true e enough fits =
          elim (Bool-cases (ltb 4095 (length request))) [
            | inl long ↦ absurd (omega (arith, fits, ltb→lt 4095 (length request) long))
            | inr short ↦ rw short (
                Ensures-bind (Posted apart backend before request reply)
                  (post_loop-Posted apart backend before request reply fuel 0 connected
                    (omega arith) (omega (arith, fits, enough)) start)
                  (λ ok os. after_posted-Exchanges fuel ok os enough))
          ]
        where
          request : List ℕ
          request = request_text endpoint payload

          start : Posting apart backend before request reply 0 connected
          start = record {
            on_wire = wire_connected;
            unread = refl;
            aside = Aside-connect apart backend before backend_port limited Aside-limited;
          }

    nothing_done : backend ≡ invalid_socket → IsBeside before (net.socket before).1
    nothing_done failed = record {
      wires = λ t ne open_one. apart.wire-socket t before λ q. ne (q ∙ failed);
      inboxes = λ t ne open_one. apart.incoming-socket t before λ q. ne (q ∙ failed);
      calm = apart.patience-socket before;
    }

    http_post_json-Ends :
        (fuel : ℕ)
        → 8191 < fuel
        → length (request_text endpoint payload) ≤ 4095
        → Ensures Exchanges (http_post_json net fuel endpoint payload size before)
    unfolding http_post_json with_socket
    http_post_json-Ends fuel enough fits = split (Bool-cases (backend == invalid_socket))
      where
        split :
            ((backend == invalid_socket) ≡ true) ⊎ ((backend == invalid_socket) ≡ false)
            → Ensures Exchanges
                (with_socket net fuel endpoint payload size backend (net.socket before).1)
        split (inl e) =
            let failed = (==_iff backend invalid_socket).0 e in
            rw (with_socket, e) (returns (not_answered (no_socket failed) (nothing_done failed)))
        split (inr e) =
            rw (with_socket, e)
              (after_connect-Exchanges (λ q. ground (arith, q, e)) fuel
                (net.connect backend backend_port limited).0 refl enough fits)

-- On a TCP network, a request to the backend returns whatever the backend does, for an endpoint of at
-- most 100 bytes and a payload of at most 1900, with more than 8191 rounds of fuel for each loop. Either the
-- text of the request, all of it and nothing else, is on a connection of its own, and the result is
-- what is found in a part of the backend's reply: in its first 8191 bytes, if they are delivered. Or
-- there is no result, for want of a socket or of a connection, or because a send took no bytes. On the
-- connections that were open before, nothing is sent or read.
pub http_post_json-Exchanges :
    {net : Winsock} {tcp : IsTcp net} {drains : IsDraining net} (apart : IsApart tcp drains)
    (sockets : HasSockets net) (fuel : ℕ) (endpoint payload : List ℕ) (size : ℕ) (before : net.Os)
    → 8191 < fuel
    → length endpoint ≤ 100
    → length payload ≤ 1900
    → Ensures
        (Exchanges apart sockets endpoint payload size before)
        (http_post_json net fuel endpoint payload size before)
http_post_json-Exchanges apart sockets fuel endpoint payload size before enough le le' =
    http_post_json-Ends apart sockets endpoint payload size before fuel enough
      (omega (arith, le, le', length-request_text endpoint payload))
