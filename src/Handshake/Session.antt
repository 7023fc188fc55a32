-- ===== src/Handshake/Session.antt =====
-- The whole opening handshake, over a connection.
use native.Mathlib.Nat
use npacn_fisac.Base.{ℕ, zero, suc, ◌+◌, ◌-◌, ◌≤◌, ◌<◌, ◌≡◌, ◌≢◌, refl, arith, ◌∙◌, ap, sym, subst}
use npacn_fisac.Base.{Bool, true, false, ltb, lt→ltb, Option, some, if◌then◌else◌}
use npacn_fisac.Base.{List, [], ◌∷◌, ◌++◌, length, length-append, append-nil}
use npacn_fisac.Base.{M, return, Ensures, returns, Ensures-bind}
use npacn_fisac.Base.Slices.{take_all}
use npacn_fisac.Base.CText.{c_str}
use npacn_fisac.Winsock.{
  RecvResult, Socket, Winsock, IsTcp, IsDelivering, IsDraining, IsBroken, received_bytes,
  patience-IsWaning,
}
use npacn_fisac.Network.{RecvStatus, bytes, closed, again, broken, classify, robust_recv}
use npacn_fisac.Network.Sending.{SendsAll, all, part, robust_send-SendsAll}
use npacn_fisac.Websocket.Reading.{Pulled, Pulled-recv, status_bytes, classify-bytes}
use npacn_fisac.Handshake.{Stack, has_end, request_key, after_request_recv, request_loop}
use npacn_fisac.Handshake.{after_response, answer_request, after_request, websocket_handshake}
use npacn_fisac.Handshake.Accept.{
  switching_protocols, length-switching_protocols, handshake_response-rfc,
}

module _ {net : Winsock} (tcp : IsTcp net) (delivers : IsDelivering tcp) (s : Socket)
    (request : List ℕ) (before : net.Os) (ends : has_end request ≡ true)
    (only_here : (front back : List ℕ)
      → front ++ back ≡ request
      → 0 < length back
      → has_end front ≡ false)
    (fits : length request < 4095) (stream : tcp.incoming s before ≡ request) where
  -- The whole request was read, and nothing else.
  data IsRead : Option (List ℕ) → net.Os → Type 0 where
    is_read :
        {after : net.Os}
        → Pulled tcp s request before after
        → tcp.incoming s after ≡ []
        → IsRead (some request) after

  -- The body of the loop, for a part of the request that has just been read.
  after_request_recv-IsRead :
      (loop : List ℕ → M net.Os (Option (List ℕ))) (buffer bs : List ℕ) (after : net.Os)
      → Pulled tcp s (buffer ++ bs) before after
      → (0 < length (tcp.incoming s after) → Ensures IsRead (loop (buffer ++ bs) after))
      → Ensures IsRead (after_request_recv net loop buffer (bytes bs) after)
  unfolding after_request_recv
  after_request_recv-IsRead loop buffer bs after p go = split (tcp.incoming s after) refl
    where
      whole : (buffer ++ bs) ++ tcp.incoming s after ≡ request
      whole = sym p.taken ∙ stream

      split :
          (rest : List ℕ)
          → tcp.incoming s after ≡ rest
          → Ensures IsRead (
              (if has_end (buffer ++ bs) then return (some (buffer ++ bs)) else loop (buffer ++ bs))
                after)
      split [] e =
          let same : buffer ++ bs ≡ request =
            sym (append-nil (buffer ++ bs))
            ∙ ap (λ (l : List ℕ). (buffer ++ bs) ++ l) (sym e)
            ∙ whole in
          rw (ap has_end same ∙ ends) (
            subst (λ (b : List ℕ). Ensures IsRead (return (some b) after)) (sym same)
              (returns (is_read (subst (λ (b : List ℕ). Pulled tcp s b before after) same p) e)))
      split (c ∷ rest) e =
          rw (only_here (buffer ++ bs) (tcp.incoming s after) whole (omega (arith, ap length e)))
            (go (omega (arith, ap length e)))

  request_loop-IsRead :
      (fuel : ℕ) (buffer : List ℕ) (os : net.Os)
      → Pulled tcp s buffer before os
      → 0 < length (tcp.incoming s os)
      → length (tcp.incoming s os) < fuel
      → Ensures IsRead (request_loop net fuel s buffer os)
  unfolding request_loop robust_recv
  request_loop-IsRead zero buffer os p more enough = absurd (omega arith)
  request_loop-IsRead (suc fuel) buffer os p more enough = rw room (
      status (classify result) refl
        λ bs p' left. request_loop-IsRead fuel (buffer ++ bs) after p' left (omega (arith, less)))
    where
      len : ℕ
      len = 4095 - length buffer

      result : RecvResult
      result = (net.recv s len os).0

      after : net.Os
      after = (net.recv s len os).1

      size : length buffer + length (tcp.incoming s os) ≡ length request
      size = sym (length-append buffer (tcp.incoming s os)) ∙ ap length (sym p.taken ∙ stream)

      room : ltb (length buffer) 4095 ≡ true
      room = lt→ltb (length buffer) 4095 (omega (arith, size))

      some_read : 0 < length (received_bytes result)
      some_read = delivers s len os (omega (arith, size)) more

      here : Pulled tcp s (buffer ++ received_bytes result) before after
      here = Pulled-recv tcp s buffer len before os p

      less : length (tcp.incoming s after) < length (tcp.incoming s os)
      less = omega (
        arith,
        some_read,
        ap length (tcp.incoming-recv s len os),
        length-append (received_bytes result) (tcp.incoming s after),
      )

      nothing : (st : RecvStatus) → classify result ≡ st → status_bytes st ≡ [] → ⊥
      nothing st e none_read = omega (
        arith,
        some_read,
        ap length (sym (classify-bytes result) ∙ ap status_bytes e ∙ none_read),
      )

      status :
          (st : RecvStatus)
          → classify result ≡ st
          → ((bs : List ℕ)
              → Pulled tcp s (buffer ++ bs) before after
              → 0 < length (tcp.incoming s after)
              → Ensures IsRead (request_loop net fuel s (buffer ++ bs) after))
          → Ensures IsRead (after_request_recv net (λ b. request_loop net fuel s b) buffer st after)
      status (bytes bs) e go =
          let got : received_bytes result ≡ bs = sym (classify-bytes result) ∙ ap status_bytes e in
          let p' = subst (λ (l : List ℕ). Pulled tcp s (buffer ++ l) before after) got here in
          after_request_recv-IsRead (λ b. request_loop net fuel s b) buffer bs after p' (go bs p')
      status closed e go = absurd (nothing closed e refl)
      status again e go = absurd (nothing again e refl)
      status broken e go = absurd (nothing broken e refl)

module _ {net : Winsock} (tcp : IsTcp net) (delivers : IsDelivering tcp) (drains : IsDraining net)
    (s : Socket) (stack : Stack) (fuel : ℕ) (request key : List ℕ) (before : net.Os) where
  -- The answer has been sent, and nothing else.
  pub record IsAnswered (opened : Bool) (after : net.Os) : Type 0 where
    pub success : opened ≡ true
    pub answer : tcp.wire s after ≡ tcp.wire s before ++ switching_protocols key
    pub others : (t : Socket) → t ≢ s → tcp.wire t after ≡ tcp.wire t before
    pub unread : tcp.incoming s after ≡ []

  -- On a connection that delivers what its peer sends, with a peer that reads and no send that fails
  -- for good, the handshake returns, and succeeds, for a request of at most 4094 bytes that has an
  -- empty line at its end and not before, and a key of at most 28 bytes but for 20. However the request
  -- is split up on its way, it is read to its end, and answered with the response of RFC 6455 to its key;
  -- nothing is sent on other connections.
  pub websocket_handshake-IsAnswered :
      length stack.block ≡ 64
      → has_end request ≡ true
      → ((front back : List ℕ) → front ++ back ≡ request → 0 < length back → has_end front ≡ false)
      → 0 < length request
      → length request < 4095
      → request_key (c_str request) ≡ some key
      → length key ≤ 28
      → length key ≢ 20
      → ¬ IsBroken net s
      → 512 + length request + drains.patience before < fuel
      → tcp.incoming s before ≡ request
      → Ensures IsAnswered (websocket_handshake net stack fuel s before)
  unfolding websocket_handshake
  websocket_handshake-IsAnswered block ends only_here pos fits found le ne sound enough stream =
      Ensures-bind (IsRead tcp delivers s request before ends only_here fits stream)
        (request_loop-IsRead tcp delivers s request before ends only_here fits stream fuel [] before
          (record { taken = refl; wires = λ t. refl; wanes = λ m w. Nat.le_refl _ })
          (omega (arith, ap length stream)) (omega (arith, ap length stream)))
        after_read
    where
      response : List ℕ
      response = switching_protocols key

      sent :
          (mid : net.Os)
          → Pulled tcp s request before mid
          → tcp.incoming s mid ≡ []
          → (r : Option ℕ) (after : net.Os)
          → SendsAll tcp drains s response (length response) mid r after
          → Ensures IsAnswered (after_response net r after)
      sent mid p empty _ after (all q) =
          unfold after_response in
          returns (record {
            success = refl;
            answer =
                q.on_wire
                ∙ ap (λ (b : List ℕ). tcp.wire s mid ++ b)
                    (take_all (length response) response (Nat.le_refl _))
                ∙ ap (λ (w : List ℕ). w ++ response) (p.wires s);
            others = λ t other. q.others t other ∙ p.wires t;
            unread = q.inbox s ∙ empty;
          })
      sent mid p empty _ after (part count l q bad) = absurd (sound bad)

      after_read :
          (r : Option (List ℕ)) (mid : net.Os)
          → IsRead tcp delivers s request before ends only_here fits stream r mid
          → Ensures IsAnswered (after_request net stack fuel s r mid)
      after_read _ mid (is_read p empty) =
          let rfc = handshake_response-rfc stack key block le ne in
          unfold after_request answer_request in
          rw (ends, answer_request, found, rfc)
            (Ensures-bind (SendsAll tcp drains s response (length response) mid)
              (robust_send-SendsAll tcp drains fuel s response (length response) mid (Nat.le_refl _)
                (omega (
                  arith,
                  length-switching_protocols key,
                  p.wanes drains.patience (patience-IsWaning drains),
                )))
              (sent mid p empty))
