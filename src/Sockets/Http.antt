-- ===== src/Sockets/Http.antt =====
-- A request to the backend opens one socket and closes it, and stays within its buffer.
use npacn_fisac.Base.{return-Keep, stuck-Keep, perform-Keep, call-Keep, bind-Keep, loop-Keep}
use npacn_fisac.Base.{
  ℕ, zero, suc, ◌+◌, ◌≤◌, ◌<◌, ◌≡◌, ◌≢◌, ◌⊎◌, refl, arith, ◌∙◌, ap, sym, ◌==◌, ==_iff, ltb, ltb→lt,
}
use npacn_fisac.Base.{
  Bool, true, false, Bool-cases, inl, inr, Option, none, List, [], ◌∷◌, ◌++◌, length, length-append,
  if◌then◌else◌,
}
use npacn_fisac.Base.{M, return, perform, ◌>>=◌, ◌>>◌, Clean, clean, faulty, Ends-bind}
use npacn_fisac.Base.CText.{length-decimal}
use npacn_fisac.Winsock.{
  Socket, invalid_socket, Winsock, SendResult, sent, send_error, RecvResult, received, recv_error,
}
use npacn_fisac.HttpClient.{request_text, after_post, post_loop, after_response_recv, response_loop}
use npacn_fisac.HttpClient.{after_posted, after_connect, with_socket, http_post_json, backend_port}
use npacn_fisac.Sockets.{HasSockets, Same, Still, Quiet}

pub length-request_text :
    (endpoint payload : List ℕ)
    → length (request_text endpoint payload)
      ≤ 110 + (length endpoint + (length payload + length payload))
unfolding request_text
length-request_text endpoint payload =
    omega (arith, length-append {A = ℕ}, length-decimal (length payload))

module _ {net : Winsock} (sockets : HasSockets net) (F : Type 0) where
  module _ (mid : net.Os) where
    after_post-Quiet :
        (loop : ℕ → M net.Os Bool) (total : ℕ) (r : SendResult)
        → ((t : ℕ) → Quiet sockets F mid (loop t))
        → Quiet sockets F mid (after_post net loop total r)
    unfolding after_post
    after_post-Quiet loop total (sent zero) go = return-Keep F (Unit {0}) (Same sockets F mid) false
    after_post-Quiet loop total (sent (suc n)) go = go (total + suc n)
    after_post-Quiet loop total (send_error e) go =
        return-Keep F (Unit {0}) (Same sockets F mid) false

    post_loop-Quiet :
        (fuel : ℕ) (s : Socket) (request : List ℕ) (len total : ℕ)
        → Quiet sockets F mid (post_loop net fuel s request len total)
    unfolding post_loop
    post_loop-Quiet zero s request len total = stuck-Keep F (Unit {0}) (Same sockets F mid) tt
    post_loop-Quiet (suc fuel) s request len total =
        loop-Keep F (Unit {0}) (Same sockets F mid) (ltb total len) _ _
          (bind-Keep F (Unit {0}) (Same sockets F mid) _ _
            (call-Keep F (Unit {0}) (Same sockets F mid) (net.send s _)
              λ os h t. sockets.open-send t s _ os ∙ h t)
            λ r. after_post-Quiet _ total r λ t. post_loop-Quiet fuel s request len t)
          (return-Keep F (Unit {0}) (Same sockets F mid) true)

    after_response_recv-Quiet :
        (loop : List ℕ → M net.Os (List ℕ)) (buf : List ℕ) (r : RecvResult)
        → ((b : List ℕ) → Quiet sockets F mid (loop b))
        → Quiet sockets F mid (after_response_recv net loop buf r)
    unfolding after_response_recv
    after_response_recv-Quiet loop buf (received []) go =
        return-Keep F (Unit {0}) (Same sockets F mid) buf
    after_response_recv-Quiet loop buf (received (b ∷ bs)) go = go (buf ++ (b ∷ bs))
    after_response_recv-Quiet loop buf (recv_error e) go =
        return-Keep F (Unit {0}) (Same sockets F mid) buf

    response_loop-Quiet :
        (fuel : ℕ) (s : Socket) (buf : List ℕ) → Quiet sockets F mid (response_loop net fuel s buf)
    unfolding response_loop
    response_loop-Quiet zero s buf = stuck-Keep F (Unit {0}) (Same sockets F mid) tt
    response_loop-Quiet (suc fuel) s buf =
        loop-Keep F (Unit {0}) (Same sockets F mid) (ltb (length buf) 8191) _ _
          (bind-Keep F (Unit {0}) (Same sockets F mid) _ _
            (call-Keep F (Unit {0}) (Same sockets F mid) (net.recv s _)
              λ os h t. sockets.open-recv t s _ os ∙ h t)
            λ r. after_response_recv-Quiet _ buf r λ b. response_loop-Quiet fuel s b)
          (return-Keep F (Unit {0}) (Same sockets F mid) buf)

  -- From a state `mid`, in which one socket more is open than in `before`, back to the ones that were.
  module _ (s : Socket) (before mid : net.Os)
      (opened : (t : Socket)
        → sockets.is_open t mid ≡ (if t == s then true else sockets.is_open t before))
      (fresh : sockets.is_open s before ≡ false) where
    abbrev Back : {A : Type 0} → M net.Os A → Type 0
    Back m = (os : net.Os) → Same sockets F mid os → Still sockets F before (m os)

    closed_again :
        (os : net.Os) → Same sockets F mid os → Same sockets F before (net.closesocket s os)
    closed_again os h t = sockets.open-closesocket t s os ∙ split (Bool-cases (t == s))
      where
        split :
            ((t == s) ≡ true) ⊎ ((t == s) ≡ false)
            → (if t == s then false else sockets.is_open t os) ≡ sockets.is_open t before
        split (inl e) =
            rw e (sym fresh ∙ ap (λ u. sockets.is_open u before) (sym ((==_iff t s).0 e)))
        split (inr e) =
            rw e
              (h t ∙ opened t ∙ ap (λ (b : Bool). if b then true else sockets.is_open t before) e)

    bind-Back :
        {A B : Type 0} (m : M net.Os A) (k : A → M net.Os B)
        → Quiet sockets F mid m
        → ((a : A) → Back (k a))
        → Back (m >>= k)
    bind-Back m k h f os same = Ends-bind (λ a after. Same sockets F mid after) (h os same) f

    close-Back : {A : Type 0} (a : A) → Back (perform (net.closesocket s) >> return a)
    close-Back a os h = clean (closed_again os h)

    after_posted-Back : (fuel size : ℕ) (ok : Bool) → Back (after_posted net fuel s size ok)
    unfolding after_posted
    after_posted-Back fuel size false = close-Back none
    after_posted-Back fuel size true =
        bind-Back _ _ (response_loop-Quiet mid fuel s []) λ buf. close-Back _

    after_connect-Back :
        (fuel : ℕ) (request : List ℕ) (size : ℕ) (ok : Bool)
        → (4095 < length request → F)
        → Back (after_connect net fuel s request size ok)
    unfolding after_connect
    after_connect-Back fuel request size false long = close-Back none
    after_connect-Back fuel request size true long = elim (Bool-cases (ltb 4095 (length request))) [
      | inl e ↦ rw e λ os h. faulty (long (ltb→lt 4095 (length request) e))
      | inr e ↦ rw e (
          bind-Back _ _ (post_loop-Quiet mid fuel s request (length request) 0)
            (after_posted-Back fuel size))
    ]

    with_socket-Back :
        (fuel : ℕ) (endpoint payload : List ℕ) (size : ℕ)
        → (s == invalid_socket) ≡ false
        → (4095 < length (request_text endpoint payload) → F)
        → Back (with_socket net fuel endpoint payload size s)
    unfolding with_socket
    with_socket-Back fuel endpoint payload size valid long = rw valid (
        bind-Back _ _ limit λ u. bind-Back _ _ limit λ u'.
          bind-Back _ _
            (call-Keep F (Unit {0}) (Same sockets F mid) (net.connect s backend_port)
              λ os h t. sockets.open-connect t s backend_port os ∙ h t)
            λ ok. after_connect-Back fuel (request_text endpoint payload) size ok long)
      where
        limit : Quiet sockets F mid (perform (net.set_timeout s 2000))
        limit =
            perform-Keep F (Unit {0}) (Same sockets F mid) (net.set_timeout s 2000)
              λ os h t. sockets.open-set_timeout t s 2000 os ∙ h t

  pub http_post_json-Quiet :
      (before : net.Os) (fuel : ℕ) (endpoint payload : List ℕ) (size : ℕ)
      → (4095 < length (request_text endpoint payload) → F)
      → Quiet sockets F before (http_post_json net fuel endpoint payload size)
  unfolding http_post_json
  http_post_json-Quiet before fuel endpoint payload size long os h =
      split (Bool-cases (s == invalid_socket))
    where
      s : Socket
      s = (net.socket os).0

      split :
          ((s == invalid_socket) ≡ true) ⊎ ((s == invalid_socket) ≡ false)
          → Still sockets F before (with_socket net fuel endpoint payload size s (net.socket os).1)
      split (inl e) =
          unfold with_socket in
          rw e (clean λ t. sockets.open-socket_failed t os ((==_iff s invalid_socket).0 e) ∙ h t)
      split (inr e) =
          let valid : s ≢ invalid_socket = λ q. ground (arith, q, e) in
          with_socket-Back s before (net.socket os).1
            (λ t.
              sockets.open-socket t os valid ∙ ap (λ (b : Bool). if t == s then true else b) (h t))
            (sym (h s) ∙ sockets.fresh-socket os valid) fuel endpoint payload size e long
            (net.socket os).1 (λ t. refl)

-- A request to the backend, for an endpoint of at most 100 bytes and a payload of at most 1900, does
-- not run past its buffer. Whether or not connecting, sending and receiving succeed, when it ends the
-- same sockets are open as before: the one that it opened is closed.
pub http_post_json-IsQuiet :
    {net : Winsock} (sockets : HasSockets net) (fuel : ℕ) (endpoint payload : List ℕ) (size : ℕ)
    (before : net.Os)
    → length endpoint ≤ 100
    → length payload ≤ 1900
    → Clean ⊥
        (λ (r : Option (List ℕ)) (after : net.Os).
          (t : Socket) → sockets.is_open t after ≡ sockets.is_open t before)
        (http_post_json net fuel endpoint payload size before)
http_post_json-IsQuiet sockets fuel endpoint payload size before le le' =
    http_post_json-Quiet sockets ⊥ before fuel endpoint payload size
      (λ long. absurd (omega (arith, long, length-request_text endpoint payload))) before
      (λ t. refl)
