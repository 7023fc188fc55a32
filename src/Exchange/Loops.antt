-- ===== src/Exchange/Loops.antt =====
-- The two loops of `http_post_json` end, whatever the peer does.
use npacn_fisac.Base.{ℕ, zero, suc, ◌+◌, ◌-◌, ◌≤◌, ◌<◌, ◌≡◌, refl, arith, ◌∙◌, ap, sym, subst}
use npacn_fisac.Base.{Bool, true, false, ltb, Bool-cases, ltb→lt, ltb→le, inl, inr}
use npacn_fisac.Base.{
  List, [], ◌∷◌, ◌++◌, length, length-append, length-take, length-drop, take, drop, append_assoc,
  append-nil,
}
use npacn_fisac.Base.{M, Ensures, returns}
use npacn_fisac.Base.Slices.{take-drop-append, take-take, take_all, take-append}
use npacn_fisac.Winsock.{
  Socket, Winsock, IsTcp, IsDraining, IsDelivering, SendResult, sent, send_error, sent_count,
}
use npacn_fisac.Winsock.{RecvResult, received, recv_error, received_bytes}
use npacn_fisac.HttpClient.{after_post, post_loop, after_response_recv, response_loop}
use npacn_fisac.Exchange.{IsStopped, stopped_by, IsApart, Aside, Aside-send, Aside-recv}

-- What was taken off a list until it ended or `n` elements were taken.
taken_up_to :
    (n : ℕ) (xs ys zs : List ℕ)
    → zs ≡ xs ++ ys
    → length xs ≤ n
    → (length xs < n → ys ≡ [])
    → xs ≡ take n zs
taken_up_to n xs ys zs e le stop = elim (Bool-cases (ltb (length xs) n)) [
  | inl less ↦
      sym (take_all n xs le)
      ∙ ap (take n) (sym (append-nil xs) ∙ ap (λ l. xs ++ l) (sym (stop (ltb→lt _ n less))) ∙ sym e)
  | inr full ↦
      sym (take-append n xs ys (omega (arith, ltb→le (length xs) n full))) ∙ ap (take n) (sym e)
]

module _ {net : Winsock} {tcp : IsTcp net} {drains : IsDraining net} (apart : IsApart tcp drains)
    (s : Socket) (before : net.Os) where
  module _ (request reply : List ℕ) where
    -- The first `total` bytes of the request were sent, and nothing was read.
    pub record Posting (total : ℕ) (os : net.Os) : Type 0 where
      pub on_wire : tcp.wire s os ≡ take total request
      pub unread : tcp.incoming s os ≡ reply
      pub aside : Aside apart s before os

    -- All of the request was sent, or a part of it and the result is false.
    pub data Posted : Bool → net.Os → Type 0 where
      posted :
          {after : net.Os}
          → tcp.wire s after ≡ request
          → tcp.incoming s after ≡ reply
          → Aside apart s before after
          → Posted true after
      cut_off : {after : net.Os} → IsStopped net s → Aside apart s before after → Posted false after

    chunk : ℕ → List ℕ
    chunk total = take (length request - total) (drop total request)

    Posting-send :
        (total : ℕ) (os : net.Os)
        → total ≤ length request
        → Posting total os
        → Posting
            (total + sent_count (net.send s (chunk total) os).0)
            (net.send s (chunk total) os).1
    unfolding chunk
    Posting-send total os le p = record {
      on_wire =
          tcp.wire-send s (chunk total) os
          ∙ ap (λ (w : List ℕ). w ++ take count (chunk total)) p.on_wire
          ∙ ap (λ (l : List ℕ). take total request ++ l)
              (take-take count (length request - total) (drop total request) count-le)
          ∙ take-drop-append total count request;
      unread = tcp.incoming-send s s (chunk total) os ∙ p.unread;
      aside = Aside-send apart s before (chunk total) os p.aside;
    }
      where
        count : ℕ
        count = sent_count (net.send s (chunk total) os).0

        count-le : count ≤ length request - total
        count-le = omega (
          arith,
          tcp.sent-le s (chunk total) os,
          length-take (length request - total) (drop total request),
          length-drop total request,
        )

    after_post-Posted :
        (loop : ℕ → M net.Os Bool) (total : ℕ) (r : SendResult) (after : net.Os)
        → Aside apart s before after
        → (sent_count r ≡ 0 → IsStopped net s)
        → ((n : ℕ) → r ≡ sent (suc n) → Ensures Posted (loop (total + suc n) after))
        → Ensures Posted (after_post net loop total r after)
    unfolding after_post
    after_post-Posted loop total (sent zero) after h stop go = returns (cut_off (stop refl) h)
    after_post-Posted loop total (sent (suc n)) after h stop go = go n refl
    after_post-Posted loop total (send_error e) after h stop go = returns (cut_off (stop refl) h)

    pub post_loop-Posted :
        (fuel total : ℕ) (os : net.Os)
        → total ≤ length request
        → length request - total < fuel
        → Posting total os
        → Ensures Posted (post_loop net fuel s request (length request) total os)
    unfolding post_loop chunk
    post_loop-Posted zero total os le enough p = absurd (omega arith)
    post_loop-Posted (suc fuel) total os le enough p =
        elim (Bool-cases (ltb total (length request))) [
          | inl less ↦
              let below : total < length request = ltb→lt total (length request) less in
              let next = Posting-send total os le p in
              let bound = tcp.sent-le s (chunk total) os in
              rw less (
                after_post-Posted (λ t. post_loop net fuel s request (length request) t) total
                  (net.send s (chunk total) os).0 (net.send s (chunk total) os).1 next.aside
                  (stopped_by (chunk total) os (
                    omega (
                      arith,
                      length-take (length request - total) (drop total request),
                      length-drop total request,
                    )))
                  λ n e.
                    let count : sent_count (net.send s (chunk total) os).0 ≡ suc n =
                      ap sent_count e in
                    post_loop-Posted fuel (total + suc n) (net.send s (chunk total) os).1
                      (omega (
                        arith,
                        bound,
                        count,
                        length-take (length request - total) (drop total request),
                      ))
                      (omega arith)
                      (subst (λ (m : ℕ). Posting (total + m) (net.send s (chunk total) os).1) count
                        next))
          | inr stop ↦ rw stop (
              returns (
                posted (p.on_wire ∙ take_all total request (ltb→le total (length request) stop))
                  p.unread p.aside))
        ]

  module _ (wire reply : List ℕ) where
    -- `got` was read of the reply, with the rest of it unread, and nothing was sent.
    pub record Reading (got : List ℕ) (os : net.Os) : Type 0 where
      pub on_wire : tcp.wire s os ≡ wire
      pub split : reply ≡ got ++ tcp.incoming s os
      pub size : length got ≤ 8191
      pub aside : Aside apart s before os

    -- The buffer is full, or the connection gave no more.
    pub record HasReply (got : List ℕ) (os : net.Os) : Type 0 where
      pub reading : Reading got os
      pub complete : IsDelivering tcp → length got < 8191 → tcp.incoming s os ≡ []

    pub HasReply-take :
        (got : List ℕ) (os : net.Os) → HasReply got os → IsDelivering tcp → got ≡ take 8191 reply
    HasReply-take got os h delivers =
        taken_up_to 8191 got (tcp.incoming s os) reply h.reading.split h.reading.size
          (h.complete delivers)

    Reading-recv :
        (got : List ℕ) (os : net.Os)
        → Reading got os
        → Reading
            (got ++ received_bytes (net.recv s (8191 - length got) os).0)
            (net.recv s (8191 - length got) os).1
    Reading-recv got os h = record {
      on_wire = tcp.wire-recv s s (8191 - length got) os ∙ h.on_wire;
      split =
          h.split
          ∙ ap (λ (l : List ℕ). got ++ l) (tcp.incoming-recv s (8191 - length got) os)
          ∙ sym (append_assoc got bytes (tcp.incoming s _));
      size =
          let bound = tcp.received-le s (8191 - length got) os in
          omega (arith, h.size, bound, length-append got bytes);
      aside = Aside-recv apart s before (8191 - length got) os h.aside;
    }
      where
        bytes : List ℕ
        bytes = received_bytes (net.recv s (8191 - length got) os).0

    -- After a call of `recv` that gave no bytes.
    nothing_more :
        (got : List ℕ) (os : net.Os)
        → Reading got os
        → received_bytes (net.recv s (8191 - length got) os).0 ≡ []
        → HasReply got (net.recv s (8191 - length got) os).1
    nothing_more got os h none_read = record {
      reading = subst (λ (g : List ℕ). Reading g after) same (Reading-recv got os h);
      complete = λ delivers less. empty delivers less (tcp.incoming s after) refl;
    }
      where
        after : net.Os
        after = (net.recv s (8191 - length got) os).1

        same : got ++ received_bytes (net.recv s (8191 - length got) os).0 ≡ got
        same = ap (λ (l : List ℕ). got ++ l) none_read ∙ append-nil got

        empty :
            IsDelivering tcp
            → length got < 8191
            → (rest : List ℕ) → tcp.incoming s after ≡ rest
            → tcp.incoming s after ≡ []
        empty delivers less [] e = e
        empty delivers less (c ∷ rest) e =
            let left : tcp.incoming s os ≡ c ∷ rest =
              tcp.incoming-recv s (8191 - length got) os
              ∙ ap (λ (l : List ℕ). l ++ tcp.incoming s after) none_read
              ∙ e in
            absurd (
              omega (
                arith,
                delivers s (8191 - length got) os (omega arith) (omega (arith, ap length left)),
                ap length none_read,
              ))

    after_response_recv-HasReply :
        (loop : List ℕ → M net.Os (List ℕ)) (got : List ℕ) (r : RecvResult) (after : net.Os)
        → (received_bytes r ≡ [] → HasReply got after)
        → ((b : ℕ) (bs : List ℕ)
            → r ≡ received (b ∷ bs)
            → Ensures HasReply (loop (got ++ (b ∷ bs)) after))
        → Ensures HasReply (after_response_recv net loop got r after)
    unfolding after_response_recv
    after_response_recv-HasReply loop got (received []) after stop go = returns (stop refl)
    after_response_recv-HasReply loop got (received (b ∷ bs)) after stop go = go b bs refl
    after_response_recv-HasReply loop got (recv_error e) after stop go = returns (stop refl)

    pub response_loop-HasReply :
        (fuel : ℕ) (got : List ℕ) (os : net.Os)
        → 8191 - length got < fuel
        → Reading got os
        → Ensures HasReply (response_loop net fuel s got os)
    unfolding response_loop
    response_loop-HasReply zero got os enough h = absurd (omega arith)
    response_loop-HasReply (suc fuel) got os enough h = elim (Bool-cases (ltb (length got) 8191)) [
      | inl less ↦
          let below : length got < 8191 = ltb→lt (length got) 8191 less in
          rw less (
            after_response_recv-HasReply (λ b. response_loop net fuel s b) got
              (net.recv s (8191 - length got) os).0 (net.recv s (8191 - length got) os).1
              (nothing_more got os h)
              λ b bs e.
                response_loop-HasReply fuel (got ++ (b ∷ bs)) (net.recv s (8191 - length got) os).1
                  (omega (arith, length-append got (b ∷ bs)))
                  (subst (λ (l : List ℕ). Reading (got ++ l) (net.recv s (8191 - length got) os).1)
                    (ap received_bytes e) (Reading-recv got os h)))
      | inr full ↦ rw full (
          returns (record {
            reading = h;
            complete = λ delivers less. absurd (omega (arith, less, ltb→le (length got) 8191 full));
          }))
    ]
