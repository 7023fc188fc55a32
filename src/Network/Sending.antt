-- ===== src/Network/Sending.antt =====
-- What `robust_send` puts on the connection.
use native.Mathlib.Nat.{le_trans, le_refl}
use npacn_fisac.Base.{ℕ, zero, suc, ◌+◌, ◌-◌, ◌≤◌, ◌<◌, ◌≡◌, ◌≢◌, refl, arith, ◌∙◌, ap, sym, subst}
use npacn_fisac.Base.{ltb, Bool-cases, ltb→lt, ltb→le, inl, inr, Option, none, some}
use npacn_fisac.Base.{List, ◌++◌, length, take, drop, length-take, length-drop}
use npacn_fisac.Base.{append_assoc, append-nil, Ensures, returns, M}
use npacn_fisac.Base.Slices.{take-drop-append, take-take}
use npacn_fisac.Winsock.{
  Socket, Winsock, IsTcp, IsDraining, IsBroken, broken_by, SendResult, sent, send_error,
}
use npacn_fisac.Winsock.{conn_reset, conn_aborted, would_block, interrupted, other, sent_count}
use npacn_fisac.Network.{send_loop, after_send, robust_send}

positive : (n : ℕ) → (n ≡ 0 → ⊥) → 0 < n
positive zero h = absurd (h refl)
positive (suc n) h = omega arith

module _ {net : Winsock} (tcp : IsTcp net) (drains : IsDraining net) where
  -- From `before` to `after` the first `count` bytes of `buf` were put on the connection `s`, and
  -- nothing else happened on the connections.
  pub record Pushed (s : Socket) (buf : List ℕ) (count : ℕ) (before after : net.Os) : Type 0 where
    pub on_wire : tcp.wire s after ≡ tcp.wire s before ++ take count buf
    pub others : (t : Socket) → t ≢ s → tcp.wire t after ≡ tcp.wire t before
    pub inbox : (t : Socket) → tcp.incoming t after ≡ tcp.incoming t before
    pub calm : drains.patience after ≤ drains.patience before

  -- All of the buffer was sent, or the connection broke behind a part of it.
  pub data SendsAll (s : Socket) (buf : List ℕ) (len : ℕ) (before : net.Os)
      : Option ℕ → net.Os → Type 0 where
    all :
        {after : net.Os}
        → Pushed s buf len before after
        → SendsAll s buf len before (some len) after
    part :
        {after : net.Os} (count : ℕ)
        → count ≤ len
        → Pushed s buf count before after
        → IsBroken net s
        → SendsAll s buf len before none after

  module _ (s : Socket) (buf : List ℕ) (len : ℕ) (fits : len ≤ length buf) (before : net.Os) where
    abbrev chunk : ℕ → List ℕ
    chunk total = take (len - total) (drop total buf)

    length-chunk : (total : ℕ) → total ≤ len → length (chunk total) ≡ len - total
    length-chunk total h =
        omega (arith, length-take (len - total) (drop total buf), length-drop total buf)

    module _ (total : ℕ) (os : net.Os) (below : total < len)
        (so_far : Pushed s buf total before os) where
      abbrev now : net.Os
      now = (net.send s (chunk total) os).1

      abbrev count : ℕ
      count = sent_count (net.send s (chunk total) os).0

      count-le : count ≤ len - total
      count-le = omega (arith, tcp.sent-le s (chunk total) os, length-chunk total (omega arith))

      -- One call of `send` goes on where the last one stopped.
      Pushed-send : Pushed s buf (total + count) before now
      Pushed-send = record {
        on_wire =
            tcp.wire-send s (chunk total) os
            ∙ ap (λ (w : List ℕ). w ++ take count (chunk total)) so_far.on_wire
            ∙ append_assoc (tcp.wire s before) (take total buf) (take count (chunk total))
            ∙ ap (λ (l : List ℕ). tcp.wire s before ++ (take total buf ++ l))
                (take-take count (len - total) (drop total buf) count-le)
            ∙ ap (λ (l : List ℕ). tcp.wire s before ++ l) (take-drop-append total count buf);
        others = λ t ne. tcp.wire-send_ne s t (chunk total) os ne ∙ so_far.others t ne;
        inbox = λ t. tcp.incoming-send s t (chunk total) os ∙ so_far.inbox t;
        calm = le_trans (drains.patience-send s (chunk total) os) so_far.calm;
      }

    Pushed-sleep :
        (sofar ms : ℕ) (os : net.Os)
        → Pushed s buf sofar before os
        → Pushed s buf sofar before (net.sleep ms os)
    Pushed-sleep sofar ms os p = record {
      on_wire = tcp.wire-sleep s ms os ∙ p.on_wire;
      others = λ t ne. tcp.wire-sleep t ms os ∙ p.others t ne;
      inbox = λ t. tcp.incoming-sleep t ms os ∙ p.inbox t;
      calm = le_trans (drains.patience-sleep ms os) p.calm;
    }

    abbrev Goal : (Option ℕ → net.Os → Type 0)
    Goal = SendsAll s buf len before

    -- The body after `send`, for each of its results, if going round again ends well.
    after_send-Ensures :
        (loop : ℕ → M net.Os (Option ℕ)) (total : ℕ) (bytes : List ℕ) (os : net.Os) (r : SendResult)
        (after : net.Os)
        → (net.send s bytes os).0 ≡ r
        → total + sent_count r ≤ len
        → Pushed s buf (total + sent_count r) before after
        → ((n : ℕ) → r ≡ sent n → Ensures Goal (loop (total + n) after))
        → (r ≡ send_error would_block → Ensures Goal (loop total (net.sleep 1 after)))
        → Ensures Goal (after_send net loop total r after)
    unfolding after_send
    after_send-Ensures loop total bytes os (sent n) after e le p more wait = more n refl
    after_send-Ensures loop total bytes os (send_error would_block) after e le p more wait =
        wait refl
    after_send-Ensures loop total bytes os (send_error conn_reset) after e le p more wait =
        returns (part (total + 0) le p (broken_by bytes os conn_reset e (λ q. cc)))
    after_send-Ensures loop total bytes os (send_error conn_aborted) after e le p more wait =
        returns (part (total + 0) le p (broken_by bytes os conn_aborted e (λ q. cc)))
    after_send-Ensures loop total bytes os (send_error interrupted) after e le p more wait =
        returns (part (total + 0) le p (broken_by bytes os interrupted e (λ q. cc)))
    after_send-Ensures loop total bytes os (send_error (other n)) after e le p more wait =
        returns (part (total + 0) le p (broken_by bytes os (other n) e (λ q. cc)))

    send_loop-Ensures :
        (fuel total : ℕ) (os : net.Os)
        → total ≤ len
        → len - total + drains.patience os < fuel
        → Pushed s buf total before os
        → Ensures Goal (send_loop net fuel s buf len total os)
    unfolding send_loop
    send_loop-Ensures zero total os le enough p = absurd (omega arith)
    send_loop-Ensures (suc fuel) total os le enough p = elim (Bool-cases (ltb total len)) [
      | inl less ↦
          let below : total < len = ltb→lt total len less in
          let bound = count-le total os below p in
          let pushed = Pushed-send total os below p in
          let calm = drains.patience-send s (chunk total) os in
          rw less (
            after_send-Ensures (λ t. send_loop net fuel s buf len t) total (chunk total) os
              (net.send s (chunk total) os).0 (net.send s (chunk total) os).1 refl (omega arith)
              pushed
              (λ n e.
                let same : sent_count (net.send s (chunk total) os).0 ≡ n = ap sent_count e in
                let some_sent : 0 < n = positive n (λ z.
                  drains.progress s (chunk total) os (omega (arith, length-chunk total le))
                    (e ∙ ap sent z)) in
                send_loop-Ensures fuel (total + n) _ (omega arith) (omega arith) (
                  subst (λ (k : ℕ). Pushed s buf (total + k) before (now total os below p)) same
                    pushed))
              (λ e.
                let none_sent : sent_count (net.send s (chunk total) os).0 ≡ 0 = ap sent_count e in
                send_loop-Ensures fuel total _ le
                  (omega (arith, drains.patience-wait s (chunk total) 1 os e))
                  (Pushed-sleep total 1 _ (
                    subst (λ (k : ℕ). Pushed s buf k before (now total os below p)) (omega arith)
                      pushed))))
      | inr stop ↦
          let end : total ≡ len = omega (arith, ltb→le total len stop) in
          rw (stop, end) (returns (all (subst (λ (k : ℕ). Pushed s buf k before os) end p)))
    ]

  -- With a peer that reads, `robust_send` returns. Either it has put the first `len` bytes of the
  -- buffer on the connection, in order and each once, and returns `len`; or it returns -1 after a send
  -- that failed for good, and has put on it a prefix of these. No other connection is touched and nothing is read.
  pub robust_send-SendsAll :
      (fuel : ℕ) (s : Socket) (buf : List ℕ) (len : ℕ) (os : net.Os)
      → len ≤ length buf
      → len + drains.patience os < fuel
      → Ensures (SendsAll s buf len os) (robust_send net fuel s buf len os)
  unfolding robust_send
  robust_send-SendsAll fuel s buf len os fits enough =
      send_loop-Ensures s buf len fits os fuel 0 os (omega arith) (omega arith) (record {
        on_wire = sym (append-nil (tcp.wire s os));
        others = λ t ne. refl;
        inbox = λ t. refl;
        calm = le_refl _;
      })
