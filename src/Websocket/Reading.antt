-- ===== src/Websocket/Reading.antt =====
-- What `recv_exact` reads. It always returns: a retry costs one of 2000, and a byte gives these back.
use native.Mathlib.Nat
use npacn_fisac.Base.{ℕ, zero, suc, ◌+◌, ◌-◌, ◌*◌, ◌≤◌, ◌<◌, ◌≡◌, refl, arith, ◌∙◌, ap, sym, subst}
use npacn_fisac.Base.{ltb, Bool-cases, ltb→lt, ltb→le, inl, inr, Option, none, some}
use npacn_fisac.Base.{List, [], ◌∷◌, ◌++◌, length, length-append, append_assoc, append-nil}
use npacn_fisac.Base.{Ensures, returns, M}
use npacn_fisac.Winsock.{
  Socket, Winsock, IsTcp, IsDelivering, IsWaning, RecvResult, received, recv_error,
}
use npacn_fisac.Winsock.{received_bytes, conn_reset, conn_aborted, would_block, interrupted, other}
use npacn_fisac.Network.{RecvStatus, bytes, closed, again, broken, classify, robust_recv}
use npacn_fisac.Websocket.{after_recv, recv_exact_loop, recv_exact}

abbrev pub status_bytes : RecvStatus → List ℕ
status_bytes (bytes bs) = bs
status_bytes _ = []

-- The classification keeps the bytes, and the status of bytes is never empty.
pub classify-bytes : (r : RecvResult) → status_bytes (classify r) ≡ received_bytes r
classify-bytes (received []) = refl
classify-bytes (received (b ∷ bs)) = refl
classify-bytes (recv_error conn_reset) = refl
classify-bytes (recv_error conn_aborted) = refl
classify-bytes (recv_error would_block) = refl
classify-bytes (recv_error _) = refl

pub classify-pos : (r : RecvResult) (bs : List ℕ) → classify r ≡ bytes bs → 0 < length bs
classify-pos (received []) bs e = cc
classify-pos (received (b ∷ bs')) [] e = cc
classify-pos (received (b ∷ bs')) (c ∷ bs) e = omega arith
classify-pos (recv_error conn_reset) bs e = cc
classify-pos (recv_error conn_aborted) bs e = cc
classify-pos (recv_error would_block) bs e = cc
classify-pos (recv_error interrupted) bs e = cc
classify-pos (recv_error (other n)) bs e = cc

module _ {net : Winsock} (tcp : IsTcp net) (s : Socket) where
  -- From `before` to `after` the bytes `buf` were read from the connection `s`, and nothing was sent.
  pub record Pulled (buf : List ℕ) (before after : net.Os) : Type 0 where
    pub taken : tcp.incoming s before ≡ buf ++ tcp.incoming s after
    pub wires : (t : Socket) → tcp.wire t after ≡ tcp.wire t before
    pub wanes : (m : net.Os → ℕ) → IsWaning net m → m after ≤ m before

  -- Either exactly the next `len` bytes were read, or the read failed; a connection that delivers
  -- `len` bytes does not fail.
  pub data ReadsExactly (len : ℕ) (before : net.Os) : Option (List ℕ) → net.Os → Type 0 where
    exact :
        {buf : List ℕ} {after : net.Os}
        → length buf ≡ len
        → Pulled buf before after
        → ReadsExactly len before (some buf) after
    failed :
        {buf : List ℕ} {after : net.Os}
        → Pulled buf before after
        → (IsDelivering tcp → len ≤ length (tcp.incoming s before) → ⊥)
        → ReadsExactly len before none after

  pub Pulled-recv :
      (buf : List ℕ) (n : ℕ) (before os : net.Os)
      → Pulled buf before os
      → Pulled (buf ++ received_bytes (net.recv s n os).0) before (net.recv s n os).1
  Pulled-recv buf n before os p = record {
    taken =
        p.taken
        ∙ ap (λ (l : List ℕ). buf ++ l) (tcp.incoming-recv s n os)
        ∙ sym (append_assoc buf (received_bytes (net.recv s n os).0) (tcp.incoming s _));
    wires = λ t. tcp.wire-recv s t n os ∙ p.wires t;
    wanes = λ m w. Nat.le_trans (w.on_recv s n os) (p.wanes m w);
  }

  Pulled-sleep :
      (buf : List ℕ) (ms : ℕ) (before os : net.Os)
      → Pulled buf before os
      → Pulled buf before (net.sleep ms os)
  Pulled-sleep buf ms before os p = record {
    taken = p.taken ∙ ap (λ (l : List ℕ). buf ++ l) (sym (tcp.incoming-sleep s ms os));
    wires = λ t. tcp.wire-sleep t ms os ∙ p.wires t;
    wanes = λ m w. Nat.le_trans (w.on_sleep ms os) (p.wanes m w);
  }

  module _ (len : ℕ) (before : net.Os) where
    abbrev Goal : (Option (List ℕ) → net.Os → Type 0)
    Goal = ReadsExactly len before

    after_recv-Ensures :
        (loop : List ℕ → ℕ → M net.Os (Option (List ℕ))) (buf : List ℕ) (idle : ℕ) (st : RecvStatus)
        (after : net.Os)
        → Pulled (buf ++ status_bytes st) before after
        → (status_bytes st ≡ [] → IsDelivering tcp → len ≤ length (tcp.incoming s before) → ⊥)
        → ((bs : List ℕ) → st ≡ bytes bs → Ensures Goal (loop (buf ++ bs) 0 after))
        → (st ≡ again → idle + 1 ≤ 2000 → Ensures Goal (loop buf (idle + 1) (net.sleep 1 after)))
        → Ensures Goal (after_recv net loop buf idle st after)
    unfolding after_recv
    after_recv-Ensures loop buf idle (bytes bs) after p bad more wait = more bs refl
    after_recv-Ensures loop buf idle again after p bad more wait =
        elim (Bool-cases (ltb 2000 (idle + 1))) [
          | inl over ↦ rw over (returns (failed p (bad refl)))
          | inr within ↦ rw within (wait refl (ltb→le 2000 (idle + 1) within))
        ]
    after_recv-Ensures loop buf idle closed after p bad more wait = returns (failed p (bad refl))
    after_recv-Ensures loop buf idle broken after p bad more wait = returns (failed p (bad refl))

    recv_exact_loop-Ensures :
        (fuel : ℕ) (buf : List ℕ) (idle : ℕ) (os : net.Os)
        → length buf ≤ len
        → idle ≤ 2000
        → (len - length buf) * 2001 + (2000 - idle) < fuel
        → Pulled buf before os
        → Ensures Goal (recv_exact_loop net fuel s len buf idle os)
    unfolding recv_exact_loop robust_recv
    recv_exact_loop-Ensures zero buf idle os fits calm enough p = absurd (omega arith)
    recv_exact_loop-Ensures (suc fuel) buf idle os fits calm enough p =
        elim (Bool-cases (ltb (length buf) len)) [
          | inl less ↦
              let wanted : ℕ = len - length buf in
              let below : length buf < len = ltb→lt (length buf) len less in
              let result = (net.recv s wanted os).0 in
              let after = (net.recv s wanted os).1 in
              let same = classify-bytes result in
              let pulled : Pulled (buf ++ status_bytes (classify result)) before after =
                subst (λ (l : List ℕ). Pulled (buf ++ l) before after) (sym same)
                  (Pulled-recv buf wanted before os p) in
              rw less (
                after_recv-Ensures (λ b n. recv_exact_loop net fuel s len b n) buf idle
                  (classify result) after pulled
                  (λ e delivers plenty. omega (
                    arith,
                    delivers s wanted os (omega arith)
                        (omega (arith, ap length p.taken, length-append buf (tcp.incoming s os))),
                    ap length (sym same ∙ e),
                  ))
                  (λ bs e.
                    let got : status_bytes (classify result) ≡ bs = ap status_bytes e in
                    let some_read = classify-pos result bs e in
                    let size = length-append buf bs in
                    let bound : length bs ≤ wanted =
                      omega (arith, tcp.received-le s wanted os, ap length (sym same ∙ got)) in
                    recv_exact_loop-Ensures fuel (buf ++ bs) 0 after (omega arith) (omega arith)
                      (omega arith)
                      (subst (λ (l : List ℕ). Pulled (buf ++ l) before after) got pulled))
                  (λ e within.
                    recv_exact_loop-Ensures fuel buf (idle + 1) (net.sleep 1 after) fits within
                      (omega arith)
                      (Pulled-sleep buf 1 before after (
                        subst (λ (l : List ℕ). Pulled l before after)
                          (ap (λ (l : List ℕ). buf ++ l) (ap status_bytes e) ∙ append-nil buf)
                          pulled))))
          | inr stop ↦ rw stop (returns (exact (omega (arith, ltb→le (length buf) len stop)) p))
        ]

  -- Where each call of `recv` returns, as on a socket that does not block or has a timeout,
  -- `recv_exact` returns after a bounded number of them, whatever they give. It has then read exactly the next
  -- `len` bytes, or it fails; and it does not fail on a connection that delivers `len` bytes.
  pub recv_exact-ReadsExactly :
      (len : ℕ) (os : net.Os) → Ensures (ReadsExactly len os) (recv_exact net s len os)
  unfolding recv_exact
  recv_exact-ReadsExactly len os =
      recv_exact_loop-Ensures len os (len * 2001 + 2001) [] 0 os (omega arith) (omega arith)
        (omega arith) (record { taken = refl; wires = λ t. refl; wanes = λ m w. Nat.le_refl _ })
