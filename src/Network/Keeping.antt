-- ===== src/Network/Keeping.antt =====
-- Reading and writing keep whatever the calls of the system keep.
use npacn_fisac.Base.{ℕ, zero, suc, ◌+◌, ltb, Option, none, some, List, M, perform}
use npacn_fisac.Base.{
  Keep, return-Keep, stuck-Keep, perform-Keep, call-Keep, bind-Keep, then-Keep, loop-Keep,
}
use npacn_fisac.Winsock.{Socket, Winsock, SendResult, sent, send_error}
use npacn_fisac.Winsock.{conn_reset, conn_aborted, would_block, interrupted, other}
use npacn_fisac.Network.{classify, send_loop, after_send, robust_send, robust_recv}

-- Sending, reading and waiting keep `I`.
pub record AreCallsKept (net : Winsock) (I : net.Os → Type 0) : Type 0 where
  pub on_send : (s : Socket) (bytes : List ℕ) (os : net.Os) → I os → I (net.send s bytes os).1
  pub on_recv : (s : Socket) (n : ℕ) (os : net.Os) → I os → I (net.recv s n os).1
  pub on_sleep : (ms : ℕ) (os : net.Os) → I os → I (net.sleep ms os)

module _ {net : Winsock} (F : Type 0) {I : net.Os → Type 0} (kept : AreCallsKept net I) where
  abbrev Kept : {A : Type 0} → M net.Os A → Type 0
  Kept m = Keep F (Unit {0}) I m

  pub a_moment : Kept (perform (net.sleep 1))
  a_moment = perform-Keep F (Unit {0}) I (net.sleep 1) (kept.on_sleep 1)

  after_send-Keep :
      (loop : ℕ → M net.Os (Option ℕ)) (total : ℕ) (r : SendResult)
      → ((n : ℕ) → Kept (loop n))
      → Kept (after_send net loop total r)
  unfolding after_send
  after_send-Keep loop total (sent n) go = go (total + n)
  after_send-Keep loop total (send_error would_block) go =
      then-Keep F (Unit {0}) I _ _ a_moment (go total)
  after_send-Keep loop total (send_error conn_reset) go = return-Keep F (Unit {0}) I none
  after_send-Keep loop total (send_error conn_aborted) go = return-Keep F (Unit {0}) I none
  after_send-Keep loop total (send_error interrupted) go = return-Keep F (Unit {0}) I none
  after_send-Keep loop total (send_error (other n)) go = return-Keep F (Unit {0}) I none

  send_loop-Keep :
      (fuel : ℕ) (s : Socket) (buf : List ℕ) (len total : ℕ)
      → Kept (send_loop net fuel s buf len total)
  unfolding send_loop
  send_loop-Keep zero s buf len total = stuck-Keep F (Unit {0}) I tt
  send_loop-Keep (suc fuel) s buf len total =
      loop-Keep F (Unit {0}) I (ltb total len) _ _
        (bind-Keep F (Unit {0}) I _ _ (call-Keep F (Unit {0}) I (net.send s _) (kept.on_send s _))
          λ r. after_send-Keep _ total r λ n. send_loop-Keep fuel s buf len n)
        (return-Keep F (Unit {0}) I (some total))

  pub robust_send-Keep :
      (fuel : ℕ) (s : Socket) (buf : List ℕ) (len : ℕ) → Kept (robust_send net fuel s buf len)
  unfolding robust_send
  robust_send-Keep fuel s buf len = send_loop-Keep fuel s buf len 0

  pub robust_recv-Keep : (s : Socket) (n : ℕ) → Kept (robust_recv net s n)
  unfolding robust_recv
  robust_recv-Keep s n =
      bind-Keep F (Unit {0}) I _ _ (call-Keep F (Unit {0}) I (net.recv s n) (kept.on_recv s n))
        λ r. return-Keep F (Unit {0}) I (classify r)
