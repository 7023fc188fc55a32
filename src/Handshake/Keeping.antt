-- ===== src/Handshake/Keeping.antt =====
-- The handshake keeps whatever the calls of the system keep, and does not fault.
use npacn_fisac.Base.{ℕ, zero, suc, ◌-◌, ltb, Option, none, some}
use npacn_fisac.Base.{List, [], ◌++◌, length, M, Option-cases, inl, inr}
use npacn_fisac.Base.CText.{c_str}
use npacn_fisac.Winsock.{Socket, Winsock}
use npacn_fisac.Network.{RecvStatus, bytes, closed, again, broken}
use npacn_fisac.Handshake.{
  Stack, has_end, request_key, handshake_response, after_request_recv, request_loop,
}
use npacn_fisac.Handshake.{after_response, answer_request, after_request, websocket_handshake}
use npacn_fisac.Network.Keeping.{AreCallsKept, a_moment, robust_send-Keep, robust_recv-Keep}
use npacn_fisac.Base.{Keep, return-Keep, stuck-Keep, bind-Keep, then-Keep, if-Keep, loop-Keep}

module _ {net : Winsock} (F : Type 0) {I : net.Os → Type 0} (kept : AreCallsKept net I) where
  abbrev Kept : {A : Type 0} → M net.Os A → Type 0
  Kept m = Keep F (Unit {0}) I m

  after_request_recv-Keep :
      (loop : List ℕ → M net.Os (Option (List ℕ))) (buffer : List ℕ) (st : RecvStatus)
      → ((b : List ℕ) → Kept (loop b))
      → Kept (after_request_recv net loop buffer st)
  unfolding after_request_recv
  after_request_recv-Keep loop buffer (bytes bs) go =
      if-Keep F (Unit {0}) I (has_end (buffer ++ bs)) _ _ (return-Keep F (Unit {0}) I _)
        (go (buffer ++ bs))
  after_request_recv-Keep loop buffer again go =
      then-Keep F (Unit {0}) I _ _ (a_moment F kept) (go buffer)
  after_request_recv-Keep loop buffer closed go = return-Keep F (Unit {0}) I none
  after_request_recv-Keep loop buffer broken go = return-Keep F (Unit {0}) I none

  request_loop-Keep :
      (fuel : ℕ) (s : Socket) (buffer : List ℕ) → Kept (request_loop net fuel s buffer)
  unfolding request_loop
  request_loop-Keep zero s buffer = stuck-Keep F (Unit {0}) I tt
  request_loop-Keep (suc fuel) s buffer =
      loop-Keep F (Unit {0}) I (ltb (length buffer) 4095) _ _
        (bind-Keep F (Unit {0}) I _ _ (robust_recv-Keep F kept s (4095 - length buffer))
          λ st. after_request_recv-Keep _ buffer st λ b. request_loop-Keep fuel s b)
        (return-Keep F (Unit {0}) I (some buffer))

  pub websocket_handshake-Keep :
      (stack : Stack) (fuel : ℕ) (s : Socket) → Kept (websocket_handshake net stack fuel s)
  unfolding websocket_handshake after_request answer_request after_response
  websocket_handshake-Keep stack fuel s =
      bind-Keep F (Unit {0}) I _ _ (request_loop-Keep fuel s []) requested
    where
      responded : (r : Option ℕ) → Kept (after_response net r)
      responded none = return-Keep F (Unit {0}) I _
      responded (some n) = return-Keep F (Unit {0}) I _

      answered : (buffer : List ℕ) → Kept (answer_request net stack fuel s buffer)
      answered buffer = elim (Option-cases (request_key (c_str buffer))) [
        | inl e ↦ rw (answer_request, e) (return-Keep F (Unit {0}) I _)
        | inr (key, e) ↦ elim (Option-cases (handshake_response stack key)) [
          | inl e' ↦ rw (answer_request, e, e') (stuck-Keep F (Unit {0}) I tt)
          | inr (response, e') ↦
              rw (answer_request, e, e')
                (bind-Keep F (Unit {0}) I _ _ (robust_send-Keep F kept fuel s response _) responded)
        ]
      ]

      requested : (r : Option (List ℕ)) → Kept (after_request net stack fuel s r)
      requested none = return-Keep F (Unit {0}) I _
      requested (some buffer) =
          if-Keep F (Unit {0}) I (has_end buffer) _ _ (answered buffer)
            (return-Keep F (Unit {0}) I _)
