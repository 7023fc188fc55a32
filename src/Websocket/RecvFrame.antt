-- ===== src/Websocket/RecvFrame.antt =====
-- What `websocket_frame_recv` makes of the frames that a client sends.
use native.Mathlib.Nat
use npacn_fisac.Base.{ℕ, ◌+◌, ◌-◌, ◌/◌, ◌%◌, ◌^◌, ◌≤◌, ◌<◌, bit_and}
use npacn_fisac.Base.{◌≡◌, ◌≢◌, refl, arith, ◌∙◌, ap, sym, subst, Option, some}
use npacn_fisac.Base.{List, [], ◌∷◌, ◌++◌, length, length-append, append_assoc}
use npacn_fisac.Base.{false, ltb, leb, ◌==◌, Bool-cases, leb→le, inl, inr}
use npacn_fisac.Base.{M, ◌▷◌, Ensures, Ensures-bind, Ensures-mono}
use npacn_fisac.Base.Bits.{bit_and-mask}
use npacn_fisac.Base.CText.{IsBytes}
use npacn_fisac.Winsock.{Socket, Winsock, IsTcp, IsDelivering, IsWaning}
use npacn_fisac.Websocket.{Frame, recv_exact, if_read, deliver, unmask}
use npacn_fisac.Websocket.{recv_payload, recv_length, websocket_frame_recv, recv_after_header}
use npacn_fisac.Websocket.Reading.{ReadsExactly, exact, failed, recv_exact-ReadsExactly}
use npacn_fisac.Websocket.Rfc.{client_frame, length_field, masked, unmask-eq-masked, masked_twice}
use npacn_fisac.Websocket.Rfc.{length-masked, ntohs-be_bytes, swap_uint64-be_bytes}
use npacn_fisac.Sha1.{be_bytes}
use npacn_fisac.Sha1.Final.{length-be_bytes}

pub is_not : (a b : ℕ) → a ≢ b → (a == b) ≡ false
is_not a b ne = ground arith

-- Lists that are cut at the same place.
append_split :
    (xs ys us vs : List ℕ) → length xs ≡ length us → xs ++ ys ≡ us ++ vs → (xs ≡ us) × (ys ≡ vs)
append_split [] ys [] vs h e = (refl, e)
append_split [] ys (u ∷ us) vs h e = absurd (omega arith)
append_split (x ∷ xs) ys [] vs h e = absurd (omega arith)
append_split (x ∷ xs) ys (u ∷ us) vs h e =
    let rest = append_split xs ys us vs (omega arith) (ground arith) in ground arith

module _ {net : Winsock} (tcp : IsTcp net) (s : Socket) where
  -- From `before` to `after` a part of the stream was read that leaves `rest`, and nothing was sent.
  pub record Leaves (rest : List ℕ) (before after : net.Os) : Type 0 where
    pub unread : tcp.incoming s after ≡ rest
    pub wires : (t : Socket) → tcp.wire t after ≡ tcp.wire t before
    pub wanes : (m : net.Os → ℕ) → IsWaning net m → m after ≤ m before

module _ {net : Winsock} (tcp : IsTcp net) (delivers : IsDelivering tcp) (s : Socket) where
  data IsNext (xs rest : List ℕ) (before : net.Os) : Option (List ℕ) → net.Os → Type 0 where
    next : {after : net.Os} → Leaves tcp s rest before after → IsNext xs rest before (some xs) after

  module _ (xs rest : List ℕ) (before os : net.Os)
      (here : Leaves tcp s (xs ++ rest) before os) where
    IsNext-exact :
        (r : Option (List ℕ)) (after : net.Os)
        → ReadsExactly tcp s (length xs) os r after
        → IsNext xs rest before r after
    IsNext-exact _ after (exact {buf} e p) =
        let split = append_split buf (tcp.incoming s after) xs rest e (sym p.taken ∙ here.unread) in
        subst (λ (b : List ℕ). IsNext xs rest before (some b) after) (sym split.0)
          (next (record {
            unread = split.1;
            wires = λ t. p.wires t ∙ here.wires t;
            wanes = λ m w. Nat.le_trans (p.wanes m w) (here.wanes m w);
          }))
    IsNext-exact _ after (failed p bad) =
        absurd (bad delivers (omega (arith, ap length here.unread, length-append xs rest)))

    -- The bytes that come next are read, and the code goes on with them.
    pub read_next :
        (len : ℕ) (Q : Frame → net.Os → Type 0) (k : List ℕ → M net.Os Frame)
        → length xs ≡ len
        → 0 < len
        → ((after : net.Os) → Leaves tcp s rest before after → Ensures Q (k xs after))
        → Ensures Q (recv_exact net s len os ▷ if_read net k)
    read_next len Q k e pos go =
        Ensures-bind (IsNext xs rest before)
          (Ensures-mono
            (subst (λ (n : ℕ). Ensures (ReadsExactly tcp s (length xs) os) (recv_exact net s n os))
              e (recv_exact-ReadsExactly tcp s (length xs) os))
            IsNext-exact)
          (continue xs (omega arith) go)
      where
        continue :
            (ys : List ℕ)
            → 0 < length ys
            → ((after : net.Os) → Leaves tcp s rest before after → Ensures Q (k ys after))
            → (r : Option (List ℕ)) (after : net.Os) → IsNext ys rest before r after
            → Ensures Q (if_read net k r after)
        continue [] pos go r after n = absurd (omega arith)
        continue (y ∷ ys) pos go _ after (next l) = unfold if_read in go after l

  module _ (fuel buffer_size op k0 k1 k2 k3 : ℕ) (payload rest : List ℕ)
      (key_bytes : IsBytes (k0 ∷ k1 ∷ k2 ∷ k3 ∷ [])) (payload_bytes : IsBytes payload)
      (pos : 0 < length payload) (fits : length payload < buffer_size) (before : net.Os)
      (Q : Frame → net.Os → Type 0)
      (go : (after : net.Os)
        → Leaves tcp s rest before after
        → Ensures Q (deliver net fuel s op (length payload) payload after)) where
    abbrev key : List ℕ
    key = k0 ∷ k1 ∷ k2 ∷ k3 ∷ []

    abbrev hidden : List ℕ
    hidden = masked k0 k1 k2 k3 payload

    unmask-hidden : unmask key 0 hidden ≡ payload
    unmask-hidden =
        unmask-eq-masked k0 k1 k2 k3 hidden
        ∙ masked_twice k0 k1 k2 k3 payload key_bytes payload_bytes

    -- From the key on.
    recv_masked :
        (os : net.Os)
        → Leaves tcp s (key ++ (hidden ++ rest)) before os
        → Ensures Q (recv_payload net fuel s buffer_size op 1 (length payload) os)
    unfolding recv_payload
    recv_masked os here =
        let small : ltb (buffer_size - 1) (length payload) ≡ false = ground arith in
        rw small (
          read_next key (hidden ++ rest) before os here 4 Q _ refl (omega arith) λ os1 here1.
            read_next hidden rest before os1 here1 (length payload) Q _
              (length-masked k0 k1 k2 k3 payload) pos
              λ os2 here2.
                subst (λ (b : List ℕ). Ensures Q (deliver net fuel s op (length payload) b os2))
                  (sym unmask-hidden) (go os2 here2))

    abbrev tail : List ℕ
    tail = key ++ (hidden ++ rest)

    abbrev on_length : ℕ → M net.Os Frame
    on_length = recv_payload net fuel s buffer_size op 1

    -- The header, once the length field is taken apart.
    recv_header :
        (c : ℕ) (ext : List ℕ)
        → op < 16
        → op ≢ 8
        → length_field 128 (length payload) ≡ c ∷ ext
        → 128 ≤ c
        → c < 256
        → tcp.incoming s before ≡ client_frame op k0 k1 k2 k3 payload ++ rest
        → ((os : net.Os)
            → Leaves tcp s (ext ++ tail) before os
            → Ensures Q (recv_length net s (c % 128) on_length os))
        → Ensures Q (websocket_frame_recv net fuel s buffer_size before)
    unfolding websocket_frame_recv recv_after_header client_frame
    recv_header c ext small ne field lo hi stream then_length =
        read_next ((128 + op) ∷ c ∷ []) (ext ++ tail) before before start 2 Q _ refl (omega arith)
          λ os here. rw (opcode_bits, mask_bit, length_bits, not_close) (then_length os here)
      where
        start : Leaves tcp s (((128 + op) ∷ c ∷ []) ++ (ext ++ tail)) before before
        start = record {
          unread =
              stream
              ∙ ap (λ (f : List ℕ). ((128 + op) ∷ (f ++ (key ++ hidden))) ++ rest) field
              ∙ ap (λ (l : List ℕ). (128 + op) ∷ c ∷ l) (append_assoc ext (key ++ hidden) rest);
          wires = λ t. refl;
          wanes = λ m w. Nat.le_refl _;
        }

        opcode_bits : bit_and (128 + op) 0x0F ≡ op
        opcode_bits = omega (arith, bit_and-mask 4 (128 + op))

        mask_bit : bit_and (c / 2 ^ 7) 1 ≡ 1
        mask_bit = omega (arith, bit_and-mask 1 (c / 2 ^ 7))

        length_bits : bit_and c 0x7F ≡ c % 128
        length_bits = omega (arith, bit_and-mask 7 c)

        not_close : (op == 8) ≡ false
        not_close = ground arith

    -- The whole frame, for a payload length in each of the three forms.
    pub recv_frame :
        op < 16
        → op ≢ 8
        → length payload < 2 ^ 64
        → tcp.incoming s before ≡ client_frame op k0 k1 k2 k3 payload ++ rest
        → Ensures Q (websocket_frame_recv net fuel s buffer_size before)
    unfolding length_field recv_length
    recv_frame small ne word stream = elim (Bool-cases (leb n 125)) [
      | inl short ↦
          let le : n ≤ 125 = leb→le n 125 short in
          let code : (128 + n) % 128 ≡ n = omega arith in
          recv_header (128 + n) [] small ne (rw short) (omega arith) (omega arith) stream λ os here.
            rw (code, is_not n 126 (omega arith), is_not n 127 (omega arith)) (recv_masked os here)
      | inr more ↦ elim (Bool-cases (leb n 65535)) [
        | inl middle ↦
            let le : n ≤ 65535 = leb→le n 65535 middle in
            recv_header 254 (be_bytes 2 n) small ne (rw (more, middle)) (omega arith) (omega arith)
              stream
              λ os here.
                read_next (be_bytes 2 n) tail before os here 2 Q _ (length-be_bytes 2 n)
                  (omega arith)
                  λ os1 here1. rw (ntohs-be_bytes n (omega arith)) (recv_masked os1 here1)
        | inr long ↦
            recv_header 255 (be_bytes 8 n) small ne (rw (more, long)) (omega arith) (omega arith)
              stream
              λ os here.
                read_next (be_bytes 8 n) tail before os here 8 Q _ (length-be_bytes 8 n)
                  (omega arith)
                  λ os1 here1. rw (swap_uint64-be_bytes n word) (recv_masked os1 here1)
      ]
    ]
      where
        n : ℕ
        n = length payload
