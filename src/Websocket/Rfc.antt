-- ===== src/Websocket/Rfc.antt =====
-- Frames as RFC 6455 describes them, and the code's words for their parts.
use npacn_fisac.Base.{ℕ, suc, ◌+◌, ◌*◌, ◌/◌, ◌%◌, ◌^◌, ◌≤◌, ◌<◌, bit_and, bit_or, bit_xor}
use npacn_fisac.Base.{◌≡◌, refl, arith, ◌∙◌, ap, ap₂, sym, List, [], ◌∷◌, ◌++◌, length, get_or}
use npacn_fisac.Base.{leb, if◌then◌else◌, Bool-cases, leb→le, inl, inr}
use npacn_fisac.Base.Bits.{bit_and-mask, bit_or-glue, bit_xor_twice}
use npacn_fisac.Base.CText.{IsBytes}
use npacn_fisac.Sha1.{be_bytes}
use npacn_fisac.Websocket.{le_bytes, le_value, ntohs, swap_uint64, unmask, frame_header}
use npacn_fisac.Websocket.Words.{
  swap_uint64-le_value, le_bytes-swap_uint64, le_value-le_bytes, IsBytes-le_bytes,
}

-- The length of a payload in one, three or nine bytes; `flag` is 128 for a masked frame.
unfoldable pub length_field : ℕ → ℕ → List ℕ
length_field flag n =
    if leb n 125
    then (flag + n) ∷ []
    else if leb n 65535
    then (flag + 126) ∷ be_bytes 2 n
    else (flag + 127) ∷ be_bytes 8 n

-- An unmasked frame that is not fragmented, as a server sends it.
unfoldable pub server_frame : ℕ → List ℕ → List ℕ
server_frame opcode payload = (128 + opcode) ∷ (length_field 0 (length payload) ++ payload)

-- The bytes of a payload, each combined with the next byte of the key, which goes round.
unfoldable pub masked : ℕ → ℕ → ℕ → ℕ → List ℕ → List ℕ
masked k0 k1 k2 k3 [] = []
masked k0 k1 k2 k3 (b ∷ bs) = bit_xor b k0 ∷ masked k1 k2 k3 k0 bs

-- A masked frame that is not fragmented, as a client sends it.
unfoldable pub client_frame : ℕ → ℕ → ℕ → ℕ → ℕ → List ℕ → List ℕ
client_frame opcode k0 k1 k2 k3 payload =
    (128 + opcode)
    ∷ (length_field 128 (length payload) ++ (k0 ∷ k1 ∷ k2 ∷ k3 ∷ masked k0 k1 k2 k3 payload))

pub length-masked : (k0 k1 k2 k3 : ℕ) (bs : List ℕ) → length (masked k0 k1 k2 k3 bs) ≡ length bs
unfolding masked
length-masked k0 k1 k2 k3 [] = refl
length-masked k0 k1 k2 k3 (b ∷ bs) = ap suc (length-masked k1 k2 k3 k0 bs)

pub masked_twice :
    (k0 k1 k2 k3 : ℕ) (bs : List ℕ)
    → IsBytes (k0 ∷ k1 ∷ k2 ∷ k3 ∷ [])
    → IsBytes bs
    → masked k0 k1 k2 k3 (masked k0 k1 k2 k3 bs) ≡ bs
unfolding masked
masked_twice k0 k1 k2 k3 [] k h = refl
masked_twice k0 k1 k2 k3 (b ∷ bs) k h =
    ap₂ ◌∷◌ (bit_xor_twice 8 b k0 (omega arith) (omega arith))
      (masked_twice k1 k2 k3 k0 bs (omega arith) h.1)

module _ (k0 k1 k2 k3 : ℕ) where
  abbrev key : List ℕ
  key = k0 ∷ k1 ∷ k2 ∷ k3 ∷ []

  abbrev key_at : ℕ → ℕ
  key_at i = get_or key (i % 4) 0

  unmask_from :
      (i : ℕ) (bs : List ℕ)
      → unmask key i bs ≡ masked (key_at i) (key_at (i + 1)) (key_at (i + 2)) (key_at (i + 3)) bs
  unfolding unmask masked
  unmask_from i [] = refl
  unmask_from i (b ∷ bs) =
      ap (λ t. bit_xor b (key_at i) ∷ t)
        (unmask_from (suc i) bs ∙ λ j.
          masked (get_or key (eq1 j) 0) (get_or key (eq2 j) 0) (get_or key (eq3 j) 0)
            (get_or key (eq4 j) 0) bs)
    where
      eq1 : suc i % 4 ≡ (i + 1) % 4
      eq1 = omega arith

      eq2 : (suc i + 1) % 4 ≡ (i + 2) % 4
      eq2 = omega arith

      eq3 : (suc i + 2) % 4 ≡ (i + 3) % 4
      eq3 = omega arith

      eq4 : (suc i + 3) % 4 ≡ i % 4
      eq4 = omega arith

  -- For every key of four bytes, the loop over the index modulo four is the masking by a key that goes
  -- round.
  pub unmask-eq-masked : (bs : List ℕ) → unmask key 0 bs ≡ masked k0 k1 k2 k3 bs
  unmask-eq-masked bs = unmask_from 0 bs

first_byte : (type : ℕ) → type < 16 → bit_or 0x80 (bit_and type 0x0F) ≡ 128 + type
first_byte type h =
    rw (bit_and-mask 4 type) (bit_or-glue 7 1 (type % 16) (omega arith) ∙ omega arith)

ntohs_bytes : (n : ℕ) → n < 2 ^ 16 → le_bytes 2 (ntohs n) ≡ be_bytes 2 n
unfolding le_bytes ntohs be_bytes
ntohs_bytes n h = λ i. hi i ∷ lo i ∷ []
  where
    hi : (n % 256 * 256 + n / 256 % 256) % 256 ≡ n / 2 ^ 8 % 256
    hi = omega arith

    lo : (n % 256 * 256 + n / 256 % 256) / 256 % 256 ≡ n / 2 ^ 0 % 256
    lo = omega arith

swap_bytes : (n : ℕ) → n < 2 ^ 64 → le_bytes 8 (swap_uint64 n) ≡ be_bytes 8 n
unfolding le_bytes be_bytes
swap_bytes n h =
    ap (λ (m : ℕ). le_bytes 8 (swap_uint64 m)) (sym (le_value-le_bytes 8 n h))
    ∙ le_bytes-swap_uint64 _ _ _ _ _ _ _ _ (IsBytes-le_bytes 8 n)
    ∙ λ i. e7 i ∷ e6 i ∷ e5 i ∷ e4 i ∷ e3 i ∷ e2 i ∷ e1 i ∷ e0 i ∷ []
  where
    e0 : n % 256 ≡ n / 2 ^ 0 % 256
    e0 = omega arith

    e1 : n / 256 % 256 ≡ n / 2 ^ 8 % 256
    e1 = omega arith

    e2 : n / 256 / 256 % 256 ≡ n / 2 ^ 16 % 256
    e2 = omega arith

    e3 : n / 256 / 256 / 256 % 256 ≡ n / 2 ^ 24 % 256
    e3 = omega arith

    e4 : n / 256 / 256 / 256 / 256 % 256 ≡ n / 2 ^ 32 % 256
    e4 = omega arith

    e5 : n / 256 / 256 / 256 / 256 / 256 % 256 ≡ n / 2 ^ 40 % 256
    e5 = omega arith

    e6 : n / 256 / 256 / 256 / 256 / 256 / 256 % 256 ≡ n / 2 ^ 48 % 256
    e6 = omega arith

    e7 : n / 256 / 256 / 256 / 256 / 256 / 256 / 256 % 256 ≡ n / 2 ^ 56 % 256
    e7 = omega arith

-- For every opcode below 16 and every length below 2 ^ 64 the code writes the header that RFC 6455
-- describes for an unmasked frame.
pub frame_header-rfc :
    (len type : ℕ)
    → type < 16
    → len < 2 ^ 64
    → frame_header len type ≡ (128 + type) ∷ length_field 0 len
unfolding frame_header length_field
frame_header-rfc len type ht hl = elim (Bool-cases (leb len 125)) [
  | inl short ↦
      let small : len ≤ 125 = leb→le len 125 short in
      let e : len % 256 ≡ 0 + len = omega arith in
      rw short (ap₂ (λ (a b : ℕ). a ∷ b ∷ []) (first_byte type ht) e)
  | inr more ↦ rw more (elim (Bool-cases (leb len 65535)) [
    | inl middle ↦
        let small : len ≤ 65535 = leb→le len 65535 middle in
        let e : len % 2 ^ 16 ≡ len = omega arith in
        rw middle (
          ap₂ (λ (a : ℕ) (l : List ℕ). a ∷ 126 ∷ l) (first_byte type ht)
            (ap (λ (n : ℕ). le_bytes 2 (ntohs n)) e ∙ ntohs_bytes len (omega arith)))
    | inr long ↦
        rw long (ap₂ (λ (a : ℕ) (l : List ℕ). a ∷ 127 ∷ l) (first_byte type ht) (swap_bytes len hl))
  ])
]

pub length-length_field : (flag n : ℕ) → length (length_field flag n) ≤ 9
unfolding length_field be_bytes
length-length_field flag n = ground arith

-- A length that was sent in two or in eight bytes is read back.
pub ntohs-be_bytes : (n : ℕ) → n < 2 ^ 16 → ntohs (le_value (be_bytes 2 n)) ≡ n
unfolding ntohs le_value be_bytes
ntohs-be_bytes n h = omega arith

pub swap_uint64-be_bytes : (n : ℕ) → n < 2 ^ 64 → swap_uint64 (le_value (be_bytes 8 n)) ≡ n
unfolding be_bytes
swap_uint64-be_bytes n h =
    swap_uint64-le_value _ _ _ _ _ _ _ _ (omega arith) ∙ unfold le_value in omega arith
