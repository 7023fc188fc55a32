-- ===== src/Sockets/Tally.antt =====
-- How many owners each open socket has: the listening socket and the slots of the clients.
use npacn_fisac.Base.{
  ℕ, zero, suc, ◌+◌, ◌≤◌, ◌≡◌, ◌≢◌, ◌⊎◌, inl, inr, refl, arith, ◌∙◌, ap, sym, ◌==◌, ==_iff,
}
use npacn_fisac.Base.{
  Bool, true, false, Bool-cases, Option, none, some, List, [], ◌∷◌, get_elem?, set, if◌then◌else◌,
  replicate,
}
use npacn_fisac.Base.{M, Keeps, Clean-Keeps}
use mathlib.Core.Option
use npacn_fisac.Winsock.{Socket, invalid_socket, Winsock, accepted}
use npacn_fisac.Client.{ClientInfo, Server, fresh_slot}
use npacn_fisac.Server.Slots.{place_client}
use npacn_fisac.Sockets.{HasSockets, Quiet}

abbrev pub bit : Bool → ℕ
bit true = 1
bit false = 0

bit_le : (b : Bool) → bit b ≤ 1
bit_le true = omega arith
bit_le false = omega arith

pub bit_ne : (s t : Socket) → s ≢ t → bit (s == t) ≡ 0
bit_ne s t ne = ground arith

-- The slots that hold a socket, and all that hold it.
unfoldable pub holders : Socket → List ClientInfo → ℕ
holders t [] = 0
holders t (c ∷ clients) = bit (t == c.sock) + holders t clients

abbrev pub owners : Server → Socket → ℕ
owners server t = bit (t == server.sock) + holders t server.clients

some_inj {ℓ} : {A : Type ℓ} {x y : A} → some x ≡ some y → x ≡ y
some_inj q = cc

pub holders-set :
    (t : Socket) (clients : List ClientInfo) (i : ℕ) (client client' : ClientInfo)
    → get_elem? clients i ≡ some client
    → holders t (set clients i client') + bit (t == client.sock)
      ≡ holders t clients + bit (t == client'.sock)
unfolding holders
holders-set t [] i client client' e = cc
holders-set t (c ∷ clients) zero client client' e =
    let same : bit (t == c.sock) ≡ bit (t == client.sock) =
      ap (λ (d : ClientInfo). bit (t == d.sock)) (some_inj e) in
    omega (arith, same)
holders-set t (c ∷ clients) (suc i) client client' e =
    let rest = holders-set t clients i client client' e in omega (arith, rest)

pub holders-place_client :
    (t new : Socket) (clients clients' : List ClientInfo)
    → t ≢ invalid_socket
    → place_client new clients ≡ some clients'
    → holders t clients' ≡ bit (t == new) + holders t clients
unfolding holders place_client
holders-place_client t new [] clients' ne e = cc
holders-place_client t new (c ∷ clients) clients' ne e =
    pick (Bool-cases (c.sock == invalid_socket)) (place_client new clients)
      (λ cs. holders-place_client t new clients cs ne) e
  where
    Result : Bool → Option (List ClientInfo) → Option (List ClientInfo)
    Result b rest =
        if b
        then some (fresh_slot new ∷ clients)
        else Option.map (λ (cs : List ClientInfo). c ∷ cs) rest

    pick :
        ((c.sock == invalid_socket) ≡ true) ⊎ ((c.sock == invalid_socket) ≡ false)
        → (rest : Option (List ClientInfo))
        → ((cs : List ClientInfo)
            → rest ≡ some cs
            → holders t cs ≡ bit (t == new) + holders t clients)
        → Result (c.sock == invalid_socket) rest ≡ some clients'
        → holders t clients' ≡ bit (t == new) + (bit (t == c.sock) + holders t clients)
    pick (inl empty) rest more q =
        let placed : fresh_slot new ∷ clients ≡ clients' =
          some_inj (ap (λ (b : Bool). Result b rest) (sym empty) ∙ q) in
        let none_held : bit (t == c.sock) ≡ 0 =
          ap (λ (s : Socket). bit (t == s)) ((==_iff c.sock invalid_socket).0 empty)
          ∙ bit_ne t invalid_socket ne in
        ap (holders t) (sym placed) ∙ omega (arith, none_held)
    pick (inr full) none more q = absurd (no (ap (λ (b : Bool). Result b none) (sym full) ∙ q))
      where
        no : none ≡ some clients' → ⊥
        no r = cc
    pick (inr full) (some cs) more q =
        let placed : c ∷ cs ≡ clients' =
          some_inj (ap (λ (b : Bool). Result b (some cs)) (sym full) ∙ q) in
        ap (holders t) (sym placed) ∙ omega (arith, more cs refl)

pub holders-empty :
    (t : Socket) (n : ℕ)
    → t ≢ invalid_socket
    → holders t (replicate n (fresh_slot invalid_socket)) ≡ 0
unfolding holders
holders-empty t zero ne = refl
holders-empty t (suc n) ne = omega (arith, holders-empty t n ne, bit_ne t invalid_socket ne)

module _ {net : Winsock} (sockets : HasSockets net) where
  -- Each socket is open as many times as it is counted, so once at most.
  abbrev pub Tally : (Socket → ℕ) → net.Os → Type 0
  Tally count os = (t : Socket) → t ≢ invalid_socket → bit (sockets.is_open t os) ≡ count t

  -- The listening socket and the sockets in the slots are open, each in one place, and no other is.
  abbrev pub Accounted : Server → net.Os → Type 0
  Accounted server os = Tally (owners server) os

  pub Tally-mono :
      (count count' : Socket → ℕ) (os : net.Os)
      → Tally count os
      → ((t : Socket) → t ≢ invalid_socket → count t ≡ count' t)
      → Tally count' os
  Tally-mono count count' os h same t ne = h t ne ∙ same t ne

  pub Quiet-Tally :
      {A : Type 0} (count : Socket → ℕ) (m : M net.Os A) (os : net.Os)
      → Quiet sockets (Unit {0}) os m
      → Tally count os
      → Keeps (λ (a : A) (after : net.Os). Tally count after) (m os)
  Quiet-Tally count m os quiet h =
      Clean-Keeps (quiet os λ t. refl) λ a after same t ne. ap bit (same t) ∙ h t ne

  pub closesocket-Tally :
      (count : Socket → ℕ) (s : Socket) (os : net.Os)
      → Tally (λ t. bit (t == s) + count t) os
      → Tally count (net.closesocket s os)
  closesocket-Tally count s os h t ne =
      ap bit (sockets.open-closesocket t s os) ∙ pick (t == s) (h t ne)
    where
      pick :
          (b : Bool)
          → bit (sockets.is_open t os) ≡ bit b + count t
          → bit (if b then false else sockets.is_open t os) ≡ count t
      pick true e = omega (arith, e, bit_le (sockets.is_open t os))
      pick false e = omega (arith, e)

  -- A socket that was not open, and is.
  opened-Tally :
      (count : Socket → ℕ) (s : Socket) (before after : net.Os)
      → Tally count before
      → s ≢ invalid_socket
      → sockets.is_open s before ≡ false
      → ((t : Socket)
          → sockets.is_open t after ≡ (if t == s then true else sockets.is_open t before))
      → Tally (λ t. bit (t == s) + count t) after
  opened-Tally count s before after h valid fresh e t ne = ap bit (e t) ∙ pick (Bool-cases (t == s))
    where
      pick :
          ((t == s) ≡ true) ⊎ ((t == s) ≡ false)
          → bit (if t == s then true else sockets.is_open t before) ≡ bit (t == s) + count t
      pick (inl same) =
          let empty : count t ≡ 0 =
            ap count ((==_iff t s).0 same) ∙ sym (h s valid) ∙ ap bit fresh in
          rw same (omega (arith, empty))
      pick (inr other) = rw other (omega (arith, h t ne))

  pub accept-Tally :
      (count : Socket → ℕ) (s new : Socket) (ip : List ℕ) (port : ℕ) (os : net.Os)
      → Tally count os
      → (net.accept s os).0 ≡ accepted new ip port
      → Tally (λ t. bit (t == new) + count t) (net.accept s os).1
  accept-Tally count s new ip port os h e =
      let fresh = sockets.fresh-accept s new ip port os e in
      opened-Tally count new os (net.accept s os).1 h fresh.1 fresh.0
        λ t. sockets.open-accept t s new ip port os e

  pub socket-Tally :
      (count : Socket → ℕ) (os : net.Os)
      → Tally count os
      → (net.socket os).0 ≢ invalid_socket
      → Tally (λ t. bit (t == (net.socket os).0) + count t) (net.socket os).1
  socket-Tally count os h valid =
      opened-Tally count (net.socket os).0 os (net.socket os).1 h valid
        (sockets.fresh-socket os valid) λ t. sockets.open-socket t os valid
