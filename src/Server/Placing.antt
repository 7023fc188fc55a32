-- ===== src/Server/Placing.antt =====
-- Which slot a new client is given.
use npacn_fisac.Base.{◌≡◌, ◌≢◌, ◌⊎◌, inl, inr, arith, ◌==◌, ==_iff}
use npacn_fisac.Base.{true, false, Bool-cases, Option, none, some, List, [], ◌∷◌, ◌++◌}
use mathlib.Core.Option
use npacn_fisac.Winsock.{Socket, invalid_socket}
use npacn_fisac.Client.{ClientInfo, fresh_slot}
use npacn_fisac.Server.Slots.{place_client}

abbrev pub AreTaken : List ClientInfo → Type 0
AreTaken [] = Unit
AreTaken (c ∷ clients) = (c.sock ≢ invalid_socket) × AreTaken clients

-- The first slot without a socket was given away, or there was none.
pub data Places (new : Socket) : List ClientInfo → Option (List ClientInfo) → Type 0 where
  given :
      (taken : List ClientInfo) (empty : ClientInfo) (others : List ClientInfo)
      → AreTaken taken
      → empty.sock ≡ invalid_socket
      → Places new (taken ++ (empty ∷ others)) (some (taken ++ (fresh_slot new ∷ others)))
  full : {clients : List ClientInfo} → AreTaken clients → Places new clients none

skip :
    (new : Socket) (c : ClientInfo) (clients : List ClientInfo) (r : Option (List ClientInfo))
    → c.sock ≢ invalid_socket
    → Places new clients r
    → Places new (c ∷ clients) (Option.map (λ (cs : List ClientInfo). c ∷ cs) r)
skip new c _ _ ne (given taken empty others all is_empty) =
    given (c ∷ taken) empty others (ne, all) is_empty
skip new c _ _ ne (full all) = full (ne, all)

-- A new connection is given the first slot without a socket, which then has no user, and all other
-- slots stay as they are, in their order; it is turned away only where every slot has a socket.
pub place_client-Places :
    (new : Socket) (clients : List ClientInfo) → Places new clients (place_client new clients)
unfolding place_client
place_client-Places new [] = full tt
place_client-Places new (c ∷ clients) =
    pick (Bool-cases (c.sock == invalid_socket)) (place_client-Places new clients)
  where
    pick :
        ((c.sock == invalid_socket) ≡ true) ⊎ ((c.sock == invalid_socket) ≡ false)
        → Places new clients (place_client new clients)
        → Places new (c ∷ clients) (place_client new (c ∷ clients))
    pick (inl e) rest =
        rw (place_client, e) (given [] c clients tt ((==_iff c.sock invalid_socket).0 e))
    pick (inr e) rest = rw (place_client, e) (skip new c clients _ (λ q. ground (arith, q, e)) rest)
