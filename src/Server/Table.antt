-- ===== src/Server/Table.antt =====
-- The table of clients: what holds of each slot, and that the operations on the table keep it.
use npacn_fisac.Base.{
  ℕ, zero, suc, ◌<◌, ◌≡◌, ◌≢◌, refl, arith, ◌∙◌, ap, subst, Bool, true, false, ◌==◌,
}
use npacn_fisac.Base.{Option, none, some, if◌then◌else◌}
use npacn_fisac.Base.{
  List, [], ◌∷◌, length, set, get_elem?, length-set, length-take, take, replicate,
}
use mathlib.Core.Option
use npacn_fisac.Base.Int.{ℤ, pos}
use npacn_fisac.Winsock.{Socket, invalid_socket}
use npacn_fisac.Client.{ClientInfo, Server, fresh_slot, max_clients, max_username}
use npacn_fisac.Server.Slots.{empty_slots, put_slot, place_client}

some_inj {ℓ} : {A : Type ℓ} {x y : A} → some x ≡ some y → x ≡ y
some_inj q = cc

-- A name fits its array with its terminator, who is not logged in has neither a name nor an id, and
-- nobody is logged in where there is no connection.
abbrev pub IsSlot : ClientInfo → Type 0
IsSlot client =
    (length client.username < max_username)
    × (client.authenticated ≡ false → (client.user_id ≡ pos 0) × (client.username ≡ []))
    × (client.sock ≡ invalid_socket → client.authenticated ≡ false)

abbrev pub AreSlots : List ClientInfo → Type 0
AreSlots [] = Unit
AreSlots (client ∷ clients) = IsSlot client × AreSlots clients

abbrev pub IsServer : Server → Type 0
IsServer server = (length server.clients ≡ max_clients) × AreSlots server.clients

pub fresh_slot-IsSlot : (s : Socket) → IsSlot (fresh_slot s)
fresh_slot-IsSlot s = (omega arith, λ e. (refl, refl), λ e. refl)

pub logged_in-IsSlot :
    (client : ClientInfo) (user_id : ℤ) (username : List ℕ)
    → client.sock ≢ invalid_socket
    → IsSlot
        (record client { authenticated = true; user_id = user_id; username = take 63 username })
logged_in-IsSlot client user_id username connected =
    (omega (arith, length-take 63 username), λ e. cc, λ e. absurd (connected e))

set-AreSlots :
    (clients : List ClientInfo) (i : ℕ) (client : ClientInfo)
    → AreSlots clients
    → IsSlot client
    → AreSlots (set clients i client)
set-AreSlots [] i client all one = tt
set-AreSlots (c ∷ clients) zero client all one = (one, all.1)
set-AreSlots (c ∷ clients) (suc i) client all one = (all.0, set-AreSlots clients i client all.1 one)

pub get-IsSlot :
    (clients : List ClientInfo) (i : ℕ) (client : ClientInfo)
    → AreSlots clients
    → get_elem? clients i ≡ some client
    → IsSlot client
get-IsSlot [] i client all e = cc
get-IsSlot (c ∷ clients) zero client all e = subst IsSlot (some_inj e) all.0
get-IsSlot (c ∷ clients) (suc i) client all e = get-IsSlot clients i client all.1 e

pub put_slot-IsServer :
    (server : Server) (i : ℕ) (client : ClientInfo)
    → IsServer server
    → IsSlot client
    → IsServer (put_slot server i client)
unfolding put_slot
put_slot-IsServer server i client h one =
    (length-set server.clients i client ∙ h.0, set-AreSlots server.clients i client h.1 one)

-- A slot that was given away is fresh, and the others are as they were.
pub place_client-AreSlots :
    (s : Socket) (clients clients' : List ClientInfo)
    → place_client s clients ≡ some clients'
    → AreSlots clients
    → (length clients' ≡ length clients) × AreSlots clients'
unfolding place_client
place_client-AreSlots s [] clients' e all = cc
place_client-AreSlots s (c ∷ clients) clients' e all =
    pick (c.sock == invalid_socket) (place_client s clients) (place_client-AreSlots s clients) e
  where
    Good : List ClientInfo → Type 0
    Good cs = (length cs ≡ suc (length clients)) × AreSlots cs

    pick :
        (b : Bool) (rest : Option (List ClientInfo))
        → ((cs : List ClientInfo)
            → rest ≡ some cs
            → AreSlots clients
            → (length cs ≡ length clients) × AreSlots cs)
        → (if b
            then some (fresh_slot s ∷ clients)
            else Option.map (λ (cs : List ClientInfo). c ∷ cs) rest)
          ≡ some clients'
        → Good clients'
    pick true rest more q = subst Good (some_inj q) (refl, (fresh_slot-IsSlot s, all.1))
    pick false none more q = cc
    pick false (some cs) more q =
        let h = more cs refl all.1 in subst Good (some_inj q) (ap suc h.0, (all.0, h.1))

pub empty_slots-AreSlots : AreSlots empty_slots
unfolding empty_slots
empty_slots-AreSlots = all_fresh max_clients
  where
    all_fresh : (n : ℕ) → AreSlots (replicate n (fresh_slot invalid_socket))
    all_fresh zero = tt
    all_fresh (suc n) = (fresh_slot-IsSlot invalid_socket, all_fresh n)
