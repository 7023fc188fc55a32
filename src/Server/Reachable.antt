-- ===== src/Server/Reachable.antt =====
-- The states that the main loop goes through.
use npacn_fisac.Base.{ℕ, ◌≡◌, refl, true, done, Keeps-done}
use npacn_fisac.Winsock.{Socket, Winsock}
use npacn_fisac.Handshake.{Stack}
use npacn_fisac.Json.{Json}
use npacn_fisac.Client.{Server}
use npacn_fisac.Server.{server_iteration}
use npacn_fisac.Server.Slots.{empty_slots}
use npacn_fisac.Server.Table.{IsServer, empty_slots-AreSlots}
use npacn_fisac.Server.Invariant.{server_iteration-IsServer}

module _ (json : Json) (net : Winsock) (fuel : ℕ) (stack : Stack) where
  -- The server as it starts, or after a round of the main loop; between two rounds the state of the
  -- operating system may change in any way.
  pub data IsReachable : Server → Type 0 where
    started :
        (sock : Socket)
        → IsReachable (record { sock = sock; running = true; clients = empty_slots })
    after_round :
        {server server' : Server} (before after : net.Os)
        → IsReachable server
        → server_iteration json net fuel stack server before ≡ done server' after
        → IsReachable server'

  -- Between any two rounds of the main loop, however many there were and whatever clients, backend and
  -- network did, there are 30 slots. In each of them the name fits its array, and who is not logged in
  -- has neither a name nor an id. Nobody is logged in in a slot without a connection, so a disconnection
  -- ends the login, and no connection that is given the slot later inherits it.
  pub IsReachable-IsServer : (server : Server) → IsReachable server → IsServer server
  unfolding empty_slots
  IsReachable-IsServer _ (started sock) = (refl, empty_slots-AreSlots)
  IsReachable-IsServer _ (after_round {server} {server'} before after earlier e) =
      Keeps-done server' after
        (server_iteration-IsServer json net fuel stack server before
          (IsReachable-IsServer server earlier))
        e
