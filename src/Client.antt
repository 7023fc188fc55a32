-- ===== src/Client.antt =====
-- FISAC1/include/server.h: the state that is kept of each client, and of the server.
use npacn_fisac.Base.{ℕ, Bool, false, List, []}
use npacn_fisac.Base.Int.{ℤ, pos}
use npacn_fisac.Winsock.{Socket}

abbrev pub max_clients : ℕ
max_clients = 30

abbrev pub max_username : ℕ
max_username = 64

pub record ClientInfo : Type 0 where
  pub sock : Socket
  pub authenticated : Bool
  pub user_id : ℤ
  pub username : List ℕ

pub record Server : Type 0 where
  pub sock : Socket
  pub running : Bool
  pub clients : List ClientInfo

-- A slot with no user, as `server_init`, `accept` and a disconnection write it.
abbrev pub fresh_slot : Socket → ClientInfo
fresh_slot sock = record { sock = sock; authenticated = false; user_id = pos 0; username = [] }
