-- ===== src/Tests/Settling.antt =====
-- What ends and what does not, on two test networks.
use npacn_fisac.Base.{◌≡◌, true, refl, arith, [], ◌∷◌, stuck, Ensures, ◌>>=◌}
use npacn_fisac.Base.CText.{codes}
use npacn_fisac.Winsock.{Winsock, recv_error, would_block}
use npacn_fisac.Client.{Server}
use npacn_fisac.Server.{server_iteration, server_loop, server_shutdown}
use npacn_fisac.Server.Slots.{is_set, active_sockets, empty_slots}
use npacn_fisac.Sockets.{HasSockets}
use npacn_fisac.Settling.Waiting.{server_iteration-silent}
use npacn_fisac.Settling.Stopping.{server_loop-Stops}
use npacn_fisac.Sockets.Shutdown.{IsDown}
use npacn_fisac.Tests.Script.{Peers, script, from_three}
use npacn_fisac.Tests.Sockets.{open_sockets, listening, new_server-Accounted}
use npacn_fisac.Tests.Answers.{script_apart}
use npacn_fisac.Tests.Toy.{toy, zero_stack, new_server}

-- A network on which nothing arrives.
abbrev deaf : Winsock
deaf = record script { recv = λ s n os. (recv_error would_block, os) }

deaf_sockets : HasSockets deaf
deaf_sockets = record {
  is_open = open_sockets.is_open;
  open-send = open_sockets.open-send;
  open-recv = λ t s n os. refl;
  open-sleep = open_sockets.open-sleep;
  open-connect = open_sockets.open-connect;
  open-set_timeout = open_sockets.open-set_timeout;
  open-ioctl = open_sockets.open-ioctl;
  open-setsockopt = open_sockets.open-setsockopt;
  open-bind = open_sockets.open-bind;
  open-listen = open_sockets.open-listen;
  open-select = open_sockets.open-select;
  open-wsa_startup = open_sockets.open-wsa_startup;
  open-start_running = open_sockets.open-start_running;
  open-wsa_cleanup = open_sockets.open-wsa_cleanup;
  open-closesocket = open_sockets.open-closesocket;
  open-socket = open_sockets.open-socket;
  open-socket_failed = open_sockets.open-socket_failed;
  fresh-socket = open_sockets.fresh-socket;
  open-accept = open_sockets.open-accept;
  fresh-accept = open_sockets.fresh-accept;
  open-accept_error = open_sockets.open-accept_error;
}

server_iteration-silent_example :
    server_iteration toy deaf 1000 zero_stack new_server (from_three []) ≡ stuck
unfolding is_set active_sockets empty_slots
server_iteration-silent_example =
    server_iteration-silent toy deaf deaf_sockets 1000 zero_stack new_server (2 ∷ []) 5
      (codes "10.0.0.9") 50000 (from_three []) refl refl refl (λ n os. refl)

server_loop-Stops_example :
    Ensures
      (λ (server' : Server) (after : Peers). IsDown open_sockets server' after)
      ((server_loop toy script 12301 zero_stack 1 new_server
          >>= server_shutdown toy script 12301 zero_stack)
        (record listening { stopped = true }))
server_loop-Stops_example =
    server_loop-Stops toy script_apart open_sockets 12301 zero_stack 0 new_server
      (record listening { stopped = true }) (omega arith) refl new_server-Accounted
