-- ===== src/Tests/Script.antt =====
-- A network for the tests: every connection has the bytes that its peer sends, and collects what is
-- sent to it. No call blocks or fails.
use npacn_fisac.Base.{ℕ, ◌≡◌, ◌≢◌, refl, arith, ap}
use npacn_fisac.Base.{Bool, true, false, not, ◌&&◌, suc, ◌==◌, if◌then◌else◌, none, some}
use npacn_fisac.Base.{List, [], ◌∷◌, ◌++◌, length, take, drop, take-append-drop, length-take}
use npacn_fisac.Base.Slices.{take_all}
use npacn_fisac.Base.CText.{codes}
use npacn_fisac.Winsock.{
  SocketOption, Socket, Winsock, IsTcp, IsDraining, IsDelivering, IsBroken, broken_by,
}
use npacn_fisac.Winsock.{
  invalid_socket, AcceptResult, accept_error, would_block, sent, send_error, received, accepted,
  ready, sent_count,
}

pub record Peers : Type 0 where
  pub inbox : Socket → List ℕ
  pub outbox : Socket → List ℕ
  pub stopped : Bool
  pub opened : Socket → Bool
  pub next : Socket
  pub settings : Socket → List (SocketOption × ℕ)

abbrev pub update : {A : Type 0} → (Socket → A) → Socket → A → Socket → A
update f s v t = if t == s then v else f t

pub update_self : {A : Type 0} (f : Socket → A) (s : Socket) (v : A) → update f s v s ≡ v
update_self f s v = ground arith

pub update_ne : (f : Socket → List ℕ) (s t : Socket) (v : List ℕ) → t ≢ s → update f s v t ≡ f t
update_ne f s t v ne = ground arith

abbrev put_out : Socket → List ℕ → Peers → Peers
put_out s bytes os = record os { outbox = update os.outbox s (os.outbox s ++ bytes) }

abbrev take_in : Socket → ℕ → Peers → Peers
take_in s n os = record os { inbox = update os.inbox s (drop n (os.inbox s)) }

-- The next number is given to a new socket, unless it is in use. Its peer may be sending at once.
abbrev pub is_free : Peers → Bool
is_free os = not (os.opened os.next) && not (os.next == invalid_socket)

abbrev pub open_next : Peers → Peers
open_next os = record os {
  opened = update os.opened os.next true;
  outbox = update os.outbox os.next [];
  next = suc os.next;
}

abbrev pub new_socket : Bool → Peers → Socket × Peers
new_socket true os = (os.next, open_next os)
new_socket false os = (invalid_socket, os)

abbrev pub new_connection : Bool → Peers → AcceptResult × Peers
new_connection true os = (accepted os.next (codes "10.0.0.9") 50000, open_next os)
new_connection false os = (accept_error would_block, os)

abbrev pub script : Winsock
script = record {
  Os = Peers;
  send = λ s bytes os. (sent (length bytes), put_out s bytes os);
  recv = λ s n os. (received (take n (os.inbox s)), take_in s n os);
  sleep = λ ms os. os;
  wsa_startup = λ os. (true, os);
  wsa_cleanup = λ os. os;
  socket = λ os. new_socket (is_free os) os;
  connect = λ s port os. (true, os);
  closesocket = λ s os. record os { opened = update os.opened s false };
  accept = λ s os. new_connection (is_free os) os;
  select = λ sockets os. (ready sockets, os);
  ioctl_nonblocking = λ s mode os. (true, os);
  setsockopt = λ s option value os. (
    true,
    record os { settings = update os.settings s (os.settings s ++ ((option, value) ∷ [])) },
  );
  bind = λ s addr port os. (true, os);
  listen = λ s os. (true, os);
  set_timeout = λ s ms os. os;
  inet_pton = λ text. some 0;
  profile = none;
  interrupted_by_user = λ os. os.stopped;
  start_running = λ os. record os { stopped = false };
}

pub no_error : (n : ℕ) → sent n ≡ send_error would_block → ⊥
no_error n e = cc

abbrev pub script_tcp : IsTcp script
script_tcp = record {
  wire = λ s os. os.outbox s;
  incoming = λ s os. os.inbox s;
  sent-le = λ s bytes os. omega arith;
  wire-send = λ s bytes os.
      rw (
        update_self os.outbox s (os.outbox s ++ bytes),
        take_all (length bytes) bytes (omega arith),
      );
  wire-send_ne = λ s t bytes os ne. update_ne os.outbox s t (os.outbox s ++ bytes) ne;
  incoming-send = λ s t bytes os. refl;
  received-le = λ s n os. omega (arith, length-take n (os.inbox s));
  incoming-recv =
      λ s n os. rw (update_self os.inbox s (drop n (os.inbox s)), take-append-drop n (os.inbox s));
  incoming-recv_ne = λ s t n os ne. update_ne os.inbox s t (drop n (os.inbox s)) ne;
  wire-recv = λ s t n os. refl;
  wire-sleep = λ t ms os. refl;
  incoming-sleep = λ t ms os. refl;
}

abbrev pub script_drains : IsDraining script
script_drains = record {
  patience = λ os. 0;
  progress = λ s bytes os pos e. absurd (omega (arith, ap sent_count e));
  patience-send = λ s bytes os. omega arith;
  patience-recv = λ s n os. omega arith;
  patience-sleep = λ ms os. omega arith;
  patience-wait = λ s bytes ms os e. absurd (no_error (length bytes) e);
}

pub script_delivers : IsDelivering script_tcp
script_delivers s n os pos some_left = omega (arith, length-take n (os.inbox s))

pub script_unbroken : (s : Socket) → IsBroken script s → ⊥
script_unbroken s (broken_by bytes os e q ne) = cc

-- Peers of which the one on the connection 3 sends these bytes.
abbrev pub from_three : List ℕ → Peers
from_three bytes = record {
  inbox = λ s. if s == 3 then bytes else [];
  outbox = λ s. [];
  stopped = false;
  opened = λ s. false;
  next = 5;
  settings = λ s. [];
}
