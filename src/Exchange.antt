-- ===== src/Exchange.antt =====
-- The connection that a request to the backend opens beside the ones that are there.
pub mod Loops
pub mod Post
use native.Mathlib.Nat.{le_refl, le_trans}
use npacn_fisac.Base.{ℕ, ◌≤◌, ◌<◌, ◌≡◌, ◌≢◌, refl, ◌∙◌, List, [], length}
use npacn_fisac.Winsock.{Socket, invalid_socket, Winsock, IsTcp, IsDraining, sent_count}

-- A new connection starts empty; opening, connecting and closing one sends and reads nothing on it,
-- and touches no other. None of it makes a peer slower to read.
pub record IsApart {net : Winsock} (tcp : IsTcp net) (drains : IsDraining net) : Type 0 where
  pub wire-new_socket :
      (os : net.Os)
      → (net.socket os).0 ≢ invalid_socket
      → tcp.wire (net.socket os).0 (net.socket os).1 ≡ []
  pub wire-socket :
      (t : Socket) (os : net.Os)
      → t ≢ (net.socket os).0
      → tcp.wire t (net.socket os).1 ≡ tcp.wire t os
  pub incoming-socket :
      (t : Socket) (os : net.Os)
      → t ≢ (net.socket os).0
      → tcp.incoming t (net.socket os).1 ≡ tcp.incoming t os
  pub wire-connect :
      (t s : Socket) (port : ℕ) (os : net.Os) → tcp.wire t (net.connect s port os).1 ≡ tcp.wire t os
  pub incoming-connect_ne :
      (t s : Socket) (port : ℕ) (os : net.Os)
      → t ≢ s
      → tcp.incoming t (net.connect s port os).1 ≡ tcp.incoming t os
  pub wire-set_timeout :
      (t s : Socket) (ms : ℕ) (os : net.Os) → tcp.wire t (net.set_timeout s ms os) ≡ tcp.wire t os
  pub incoming-set_timeout :
      (t s : Socket) (ms : ℕ) (os : net.Os)
      → tcp.incoming t (net.set_timeout s ms os) ≡ tcp.incoming t os
  pub wire-closesocket :
      (t s : Socket) (os : net.Os) → tcp.wire t (net.closesocket s os) ≡ tcp.wire t os
  pub incoming-closesocket_ne :
      (t s : Socket) (os : net.Os)
      → t ≢ s
      → tcp.incoming t (net.closesocket s os) ≡ tcp.incoming t os
  pub patience-socket : (os : net.Os) → drains.patience (net.socket os).1 ≤ drains.patience os
  pub patience-connect :
      (s : Socket) (port : ℕ) (os : net.Os)
      → drains.patience (net.connect s port os).1 ≤ drains.patience os
  pub patience-set_timeout :
      (s : Socket) (ms : ℕ) (os : net.Os)
      → drains.patience (net.set_timeout s ms os) ≤ drains.patience os
  pub patience-closesocket :
      (s : Socket) (os : net.Os) → drains.patience (net.closesocket s os) ≤ drains.patience os

-- Waiting for a connection, accepting one and changing its mode makes no peer slower to read; changing
-- the mode sends and reads nothing.
pub record IsAccepting {net : Winsock} (tcp : IsTcp net) (drains : IsDraining net) : Type 0 where
  pub patience-select :
      (sockets : List Socket) (os : net.Os)
      → drains.patience (net.select sockets os).1 ≤ drains.patience os
  pub patience-accept :
      (s : Socket) (os : net.Os) → drains.patience (net.accept s os).1 ≤ drains.patience os
  pub patience-ioctl :
      (s : Socket) (mode : ℕ) (os : net.Os)
      → drains.patience (net.ioctl_nonblocking s mode os).1 ≤ drains.patience os
  pub wire-ioctl :
      (t s : Socket) (mode : ℕ) (os : net.Os)
      → tcp.wire t (net.ioctl_nonblocking s mode os).1 ≡ tcp.wire t os
  pub incoming-ioctl :
      (t s : Socket) (mode : ℕ) (os : net.Os)
      → tcp.incoming t (net.ioctl_nonblocking s mode os).1 ≡ tcp.incoming t os

module _ {net : Winsock} {tcp : IsTcp net} {drains : IsDraining net} (apart : IsApart tcp drains)
    (s : Socket) (before : net.Os) where
  -- What happened since `before` happened on the connection `s` alone.
  pub record Aside (os : net.Os) : Type 0 where
    pub wires : (t : Socket) → t ≢ s → tcp.wire t os ≡ tcp.wire t before
    pub inboxes : (t : Socket) → t ≢ s → tcp.incoming t os ≡ tcp.incoming t before
    pub calm : drains.patience os ≤ drains.patience before

  pub Aside-send : (bytes : List ℕ) (os : net.Os) → Aside os → Aside (net.send s bytes os).1
  Aside-send bytes os h = record {
    wires = λ t ne. tcp.wire-send_ne s t bytes os ne ∙ h.wires t ne;
    inboxes = λ t ne. tcp.incoming-send s t bytes os ∙ h.inboxes t ne;
    calm = le_trans (drains.patience-send s bytes os) h.calm;
  }

  pub Aside-recv : (n : ℕ) (os : net.Os) → Aside os → Aside (net.recv s n os).1
  Aside-recv n os h = record {
    wires = λ t ne. tcp.wire-recv s t n os ∙ h.wires t ne;
    inboxes = λ t ne. tcp.incoming-recv_ne s t n os ne ∙ h.inboxes t ne;
    calm = le_trans (drains.patience-recv s n os) h.calm;
  }

  pub Aside-connect : (port : ℕ) (os : net.Os) → Aside os → Aside (net.connect s port os).1
  Aside-connect port os h = record {
    wires = λ t ne. apart.wire-connect t s port os ∙ h.wires t ne;
    inboxes = λ t ne. apart.incoming-connect_ne t s port os ne ∙ h.inboxes t ne;
    calm = le_trans (apart.patience-connect s port os) h.calm;
  }

  pub Aside-set_timeout : (ms : ℕ) (os : net.Os) → Aside os → Aside (net.set_timeout s ms os)
  Aside-set_timeout ms os h = record {
    wires = λ t ne. apart.wire-set_timeout t s ms os ∙ h.wires t ne;
    inboxes = λ t ne. apart.incoming-set_timeout t s ms os ∙ h.inboxes t ne;
    calm = le_trans (apart.patience-set_timeout s ms os) h.calm;
  }

  pub Aside-closesocket : (os : net.Os) → Aside os → Aside (net.closesocket s os)
  Aside-closesocket os h = record {
    wires = λ t ne. apart.wire-closesocket t s os ∙ h.wires t ne;
    inboxes = λ t ne. apart.incoming-closesocket_ne t s os ne ∙ h.inboxes t ne;
    calm = le_trans (apart.patience-closesocket s os) h.calm;
  }

-- Opening the connection itself.
pub Aside-socket :
    {net : Winsock} {tcp : IsTcp net} {drains : IsDraining net} (apart : IsApart tcp drains)
    (os : net.Os)
    → Aside apart (net.socket os).0 os (net.socket os).1
Aside-socket apart os = record {
  wires = λ t ne. apart.wire-socket t os ne;
  inboxes = λ t ne. apart.incoming-socket t os ne;
  calm = apart.patience-socket os;
}

-- Some call of `send` on the connection took none of its bytes.
pub data IsStopped (net : Winsock) (s : Socket) : Type 0 where
  stopped_by :
      (bytes : List ℕ) (os : net.Os)
      → 0 < length bytes
      → sent_count (net.send s bytes os).0 ≡ 0
      → IsStopped net s
