-- ===== src/Connection.antt =====
-- src/Connection.h: what a connection keeps. Its threads are not part of it, and times are numbers of
-- milliseconds.
use true_mqtt_cpp.Base.{ℕ, List, [], Option, none}
use true_mqtt_cpp.Packet.{Packet}

pub data State : Type 0 where
  resolving connecting authenticating connected backing_off socket_error stopped : State

-- What the code looks at in an `addrinfo`: its family. The identity stands for the rest of it.
pub data Family : Type 0 where
  inet inet6 unspec : Family

pub record Address : Type 0 where
  pub family : Family
  pub identity : ℕ

pub record Connection : Type 0 where
  pub state : State
  pub backoff : ℕ
  pub addresses : List Address
  pub address_current : ℕ
  pub last_attempt : ℕ
  pub sockets : List ℕ
  pub socket : Option ℕ
  pub send_queue : List Packet
  pub last_sent_packet : ℕ
  pub last_received_packet : ℕ

-- The constructor, with `m_connection_backoff` of the client; it also starts the two threads.
unfoldable pub new_connection : ℕ → Connection
new_connection connection_backoff = record {
  state = State.resolving;
  backoff = connection_backoff;
  addresses = [];
  address_current = 0;
  last_attempt = 0;
  sockets = [];
  socket = none;
  send_queue = [];
  last_sent_packet = 0;
  last_received_packet = 0;
}
