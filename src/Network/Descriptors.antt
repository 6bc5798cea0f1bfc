-- ===== src/Network/Descriptors.antt =====
-- Where the sockets go that src/Connection.cpp opens.
pub mod Attempts
pub mod Rounds
use true_mqtt_cpp.Base.{
  count, count-append, ℕ, ◌+◌, ◌≤◌, ◌≡◌, refl, ◌≢◌, ◌⊎◌, Bool, true, false, not, ◌&&◌, Option, none,
  some, List, [], ◌∷◌, ◌++◌, ◌==◌, ltb, leb, length, arith, if◌then◌else◌, ap, sym, ◌∙◌, Bool-cases,
  Option-cases, inl, inr,
}
use mathlib.Core.Path.{subst}
use mathlib.Core.Option.{some-injective}
use true_mqtt_cpp.Connection.{State, Address, Connection}
use true_mqtt_cpp.Client.{Impl}
use true_mqtt_cpp.Sender.{connection_send, connect_packet}
use true_mqtt_cpp.Network.{
  Opening, no_socket, refused, under_way, Net, Lookup, order_addresses, resolve, Answer, Selection,
  some_socket, keep, first_of_test, try_next_address, wait_for_any, authenticate, sent_connect,
  use_socket, pick_socket, select_round, connect_round, connect_to_any, is_stopped, stop_if, close,
  with_connection, socket_error, close_socket, Round, or_back_off, after_sleep, after_receive,
  read_round, run_read, stop_read,
}

-- A list falls into the sockets that pass a test and those that do not.
pub count-keep :
    (x : ℕ) (test : ℕ → Bool) (ys : List ℕ)
    → count x (keep test ys) + count x (keep (λ y. not (test y)) ys) ≡ count x ys
count-keep x test [] = omega arith
count-keep x test (y ∷ ys) = ground (arith, count-keep x test ys)

pub count-keep-le : (x : ℕ) (test : ℕ → Bool) (ys : List ℕ) → count x (keep test ys) ≤ count x ys
count-keep-le x test ys = omega (arith, count-keep x test ys)

pub count_others :
    (x z : ℕ) (ys : List ℕ)
    → count x (keep (λ y. not (y == z)) ys) ≡ (if x == z then 0 else count x ys)
count_others x z [] = ground arith
count_others x z (y ∷ ys) = ground (arith, count_others x z ys)

pub count-first_of_test :
    (test : ℕ → Bool) (z : ℕ) (ys : List ℕ) → first_of_test test ys ≡ some z → 1 ≤ count z ys
count-first_of_test test z [] h = absurd (ground arith)
count-first_of_test test z (y ∷ ys) h = ground (arith, count-first_of_test test z ys)

-- The sockets that a connection has.
abbrev pub held : Net → List ℕ
held n = n.connection.sockets ++ some_socket n.connection.socket

-- No socket is pending twice. There are pending sockets only while the connection is CONNECTING, and
-- a connected one only while it is AUTHENTICATING or CONNECTED; when it is stopped, either may be left.
abbrev pub Fits : State → Connection → Type 0
Fits State.resolving c = (c.sockets ≡ []) × (c.socket ≡ none)
Fits State.backing_off c = (c.sockets ≡ []) × (c.socket ≡ none)
Fits State.socket_error c = (c.sockets ≡ []) × (c.socket ≡ none)
Fits State.connecting c = c.socket ≡ none
Fits State.authenticating c = c.sockets ≡ []
Fits State.connected c = c.sockets ≡ []
Fits State.stopped c = Unit {0}

pub record IsSettled (n : Net) : Type 0 where
  pub fits : Fits n.connection.state n.connection
  pub distinct : (x : ℕ) → count x n.connection.sockets ≤ 1

-- The socket of an attempt, whether its connection fails at once or not.
abbrev pub opened_by : Opening → List ℕ
opened_by no_socket = []
opened_by (refused y) = y ∷ []
opened_by (under_way y) = y ∷ []

-- The socket that a round has opened: an attempt moves `address_current` on.
abbrev pub opened_in : State → Round → Net → Net → List ℕ
opened_in State.connecting r n n' =
    if n'.connection.address_current == n.connection.address_current
    then []
    else opened_by r.answer.opening
opened_in State.resolving r n n' = []
opened_in State.backing_off r n n' = []
opened_in State.socket_error r n n' = []
opened_in State.authenticating r n n' = []
opened_in State.connected r n n' = []
opened_in State.stopped r n n' = []

abbrev pub opened : Round → Net → Net → List ℕ
opened r n n' = opened_in n.connection.state r n n'

-- What was held, closed or opened before is held or closed now, each as often.
abbrev pub Balanced : List ℕ → Net → Net → Type 0
Balanced ops n n' =
    (x : ℕ)
    → count x (held n') + count x n'.closed ≡ count x (held n) + count x n.closed + count x ops

-- A socket that the system opens is none of those that the connection has.
abbrev pub IsFresh : Opening → Net → Type 0
IsFresh no_socket n = Unit {0}
IsFresh (refused y) n = count y (held n) ≡ 0
IsFresh (under_way y) n = count y (held n) ≡ 0
