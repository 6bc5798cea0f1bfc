-- ===== src/Network.antt =====
-- The network half of a connection, src/Connection.cpp: resolving the host, connecting to one of its
-- addresses, backing off, and the loop `runRead` of the read thread.
-- What the operating system answers, and whether the destructor has set `m_state` to STOP while the
-- thread was blocked, are arguments. `m_socket_to_address` serves the log alone and is left out.
pub mod Addresses
pub mod Backoff
pub mod Transitions
pub mod Descriptors
mod Examples
use true_mqtt_cpp.Base.{
  ℕ, suc, ◌+◌, ◌*◌, Bool, true, false, not, ◌&&◌, Option, none, some, List, [], ◌∷◌, ◌++◌, Text,
  ltb, leb, ◌==◌, if◌then◌else◌, length,
}
use true_mqtt_cpp.Connection.{State, Family, Address, Connection}
use true_mqtt_cpp.Client.{Impl, Error, Call}
use true_mqtt_cpp.Sender.{connection_send, connect_packet}

-- A connection, the descriptors that it has closed, and the calls that it has made of the client: of
-- the error callback, and (with `lost`) of `connectionStateChange(false)`.
pub data Notice : Type 0 where
  called : Call → Notice
  lost : Notice

pub record Net : Type 0 where
  pub connection : Connection
  pub closed : List ℕ
  pub notices : List Notice

abbrev pub with_connection : (Connection → Connection) → Net → Net
with_connection f n = record n { connection = f n.connection }

abbrev pub set_state : State → Net → Net
set_state state = with_connection λ c. record c { state = state }

abbrev pub close : List ℕ → Net → Net
close sockets n = record n { closed = n.closed ++ sockets }

abbrev pub notify : Notice → Net → Net
notify notice n = record n { notices = n.notices ++ (notice ∷ []) }

abbrev pub some_socket : Option ℕ → List ℕ
some_socket none = []
some_socket (some socket) = socket ∷ []

abbrev pub is_stopped : State → Bool
is_stopped State.stopped = true
is_stopped State.resolving = false
is_stopped State.connecting = false
is_stopped State.authenticating = false
is_stopped State.connected = false
is_stopped State.backing_off = false
is_stopped State.socket_error = false

-- The destructor of the connection may have run up to here.
abbrev pub stop_if : Bool → Net → Net
stop_if false n = n
stop_if true n = set_state State.stopped n

-- The two deques of `resolve`, and the loop that interweaves them.
abbrev pub same_family : Family → Family → Bool
same_family Family.inet Family.inet = true
same_family Family.inet Family.inet6 = false
same_family Family.inet Family.unspec = false
same_family Family.inet6 Family.inet = false
same_family Family.inet6 Family.inet6 = true
same_family Family.inet6 Family.unspec = false
same_family Family.unspec Family.inet = false
same_family Family.unspec Family.inet6 = false
same_family Family.unspec Family.unspec = true

unfoldable pub of_family : Family → List Address → List Address
of_family f [] = []
of_family f (a ∷ rest) =
    let others = of_family f rest in if same_family a.family f then a ∷ others else others

unfoldable pub interweave : List Address → List Address → List Address
interweave [] [] = []
interweave [] (b ∷ others) = b ∷ interweave [] others
interweave (a ∷ more) [] = a ∷ interweave more []
interweave (a ∷ more) (b ∷ others) = a ∷ b ∷ interweave more others

unfoldable pub order_addresses : List Address → List Address
unfolding of_family interweave
order_addresses list = interweave (of_family Family.inet6 list) (of_family Family.inet list)

-- What `getaddrinfo` returns: the text of its error, or the addresses.
pub data Lookup : Type 0 where
  lookup_failed : Text → Lookup
  found : List Address → Lookup

abbrev pub failure : Text → Notice
failure text = called (Call.error_raised Error.hostname_lookup_failed text)

abbrev pub use_addresses : List Address → Net → Bool × Net
use_addresses [] n = (false, notify (failure []) n)
use_addresses (a ∷ more) n = (
  true,
  with_connection
      (λ c. record c {
        addresses = a ∷ more;
        state = if is_stopped c.state then c.state else State.connecting;
      })
      n,
)

abbrev use_lookup : Lookup → Net → Bool × Net
use_lookup (lookup_failed text) n = (false, notify (failure text) n)
use_lookup (found list) n = use_addresses (order_addresses list) n

-- `resolve`; `stop` is for the time that `getaddrinfo` takes.
unfoldable pub resolve : Lookup → Bool → Net → Bool × Net
resolve lookup stop n =
    let cleared =
      with_connection (λ c. record c { address_current = 0; socket = none; addresses = [] }) n in
    use_lookup lookup (stop_if stop cleared)

-- What the system answers to an attempt: there is no socket for it, the connection of the new socket
-- fails at once, or it is under way.
pub data Opening : Type 0 where
  no_socket : Opening
  refused : ℕ → Opening
  under_way : ℕ → Opening

-- `connect` of an address.
abbrev pub connect : Opening → Net → Net
connect no_socket n = n
connect (refused socket) n = close (socket ∷ []) n
connect (under_way socket) n =
    with_connection (λ c. record c { sockets = c.sockets ++ (socket ∷ []) }) n

-- `now` is the clock as it reads it itself.
unfoldable pub try_next_address : ℕ → Opening → Net → Bool × Net
try_next_address now opening n =
    if leb (length n.connection.addresses) n.connection.address_current then (false, n) else (
      true,
      connect opening (
          with_connection
            (λ c. record c { last_attempt = now; address_current = c.address_current + 1 }) n),
    )

-- What the system answers in a round of `connectToAny`: `select` fails, sees no activity, or some.
pub data Selection : Type 0 where
  select_failed idle active : Selection

pub record Answer : Type 0 where
  pub stop : Bool
  pub selection : Selection
  pub now : ℕ
  pub later : ℕ
  pub tried_at : ℕ
  pub opening : Opening
  pub has_error : ℕ → Bool
  pub is_writable : ℕ → Bool

-- The sockets without an error and with one, the first that is writable, and those that are not it.
abbrev pub keep : (ℕ → Bool) → List ℕ → List ℕ
keep test [] = []
keep test (x ∷ xs) = let rest = keep test xs in if test x then x ∷ rest else rest

abbrev pub first_of_test : (ℕ → Bool) → List ℕ → Option ℕ
first_of_test test [] = none
first_of_test test (x ∷ xs) = let rest = first_of_test test xs in if test x then some x else rest

-- A round with no activity.
unfoldable pub wait_for_any : ℕ → Answer → Net → Bool × Net
unfolding try_next_address
wait_for_any connection_timeout a n =
    let c = n.connection in
    let (tried, n') = try_next_address a.tried_at a.opening n in
    if ltb a.now (c.last_attempt + 250)
    then (true, n)
    else if tried
    then (true, n')
    else if ltb a.later (c.last_attempt + connection_timeout)
    then (true, n)
    else (false, close c.sockets (with_connection (λ d. record d { sockets = [] }) n))

abbrev sent_connect : Impl → Net → Bool × Connection → Bool × Net
sent_connect s n (true, c) =
    (true, record n { connection = record c { backoff = s.connection_backoff } })
sent_connect s n (false, c) =
    (false, close (some_socket c.socket) (record n { connection = record c { socket = none } }))

-- The last part of `connectToAny`: the state, and the CONNECT packet in front of the send queue.
unfoldable pub authenticate : Impl → State → Net → Bool × Net
authenticate s State.stopped n =
    (true, with_connection (λ c. record c { backoff = s.connection_backoff }) n)
authenticate s _ n =
    let n' = set_state State.authenticating n in
    sent_connect s n' (connection_send s.send_queue_size true (connect_packet s) n'.connection)

-- A round with activity: sockets in error are closed; the first of the others that is writable is the
-- connection, and the rest is closed.
abbrev use_socket : Impl → Answer → List ℕ → Option ℕ → Net → Bool × Net
use_socket s a survivors none n = (true, with_connection (λ c. record c { sockets = survivors }) n)
use_socket s a survivors (some socket) n = authenticate s n.connection.state (
    close (keep (λ x. not (x == socket)) survivors) (
      with_connection
        (λ c. record c {
          sockets = [];
          socket = some socket;
          last_sent_packet = a.now;
          last_received_packet = a.now;
        })
        n))

unfoldable pub pick_socket : Impl → Answer → Net → Bool × Net
unfolding authenticate
pick_socket s a n =
    let survivors = keep (λ x. not (a.has_error x)) n.connection.sockets in
    use_socket s a survivors (first_of_test a.is_writable survivors)
      (close (keep a.has_error n.connection.sockets) n)

abbrev select_round : Selection → Impl → Answer → Net → Bool × Net
select_round select_failed s a n = (true, n)
select_round idle s a n = wait_for_any s.connection_timeout a n
select_round active s a n = pick_socket s a n

abbrev pub connect_round : List ℕ → Impl → Answer → Net → Bool × Net
connect_round [] s a n = try_next_address a.tried_at a.opening n
connect_round (x ∷ xs) s a n =
    let n' = stop_if a.stop n in
    if is_stopped n'.connection.state then (true, n') else select_round a.selection s a n'

-- `connectToAny`; `stop` is for the time that `select` takes.
unfoldable pub connect_to_any : Impl → Answer → Net → Bool × Net
connect_to_any s a n = connect_round n.connection.sockets s a n

-- The next wait of `runRead`.
unfoldable pub next_backoff : ℕ → ℕ → ℕ
next_backoff backoff_max backoff =
    if ltb backoff_max (backoff * 2) then backoff_max else backoff * 2

-- The descriptor of `m_socket`, if there is one.
abbrev pub close_socket : Net → Net
close_socket n =
    close (some_socket n.connection.socket) (with_connection (λ c. record c { socket = none }) n)

unfoldable pub socket_error : Net → Net
socket_error n = close_socket (set_state State.socket_error n)

-- What a round of `runRead` meets: the answers of the system, whether STOP is set while it blocks, and
-- what `recvLoop` returns.
pub record Round : Type 0 where
  pub lookup : Lookup
  pub answer : Answer
  pub stop : Bool
  pub received : Bool

abbrev pub or_back_off : Bool × Net → Net
or_back_off (true, n) = n
or_back_off (false, n) = set_state State.backing_off n

abbrev pub after_sleep : Impl → Net → Net
after_sleep s n =
    if is_stopped n.connection.state
    then n
    else (with_connection
        (λ c. record c {
          backoff = next_backoff s.connection_backoff_max c.backoff;
          state = State.resolving;
        })
        n)

abbrev pub after_receive : Bool → Net → Net
after_receive true n = n
after_receive false n = if is_stopped n.connection.state then n else socket_error n

-- One round of the loop in `runRead`; `none` is its return.
abbrev pub read_round : State → Impl → Round → Net → Option Net
read_round State.resolving s r n = some (or_back_off (resolve r.lookup r.stop n))
read_round State.connecting s r n = some (or_back_off (connect_to_any s r.answer n))
read_round State.backing_off s r n = some (after_sleep s (stop_if r.stop n))
read_round State.authenticating s r n = some (after_receive r.received (stop_if r.stop n))
read_round State.connected s r n = some (after_receive r.received (stop_if r.stop n))
read_round State.socket_error s r n = some (
    with_connection (λ c. record c { send_queue = [] })
      (notify lost (set_state State.backing_off n)))
read_round State.stopped s r n = none

unfoldable pub run_read : Impl → Round → Net → Option Net
run_read s r n = read_round n.connection.state s r n

-- What `runRead` closes when it returns.
unfoldable pub stop_read : Net → Net
stop_read n = close_socket n
