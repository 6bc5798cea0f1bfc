-- ===== src/Writer.antt =====
-- The write thread: `popSendQueueBlocking` and `runWrite` of src/Connection.cpp, and `sendPacket` of
-- src/Packet.cpp. The answers of `::send`, and the connection as it is when the wait for a packet ends,
-- are arguments. `sendPacket` calls `socketError` through the client's pointer, which is taken to point
-- to this connection.
pub mod Partial
pub mod Drain
mod Examples
use true_mqtt_cpp.Base.{
  ℕ, ◌+◌, ◌-◌, min, Bool, true, false, List, [], ◌∷◌, ◌++◌, Option, none, some, ltb, if◌then◌else◌,
  length, take, drop,
}
use true_mqtt_cpp.Packet.{Packet}
use true_mqtt_cpp.Connection.{State, Connection}
use true_mqtt_cpp.Network.{Net, socket_error, is_stopped, with_connection}

-- What `::send` returns: a number of bytes, at most those that it was given, or -1.
pub data SendAnswer : Type 0 where
  accepted : ℕ → SendAnswer
  refused : SendAnswer

-- The connection, and the bytes that the socket has accepted, oldest first.
pub record Output : Type 0 where
  pub net : Net
  pub sent : List ℕ

-- `sendPacket` returns, having sent the packet or having given it up, or it waits in `::send` when the
-- answers end. The packet has its write offset moved.
pub data Progress : Type 0 where
  completed : Packet → Output → Progress
  given_up : Packet → Output → Progress
  waiting : Packet → Output → Progress

abbrev pub note_sent : ℕ → Output → Output
note_sent now o = record o {
  net = with_connection (λ c. record c { last_sent_packet = now }) o.net;
}

abbrev pub hand_over : ℕ → Packet → Output → Output
hand_over n p o = record o { sent = o.sent ++ take n (drop p.write_offset p.buffer) }

-- The number of bytes that `::send` accepts of those that it is given.
abbrev pub accepted_of : ℕ → Packet → ℕ
accepted_of n p = min n (length p.buffer - p.write_offset)

-- The loop of `sendPacket`; `now` is the clock behind it.
unfoldable pub send_loop : ℕ → List SendAnswer → Packet → Output → Progress
send_loop now [] p o =
    if ltb p.write_offset (length p.buffer) then waiting p o else completed p (note_sent now o)
send_loop now (refused ∷ answers) p o =
    if ltb p.write_offset (length p.buffer)
    then given_up p (record o { net = socket_error o.net })
    else completed p (note_sent now o)
send_loop now (accepted n ∷ answers) p o =
    let rest =
      send_loop now answers (record p { write_offset = p.write_offset + accepted_of n p })
        (hand_over (accepted_of n p) p o) in
    if ltb p.write_offset (length p.buffer) then rest else completed p (note_sent now o)

abbrev pub is_open : State → Bool
is_open State.authenticating = true
is_open State.connected = true
is_open State.resolving = false
is_open State.connecting = false
is_open State.backing_off = false
is_open State.socket_error = false
is_open State.stopped = false

unfoldable pub send_packet : ℕ → List SendAnswer → Packet → Output → Progress
unfolding send_loop
send_packet now answers p o =
    if is_open o.net.connection.state then send_loop now answers p o else given_up p o

-- What `popSendQueueBlocking` returns: a packet or nothing, and the connection. It waits on until there
-- is a packet or the connection is stopped.
pub data Popped : Type 0 where
  popped : Option Packet → Connection → Popped
  still_waiting : Popped

abbrev pub pop_first : List Packet → Connection → Popped
pop_first [] c = still_waiting
pop_first (p ∷ packets) c = popped (some p) (record c { send_queue = packets })

abbrev pop_or_wait : List Packet → Connection → Connection → Popped
pop_or_wait [] later c =
    if is_stopped later.state then popped none later else pop_first later.send_queue later
pop_or_wait (p ∷ packets) later c = popped (some p) (record c { send_queue = packets })

-- `later` is the connection when the wait ends.
unfoldable pub pop_send_queue : Connection → Connection → Popped
pop_send_queue later c = pop_or_wait c.send_queue later c

-- One round of the loop in `runWrite`: it goes on, waits, or returns.
pub data Written : Type 0 where
  goes_on : Output → Written
  waits : Output → Written
  returns : Written

abbrev go_on : Progress → Written
go_on (completed p o) = goes_on o
go_on (given_up p o) = goes_on o
go_on (waiting p o) = waits o

abbrev send_popped : ℕ → List SendAnswer → Output → Popped → Written
send_popped now answers o still_waiting = waits o
send_popped now answers o (popped none c) =
    goes_on (record o { net = with_connection (λ _. c) o.net })
send_popped now answers o (popped (some p) c) =
    go_on (send_packet now answers p (record o { net = with_connection (λ _. c) o.net }))

unfoldable pub run_write : ℕ → List SendAnswer → Connection → Output → Written
run_write now answers later o =
    let round = send_popped now answers o (pop_send_queue later o.net.connection) in
    if is_stopped o.net.connection.state
    then returns
    else if is_open o.net.connection.state
    then round
    else goes_on o
