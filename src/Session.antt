-- ===== src/Session.antt =====
-- The read thread of a connection together with its client: the rounds of `runRead` (src/Connection.cpp),
-- with `recvLoop` (src/Packet.cpp) where they receive and `connectionStateChange` (src/Client.cpp) where
-- they report. The destructor of the connection may set STOP in any round, before `disconnect` has
-- joined the threads, and the write thread may call `socketError` between two rounds. Which descriptors
-- are closed is left out here.
pub mod Sending
pub mod Opening
pub mod Reading
pub mod Receiving
pub mod Agreement
mod Examples
use true_mqtt_cpp.Base.{
  if◌then◌else◌, ℕ, ◌≡◌, Bool, true, false, Option, none, some, List, [], ◌∷◌, ◌++◌,
}
use true_mqtt_cpp.Connection.{Connection}
use true_mqtt_cpp.Connection
use true_mqtt_cpp.Client.{Impl, Fault, M, Result, ok, log, bind_result}
use true_mqtt_cpp.Handlers.{connection_state_change}
use true_mqtt_cpp.Handlers.Lifecycle.{
  Operation, sets_last_will, sets_publish_queue, sets_send_queue, connects, disconnects, publishes,
  subscribes, unsubscribes, changes_connection, receives, run,
}
use true_mqtt_cpp.Handlers.Returning.{SendsOne}
use true_mqtt_cpp.Network.{Lookup, Answer, Net, Notice, called, lost, Round, run_read, socket_error}
use true_mqtt_cpp.Receiver.{
  Poll, World, Outcome, done, faulted, W, recv_loop, lift, pure, ◌>>=◌, ◌>>◌,
}

-- What a round meets, but for the bytes: `now` is the clock at the end of `recvLoop`, and `stop` and
-- `answer.stop` say whether STOP is set while the round blocks.
pub record Turn : Type 0 where
  pub lookup : Lookup
  pub answer : Answer
  pub stop : Bool
  pub now : ℕ

abbrev pub round_of : Turn → Bool → Round
round_of t received = record {
  lookup = t.lookup;
  answer = t.answer;
  stop = t.stop;
  received = received;
}

abbrev pub net_of : Connection → Net
net_of c = record { connection = c; closed = []; notices = [] }

-- The calls of the client that a round has made.
unfoldable pub tell : List Notice → M (Unit {0})
tell [] s = ok (tt, s)
tell (called call ∷ notices) s = bind_result (log call s) λ _ t. tell notices t
tell (lost ∷ notices) s = bind_result (connection_state_change false s) λ _ t. tell notices t

abbrev pub keep_net : Net → M (Unit {0})
keep_net n s = tell n.notices (record s { connection = some n.connection })

abbrev pub go_on : Option Net → W Bool
go_on none = pure false
go_on (some n) = lift (keep_net n) >> pure true

abbrev pub network_of : Turn → Bool → Option Connection → W Bool
network_of t received none w = faulted Fault.null_connection
network_of t received (some c) w = go_on (run_read w.impl (round_of t received) (net_of c)) w

abbrev pub network_round : Turn → Bool → W Bool
network_round t received w = network_of t received w.impl.connection w

abbrev pub receives_in : Connection.State → Bool
receives_in Connection.State.authenticating = true
receives_in Connection.State.connected = true
receives_in _ = false

abbrev pub round_on : Option Connection → Turn → W Bool
round_on none t = λ w. faulted Fault.null_connection
round_on (some c) t =
    if receives_in c.state then (recv_loop t.now >>= network_round t) else network_round t false

-- One round of `runRead`; false is its return.
unfoldable pub round : Turn → W Bool
round t w = round_on w.impl.connection t w

-- The calls that a user makes, with room in the send queue for what they send.
abbrev pub IsUsed : Operation → Impl → Type 0
IsUsed (subscribes topic callback) s = SendsOne s
IsUsed (unsubscribes topic) s = SendsOne s
IsUsed (changes_connection up) s = ⊥
IsUsed (receives topic message) s = ⊥
IsUsed _ s = Unit {0}

-- What becomes of a client: its user calls a function, bytes come, the read thread makes a round, or the
-- write thread finds that it cannot send.
pub data Reaches (start : World) : World → Type 0 where
  here : Reaches start start
  calls :
      {w : World} (op : Operation) (t : Impl)
      → Reaches start w
      → IsUsed op w.impl
      → run op w.impl ≡ ok (tt, t)
      → Reaches start (record w { impl = t })
  hears :
      {w : World} (bytes : List ℕ) (polls : List Poll)
      → Reaches start w
      → Reaches start (record w { incoming = w.incoming ++ bytes; polls = w.polls ++ polls })
  turns :
      {w w' : World} (t : Turn) (goes_on : Bool)
      → Reaches start w
      → round t w ≡ done goes_on w'
      → Reaches start w'
  breaks :
      {w : World} (c : Connection)
      → Reaches start w
      → w.impl.connection ≡ some c
      → Reaches start (record w {
        impl = record w.impl { connection = some (socket_error (net_of c)).connection };
      })
