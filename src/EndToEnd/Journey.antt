-- ===== src/EndToEnd/Journey.antt =====
-- A list of messages on its way.
use true_mqtt_cpp.Base.{
  ℕ, ◌+◌, ◌≤◌, ◌≡◌, refl, true, some, List, [], ◌++◌, map, length, arith, All, ap, ◌∙◌,
}
use true_mqtt_cpp.Connection.{Connection}
use true_mqtt_cpp.Client.{State, Message, Impl, ok}
use true_mqtt_cpp.Handlers.Resubscribe.{publish_frame}
use true_mqtt_cpp.Receiver.{Poll, done}
use true_mqtt_cpp.Receiver.Socket.{world}
use true_mqtt_cpp.Writer.{Output, is_open, goes_on}
use true_mqtt_cpp.Writer.Drain.{WriteRound, run_writes, Serves, run_writes-all_unsent}
use true_mqtt_cpp.EndToEnd.Sending.{queueing, publish_each, all_true, publish_each_connected}
use true_mqtt_cpp.EndToEnd.Hearing.{
  IsSmall, Hearing, recv_all, Hears, deliveries, recv_all-deliveries,
}

-- The write thread of a connection that has sent nothing yet.
abbrev pub writer_of : Connection → Output
writer_of c = record { net = record { connection = c; closed = []; notices = [] }; sent = [] }

-- A connected client with an empty send queue publishes messages that fit into its send queue; its
-- write thread writes them out, with a round for each and a socket that takes a byte at least each time
-- it is asked; another connected client reads those bytes, a call of `recvLoop` for each message, and
-- has steady polls. Then every call of `publish` returns true, every round of the write thread goes on and
-- every call of `recvLoop` returns true, all bytes are read, and the callbacks of the second client are
-- called for each message that they match, in the order of the messages and with the same topic and
-- text, and for nothing else. The messages are of sizes that MQTT can carry.
pub publish_each-deliveries :
    (ms : List Message) (a b : Impl) (ca cb : Connection) (rounds : List WriteRound)
    (hearings : List Hearing)
    → a.state ≡ State.connected
    → a.connection ≡ some ca
    → ca.send_queue ≡ []
    → length ms ≤ a.send_queue_size + 1
    → is_open ca.state ≡ true
    → Serves rounds (map publish_frame ms)
    → b.state ≡ State.connected
    → b.connection ≡ some cb
    → All IsSmall ms
    → Hears cb b hearings ms
    → (ca' : Connection) × (o : Output) × (b' : Impl) × (left : List Poll) × (publish_each ms a
        ≡ ok (all_true ms, record a { connection = some ca' }))
      × (run_writes rounds (writer_of ca') ≡ goes_on o)
      × (recv_all hearings (world b o.sent []) ≡ done true (world b' [] left))
      × (b'.calls ≡ b.calls ++ deliveries b.subscriptions ms)
publish_each-deliveries ms a b ca cb rounds hearings ha la empty room ready serves hb lb small
      hears =
    let ca' : Connection = record ca { send_queue = map publish_frame ms } in
    let (o, wrote, sent, left_queue) =
      run_writes-all_unsent rounds (map publish_frame ms) (writer_of ca') ready refl serves in
    let (b', left, heard, calls) = recv_all-deliveries ms hearings cb b [] hb lb small hears in
    let onto = ap (λ (bytes : List ℕ). recv_all hearings (world b bytes [])) sent in
    let as_queueing : a ≡ queueing ca [] a = ground arith in
    (
      ca',
      o,
      b',
      left,
      ap (publish_each ms) as_queueing ∙ publish_each_connected ms ca [] a ha (omega arith),
      wrote,
      onto ∙ heard,
      calls,
    )
