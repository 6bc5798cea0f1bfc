-- ===== src/EndToEnd/Examples.antt =====
-- Two messages from one client to another.
use true_mqtt_cpp.Base.{
  ℕ, ◌+◌, ◌*◌, ◌/◌, ◌≤◌, ◌≡◌, refl, Bool, true, false, some, List, [], ◌∷◌, ◌++◌, map, Text, length,
  arith, inl, ap,
}
use true_mqtt_cpp.Packet.{code, new_packet, write, write_string, write_uint16}
use true_mqtt_cpp.Frame.{frame}
use true_mqtt_cpp.Frame.Layout.{wire}
use true_mqtt_cpp.Subscription.{nil, child, part, parts, parts_loop, next_part, find, find_match}
use true_mqtt_cpp.Connection.{Connection, new_connection}
use true_mqtt_cpp.Connection
use true_mqtt_cpp.Client.{State, Message, Call, Impl, ok, new_impl}
use true_mqtt_cpp.Sender.{publish_packet}
use true_mqtt_cpp.EndToEnd.Sending.{publish_each}
use true_mqtt_cpp.Handlers.Resubscribe.{publish_frame}
use true_mqtt_cpp.Receiver.{arrived, Poll, done}
use true_mqtt_cpp.Receiver.Socket.{world, IsSteady, AllSteady}
use true_mqtt_cpp.Writer.{accepted, Output, goes_on}
use true_mqtt_cpp.Writer.Drain.{WriteRound, run_writes}
use true_mqtt_cpp.EndToEnd.Hearing.{Hearing, recv_all, deliveries}
use true_mqtt_cpp.EndToEnd.Journey.{writer_of, publish_each-deliveries}

abbrev topic : Text
topic = 97 ∷ []

abbrev saying : ℕ → Message
saying letter = record { topic = topic; message = letter ∷ []; retain = false }

abbrev messages : List Message
messages = saying 49 ∷ saying 50 ∷ []

abbrev link : Connection
link = record (new_connection 1000) {
  state = Connection.State.connected;
  send_queue = [];
  last_sent_packet = 50;
  last_received_packet = 50;
}

abbrev user : Impl
user = record (new_impl (99 ∷ []) 5000 1000 30000 30000) {
  state = State.connected;
  keep_alive_interval = 30000;
  send_queue_size = 1000;
  connection = some link;
  subscriptions = child topic (part nil (7 ∷ [])) nil;
  calls = [];
}

-- The socket takes three bytes, and then the rest.
abbrev round : WriteRound
round = record {
  now = 90;
  answers =
      accepted 3
      ∷ accepted 9
      ∷ accepted 9
      ∷ accepted 9
      ∷ accepted 9
      ∷ accepted 9
      ∷ accepted 9
      ∷ accepted 9
      ∷ accepted 9
      ∷ [];
  later = link;
}

abbrev one_byte : Poll
one_byte = record {
  seen = Connection.State.connected;
  now = 100;
  later = 100;
  ready = true;
  arrival = arrived 0;
}

abbrev hearing : Hearing
hearing = record {
  now = 200;
  polls = one_byte ∷ one_byte ∷ one_byte ∷ one_byte ∷ one_byte ∷ one_byte ∷ [];
}

one_byte-IsSteady :
    (c : Connection) (s : Impl)
    → 100 ≤ c.last_sent_packet + s.keep_alive_interval
    → 100 ≤ c.last_received_packet + s.keep_alive_interval * 15 / 10
    → IsSteady c s one_byte
one_byte-IsSteady c s sent heard = record {
  goes_on = refl;
  sent_lately = sent;
  heard_lately = heard;
  is_ready = refl;
  at_most = 0;
  reads = refl;
}

six-AllSteady : (c : Connection) (s : Impl) → IsSteady c s one_byte → AllSteady c s hearing.polls
six-AllSteady c s h = (h, (h, (h, (h, (h, (h, tt))))))

frame-length : (letter : ℕ) → length (wire (publish_frame (saying letter))) ≡ 6
unfolding frame code publish_packet new_packet write write_string write_uint16
frame-length letter = refl

buffer-length :
    (letter : ℕ)
    → length (publish_frame (saying letter)).buffer
      ≡ (publish_frame (saying letter)).write_offset + 6
unfolding frame code publish_packet new_packet write write_string write_uint16
buffer-length letter = refl

calls_back :
    deliveries user.subscriptions messages
    ≡ Call.message_arrived 7 topic (49 ∷ []) ∷ Call.message_arrived 7 topic (50 ∷ []) ∷ []
unfolding deliveries parts parts_loop next_part find_match find true_mqtt_cpp.Base.text_eq
calls_back = refl

publish_each-deliveries_example :
    (ca' : Connection) × (o : Output) × (b' : Impl) × (left : List Poll) × (publish_each messages
        user
      ≡ ok (true ∷ true ∷ [], record user { connection = some ca' }))
    × (run_writes (round ∷ round ∷ []) (writer_of ca') ≡ goes_on o)
    × (recv_all (hearing ∷ hearing ∷ []) (world user o.sent []) ≡ done true (world b' [] left))
    × (b'.calls ≡ user.calls ++ deliveries user.subscriptions messages)
publish_each-deliveries_example =
    publish_each-deliveries messages user user link link (round ∷ round ∷ [])
      (hearing ∷ hearing ∷ []) refl refl refl (omega arith) refl
      (
        omega arith,
        omega (arith, buffer-length 49),
        (omega arith, omega (arith, buffer-length 50), tt),
      )
      refl refl ((omega arith, omega arith), ((omega arith, omega arith), tt))
      (
        omega (arith, frame-length 49),
        six-AllSteady _ _ (one_byte-IsSteady _ _ (omega arith) (omega arith)),
        (
          omega (arith, frame-length 50),
          six-AllSteady _ _ (one_byte-IsSteady _ _ (omega arith) (omega arith)),
          tt,
        ),
      )
