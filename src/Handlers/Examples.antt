-- ===== src/Handlers/Examples.antt =====
-- The functions of the client on concrete clients.
use true_mqtt_cpp.Base.{
  bag, ◌+◌, ◌%◌, ◌^◌, ◌≡◌, refl, inl, inr, true, false, some, List, [], ◌∷◌, ◌++◌, Text, text_eq,
  arith,
}
use true_mqtt_cpp.Packet.{Packet, PacketType}
use true_mqtt_cpp.Connection.{Connection, new_connection}
use true_mqtt_cpp.Subscription.{nil, child, part, parts, parts_loop, next_part, insert, emplace}
use true_mqtt_cpp.Client.{
  State, PublishQueueType, Message, Call, Impl, Fault, ok, fault, new_impl, ◌>>◌, impl_connect,
}
use true_mqtt_cpp.Client.Topics.{set_emplace, set_contains}
use true_mqtt_cpp.Handlers.{
  set_publish_queue, connect, disconnect, to_publish_queue, publish, subscribe, unsubscribe,
  connection_state_change,
}
use true_mqtt_cpp.Handlers.Queue.{
  last, lifo_of, publish_all, with_queue, publish_all-fifo, publish_all-lifo, publish_size_zero,
}
use true_mqtt_cpp.Handlers.Validity.{IsValid, new_impl-IsValid}
use true_mqtt_cpp.Handlers.Serving.{AreServed}
use true_mqtt_cpp.Handlers.Synced.{IsSynced}
use true_mqtt_cpp.Handlers.Board.{Board, Shows, step, replay, told}
use true_mqtt_cpp.Handlers.Refinement.{run_all-refines}
use true_mqtt_cpp.Subscription.{find_match}
use true_mqtt_cpp.Subscription.Lookup.{callbacks_at-nil}
use true_mqtt_cpp.Subscription.Counting.{reaches, is_plain}
use true_mqtt_cpp.Handlers.Careful.{IsCareful, run_all, run_all-IsSynced}
use true_mqtt_cpp.Handlers.Lifecycle.{Operation, run, Reachable, here, next, Reachable-IsValid}
use true_mqtt_cpp.Subscription.{plus}
use true_mqtt_cpp.Subscription.Delivery.{In}
use true_mqtt_cpp.Handlers.{message_received}
use true_mqtt_cpp.Handlers.Delivery.{subscribe-message_received}
use true_mqtt_cpp.Handlers.Resubscribe.{
  restored, connection_state_change-restored, connection_state_change-overload,
}
use true_mqtt_cpp.Handlers.Subscribed.{
  subscribed, packet_id_of, restarted, unsubscribe_after_disconnect, subscribe_full,
}

abbrev topic : Text
topic = 97 ∷ []

abbrev hello : Text
hello = 104 ∷ []

abbrev fresh : Impl
fresh = new_impl (99 ∷ []) 5000 1000 30000 30000

-- `publish(topic, text, false)`
abbrev saying : Text → Message
saying text = record { topic = topic; message = text; retain = false }

-- The client that has set a FIFO queue of two messages, has called connect, and has published once.
abbrev waiting_user : Impl
waiting_user = record fresh {
  state = State.connecting;
  publish_queue_type = PublishQueueType.fifo;
  publish_queue_size = 2;
  publish_queue = saying hello ∷ [];
  connection = some (new_connection 1000);
  calls = Call.state_changed State.connecting ∷ [];
}

Reachable-waiting_user : Reachable fresh waiting_user
unfolding new_impl run set_publish_queue connect impl_connect publish to_publish_queue
Reachable-waiting_user =
    next (Operation.publishes topic hello false)
      (next Operation.connects
        (next (Operation.sets_publish_queue PublishQueueType.fifo 2) here tt refl) tt refl)
      tt refl

waiting_user-IsValid : IsValid waiting_user
unfolding new_impl
waiting_user-IsValid = ground arith

Reachable-IsValid_example : IsValid waiting_user
Reachable-IsValid_example =
    Reachable-IsValid (99 ∷ []) 5000 1000 30000 30000 waiting_user Reachable-waiting_user

abbrev one_two_three : List Message
one_two_three = saying (49 ∷ []) ∷ saying (50 ∷ []) ∷ saying (51 ∷ []) ∷ []

publish_all-fifo_example :
    publish_all one_two_three waiting_user
    ≡ ok (tt, with_queue (last 2 ((saying hello ∷ []) ++ one_two_three)) waiting_user)
publish_all-fifo_example =
    publish_all-fifo one_two_three 2 (saying hello ∷ []) waiting_user
      (record { is_connecting = refl; has_type = refl; has_size = refl; holds = refl })
      (omega arith) (omega arith)

abbrev lifo_user : Impl
lifo_user = record waiting_user { publish_queue_type = PublishQueueType.lifo }

publish_all-lifo_example :
    publish_all one_two_three lifo_user
    ≡ ok (tt, with_queue (lifo_of 2 ((saying hello ∷ []) ++ one_two_three)) lifo_user)
publish_all-lifo_example =
    publish_all-lifo one_two_three 2 (saying hello ∷ []) lifo_user
      (record { is_connecting = refl; has_type = refl; has_size = refl; holds = refl })
      (omega arith)

publish_size_zero_example :
    publish topic hello false (record waiting_user { publish_queue_size = 0; publish_queue = [] })
    ≡ fault Fault.pop_of_empty
publish_size_zero_example =
    publish_size_zero topic hello false PublishQueueType.fifo
      (record waiting_user { publish_queue_size = 0; publish_queue = [] })
      (record { is_connecting = refl; has_type = refl; has_size = refl; holds = refl }) (λ e. cc)

-- A connection, and a connected client with one subscription.
abbrev link : Connection
link = record (new_connection 1000) { send_queue = [] }

abbrev online : Impl
online = record waiting_user {
  state = State.connected;
  connection = some link;
  publish_queue = [];
  send_queue_size = 1000;
  subscriptions = child topic (part nil (7 ∷ [])) nil;
  subscription_topics = topic ∷ [];
}

-- The same with a send queue of size 0 that has a packet in it.
abbrev packet : Packet
packet = record {
  buffer = [];
  read_offset = 0;
  write_offset = 0;
  packet_type = PacketType.pingreq;
  flags = 0;
}

abbrev full_link : Connection
full_link = record link { send_queue = packet ∷ [] }

abbrev crowded : Impl
crowded = record online { connection = some full_link; send_queue_size = 0 }

-- What is waiting is sent behind the subscriptions.
abbrev resuming : Impl
resuming = record waiting_user {
  connection = some link;
  send_queue_size = 1000;
  subscription_topics = topic ∷ hello ∷ [];
}

connection_state_change-restored_example :
    connection_state_change true resuming ≡ ok (tt, restored link resuming)
connection_state_change-restored_example =
    connection_state_change-restored link resuming refl (omega arith)

connection_state_change-overload_example :
    connection_state_change true crowded ≡ fault Fault.self_join
connection_state_change-overload_example =
    connection_state_change-overload full_link crowded refl (omega arith) (omega arith)

unsubscribe_after_disconnect_example :
    (disconnect >> (connect >> unsubscribe topic)) online ≡ fault Fault.end_iterator
unfolding set_contains text_eq
unsubscribe_after_disconnect_example = unsubscribe_after_disconnect topic online (λ e. cc) refl

subscribe_full_example :
    subscribe hello 8 crowded
    ≡ ok (
      tt,
      restarted (record crowded {
        subscription_topics = set_emplace hello crowded.subscription_topics;
        packet_id = (packet_id_of crowded + 1) % 2 ^ 16;
      }),
    )
subscribe_full_example = subscribe_full hello 8 full_link crowded refl refl (omega arith)

subscribe-message_received_example :
    (s' : Impl) × ((subscribe plus 8 >> message_received topic hello) online ≡ ok (tt, s'))
    × In (Call.message_arrived 8 topic hello) s'.calls
unfolding parts parts_loop next_part
subscribe-message_received_example =
    subscribe-message_received plus topic hello 8 link online refl refl (omega arith)
      (inr (inl refl))

-- A subscription while connecting.
subscribes_topic :
    subscribe topic 7 waiting_user
    ≡ ok (
      tt,
      record waiting_user {
        subscriptions = child topic (part nil (7 ∷ [])) nil;
        subscription_topics = topic ∷ [];
      },
    )
unfolding new_impl subscribe insert emplace set_emplace text_eq parts parts_loop next_part
subscribes_topic = refl

fresh-IsSynced : IsSynced fresh
unfolding new_impl set_contains
fresh-IsSynced = record { sorted = tt; synced = λ t k. cc }

-- What holds behind the client that a call leaves holds behind every client that it leaves.
IsCareful-after :
    (op : Operation) (ops : List Operation) (s s' : Impl)
    → run op s ≡ ok (tt, s')
    → IsCareful ops s'
    → (t : Impl) → run op s ≡ ok (tt, t)
    → IsCareful ops t
IsCareful-after op ops s s' e c t f = let same : s' ≡ t = cc in rw (← same) c

abbrev comes_and_goes : List Operation
comes_and_goes =
    Operation.connects ∷ Operation.subscribes topic 7 ∷ Operation.unsubscribes topic ∷ []

abbrev connecting_user : Impl
connecting_user = record fresh {
  state = State.connecting;
  connection = some (new_connection 1000);
  calls = Call.state_changed State.connecting ∷ [];
}

comes_and_goes-IsCareful : IsCareful comes_and_goes fresh
unfolding new_impl run connect impl_connect subscribe unsubscribe
comes_and_goes-IsCareful = (
  tt,
  tt,
  IsCareful-after Operation.connects
      (Operation.subscribes topic 7 ∷ Operation.unsubscribes topic ∷ []) fresh connecting_user refl
      (
        tt,
        λ k. cc,
        IsCareful-after (Operation.subscribes topic 7) (Operation.unsubscribes topic ∷ [])
            connecting_user (subscribed topic 7 connecting_user) refl (tt, (λ k. cc), λ t e. tt),
      ),
)

run_all-IsSynced_example :
    (t : Impl) × (run_all comes_and_goes fresh ≡ ok (tt, t)) × IsValid t × IsSynced t
run_all-IsSynced_example =
    run_all-IsSynced comes_and_goes fresh (new_impl-IsValid (99 ∷ []) 5000 1000 30000 30000)
      fresh-IsSynced comes_and_goes-IsCareful

abbrev nobody : Board
nobody = record { up = false; entries = [] }

fresh-Shows : Shows nobody fresh
unfolding new_impl
fresh-Shows = record {
  is_up = refl;
  same = λ f. callbacks_at-nil f;
  listed = λ t k. callbacks_at-nil (parts t);
}

-- A client that disconnects with a topic on its flat list.
abbrev goes_off : List Operation
goes_off = Operation.connects ∷ Operation.subscribes topic 7 ∷ Operation.disconnects ∷ []

AreServed-after :
    (op : Operation) (ops : List Operation) (s s' : Impl)
    → run op s ≡ ok (tt, s')
    → AreServed ops s'
    → (t : Impl) → run op s ≡ ok (tt, t)
    → AreServed ops t
AreServed-after op ops s s' e c t f = let same : s' ≡ t = cc in rw (← same) c

goes_off-AreServed : AreServed goes_off fresh
unfolding new_impl run connect impl_connect subscribe
goes_off-AreServed = (
  tt,
  tt,
  AreServed-after Operation.connects (Operation.subscribes topic 7 ∷ Operation.disconnects ∷ [])
      fresh connecting_user refl
      (
        tt,
        λ k. cc,
        AreServed-after (Operation.subscribes topic 7) (Operation.disconnects ∷ []) connecting_user
            (subscribed topic 7 connecting_user) refl (tt, tt, λ t e. tt),
      ),
)

run_all-refines_example :
    (t : Impl) × (run_all goes_off fresh ≡ ok (tt, t))
    × Shows (replay goes_off nobody) t
    × ((u : Text)
        → is_plain (parts u) ≡ true
        → bag (find_match (parts u) t.subscriptions)
          ≡ bag (told u (replay goes_off nobody).entries))
run_all-refines_example =
    run_all-refines goes_off fresh nobody (new_impl-IsValid (99 ∷ []) 5000 1000 30000 30000)
      fresh-IsSynced.sorted goes_off-AreServed fresh-Shows

-- What a board becomes, and who is told.
abbrev two_topics : List Operation
two_topics =
    Operation.connects
    ∷ Operation.subscribes topic 7
    ∷ Operation.subscribes plus 8
    ∷ Operation.subscribes topic 9
    ∷ Operation.unsubscribes topic
    ∷ []

answers_by_board : told topic (replay two_topics nobody).entries ≡ 8 ∷ []
unfolding replay step told reaches parts parts_loop next_part text_eq
answers_by_board = refl
