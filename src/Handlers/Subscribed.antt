-- ===== src/Handlers/Subscribed.antt =====
-- `subscribe`, `unsubscribe`, `disconnect` and `messageReceived` of src/Client.cpp: who is called.
use true_mqtt_cpp.Base.{
  ℕ, ◌+◌, ◌%◌, ◌^◌, ◌≤◌, ◌<◌, ◌≡◌, refl, ◌≢◌, inl, inr, true, false, none, some, List, [], ◌∷◌,
  ◌++◌, Text, length, arith, Option-cases, if◌then◌else◌, ◌==◌,
}
use true_mqtt_cpp.Packet.{Packet}
use true_mqtt_cpp.Frame.{frame}
use true_mqtt_cpp.Connection.{Connection, new_connection}
use true_mqtt_cpp.Subscription.{Children, nil, parts, insert, remove, find_match}
use true_mqtt_cpp.Subscription.Lookup.{callbacks_at, filter_eq}
use true_mqtt_cpp.Subscription.Removal.{remove-nil, callbacks_at-remove, remove-ne-none}
use true_mqtt_cpp.Client.Topics.{set_emplace, set_erase, set_contains}
use true_mqtt_cpp.Client.{State, Call, Impl, Fault, ok, fault, impl_connect, impl_disconnect, ◌>>◌}
use true_mqtt_cpp.Sender.{send_subscribe, subscribe_packet}
use true_mqtt_cpp.Handlers.{
  is_connected, connect, disconnect, subscribe, unsubscribe, message_received, arrivals,
}

-- What `disconnect` does: the tree, the publish queue and the connection are gone and the callback is
-- told; the flat list of topics, and all else, stays.
abbrev pub disconnected_from : Impl → Impl
disconnected_from s = record s {
  state = State.disconnected;
  subscriptions = nil;
  publish_queue = [];
  connection = none;
  calls = s.calls ++ (Call.state_changed State.disconnected ∷ []);
}

pub disconnect_lem :
    (s : Impl) → s.state ≢ State.disconnected → disconnect s ≡ ok (tt, disconnected_from s)
unfolding disconnect
disconnect_lem s h = ground arith

-- A second `disconnect` changes nothing.
pub disconnect_twice : (s : Impl) → s.state ≡ State.disconnected → disconnect s ≡ ok (tt, s)
unfolding disconnect
disconnect_twice s h = ground arith

abbrev pub connecting_from : Impl → Impl
connecting_from s = record s {
  state = State.connecting;
  connection = some (new_connection s.connection_backoff);
  calls = s.calls ++ (Call.state_changed State.connecting ∷ []);
}

pub connect_lem : (s : Impl) → s.state ≡ State.disconnected → connect s ≡ ok (tt, connecting_from s)
unfolding connect
connect_lem s h = ground arith

-- `unsubscribe` from a topic that the flat list still has and the tree has not.
unsubscribe_stale :
    (topic : Text) (s : Impl)
    → s.state ≢ State.disconnected
    → set_contains topic s.subscription_topics ≡ true
    → remove (parts topic) s.subscriptions ≡ none
    → unsubscribe topic s ≡ fault Fault.end_iterator
unfolding unsubscribe
unsubscribe_stale topic s h k e = ground arith

-- A client that is not disconnected, and whose flat list has a topic, dereferences an end iterator when
-- it disconnects, connects and unsubscribes from the topic.
pub unsubscribe_after_disconnect :
    (topic : Text) (s : Impl)
    → s.state ≢ State.disconnected
    → set_contains topic s.subscription_topics ≡ true
    → (disconnect >> (connect >> unsubscribe topic)) s ≡ fault Fault.end_iterator
unsubscribe_after_disconnect topic s h k =
    rw (disconnect_lem s h, connect_lem (disconnected_from s) refl)
      (unsubscribe_stale topic (connecting_from (disconnected_from s)) (λ e. cc) k
        (remove-nil (parts topic)))

-- The client after a subscription that was only noted down.
abbrev pub subscribed : Text → ℕ → Impl → Impl
subscribed topic cb s = record s {
  subscriptions = insert (parts topic) cb s.subscriptions;
  subscription_topics = set_emplace topic s.subscription_topics;
}

pub subscribe_connecting :
    (topic : Text) (cb : ℕ) (s : Impl)
    → s.state ≡ State.connecting
    → subscribe topic cb s ≡ ok (tt, subscribed topic cb s)
unfolding subscribe
subscribe_connecting topic cb s h = ground arith

-- The next packet id, and the one after it.
abbrev pub packet_id_of : Impl → ℕ
packet_id_of s = if s.packet_id == 0 then 1 else s.packet_id

abbrev pub queued : Packet → Connection → Impl → Impl
queued packet c s = record s {
  connection = some (record c { send_queue = c.send_queue ++ (frame packet ∷ []) });
  packet_id = (packet_id_of s + 1) % 2 ^ 16;
}

send_subscribe_room :
    (topic : Text) (c : Connection) (s : Impl)
    → s.connection ≡ some c
    → length c.send_queue ≤ s.send_queue_size
    → send_subscribe topic s ≡ ok (true, queued (subscribe_packet (packet_id_of s) topic) c s)
unfolding send_subscribe
send_subscribe_room topic c s h r = ground arith

send_subscribe_full :
    (topic : Text) (c : Connection) (s : Impl)
    → s.connection ≡ some c
    → s.send_queue_size < length c.send_queue
    → send_subscribe topic s ≡ ok (false, record s { packet_id = (packet_id_of s + 1) % 2 ^ 16 })
unfolding send_subscribe
send_subscribe_full topic c s h r = ground arith

-- With a connection whose send queue holds no more packets than its size, a connected client adds the
-- callback to the tree and the topic to the flat list, and queues one SUBSCRIBE with the next packet id.
pub subscribe_connected :
    (topic : Text) (cb : ℕ) (c : Connection) (s : Impl)
    → s.state ≡ State.connected
    → s.connection ≡ some c
    → length c.send_queue ≤ s.send_queue_size
    → subscribe topic cb s
      ≡ ok (tt, queued (subscribe_packet (packet_id_of s) topic) c (subscribed topic cb s))
unfolding subscribe
subscribe_connected topic cb c s h e r =
    ground (arith, send_subscribe_room topic c (subscribed topic cb s) e r)

-- The client with a new connection, after `restart`.
abbrev pub restarted : Impl → Impl
restarted s = record s {
  subscriptions = nil;
  publish_queue = [];
  connection = some (new_connection s.connection_backoff);
}

-- With a connection whose send queue holds more packets than its size, a connected client replaces the
-- connection: the tree and the publish queue are empty afterwards, the topic is in the flat list, and
-- the state stays CONNECTED.
pub subscribe_full :
    (topic : Text) (cb : ℕ) (c : Connection) (s : Impl)
    → s.state ≡ State.connected
    → s.connection ≡ some c
    → s.send_queue_size < length c.send_queue
    → subscribe topic cb s
      ≡ ok (
        tt,
        restarted (record s {
          subscription_topics = set_emplace topic s.subscription_topics;
          packet_id = (packet_id_of s + 1) % 2 ^ 16;
        }),
      )
unfolding subscribe impl_connect impl_disconnect
subscribe_full topic cb c s h e r =
    ground (arith, send_subscribe_full topic c (subscribed topic cb s) e r)

-- A message on a connected client calls the callbacks that match its topic, in order, each with the
-- topic and the message; on any other client it calls none. Nothing else changes.
pub message_received_lem :
    (topic message : Text) (s : Impl)
    → message_received topic message s
      ≡ ok (
        tt,
        record s {
          calls =
              if is_connected s.state
              then s.calls ++ arrivals (find_match (parts topic) s.subscriptions) topic message
              else s.calls;
        },
      )
unfolding message_received
message_received_lem topic message s = ground arith

-- The client after `unsubscribe`, while connecting.
abbrev pub unsubscribed : Text → Children → Impl → Impl
unsubscribed topic cs s = record s {
  subscriptions = cs;
  subscription_topics = set_erase topic s.subscription_topics;
}

unsubscribe_tree :
    (topic : Text) (s : Impl) (cs : Children)
    → s.state ≡ State.connecting
    → set_contains topic s.subscription_topics ≡ true
    → remove (parts topic) s.subscriptions ≡ some cs
    → unsubscribe topic s ≡ ok (tt, unsubscribed topic cs s)
unfolding unsubscribe
unsubscribe_tree topic s cs h k e = ground arith

-- `unsubscribe` while connecting, from a topic of the list that has a callback in the tree, does not
-- fault: it takes the topic off the list and all its callbacks out of the tree, and no others.
unsubscribe_connecting :
    (topic : Text) (s : Impl)
    → s.state ≡ State.connecting
    → set_contains topic s.subscription_topics ≡ true
    → callbacks_at (parts topic) s.subscriptions ≢ []
    → (cs : Children) × (unsubscribe topic s ≡ ok (tt, unsubscribed topic cs s))
      × ((filter : List Text)
          → callbacks_at filter cs
            ≡ (if filter_eq (parts topic) filter then [] else callbacks_at filter s.subscriptions))
unsubscribe_connecting topic s h k ne = elim (Option-cases (remove (parts topic) s.subscriptions)) [
  | inl e ↦ absurd (remove-ne-none (parts topic) s.subscriptions ne e)
  | inr (cs, e) ↦ (
    cs,
    unsubscribe_tree topic s cs h k e,
    λ filter. callbacks_at-remove (parts topic) filter s.subscriptions cs e,
  )
]
