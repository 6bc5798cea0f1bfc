-- ===== src/Handlers/Delivery.antt =====
-- From `subscribe` to `messageReceived` of src/Client.cpp: a subscription is served.
use true_mqtt_cpp.Base.{
  ℕ, ◌≤◌, ◌≡◌, refl, ◌≢◌, inl, inr, some, List, [], ◌∷◌, ◌++◌, Text, length, ap,
}
use true_mqtt_cpp.Connection.{Connection}
use true_mqtt_cpp.Subscription.{Children, parts, insert, find_match}
use true_mqtt_cpp.Subscription.Parts.{parts-ne-nil}
use true_mqtt_cpp.Subscription.Lookup.{filter_eq_self, callbacks_at, callbacks_at-insert}
use true_mqtt_cpp.Subscription.Delivery.{In, In-append_right, Matches, find_match-Matches}
use true_mqtt_cpp.Client.{State, Call, Impl, ok, ◌>>◌}
use true_mqtt_cpp.Sender.{subscribe_packet}
use true_mqtt_cpp.Handlers.{subscribe, message_received, arrivals}
use true_mqtt_cpp.Handlers.Subscribed.{
  subscribed, queued, packet_id_of, subscribe_connected, message_received_lem,
}

In-arrivals :
    (cb : ℕ) (cbs : List ℕ) (topic message : Text)
    → In cb cbs
    → In (Call.message_arrived cb topic message) (arrivals cbs topic message)
In-arrivals cb [] topic message h = absurd h
In-arrivals cb (x ∷ cbs) topic message (inl e) =
    inl (ap (λ (y : ℕ). Call.message_arrived y topic message) e)
In-arrivals cb (x ∷ cbs) topic message (inr h) = inr (In-arrivals cb cbs topic message h)

-- A callback that was just subscribed is among those that a matching topic calls.
In-insert :
    (cb : ℕ) (f ps : List Text) (cs : Children)
    → f ≢ []
    → Matches f ps
    → In cb (find_match ps (insert f cb cs))
In-insert cb f ps cs ne m = find_match-Matches cb f ps (insert f cb cs) m (
    rw (callbacks_at-insert f f cb cs ne, filter_eq_self f)
      (In-append_right cb (callbacks_at f cs) (cb ∷ []) (inl refl)))

-- On a connected client whose send queue holds no more packets than its size, a callback that is
-- subscribed to a filter is called with the next message on any topic that the filter matches.
pub subscribe-message_received :
    (filter topic message : Text) (cb : ℕ) (c : Connection) (s : Impl)
    → s.state ≡ State.connected
    → s.connection ≡ some c
    → length c.send_queue ≤ s.send_queue_size
    → Matches (parts filter) (parts topic)
    → (s' : Impl) × ((subscribe filter cb >> message_received topic message) s ≡ ok (tt, s'))
      × In (Call.message_arrived cb topic message) s'.calls
subscribe-message_received filter topic message cb c s h e r m =
    let t = queued (subscribe_packet (packet_id_of s) filter) c (subscribed filter cb s) in
    let cbs = find_match (parts topic) (insert (parts filter) cb s.subscriptions) in
    (
      record t { calls = s.calls ++ arrivals cbs topic message },
      rw (subscribe_connected filter cb c s h e r, message_received_lem topic message t, h) refl,
      In-append_right (Call.message_arrived cb topic message) s.calls _ (
          In-arrivals cb cbs topic message
            (In-insert cb (parts filter) (parts topic) s.subscriptions (parts-ne-nil filter) m)),
    )
