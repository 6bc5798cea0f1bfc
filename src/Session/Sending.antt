-- ===== src/Session/Sending.antt =====
-- The functions of src/Client.cpp keep the client in step with its connection.
use true_mqtt_cpp.Base.{
  ℕ, ◌≡◌, refl, Bool, true, false, Option, none, some, List, [], ◌∷◌, Text, arith, Bool-cases,
  Option-cases, inl, inr,
}
use true_mqtt_cpp.Connection.{Connection, new_connection}
use true_mqtt_cpp.Connection
use true_mqtt_cpp.Subscription.{parts, remove}
use true_mqtt_cpp.Client.{
  State, PublishQueueType, Message, Impl, bind_result, pure, impl_connect, impl_disconnect,
}
use true_mqtt_cpp.Client.Topics.{set_contains}
use true_mqtt_cpp.Sender.{send_publish}
use true_mqtt_cpp.Handlers.{
  is_disconnected, set_last_will, set_publish_queue, set_send_queue, connect, disconnect, publish,
  subscribe, unsubscribe, message_received,
}
use true_mqtt_cpp.Handlers.Validity.{Ensures}
use true_mqtt_cpp.Handlers.Subscribed.{subscribed, unsubscribed}
use true_mqtt_cpp.Handlers.Returning.{SendsOne}
use true_mqtt_cpp.Handlers.Lifecycle.{
  Operation, sets_last_will, sets_publish_queue, sets_send_queue, connects, disconnects, publishes,
  subscribes, unsubscribes, changes_connection, receives, run,
}
use true_mqtt_cpp.Handlers.Announcing.{
  IsKept, Ensures-map, subscribe_announced, unsubscribe_announced,
}
use true_mqtt_cpp.Session.{IsUsed}

-- The states of a connection with a client that is CONNECTING, and with one that is CONNECTED.
abbrev pub is_low : Connection.State → Bool
is_low Connection.State.connected = false
is_low _ = true

abbrev pub is_high : Connection.State → Bool
is_high Connection.State.connected = true
is_high Connection.State.socket_error = true
is_high Connection.State.stopped = true
is_high _ = false

-- Whether the states of a client and of its connection fit: a client has a connection if it is not
-- disconnected. It is CONNECTED where the connection is CONNECTED, may be where the connection has just
-- failed or is asked to stop, and is CONNECTING elsewhere.
abbrev pub fits : State → Option Connection → Bool
fits State.disconnected none = true
fits State.disconnected (some c) = false
fits State.connecting none = false
fits State.connecting (some c) = is_low c.state
fits State.connected none = false
fits State.connected (some c) = is_high c.state

abbrev pub IsFit : Impl → Type 0
IsFit s = fits s.state s.connection ≡ true

setters-IsFit :
    (s : Impl)
    → IsFit s
    → ((t m : Text) (r : Bool) → Ensures IsFit (set_last_will t m r s))
      × ((q : PublishQueueType) (n : ℕ) → Ensures IsFit (set_publish_queue q n s))
      × ((n : ℕ) → Ensures IsFit (set_send_queue n s))
unfolding set_last_will set_publish_queue set_send_queue
setters-IsFit s v = ((λ t m r. ground arith), (λ q n. ground arith), λ n. ground arith)

pub message_received-IsFit :
    (t m : Text) (s : Impl) → IsFit s → Ensures IsFit (message_received t m s)
unfolding message_received
message_received-IsFit t m s v = ground arith

connect-IsFit : (s : Impl) → IsFit s → Ensures IsFit (connect s)
unfolding connect impl_connect new_connection
connect-IsFit s v = ground arith

disconnect-IsFit : (s : Impl) → IsFit s → Ensures IsFit (disconnect s)
unfolding disconnect impl_disconnect
disconnect-IsFit s v = ground arith

publish-IsFit :
    (t m : Text) (r : Bool) (s : Impl)
    → IsFit s
    → Ensures IsFit (bind_result (publish t m r s) λ _. pure tt)
unfolding publish send_publish
publish-IsFit t m r s v = at s.publish_queue refl
  where
    at :
        (queue : List Message)
        → s.publish_queue ≡ queue
        → Ensures IsFit (bind_result (publish t m r s) λ _. pure tt)
    at [] e = ground arith
    at (n ∷ ms) e = ground arith

kept-IsFit : (s s' : Impl) → IsFit s → IsKept s s' → IsFit s'
kept-IsFit s s' v (_, _, e, f) = ground arith

subscribe-IsFit :
    (t : Text) (cb : ℕ) (s : Impl) → SendsOne s → IsFit s → Ensures IsFit (subscribe t cb s)
unfolding subscribe
subscribe-IsFit t cb s h v = elim (Bool-cases (is_disconnected s.state)) [
  | inl e ↦ rw e v
  | inr e ↦ rw e (
      Ensures-map _ (λ s'. kept-IsFit (subscribed t cb s) s' v)
        (subscribe_announced t (subscribed t cb s) h))
]

unsubscribe-IsFit : (t : Text) (s : Impl) → SendsOne s → IsFit s → Ensures IsFit (unsubscribe t s)
unfolding unsubscribe
unsubscribe-IsFit t s h v = elim (Bool-cases (is_disconnected s.state)) [
  | inl e ↦ rw e v
  | inr e ↦ elim (Bool-cases (set_contains t s.subscription_topics)) [
    | inl known ↦ elim (Option-cases (remove (parts t) s.subscriptions)) [
      | inl lost ↦ rw (e, known, lost) tt
      | inr (cs, found) ↦
          rw (e, known, found)
            (Ensures-map _ (λ s'. kept-IsFit (unsubscribed t cs s) s' v)
              (unsubscribe_announced t (unsubscribed t cs s) h))
    ]
    | inr unknown ↦ rw (e, unknown) v
  ]
]

-- Every function that a user calls keeps them in step, where it returns.
pub run-IsFit : (op : Operation) (s : Impl) → IsUsed op s → IsFit s → Ensures IsFit (run op s)
unfolding run
run-IsFit (sets_last_will t m r) s h v = (setters-IsFit s v).0 t m r
run-IsFit (sets_publish_queue q n) s h v = (setters-IsFit s v).1 q n
run-IsFit (sets_send_queue n) s h v = (setters-IsFit s v).2 n
run-IsFit connects s h v = connect-IsFit s v
run-IsFit disconnects s h v = disconnect-IsFit s v
run-IsFit (publishes t m r) s h v = publish-IsFit t m r s v
run-IsFit (subscribes t cb) s h v = subscribe-IsFit t cb s h v
run-IsFit (unsubscribes t) s h v = unsubscribe-IsFit t s h v
run-IsFit (changes_connection up) s h v = absurd h
run-IsFit (receives t m) s h v = absurd h
