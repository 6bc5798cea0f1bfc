-- ===== src/Handlers/Lifecycle.antt =====
-- Every sequence of calls of the functions of src/Client.cpp keeps a client valid.
use true_mqtt_cpp.Base.{ℕ, ◌≡◌, ◌≢◌, inl, inr, Bool, true, false, Text}
use true_mqtt_cpp.Client.{State, PublishQueueType, Impl, ok, M, pure, new_impl, ◌>>=◌}
use true_mqtt_cpp.Handlers.{
  set_last_will, set_publish_queue, set_send_queue, connect, disconnect, publish, subscribe,
  unsubscribe, connection_state_change, message_received,
}
use true_mqtt_cpp.Handlers.Validity.{
  IsValid, Ensures, Result-cases, Ensures-ok, new_impl-IsValid, connect-IsValid, disconnect-IsValid,
  set_publish_queue-IsValid, set_last_will-IsValid, set_send_queue-IsValid, publish-IsValid,
  subscribe-IsValid, unsubscribe-IsValid, message_received-IsValid, lost-IsValid,
}
use true_mqtt_cpp.Handlers.Opening.{connected-IsValid}

-- A call of a function of src/Client.cpp. The connection calls `connection_state_change`.
pub data Operation : Type 0 where
  sets_last_will : Text → Text → Bool → Operation
  sets_publish_queue : PublishQueueType → ℕ → Operation
  sets_send_queue : ℕ → Operation
  connects disconnects : Operation
  publishes : Text → Text → Bool → Operation
  subscribes : Text → ℕ → Operation
  unsubscribes : Text → Operation
  changes_connection : Bool → Operation
  receives : Text → Text → Operation

unfoldable pub run : Operation → M (Unit {0})
run (sets_last_will t m r) = set_last_will t m r
run (sets_publish_queue t n) = set_publish_queue t n
run (sets_send_queue n) = set_send_queue n
run connects = connect
run disconnects = disconnect
run (publishes t m r) = publish t m r >>= λ _. pure tt
run (subscribes t cb) = subscribe t cb
run (unsubscribes t) = unsubscribe t
run (changes_connection c) = connection_state_change c
run (receives t m) = message_received t m

-- A connection calls back only while there is one.
abbrev pub IsPossible : Operation → Impl → Type 0
IsPossible (changes_connection c) s = s.state ≢ State.disconnected
IsPossible _ s = Unit {0}

publishes-IsValid :
    (t m : Text) (r : Bool) (s : Impl)
    → IsValid s
    → Ensures IsValid ((publish t m r >>= λ _. pure tt) s)
publishes-IsValid t m r s v =
    let done = publish-IsValid t m r s v in
    elim (Result-cases (publish t m r s)) [
      | inl ((b, s'), e) ↦ rw e (Ensures-ok IsValid _ done e)
      | inr (f, e) ↦ rw e tt
    ]

-- Every function of the client that ends without a fault leaves a valid client, if it was called on
-- one, and if the connection calls back only while there is one.
pub run-IsValid :
    (op : Operation) (s : Impl) → IsValid s → IsPossible op s → Ensures IsValid (run op s)
unfolding run
run-IsValid (sets_last_will t m r) s v p = set_last_will-IsValid t m r s v
run-IsValid (sets_publish_queue t n) s v p = set_publish_queue-IsValid t n s v
run-IsValid (sets_send_queue n) s v p = set_send_queue-IsValid n s v
run-IsValid connects s v p = connect-IsValid s v
run-IsValid disconnects s v p = disconnect-IsValid s v
run-IsValid (publishes t m r) s v p = publishes-IsValid t m r s v
run-IsValid (subscribes t cb) s v p = subscribe-IsValid t cb s v
run-IsValid (unsubscribes t) s v p = unsubscribe-IsValid t s v
run-IsValid (changes_connection true) s v p = connected-IsValid s v p
run-IsValid (changes_connection false) s v p = lost-IsValid s v p
run-IsValid (receives t m) s v p = message_received-IsValid t m s v

-- The clients that a new one can become.
pub data Reachable (start : Impl) : Impl → Type 0 where
  here : Reachable start start
  next :
      {s t : Impl} (op : Operation)
      → Reachable start s
      → IsPossible op s
      → run op s ≡ ok (tt, t)
      → Reachable start t

Reachable-keeps : {start s : Impl} → IsValid start → Reachable start s → IsValid s
Reachable-keeps v here = v
Reachable-keeps v (next {s = s} op r p e) =
    Ensures-ok IsValid (run op s) (run-IsValid op s (Reachable-keeps v r) p) e

-- Whatever is called on a new client, it stays valid: it has a connection exactly while it is not
-- disconnected, messages wait only while it is connecting and within the limit of the publish queue,
-- and packet ids have 16 bits.
pub Reachable-IsValid :
    (client_id : Text) (timeout backoff backoff_max keep_alive : ℕ) (s : Impl)
    → Reachable (new_impl client_id timeout backoff backoff_max keep_alive) s
    → IsValid s
Reachable-IsValid client_id t b m k s r = Reachable-keeps (new_impl-IsValid client_id t b m k) r
