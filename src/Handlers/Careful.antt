-- ===== src/Handlers/Careful.antt =====
-- Sequences of calls of the functions of src/Client.cpp that do not fault.
use true_mqtt_cpp.Base.{
  ◌+◌, ◌≤◌, ◌≡◌, refl, ◌≢◌, ◌⊎◌, inl, inr, true, false, some, List, [], ◌∷◌, length, arith,
  Option-cases,
}
use true_mqtt_cpp.Connection.{Connection}
use true_mqtt_cpp.Client.{State, PublishQueueType, Impl, Result, bind_result, ok}
use true_mqtt_cpp.Handlers.{publish, connection_state_change}
use true_mqtt_cpp.Handlers.Validity.{IsValid, Result-cases, Ensures-ok}
use true_mqtt_cpp.Handlers.Resubscribe.{connection_state_change-restored}
use true_mqtt_cpp.Handlers.Lifecycle.{
  Operation, sets_last_will, sets_publish_queue, sets_send_queue, connects, disconnects, publishes,
  subscribes, unsubscribes, changes_connection, receives, run, IsPossible, run-IsValid,
}
use true_mqtt_cpp.Handlers.Synced.{IsSynced}
use true_mqtt_cpp.Handlers.Returning.{
  SendsOne, Returns, IsLike, Returns-alike, set_last_will-Returns, set_publish_queue-Returns,
  set_send_queue-Returns, connect-Returns, message_received-Returns, lost-Returns,
  disconnect-Returns, publish-Returns, publishes-Returns, subscribe-Returns, unsubscribe-Returns,
}

-- What a call needs so that it returns: a publish queue that may hold a message, and a send queue with
-- room for what the call sends. `disconnect` forgets the tree, and wants no topic on the flat list.
abbrev pub HasRoom : Operation → Impl → Type 0
HasRoom (publishes t m r) s =
    (s.publish_queue_type ≡ PublishQueueType.drop) ⊎ (1 ≤ s.publish_queue_size)
HasRoom (subscribes t cb) s = SendsOne s
HasRoom (unsubscribes t) s = SendsOne s
HasRoom (changes_connection true) s =
    (c : Connection)
    → s.connection ≡ some c
    → length c.send_queue + length s.subscription_topics ≤ s.send_queue_size + 1
HasRoom disconnects s = s.subscription_topics ≡ []
HasRoom _ s = Unit {0}

pub made-Returns :
    (s : Impl)
    → IsValid s
    → s.state ≢ State.disconnected
    → HasRoom (changes_connection true) s
    → Returns (IsLike s) (connection_state_change true s)
made-Returns s v p h = elim (Option-cases s.connection) [
  | inl e ↦ absurd (ground arith)
  | inr (c, e) ↦ rw (connection_state_change-restored c s e (h c e)) (refl, refl)
]

pub step-Returns :
    (op : Operation) (s : Impl)
    → IsValid s
    → IsSynced s
    → IsPossible op s
    → HasRoom op s
    → Returns IsSynced (run op s)
unfolding run
step-Returns (sets_last_will t m r) s v y p h = Returns-alike s _ y (set_last_will-Returns t m r s)
step-Returns (sets_publish_queue t n) s v y p h =
    Returns-alike s _ y (set_publish_queue-Returns t n s)
step-Returns (sets_send_queue n) s v y p h = Returns-alike s _ y (set_send_queue-Returns n s)
step-Returns connects s v y p h = Returns-alike s _ y (connect-Returns s)
step-Returns disconnects s v y p h = disconnect-Returns s h y
step-Returns (publishes t m r) s v y p h =
    Returns-alike s _ y (publishes-Returns s (publish t m r s) (publish-Returns t m r s v h))
step-Returns (subscribes t cb) s v y p h = subscribe-Returns t cb s v h y
step-Returns (unsubscribes t) s v y p h = unsubscribe-Returns t s v h y
step-Returns (changes_connection true) s v y p h = Returns-alike s _ y (made-Returns s v p h)
step-Returns (changes_connection false) s v y p h = Returns-alike s _ y (lost-Returns s)
step-Returns (receives t m) s v y p h = Returns-alike s _ y (message_received-Returns t m s)

-- The calls one after the other.
abbrev pub run_all : List Operation → Impl → Result (Unit {0} × Impl)
run_all [] s = ok (tt, s)
run_all (op ∷ ops) s = bind_result (run op s) λ _ t. run_all ops t

-- Each of the calls may be made, and has room, where it is made.
abbrev pub IsCareful : List Operation → Impl → Type 0
IsCareful [] s = Unit {0}
IsCareful (op ∷ ops) s =
    IsPossible op s × HasRoom op s × ((t : Impl) → run op s ≡ ok (tt, t) → IsCareful ops t)

-- On a valid client whose flat list of topics is in order and has a callback in the tree for each of
-- its topics, calls return that are made where they may be and where there is room for what they send:
-- nothing is taken from an empty queue, no iterator is at the end, no connection is null, and no thread
-- joins itself. They leave a client of the same kind. A publish queue has room if it is of type DROP or
-- of size 1 at least, `connectionStateChange` if the send queue takes all topics, and `disconnect` if
-- the flat list is empty.
pub run_all-IsSynced :
    (ops : List Operation) (s : Impl)
    → IsValid s
    → IsSynced s
    → IsCareful ops s
    → (t : Impl) × (run_all ops s ≡ ok (tt, t)) × IsValid t × IsSynced t
run_all-IsSynced [] s v y c = (s, refl, v, y)
run_all-IsSynced (op ∷ ops) s v y (p, h, rest) = elim (Result-cases (run op s)) [
  | inl ((u, t), e) ↦
      let v' = Ensures-ok IsValid (run op s) (run-IsValid op s v p) e in
      let y' : IsSynced t = rw e at (step-Returns op s v y p h) in
      let (t', r, v'', y'') = run_all-IsSynced ops t v' y' (rest t e) in (t', rw e r, v'', y'')
  | inr (f, e) ↦ absurd (rw e at (step-Returns op s v y p h))
]
