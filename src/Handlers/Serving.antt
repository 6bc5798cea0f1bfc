-- ===== src/Handlers/Serving.antt =====
-- The calls of src/Client.cpp that do not fault, on a client that may have been disconnected before.
use true_mqtt_cpp.Base.{
  ℕ, ◌≡◌, ◌≢◌, inl, inr, true, false, List, [], ◌∷◌, Text, arith, Bool-cases, Option-cases,
}
use true_mqtt_cpp.Subscription.{parts, remove}
use true_mqtt_cpp.Subscription.Lookup.{callbacks_at}
use true_mqtt_cpp.Subscription.Removal.{remove-ne-none}
use true_mqtt_cpp.Client.{Impl, Result, ok, fault}
use true_mqtt_cpp.Client.Topics.{set_contains}
use true_mqtt_cpp.Client.Topics.Sorted.{IsSorted, set_emplace-IsSorted, set_erase-IsSorted}
use true_mqtt_cpp.Sender.{send_subscribe, send_unsubscribe}
use true_mqtt_cpp.Handlers.{is_disconnected, disconnect, publish, subscribe, unsubscribe, announce}
use true_mqtt_cpp.Handlers.Validity.{IsValid, with_subscriptions-IsValid}
use true_mqtt_cpp.Handlers.Subscribed.{disconnect_lem, subscribed, unsubscribed}
use true_mqtt_cpp.Handlers.Lifecycle.{
  Operation, sets_last_will, sets_publish_queue, sets_send_queue, connects, disconnects, publishes,
  subscribes, unsubscribes, changes_connection, receives, run, IsPossible,
}
use true_mqtt_cpp.Handlers.Returning.{
  SendsOne, Returns, IsLike, set_last_will-Returns, set_publish_queue-Returns,
  set_send_queue-Returns, connect-Returns, message_received-Returns, lost-Returns, publish-Returns,
  publishes-Returns, send_subscribe-Returns, send_unsubscribe-Returns,
}
use true_mqtt_cpp.Handlers.Careful.{HasRoom, made-Returns}

-- What a call needs so that it returns. `disconnect` needs nothing; `unsubscribe` needs that a topic
-- which is on the flat list has a callback in the tree.
abbrev pub IsServed : Operation → Impl → Type 0
IsServed disconnects s = Unit {0}
IsServed (unsubscribes t) s =
    SendsOne s
    × (set_contains t s.subscription_topics ≡ true → callbacks_at (parts t) s.subscriptions ≢ [])
IsServed op s = HasRoom op s

abbrev pub IsOrdered : Impl → Type 0
IsOrdered s = IsSorted s.subscription_topics

ordered :
    {A : Type 0} (s : Impl) (r : Result (A × Impl))
    → IsOrdered s
    → Returns (IsLike s) r
    → Returns IsOrdered r
ordered s (ok (a, s')) o (e, f) = rw e o
ordered s (fault k) o h = h

disconnect-IsOrdered : (s : Impl) → IsOrdered s → Returns IsOrdered (disconnect s)
unfolding disconnect
disconnect-IsOrdered s o = elim (Bool-cases (is_disconnected s.state)) [
  | inl e ↦ rw e o
  | inr e ↦ rw (disconnect_lem s (λ k. ground arith)) o
]

subscribe-IsOrdered :
    (t : Text) (cb : ℕ) (s : Impl)
    → IsValid s
    → SendsOne s
    → IsOrdered s
    → Returns IsOrdered (subscribe t cb s)
unfolding subscribe
subscribe-IsOrdered t cb s v h o = elim (Bool-cases (is_disconnected s.state)) [
  | inl e ↦ rw e o
  | inr e ↦
      let s' = subscribed t cb s in
      rw e (
        ordered s' (announce s.state (send_subscribe t) s')
          (set_emplace-IsSorted t s.subscription_topics o)
          (send_subscribe-Returns t s' (with_subscriptions-IsValid _ _ s v) h))
]

unsubscribe-IsOrdered :
    (t : Text) (s : Impl)
    → IsValid s
    → IsServed (unsubscribes t) s
    → IsOrdered s
    → Returns IsOrdered (unsubscribe t s)
unfolding unsubscribe
unsubscribe-IsOrdered t s v (h, there) o = elim (Bool-cases (is_disconnected s.state)) [
  | inl e ↦ rw e o
  | inr e ↦ elim (Bool-cases (set_contains t s.subscription_topics)) [
    | inl known ↦ elim (Option-cases (remove (parts t) s.subscriptions)) [
      | inl lost ↦ absurd (remove-ne-none (parts t) s.subscriptions (there known) lost)
      | inr (cs, found) ↦
          let s' = unsubscribed t cs s in
          rw (e, known, found)
            (ordered s' (announce s.state (send_unsubscribe t) s')
              (set_erase-IsSorted t s.subscription_topics o)
              (send_unsubscribe-Returns t s' (with_subscriptions-IsValid _ _ s v) h))
    ]
    | inr unknown ↦ rw (e, unknown) o
  ]
]

pub served-Returns :
    (op : Operation) (s : Impl)
    → IsValid s
    → IsOrdered s
    → IsPossible op s
    → IsServed op s
    → Returns IsOrdered (run op s)
unfolding run
served-Returns (sets_last_will t m r) s v o p h = ordered s _ o (set_last_will-Returns t m r s)
served-Returns (sets_publish_queue t n) s v o p h = ordered s _ o (set_publish_queue-Returns t n s)
served-Returns (sets_send_queue n) s v o p h = ordered s _ o (set_send_queue-Returns n s)
served-Returns connects s v o p h = ordered s _ o (connect-Returns s)
served-Returns disconnects s v o p h = disconnect-IsOrdered s o
served-Returns (publishes t m r) s v o p h =
    ordered s _ o (publishes-Returns s (publish t m r s) (publish-Returns t m r s v h))
served-Returns (subscribes t cb) s v o p h = subscribe-IsOrdered t cb s v h o
served-Returns (unsubscribes t) s v o p h = unsubscribe-IsOrdered t s v h o
served-Returns (changes_connection true) s v o p h = ordered s _ o (made-Returns s v p h)
served-Returns (changes_connection false) s v o p h = ordered s _ o (lost-Returns s)
served-Returns (receives t m) s v o p h = ordered s _ o (message_received-Returns t m s)

-- Each of the calls may be made, and is served, where it is made.
abbrev pub AreServed : List Operation → Impl → Type 0
AreServed [] s = Unit {0}
AreServed (op ∷ ops) s =
    IsPossible op s × IsServed op s × ((t : Impl) → run op s ≡ ok (tt, t) → AreServed ops t)
