-- ===== src/Handlers/Returning.antt =====
-- The calls of src/Client.cpp that do not fault.
use true_mqtt_cpp.Base.{
  ℕ, ◌≤◌, ◌≡◌, refl, ◌≢◌, ◌⊎◌, inl, inr, Bool, true, false, Option, none, some, List, [], ◌∷◌, Text,
  length, arith, Bool-cases, Option-cases,
}
use true_mqtt_cpp.Connection.{Connection}
use true_mqtt_cpp.Subscription.{parts, remove}
use true_mqtt_cpp.Subscription.Removal.{remove-ne-none}
use true_mqtt_cpp.Client.{
  State, PublishQueueType, Message, Impl, Result, bind_result, ok, fault, pure,
}
use true_mqtt_cpp.Client.Topics.{set_contains}
use true_mqtt_cpp.Client.Topics.Sorted.{set_emplace-IsSorted, set_erase-IsSorted}
use true_mqtt_cpp.Sender.{send_publish, send_subscribe, send_unsubscribe}
use true_mqtt_cpp.Handlers.{
  is_disconnected, set_last_will, set_publish_queue, set_send_queue, connect, disconnect, publish,
  subscribe, unsubscribe, announce, connection_state_change, message_received,
}
use true_mqtt_cpp.Handlers.Validity.{IsValid, with_subscriptions-IsValid}
use true_mqtt_cpp.Handlers.Subscribed.{disconnect_lem, subscribed, unsubscribed}
use true_mqtt_cpp.Handlers.Synced.{IsSynced, insert-HasCallbacks, remove-HasCallbacks}

-- The send queue has room for a packet, where there is one to send.
abbrev pub SendsOne : Impl → Type 0
SendsOne s =
    s.state ≡ State.connected
    → (c : Connection) → s.connection ≡ some c
    → length c.send_queue ≤ s.send_queue_size

-- A call that does not fault, and leaves a client of which P holds.
abbrev pub Returns : {A : Type 0} → (Impl → Type 0) → Result (A × Impl) → Type 0
Returns P (ok (a, s)) = P s
Returns P (fault e) = ⊥

-- A client with the topics and the tree of `s`.
abbrev pub IsLike : Impl → Impl → Type 0
IsLike s s' =
    (s'.subscription_topics ≡ s.subscription_topics) × (s'.subscriptions ≡ s.subscriptions)

pub alike-IsSynced : (s s' : Impl) → IsLike s s' → IsSynced s → IsSynced s'
alike-IsSynced s s' (e, f) v = record { sorted = rw e v.sorted; synced = rw (e, f) v.synced }

pub Returns-alike :
    {A : Type 0} (s : Impl) (r : Result (A × Impl))
    → IsSynced s
    → Returns (IsLike s) r
    → Returns IsSynced r
Returns-alike s (ok (a, s')) v h = alike-IsSynced s s' h v
Returns-alike s (fault e) v h = h

pub set_last_will-Returns :
    (t m : Text) (r : Bool) (s : Impl) → Returns (IsLike s) (set_last_will t m r s)
unfolding set_last_will
set_last_will-Returns t m r s = ground arith

pub set_publish_queue-Returns :
    (t : PublishQueueType) (n : ℕ) (s : Impl) → Returns (IsLike s) (set_publish_queue t n s)
unfolding set_publish_queue
set_publish_queue-Returns t n s = ground arith

pub set_send_queue-Returns : (n : ℕ) (s : Impl) → Returns (IsLike s) (set_send_queue n s)
unfolding set_send_queue
set_send_queue-Returns n s = ground arith

pub connect-Returns : (s : Impl) → Returns (IsLike s) (connect s)
unfolding connect
connect-Returns s = ground arith

pub message_received-Returns : (t m : Text) (s : Impl) → Returns (IsLike s) (message_received t m s)
unfolding message_received
message_received-Returns t m s = ground arith

pub lost-Returns : (s : Impl) → Returns (IsLike s) (connection_state_change false s)
unfolding connection_state_change
lost-Returns s = ground arith

nothing_known : (t : Text) → set_contains t [] ≢ true
unfolding set_contains
nothing_known t k = cc

pub disconnect-Returns :
    (s : Impl) → s.subscription_topics ≡ [] → IsSynced s → Returns IsSynced (disconnect s)
unfolding disconnect
disconnect-Returns s h v = elim (Bool-cases (is_disconnected s.state)) [
  | inl e ↦ rw e v
  | inr e ↦
      rw (disconnect_lem s (λ k. ground arith))
        (record { sorted = rw h tt; synced = λ t k. absurd (nothing_known t (rw h at k)) })
]

pub publish-Returns :
    (t m : Text) (r : Bool) (s : Impl)
    → IsValid s
    → (s.publish_queue_type ≡ PublishQueueType.drop) ⊎ (1 ≤ s.publish_queue_size)
    → Returns (IsLike s) (publish t m r s)
unfolding publish send_publish
publish-Returns t m r s v h = at s.publish_queue refl
  where
    at : (queue : List Message) → s.publish_queue ≡ queue → Returns (IsLike s) (publish t m r s)
    at [] e = ground arith
    at (n ∷ ms) e = ground arith

pub publishes-Returns :
    (s : Impl) (r : Result (Bool × Impl))
    → Returns (IsLike s) r
    → Returns (IsLike s) (bind_result r (λ _. pure tt))
publishes-Returns s (ok (b, s')) h = h
publishes-Returns s (fault e) h = h

pub send_subscribe-Returns :
    (t : Text) (s : Impl)
    → IsValid s
    → SendsOne s
    → Returns (IsLike s) (announce s.state (send_subscribe t) s)
unfolding send_subscribe
send_subscribe-Returns t s v h = at s.connection refl
  where
    at :
        (o : Option Connection)
        → s.connection ≡ o
        → Returns (IsLike s) (announce s.state (send_subscribe t) s)
    at none e = ground arith
    at (some c) e = ground (arith, λ (k : s.state ≡ State.connected). h k c e)

pub send_unsubscribe-Returns :
    (t : Text) (s : Impl)
    → IsValid s
    → SendsOne s
    → Returns (IsLike s) (announce s.state (send_unsubscribe t) s)
unfolding send_unsubscribe
send_unsubscribe-Returns t s v h = at s.connection refl
  where
    at :
        (o : Option Connection)
        → s.connection ≡ o
        → Returns (IsLike s) (announce s.state (send_unsubscribe t) s)
    at none e = ground arith
    at (some c) e = ground (arith, λ (k : s.state ≡ State.connected). h k c e)

pub subscribe-Returns :
    (t : Text) (cb : ℕ) (s : Impl)
    → IsValid s
    → SendsOne s
    → IsSynced s
    → Returns IsSynced (subscribe t cb s)
unfolding subscribe
subscribe-Returns t cb s v h y = elim (Bool-cases (is_disconnected s.state)) [
  | inl e ↦ rw e y
  | inr e ↦
      let s' = subscribed t cb s in
      let y' : IsSynced s' = record {
        sorted = set_emplace-IsSorted t s.subscription_topics y.sorted;
        synced = insert-HasCallbacks t cb s.subscription_topics s.subscriptions y.synced;
      } in
      rw e (
        Returns-alike s' (announce s.state (send_subscribe t) s') y'
          (send_subscribe-Returns t s' (with_subscriptions-IsValid _ _ s v) h))
]

pub unsubscribe-Returns :
    (t : Text) (s : Impl) → IsValid s → SendsOne s → IsSynced s → Returns IsSynced (unsubscribe t s)
unfolding unsubscribe
unsubscribe-Returns t s v h y = elim (Bool-cases (is_disconnected s.state)) [
  | inl e ↦ rw e y
  | inr e ↦ elim (Bool-cases (set_contains t s.subscription_topics)) [
    | inl known ↦ elim (Option-cases (remove (parts t) s.subscriptions)) [
      | inl lost ↦ absurd (remove-ne-none (parts t) s.subscriptions (y.synced t known) lost)
      | inr (cs, found) ↦
          let s' = unsubscribed t cs s in
          let y' : IsSynced s' = record {
            sorted = set_erase-IsSorted t s.subscription_topics y.sorted;
            synced =
                remove-HasCallbacks t s.subscription_topics s.subscriptions cs y.sorted found
                  y.synced;
          } in
          rw (e, known, found)
            (Returns-alike s' (announce s.state (send_unsubscribe t) s') y'
              (send_unsubscribe-Returns t s' (with_subscriptions-IsValid _ _ s v) h))
    ]
    | inr unknown ↦ rw (e, unknown) y
  ]
]
