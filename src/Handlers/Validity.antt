-- ===== src/Handlers/Validity.antt =====
-- The invariant of a client, and what the functions of src/Client.cpp that the user calls leave of it.
use true_mqtt_cpp.Base.{
  ℕ, ◌^◌, ◌≤◌, ◌<◌, ◌≡◌, refl, ◌≢◌, ◌⊎◌, inl, inr, Bool, true, false, not, Option, none, some, List,
  [], ◌∷◌, Text, length, arith, length-append, Bool-cases, Option-cases,
}
use true_mqtt_cpp.Subscription.{Children, parts, insert, remove}
use true_mqtt_cpp.Client.Topics.{set_emplace, set_erase, set_contains}
use true_mqtt_cpp.Client.{
  State, PublishQueueType, Message, Impl, Fault, Result, ok, fault, new_impl, impl_connect,
  impl_disconnect,
}
use true_mqtt_cpp.Sender.{send_subscribe, send_unsubscribe, send_publish}
use true_mqtt_cpp.Handlers.{
  is_disconnected, is_connecting, set_last_will, set_publish_queue, set_send_queue, connect,
  disconnect, publish, subscribe, unsubscribe, announce, connection_state_change, message_received,
  init,
}

abbrev pub is_some {ℓ} : {A : Type ℓ} → Option A → Bool
is_some none = false
is_some (some a) = true

-- There is a connection exactly while the client is not disconnected; messages wait only while it
-- connects, and no more than the queue may hold; packet ids have 16 bits.
pub record IsValid (s : Impl) : Type 0 where
  pub linked : is_some s.connection ≡ not (is_disconnected s.state)
  pub waiting : (is_connecting s.state ≡ true) ⊎ (s.publish_queue ≡ [])
  pub bounded : length s.publish_queue ≤ s.publish_queue_size
  pub packet_ids : s.packet_id < 2 ^ 16

-- Whatever a function leaves, where it does not fault.
abbrev pub Ensures : {A : Type 0} → (Impl → Type 0) → Result (A × Impl) → Type 0
Ensures P (ok (a, s)) = P s
Ensures P (fault e) = Unit {0}

pub Result-cases {ℓ} :
    {A : Type ℓ} (r : Result A) → ((a : A) × (r ≡ ok a)) ⊎ ((e : Fault) × (r ≡ fault e))
Result-cases (ok a) = inl (a, refl)
Result-cases (fault e) = inr (e, refl)

pub Ensures-ok :
    {A : Type 0} (P : Impl → Type 0) (r : Result (A × Impl)) {a : A} {s : Impl}
    → Ensures P r
    → r ≡ ok (a, s)
    → P s
Ensures-ok P r h e = rw e at h

pub new_impl-IsValid : (client_id : Text) (t b m k : ℕ) → IsValid (new_impl client_id t b m k)
unfolding new_impl
new_impl-IsValid client_id t b m k = ground arith

pub connect-IsValid : (s : Impl) → IsValid s → Ensures IsValid (connect s)
unfolding connect
connect-IsValid s v = ground arith

pub disconnect-IsValid : (s : Impl) → IsValid s → Ensures IsValid (disconnect s)
unfolding disconnect
disconnect-IsValid s v = ground arith

pub set_publish_queue-IsValid :
    (t : PublishQueueType) (n : ℕ) (s : Impl)
    → IsValid s
    → Ensures IsValid (set_publish_queue t n s)
unfolding set_publish_queue
set_publish_queue-IsValid t n s v = ground arith

length-init : (m : Message) (ms : List Message) → length (init (m ∷ ms)) ≡ length ms
unfolding init
length-init m [] = refl
length-init m (n ∷ ms) = omega (arith, length-init n ms)

pub set_last_will-IsValid :
    (t m : Text) (r : Bool) (s : Impl) → IsValid s → Ensures IsValid (set_last_will t m r s)
unfolding set_last_will
set_last_will-IsValid t m r s v = ground arith

pub set_send_queue-IsValid : (n : ℕ) (s : Impl) → IsValid s → Ensures IsValid (set_send_queue n s)
unfolding set_send_queue
set_send_queue-IsValid n s v = ground arith

pub publish-IsValid :
    (t m : Text) (r : Bool) (s : Impl) → IsValid s → Ensures IsValid (publish t m r s)
unfolding publish send_publish
publish-IsValid t m r s v = at s.publish_queue refl
  where
    new : Message
    new = record { topic = t; message = m; retain = r }

    at : (queue : List Message) → s.publish_queue ≡ queue → Ensures IsValid (publish t m r s)
    at [] e = ground arith
    at (n ∷ ms) e = ground (
      arith,
      e,
      length-init n ms,
      length-append (init (n ∷ ms)) (new ∷ []),
      length-append ms (new ∷ []),
    )

pub send_subscribe-IsValid :
    (t : Text) (s : Impl) → IsValid s → Ensures IsValid (announce s.state (send_subscribe t) s)
unfolding send_subscribe impl_connect impl_disconnect
send_subscribe-IsValid t s v = ground arith

pub send_unsubscribe-IsValid :
    (t : Text) (s : Impl) → IsValid s → Ensures IsValid (announce s.state (send_unsubscribe t) s)
unfolding send_unsubscribe impl_connect impl_disconnect
send_unsubscribe-IsValid t s v = ground arith

-- The client with another tree and another set of topics.
abbrev with_subscriptions : Children → List Text → Impl → Impl
with_subscriptions cs topics s = record s { subscriptions = cs; subscription_topics = topics }

pub with_subscriptions-IsValid :
    (cs : Children) (topics : List Text) (s : Impl)
    → IsValid s
    → IsValid (with_subscriptions cs topics s)
with_subscriptions-IsValid cs topics s v = ground arith

pub subscribe-IsValid :
    (t : Text) (cb : ℕ) (s : Impl) → IsValid s → Ensures IsValid (subscribe t cb s)
unfolding subscribe
subscribe-IsValid t cb s v =
    let s' =
      with_subscriptions (insert (parts t) cb s.subscriptions) (set_emplace t s.subscription_topics)
        s in
    elim (Bool-cases (is_disconnected s.state)) [
      | inl e ↦ rw e v
      | inr e ↦ rw e (send_subscribe-IsValid t s' (with_subscriptions-IsValid _ _ s v))
    ]

pub unsubscribe-IsValid : (t : Text) (s : Impl) → IsValid s → Ensures IsValid (unsubscribe t s)
unfolding unsubscribe
unsubscribe-IsValid t s v = elim (Bool-cases (is_disconnected s.state)) [
  | inl e ↦ rw e v
  | inr e ↦ elim (Bool-cases (set_contains t s.subscription_topics)) [
    | inl known ↦ elim (Option-cases (remove (parts t) s.subscriptions)) [
      | inl none_left ↦ rw (e, known, none_left) tt
      | inr (cs, found) ↦
          rw (e, known, found)
            (send_unsubscribe-IsValid t
              (with_subscriptions cs (set_erase t s.subscription_topics) s)
              (with_subscriptions-IsValid _ _ s v))
    ]
    | inr unknown ↦ rw (e, unknown) v
  ]
]

pub message_received-IsValid :
    (t m : Text) (s : Impl) → IsValid s → Ensures IsValid (message_received t m s)
unfolding message_received
message_received-IsValid t m s v = ground arith

pub lost-IsValid :
    (s : Impl)
    → IsValid s
    → s.state ≢ State.disconnected
    → Ensures IsValid (connection_state_change false s)
unfolding connection_state_change
lost-IsValid s v h = ground arith
