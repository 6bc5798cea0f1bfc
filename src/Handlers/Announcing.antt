-- ===== src/Handlers/Announcing.antt =====
-- The last step of `subscribe` and of `unsubscribe` in src/Client.cpp, where the send queue has room.
use true_mqtt_cpp.Base.{◌≡◌, Option, none, some, Text, arith, refl}
use true_mqtt_cpp.Connection.{Connection}
use true_mqtt_cpp.Connection
use true_mqtt_cpp.Client.{State, Impl, Result, ok, fault}
use true_mqtt_cpp.Sender.{send_subscribe, send_unsubscribe}
use true_mqtt_cpp.Handlers.{announce}
use true_mqtt_cpp.Handlers.Validity.{Ensures}
use true_mqtt_cpp.Handlers.Returning.{SendsOne}

abbrev link_state : Option Connection → Option Connection.State
link_state none = none
link_state (some c) = some c.state

-- A client with the topics, the tree, the state and the state of the connection of `s`.
abbrev pub IsKept : Impl → Impl → Type 0
IsKept s s' =
    (s'.subscription_topics ≡ s.subscription_topics)
    × (s'.subscriptions ≡ s.subscriptions)
    × (s'.state ≡ s.state)
    × (link_state s'.connection ≡ link_state s.connection)

pub Ensures-map :
    {A : Type 0} {P Q : Impl → Type 0} (r : Result (A × Impl))
    → ((s : Impl) → P s → Q s)
    → Ensures P r
    → Ensures Q r
Ensures-map (ok (a, s)) f h = f s h
Ensures-map (fault e) f h = tt

-- The packet is queued, and nothing else is changed but the packet id.
pub subscribe_announced :
    (t : Text) (s : Impl) → SendsOne s → Ensures (IsKept s) (announce s.state (send_subscribe t) s)
unfolding send_subscribe
subscribe_announced t s h = at s.connection refl
  where
    at :
        (o : Option Connection)
        → s.connection ≡ o
        → Ensures (IsKept s) (announce s.state (send_subscribe t) s)
    at none e = ground arith
    at (some c) e = ground (arith, λ (k : s.state ≡ State.connected). h k c e)

pub unsubscribe_announced :
    (t : Text) (s : Impl)
    → SendsOne s
    → Ensures (IsKept s) (announce s.state (send_unsubscribe t) s)
unfolding send_unsubscribe
unsubscribe_announced t s h = at s.connection refl
  where
    at :
        (o : Option Connection)
        → s.connection ≡ o
        → Ensures (IsKept s) (announce s.state (send_unsubscribe t) s)
    at none e = ground arith
    at (some c) e = ground (arith, λ (k : s.state ≡ State.connected). h k c e)
