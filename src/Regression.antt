-- ===== src/Regression.antt =====
-- regression/main.cpp: the regression test. Two clients, the broker between them, and the counters
-- that the callbacks of the first client add to. A step of the test fails where a CHECK does, or where a
-- call faults. The messages that the test waits for are passed on to the clients by a script, whatever
-- the clients have sent; the texts of the log are left out, and what the callbacks have counted stands for the waiting loops.
pub mod Cases
pub mod Passing
use true_mqtt_cpp.Base.{
  ℕ, ◌+◌, Bool, true, false, not, ◌&&◌, Option, none, some, List, [], ◌∷◌, ◌++◌, Text, text_eq,
  ◌==◌, if◌then◌else◌,
}
use true_mqtt_cpp.Client.{PublishQueueType, Call, Impl, Result, ok, fault, new_impl}
use true_mqtt_cpp.Handlers.{is_connected, publish}
use true_mqtt_cpp.Handlers.Lifecycle.{Operation, run}
use true_mqtt_cpp.Pubsub.{codes}

pub record Test : Type 0 where
  pub client1 : Impl
  pub client2 : Impl
  pub received : ℕ
  pub received2 : ℕ

-- A part of the test, and some parts one after the other.
abbrev pub Step : Type 0
Step = Test → Option Test

abbrev pub and_then : Option Test → Step → Option Test
and_then none step = none
and_then (some t) step = step t

abbrev pub steps : List Step → Step
steps [] t = some t
steps (step ∷ more) t = and_then (step t) (steps more)

abbrev pub topic : Text → Text
topic name = codes "regression/" ++ name

abbrev pub topic1 : Text
topic1 = topic (codes "topic1")

abbrev pub topic2 : Text
topic2 = topic (codes "topic2")

abbrev pub topic3 : Text
topic3 = topic (codes "topic3/1")

abbrev pub topic4 : Text
topic4 = topic (codes "topic4/2")

abbrev pub check : Bool → Step
check true t = some t
check false t = none

-- A call of a function of a client.
abbrev pub left_in : (Impl → Test) → Result (Unit {0} × Impl) → Option Test
left_in put (ok (u, s)) = some (put s)
left_in put (fault e) = none

abbrev pub by_client1 : Operation → Step
by_client1 op t = left_in (λ s. record t { client1 = s }) (run op t.client1)

abbrev pub by_client2 : Operation → Step
by_client2 op t = left_in (λ s. record t { client2 = s }) (run op t.client2)

-- `CHECK(client.publish(topic, text, false) == expected)`
abbrev published : Bool → (Impl → Test) → Result (Bool × Impl) → Option Test
published true put (ok (true, s)) = some (put s)
published true put (ok (false, s)) = none
published false put (ok (true, s)) = none
published false put (ok (false, s)) = some (put s)
published expected put (fault e) = none

abbrev pub check_publish1 : Bool → Text → Text → Step
check_publish1 expected name text t =
    published expected (λ s. record t { client1 = s }) (publish name text false t.client1)

abbrev pub check_publish2 : Bool → Text → Text → Step
check_publish2 expected name text t =
    published expected (λ s. record t { client2 = s }) (publish name text false t.client2)

-- The bodies of the callbacks, numbered in the order in which the test subscribes them: 1 for topic1, 2
-- for topic2, 3 for '+' and 4 for '#'. Any other does nothing.
unfoldable pub hear : ℕ → Text → Step
unfolding text_eq
hear callback name t =
    if callback == 1
    then check (text_eq name topic1) (record t { received = t.received + 1 })
    else if callback == 2
    then check (text_eq name topic2) (record t { received2 = t.received2 + 1 })
    else if callback == 3
    then check (text_eq name topic3) (record t { received = t.received + 1 })
    else if callback == 4
    then check (text_eq name (if t.received2 == 0 then topic3 else topic4))
        (record t { received2 = t.received2 + 1 })
    else some t

abbrev hear_all : List Call → Step
hear_all [] t = some t
hear_all (Call.message_arrived callback name text ∷ calls) t =
    and_then (hear callback name t) (hear_all calls)
hear_all (Call.state_changed state ∷ calls) t = hear_all calls t
hear_all (Call.error_raised error text ∷ calls) t = hear_all calls t

-- The broker passes a message on to the first client, and the callbacks that are called run.
abbrev pub pass_on : Text → Text → Step
pass_on name text t =
    and_then
      (left_in (λ s. record t { client1 = s })
        (run (Operation.receives name text) (record t.client1 { calls = [] })))
      (λ u. hear_all u.client1.calls u)

-- The end of a loop that waits for a counter, which is reset.
abbrev pub wait_received : ℕ → Step
wait_received n t = check (t.received == n) (record t { received = 0 })

abbrev pub wait_received2 : ℕ → Step
wait_received2 n t = check (t.received2 == n) (record t { received2 = 0 })

abbrev pub require_none : Step
require_none t = check ((t.received == 0) && (t.received2 == 0)) t

abbrev pub start : Test
start = record {
  client1 = new_impl (codes "client-1") 5000 1000 30000 30000;
  client2 = new_impl (codes "client-2") 5000 1000 30000 30000;
  received = 0;
  received2 = 0;
}
