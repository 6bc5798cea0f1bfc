-- ===== src/Stress.antt =====
-- example/stress/main.cpp: a client that publishes to ten channels without end, and hears itself. The
-- callback of the subscription has the number 1. The latency, which only the printed text has, the text
-- itself, the logger and the error callback are left out; the clock (in microseconds) and its text are
-- arguments.
pub mod Ready
pub mod Counts
mod Examples
use true_mqtt_cpp.Base.{
  ℕ, ◌+◌, ◌%◌, Bool, true, false, Option, none, some, List, [], ◌∷◌, ◌++◌, Text, ltb, if◌then◌else◌,
  length, drop,
}
use true_mqtt_cpp.Client.{PublishQueueType, Call, Impl, Result, ok, fault}
use true_mqtt_cpp.Handlers.{publish, message_received}
use true_mqtt_cpp.Handlers.Lifecycle.{Operation}
use true_mqtt_cpp.Pubsub.{codes}

abbrev pub stressed_topic : Text
stressed_topic = codes "example/stress/+"

-- The calls in front of the loop.
abbrev pub before_loop : List Operation
before_loop =
    Operation.sets_publish_queue PublishQueueType.fifo 100
    ∷ Operation.sets_last_will (codes "test/lastwill") (codes "example pubsub finished") true
    ∷ Operation.connects
    ∷ Operation.subscribes stressed_topic 1
    ∷ []

-- The client and the variables of `main`.
pub record Stress : Type 0 where
  pub client : Impl
  pub received : ℕ
  pub sent : ℕ
  pub failed : ℕ
  pub start : ℕ
  pub channel : ℕ

-- What is printed every second.
pub record Report : Type 0 where
  pub sent : ℕ
  pub received : ℕ
  pub failed : ℕ

-- "example/stress/" and the digit of a channel below 10.
abbrev pub channel_topic : ℕ → Text
channel_topic channel = codes "example/stress/" ++ ((48 + channel) ∷ [])

abbrev pub counted : Bool → Stress → Stress
counted true x = record x { sent = x.sent + 1 }
counted false x = record x { failed = x.failed + 1 }

-- A fault ends the program.
abbrev pub and_then : {A B : Type 0} → Result A → (A → Result B) → Result B
and_then (ok a) f = f a
and_then (fault e) f = fault e

-- The calls of the callback.
abbrev pub arrivals_in : List Call → ℕ
arrivals_in [] = 0
arrivals_in (Call.message_arrived callback topic payload ∷ calls) = 1 + arrivals_in calls
arrivals_in (Call.state_changed state ∷ calls) = arrivals_in calls
arrivals_in (Call.error_raised error text ∷ calls) = arrivals_in calls

-- A message on the read thread, with its topic and text, and what the callback counts.
unfoldable pub take_message : Text × Text → Stress → Result Stress
take_message m x = and_then (message_received m.0 m.1 x.client) λ heard. ok (record x {
  client = heard.1;
  received = x.received + arrivals_in (drop (length x.client.calls) (heard.1).calls);
})

unfoldable pub take_messages : List (Text × Text) → Stress → Result Stress
unfolding take_message
take_messages [] x = ok x
take_messages (m ∷ ms) x = and_then (take_message m x) (take_messages ms)

-- The second half of the loop's body. The messages of `between` come after the counter was printed and
-- before it is reset.
unfoldable pub report : ℕ → List (Text × Text) → Stress → Result (List Report × Stress)
unfolding take_messages
report now between x =
    if ltb (x.start + 1000000) now
    then (and_then (take_messages between x) λ y. ok (
      record { sent = x.sent; received = x.received; failed = x.failed } ∷ [],
      record y { sent = 0; received = 0; failed = 0; start = now },
    ))
    else ok ([], x)

abbrev pub next_channel : Stress → ℕ
next_channel x = (x.channel + 1) % 10

-- What `publish` returns in a round of the loop.
abbrev pub publish_round : Text → Stress → Result (Bool × Impl)
publish_round payload x = publish (channel_topic (next_channel x)) payload false x.client

-- The body of the loop.
unfoldable pub loop_round : ℕ → Text → List (Text × Text) → Stress → Result (List Report × Stress)
unfolding report
loop_round now payload between x = and_then (publish_round payload x) λ done_client.
    report now between
      (counted done_client.0 (record x { client = done_client.1; channel = next_channel x }))

-- A round of the loop, with the clock, its text and the messages that come while it reports; or a
-- message at another time.
pub data Happening : Type 0 where
  loops : ℕ → Text → List (Text × Text) → Happening
  hears : Text × Text → Happening

abbrev pub happen : Happening → Stress → Result (List Report × Stress)
happen (loops now payload between) x = loop_round now payload between x
happen (hears m) x = and_then (take_message m x) λ y. ok ([], y)

abbrev pub printed_with :
    List Report → Result (List Report × Stress) → Result (List Report × Stress)
printed_with reports r = and_then r λ more. ok (reports ++ more.0, more.1)

-- All that is printed, and what the variables are then.
unfoldable pub happen_all : List Happening → Stress → Result (List Report × Stress)
unfolding loop_round take_message
happen_all [] x = ok ([], x)
happen_all (e ∷ es) x = and_then (happen e x) λ r. printed_with r.0 (happen_all es r.1)
