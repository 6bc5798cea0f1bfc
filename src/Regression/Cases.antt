-- ===== src/Regression/Cases.antt =====
-- The test cases of regression/main.cpp.
use true_mqtt_cpp.Base.{Bool, true, false, not, none, some, [], ◌∷◌, Text}
use true_mqtt_cpp.Client.{PublishQueueType, Impl, Result, ok, fault, new_impl}
use true_mqtt_cpp.Handlers.{is_connected}
use true_mqtt_cpp.Handlers.Lifecycle.{Operation, run}
use true_mqtt_cpp.Pubsub.{codes}
use true_mqtt_cpp.Regression.{
  Step, and_then, steps, topic, topic1, topic2, topic3, topic4, check, left_in, by_client1,
  by_client2, check_publish1, check_publish2, pass_on, wait_received, wait_received2, require_none,
}

-- The test cases, in order, with the text that is published. `early` says that the connection is made
-- before the call behind `connect`, and `forwards` that the broker passes messages on that the client
-- has unsubscribed from.
abbrev disconnected_case : Text → Step
disconnected_case text = steps (
    by_client2 (Operation.sets_publish_queue PublishQueueType.fifo 10)
    ∷ check_publish1 false topic1 text
    ∷ by_client1 (Operation.subscribes topic1 0)
    ∷ by_client1 (Operation.unsubscribes topic1)
    ∷ [])

abbrev subscribing_case : Bool → Step
subscribing_case true = steps (
    by_client1 Operation.connects
    ∷ by_client1 (Operation.changes_connection true)
    ∷ by_client1 (Operation.subscribes topic1 1)
    ∷ [])
subscribing_case false = steps (
    by_client1 Operation.connects
    ∷ by_client1 (Operation.subscribes topic1 1)
    ∷ by_client1 (Operation.changes_connection true)
    ∷ [])

abbrev publishing_case : Bool → Text → Step
publishing_case true text = steps (
    by_client2 Operation.connects
    ∷ by_client2 (Operation.changes_connection true)
    ∷ check_publish2 true topic1 text
    ∷ [])
publishing_case false text = steps (
    by_client2 Operation.connects
    ∷ check_publish2 true topic1 text
    ∷ by_client2 (Operation.changes_connection true)
    ∷ [])

abbrev arriving_case : Text → Step
arriving_case text = steps (pass_on topic1 text ∷ wait_received 1 ∷ [])

abbrev connected_case : Step
connected_case = by_client1 Operation.connects

abbrev four_case : Text → Step
four_case text = steps (
    check_publish2 true topic1 text
    ∷ check_publish2 true topic1 text
    ∷ check_publish2 true topic1 text
    ∷ check_publish2 true topic1 text
    ∷ pass_on topic1 text
    ∷ pass_on topic1 text
    ∷ pass_on topic1 text
    ∷ pass_on topic1 text
    ∷ wait_received 4
    ∷ [])

abbrev new_topic_case : Text → Step
new_topic_case text = steps (
    by_client1 (Operation.subscribes topic2 2)
    ∷ check_publish2 true topic2 text
    ∷ pass_on topic2 text
    ∷ wait_received2 1
    ∷ [])

abbrev pass_on_if : Bool → Text → Text → Step
pass_on_if false name text t = some t
pass_on_if true name text t = pass_on name text t

abbrev unsubscribing_case : Bool → Text → Step
unsubscribing_case forwards text = steps (
    by_client1 (Operation.unsubscribes topic1)
    ∷ by_client1 (Operation.unsubscribes topic2)
    ∷ check_publish2 true topic1 text
    ∷ check_publish2 true topic2 text
    ∷ pass_on_if forwards topic1 text
    ∷ pass_on_if forwards topic2 text
    ∷ require_none
    ∷ [])

abbrev wildcard_case : Text → Step
wildcard_case text = steps (
    by_client1 (Operation.subscribes (topic (codes "topic3/+")) 3)
    ∷ by_client1 (Operation.subscribes (topic (codes "#")) 4)
    ∷ check_publish2 true topic3 text
    ∷ check_publish2 true topic4 text
    ∷ pass_on topic3 text
    ∷ pass_on topic4 text
    ∷ wait_received 1
    ∷ wait_received2 2
    ∷ [])

abbrev unknown_case : Step
unknown_case = by_client1 (Operation.unsubscribes topic1)

abbrev disconnecting_case : Step
disconnecting_case = steps (
    by_client1 Operation.disconnects
    ∷ by_client2 Operation.disconnects
    ∷ by_client1 Operation.disconnects
    ∷ [])

-- A third client, whose broker does not answer.
abbrev no_broker : Result (Unit {0} × Impl) → Step
no_broker (fault e) t = none
no_broker (ok (u, s)) t =
    and_then (check (not (is_connected s.state)) t)
      (λ v. left_in (λ r. v) (run Operation.disconnects s))

abbrev no_broker_case : Step
no_broker_case =
    no_broker (run Operation.connects (new_impl (codes "client-3") 5000 1000 30000 30000))

unfoldable pub regression : Bool → Bool → Bool → Text → Step
regression early1 early2 forwards text = steps (
    disconnected_case text
    ∷ subscribing_case early1
    ∷ publishing_case early2 text
    ∷ arriving_case text
    ∷ connected_case
    ∷ four_case text
    ∷ new_topic_case text
    ∷ unsubscribing_case forwards text
    ∷ wildcard_case text
    ∷ unknown_case
    ∷ disconnecting_case
    ∷ no_broker_case
    ∷ [])
