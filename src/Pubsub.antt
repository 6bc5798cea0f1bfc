-- ===== src/Pubsub.antt =====
-- example/pubsub/main.cpp: a client that hears its own message. The callbacks are numbered in the
-- order in which the program subscribes them. What its logger and its error callback print is left out.
pub mod Ending
use true_mqtt_cpp.Base.{
  ℕ, ◌+◌, true, false, List, [], ◌∷◌, ◌++◌, Text, take, drop, ◌==◌, if◌then◌else◌,
}
use Prim.Native.String.{String}
use Prim.Native.String
use Prim.Native.Char.{code}
use true_mqtt_cpp.Client.{PublishQueueType, Call, Impl, new_impl}
use true_mqtt_cpp.Handlers.Lifecycle.{Operation}

-- The bytes of an ASCII text.
abbrev pub codes : String → Text
codes String.[] = []
codes (String.◌∷◌ c s) = code c ∷ codes s

-- The client, with the default times of the constructor.
abbrev pub test_client : Impl
test_client = new_impl (codes "test") 5000 1000 30000 30000

abbrev pub exact_topic : Text
exact_topic = codes "example/pubsub/test/subtest"

abbrev pub single_wildcard_topic : Text
single_wildcard_topic = codes "example/pubsub/+/subtest"

abbrev pub multi_wildcard_topic : Text
multi_wildcard_topic = codes "example/pubsub/test/#"

abbrev pub discarded_topic : Text
discarded_topic = codes "example/pubsub/test/+"

-- The calls up to `connect`, and those from there to the loop, with the text to publish.
abbrev pub before_connect : List Operation
before_connect =
    Operation.sets_publish_queue PublishQueueType.fifo 10
    ∷ Operation.sets_last_will (codes "example/pubsub/lastwill") (codes "example pubsub finished")
        true
    ∷ Operation.connects
    ∷ []

abbrev pub behind_connect : Text → List Operation
behind_connect payload =
    Operation.subscribes exact_topic 1
    ∷ Operation.subscribes exact_topic 2
    ∷ Operation.subscribes single_wildcard_topic 3
    ∷ Operation.subscribes multi_wildcard_topic 4
    ∷ Operation.subscribes discarded_topic 5
    ∷ Operation.unsubscribes discarded_topic
    ∷ Operation.publishes exact_topic payload false
    ∷ []

-- The body of a callback: what it adds to `stop`.
unfoldable pub adds : ℕ → ℕ
adds callback = if callback == 5 then 0 else 1

-- `stop`, after these calls of callbacks.
unfoldable pub stop : List Call → ℕ
unfolding adds
stop [] = 0
stop (Call.message_arrived callback topic payload ∷ calls) = adds callback + stop calls
stop (Call.state_changed state ∷ calls) = stop calls
stop (Call.error_raised error text ∷ calls) = stop calls

-- The program up to its loop, where the connection is made behind the first n of its calls.
abbrev pub up_to_loop : ℕ → Text → List Operation
up_to_loop n payload =
    before_connect
    ++ (take n (behind_connect payload)
        ++ (Operation.changes_connection true ∷ drop n (behind_connect payload)))
