-- ===== src/Stress/Examples.antt =====
-- The program on a client that is still connecting.
use true_mqtt_cpp.Base.{◌≡◌, refl, some, List, [], ◌∷◌, text_eq}
use true_mqtt_cpp.Connection.{new_connection}
use true_mqtt_cpp.Subscription.{
  nil, parts, parts_loop, next_part, insert, emplace, find, find_match,
}
use true_mqtt_cpp.Client.{State, PublishQueueType, Impl}
use true_mqtt_cpp.Pubsub.{codes, test_client}
use true_mqtt_cpp.Stress.{Stress, Happening, loops, hears, stressed_topic, channel_topic}

abbrev ready : Impl
ready = record test_client {
  state = State.connecting;
  publish_queue_type = PublishQueueType.fifo;
  publish_queue_size = 100;
  connection = some (new_connection 1000);
}

abbrev stressed : Stress
stressed = record { client = ready; received = 0; sent = 0; failed = 0; start = 5; channel = 0 }

abbrev two_rounds : List Happening
two_rounds =
    loops 10 (codes "10") []
    ∷ hears (channel_topic 1, codes "10")
    ∷ loops 2000000 (codes "2000000") ((channel_topic 2, codes "20") ∷ [])
    ∷ []

-- The callback of the program hears a channel.
hears_channel : find_match (parts (channel_topic 7)) (insert (parts stressed_topic) 1 nil) ≡ 1 ∷ []
unfolding parts parts_loop next_part insert emplace find find_match text_eq
hears_channel = refl
