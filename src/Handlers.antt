-- ===== src/Handlers.antt =====
-- src/Client.cpp: the functions of the public interface, and those that the connection calls. Each runs
-- as a whole, under `m_state_mutex` but for the three setters, which take no lock. What a callback of the user does meanwhile is not modelled.
pub mod Queue
pub mod Validity
pub mod Opening
pub mod Lifecycle
pub mod Subscribed
pub mod Delivery
pub mod Resubscribe
pub mod Synced
pub mod Returning
pub mod Careful
pub mod Board
pub mod Announcing
pub mod Showing
pub mod Serving
pub mod Refinement
mod Examples
use true_mqtt_cpp.Base.{
  ℕ, Bool, true, false, not, Option, none, some, List, [], ◌∷◌, ◌++◌, Text, leb, if◌then◌else◌,
  length,
}
use true_mqtt_cpp.Subscription.{Children, parts, insert, remove, find_match}
use true_mqtt_cpp.Client.{
  State, PublishQueueType, Message, Call, Impl, Fault, M, Thread, pure, raise, gets, modifies, log,
  when, ◌>>=◌, ◌>>◌, impl_connect, impl_disconnect,
}
use true_mqtt_cpp.Client.Topics.{set_emplace, set_erase, set_contains}
use true_mqtt_cpp.Sender.{send_publish, send_subscribe, send_unsubscribe}

-- `m_state != DISCONNECTED`, the guard of the setters, of `connect` and (negated) of the others.
abbrev pub is_disconnected : State → Bool
is_disconnected State.disconnected = true
is_disconnected State.connecting = false
is_disconnected State.connected = false

abbrev pub is_connected : State → Bool
is_connected State.disconnected = false
is_connected State.connecting = false
is_connected State.connected = true

abbrev pub is_connecting : State → Bool
is_connecting State.disconnected = false
is_connecting State.connecting = true
is_connecting State.connected = false

unfoldable pub set_last_will : Text → Text → Bool → M (Unit {0})
set_last_will topic message retain = do
  state ← gets λ s. s.state
  when (is_disconnected state) (
      modifies λ s. record s {
        last_will_topic = topic;
        last_will_message = message;
        last_will_retain = retain;
      })

unfoldable pub set_publish_queue : PublishQueueType → ℕ → M (Unit {0})
set_publish_queue queue_type size = do
  state ← gets λ s. s.state
  when (is_disconnected state)
      (modifies λ s. record s { publish_queue_type = queue_type; publish_queue_size = size })

unfoldable pub set_send_queue : ℕ → M (Unit {0})
set_send_queue size = do
  state ← gets λ s. s.state
  when (is_disconnected state) (modifies λ s. record s { send_queue_size = size })

-- `m_state = state`, and the call of the state-change callback with it.
abbrev pub change_state : State → M (Unit {0})
change_state state = do modifies λ s. record s { state = state }; log (Call.state_changed state)

unfoldable pub connect : M (Unit {0})
unfolding impl_connect
connect = do
  state ← gets λ s. s.state
  when (is_disconnected state) (change_state State.connecting >> impl_connect)

-- Called by the user's threads only.
unfoldable pub disconnect : M (Unit {0})
unfolding impl_disconnect
disconnect = do
  state ← gets λ s. s.state
  when (not (is_disconnected state))
      (change_state State.disconnected >> impl_disconnect Thread.user)

-- `pop_front` and `pop_back`.
abbrev pub pop_front : List Message → M (List Message)
pop_front [] = raise Fault.pop_of_empty
pop_front (m ∷ ms) = pure ms

unfoldable pub init : List Message → List Message
init [] = []
init (m ∷ []) = []
init (m ∷ n ∷ ms) = m ∷ init (n ∷ ms)

abbrev pub pop_back : List Message → M (List Message)
pop_back [] = raise Fault.pop_of_empty
pop_back (m ∷ ms) = pure (init (m ∷ ms))

-- `emplace_back`
abbrev pub add_message : Message → List Message → M Bool
add_message m queue = do modifies λ s. record s { publish_queue = queue ++ (m ∷ []) }; pure true

abbrev pub is_full : Impl → Bool
is_full s = leb s.publish_queue_size (length s.publish_queue)

-- The `switch` on the type of the queue.
abbrev pub queue_message : PublishQueueType → Message → M Bool
queue_message PublishQueueType.drop m = pure false
queue_message PublishQueueType.fifo m = do
  full ← gets is_full
  queue ← gets λ s. s.publish_queue
  room ← if full then pop_front queue else pure queue
  add_message m room
queue_message PublishQueueType.lifo m = do
  full ← gets is_full
  queue ← gets λ s. s.publish_queue
  room ← if full then pop_back queue else pure queue
  add_message m room

unfoldable pub to_publish_queue : Text → Text → Bool → M Bool
to_publish_queue topic message retain = do
  state ← gets λ s. s.state
  queue_type ← gets λ s. s.publish_queue_type
  let m : Message = record { topic = topic; message = message; retain = retain }
  if is_connecting state then queue_message queue_type m else pure false

abbrev pub publish_in : State → Text → Text → Bool → M Bool
publish_in State.disconnected topic message retain = pure false
publish_in State.connecting topic message retain = to_publish_queue topic message retain
publish_in State.connected topic message retain = send_publish topic message retain

unfoldable pub publish : Text → Text → Bool → M Bool
unfolding to_publish_queue
publish topic message retain = do state ← gets λ s. s.state; publish_in state topic message retain

-- "Closing connection to broker and trying again".
abbrev pub restart : Thread → M (Unit {0})
restart thread = impl_disconnect thread >> impl_connect

-- The last step of `subscribe` and of `unsubscribe`: the packet, if there is a connection.
abbrev pub announce : State → M Bool → M (Unit {0})
announce State.disconnected send = pure tt
announce State.connecting send = pure tt
announce State.connected send = do sent ← send; when (not sent) (restart Thread.user)

unfoldable pub subscribe : Text → ℕ → M (Unit {0})
subscribe topic callback = do
  state ← gets λ s. s.state
  when (not (is_disconnected state)) do
    modifies λ s. record s {
      subscriptions = insert (parts topic) callback s.subscriptions;
      subscription_topics = set_emplace topic s.subscription_topics;
    }
    announce state (send_subscribe topic)

abbrev pub set_subscriptions : Option Children → M (Unit {0})
set_subscriptions none = raise Fault.end_iterator
set_subscriptions (some cs) = modifies λ s. record s { subscriptions = cs }

unfoldable pub unsubscribe : Text → M (Unit {0})
unsubscribe topic = do
  state ← gets λ s. s.state
  known ← gets λ s. set_contains topic s.subscription_topics
  when (not (is_disconnected state)) (
      when known do
        subscriptions ← gets λ s. s.subscriptions
        set_subscriptions (remove (parts topic) subscriptions)
        modifies λ s. record s { subscription_topics = set_erase topic s.subscription_topics }
        announce state (send_unsubscribe topic))

-- The loop over `m_subscription_topics`; false is its early return. It runs on the read thread.
unfoldable pub resubscribe : List Text → M Bool
resubscribe [] = pure true
resubscribe (topic ∷ topics) = do
  sent ← send_subscribe topic
  let rest = resubscribe topics
  if sent then rest else (restart Thread.reader >> pure false)

-- The loop over `m_publish_queue`.
unfoldable pub flush : List Message → M (Unit {0})
flush [] = pure tt
flush (m ∷ ms) = do
  sent ← send_publish m.topic m.message m.retain
  let rest = flush ms
  if sent then rest else pure tt

unfoldable pub connection_state_change : Bool → M (Unit {0})
connection_state_change true = do
  change_state State.connected
  topics ← gets λ s. s.subscription_topics
  done ← resubscribe topics
  when done do
    queue ← gets λ s. s.publish_queue
    flush queue
    modifies λ s. record s { publish_queue = [] }
connection_state_change false = change_state State.connecting

-- The calls of the callbacks that match.
abbrev pub arrivals : List ℕ → Text → Text → List Call
arrivals [] topic message = []
arrivals (cb ∷ cbs) topic message =
    Call.message_arrived cb topic message ∷ arrivals cbs topic message

unfoldable pub message_received : Text → Text → M (Unit {0})
message_received topic message = do
  state ← gets λ s. s.state
  when (is_connected state) (
      modifies λ s. record s {
        calls = s.calls ++ arrivals (find_match (parts topic) s.subscriptions) topic message;
      })
