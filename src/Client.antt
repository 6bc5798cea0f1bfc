-- ===== src/Client.antt =====
-- src/ClientImpl.h and the enumerations of include/TrueMQTT.h: what a client keeps, and the monad in
-- which its functions run.
-- The callbacks of the user are not run: `calls` logs the calls that are made of them, oldest first.
-- Logging is left out.
pub mod Topics
use true_mqtt_cpp.Base.{ℕ, Bool, true, false, Option, none, some, List, [], ◌∷◌, ◌++◌, Text}
use true_mqtt_cpp.Subscription.{Children, nil}
use true_mqtt_cpp.Connection.{Connection, new_connection}

pub data Error : Type 0 where
  hostname_lookup_failed subscribe_failed : Error

pub data PublishQueueType : Type 0 where
  drop fifo lifo : PublishQueueType

pub data State : Type 0 where
  disconnected connecting connected : State

pub record Message : Type 0 where
  pub topic : Text
  pub message : Text
  pub retain : Bool

-- A call of a callback of the user.
pub data Call : Type 0 where
  state_changed : State → Call
  error_raised : Error → Text → Call
  message_arrived : ℕ → Text → Text → Call

pub record Impl : Type 0 where
  pub state : State
  pub client_id : Text
  pub connection_timeout : ℕ
  pub connection_backoff : ℕ
  pub connection_backoff_max : ℕ
  pub keep_alive_interval : ℕ
  pub last_will_topic : Text
  pub last_will_message : Text
  pub last_will_retain : Bool
  pub publish_queue_type : PublishQueueType
  pub publish_queue_size : ℕ
  pub publish_queue : List Message
  pub send_queue_size : ℕ
  pub subscription_topics : List Text
  pub subscriptions : Children
  pub connection : Option Connection
  pub packet_id : ℕ
  pub calls : List Call

-- The constructor, with the initializers of the members.
unfoldable pub new_impl : Text → ℕ → ℕ → ℕ → ℕ → Impl
new_impl client_id timeout backoff backoff_max keep_alive = record {
  state = State.disconnected;
  client_id = client_id;
  connection_timeout = timeout;
  connection_backoff = backoff;
  connection_backoff_max = backoff_max;
  keep_alive_interval = keep_alive;
  last_will_topic = [];
  last_will_message = [];
  last_will_retain = false;
  publish_queue_type = PublishQueueType.drop;
  publish_queue_size = 0;
  publish_queue = [];
  send_queue_size = 1000;
  subscription_topics = [];
  subscriptions = nil;
  connection = none;
  packet_id = 0;
  calls = [];
}

-- What no C++ program may do: `pop_front` or `pop_back` of an empty deque, the use of an `end()`
-- iterator or of a null `m_connection`, and the `join` of a thread by itself.
pub data Fault : Type 0 where
  pop_of_empty end_iterator null_connection self_join : Fault

pub data Result {ℓ} (A : Type ℓ) : Type ℓ where
  ok : A → Result A
  fault : Fault → Result A

-- A function of the client: its result and the client that it leaves, or a fault.
abbrev pub M : Type 0 → Type 0
M A = Impl → Result (A × Impl)

abbrev pub bind_result : {A B : Type 0} → Result (A × Impl) → (A → M B) → Result (B × Impl)
bind_result (ok (a, s)) f = f a s
bind_result (fault e) f = fault e

infixl 5 ◌>>=◌ ◌>>◌
abbrev pub ◌>>=◌ : {A B : Type 0} → M A → (A → M B) → M B
◌>>=◌ m f s = bind_result (m s) f

abbrev pub ◌>>◌ : {B : Type 0} → M (Unit {0}) → M B → M B
m >> k = m >>= λ _. k

abbrev pub pure : {A : Type 0} → A → M A
pure a s = ok (a, s)

abbrev pub raise : {A : Type 0} → Fault → M A
raise e s = fault e

-- Reads a part of the client.
abbrev pub gets : {A : Type 0} → (Impl → A) → M A
gets f s = ok (f s, s)

-- Changes the client.
abbrev pub modifies : (Impl → Impl) → M (Unit {0})
modifies f s = ok (tt, f s)

abbrev pub log : Call → M (Unit {0})
log call = modifies λ s. record s { calls = s.calls ++ (call ∷ []) }

-- `if (test) body`, and the test of a branch.
abbrev pub when : Bool → M (Unit {0}) → M (Unit {0})
when true m = m
when false m = pure tt

-- The thread that runs a function: one of the user's, or the connection's read thread.
pub data Thread : Type 0 where
  user reader : Thread

-- `~Connection`, by `m_connection.reset()`: the destructor joins the two threads.
abbrev pub destroy : Thread → Option Connection → M (Unit {0})
destroy thread none = pure tt
destroy Thread.user (some c) = modifies λ s. record s { connection = none }
destroy Thread.reader (some c) = raise Fault.self_join

-- `Client::Impl::connect` and `Client::Impl::disconnect` of src/Connection.cpp.
unfoldable pub impl_connect : M (Unit {0})
unfolding new_connection
impl_connect = modifies λ s. record s { connection = some (new_connection s.connection_backoff) }

unfoldable pub impl_disconnect : Thread → M (Unit {0})
impl_disconnect thread = do
  modifies λ s. record s { subscriptions = nil; publish_queue = [] }
  connection ← gets λ s. s.connection
  destroy thread connection
