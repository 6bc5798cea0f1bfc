-- ===== src/Handlers/Queue.antt =====
-- The publish queue of src/Client.cpp: what `toPublishQueue` keeps.
use true_mqtt_cpp.Base.{
  ℕ, suc, ◌-◌, ◌≤◌, ◌<◌, ◌≡◌, refl, ◌≢◌, Bool, true, false, List, [], ◌∷◌, ◌++◌, Text, leb,
  if◌then◌else◌, length, take, drop, arith, length-append, ap, sym, ◌∙◌, take-append,
}
use native.Mathlib.Decide.{dec_lt}
use mathlib.Core.List.{append_assoc, append-nil}
use true_mqtt_cpp.Client.{State, PublishQueueType, Message, Impl, Fault, ok, fault, M, pure, ◌>>=◌}
use true_mqtt_cpp.Handlers.{init, publish}

-- The last n messages.
abbrev pub last : ℕ → List Message → List Message
last n ms = drop (length ms - n) ms

-- The calls of `publish` for a list of messages, one after the other.
unfoldable pub publish_all : List Message → M (Unit {0})
publish_all [] = pure tt
publish_all (m ∷ ms) = publish m.topic m.message m.retain >>= λ _. publish_all ms

-- A client that is connecting, with a queue of a type and a size.
pub record IsQueueing (queue_type : PublishQueueType) (size : ℕ) (queue : List Message) (s : Impl)
    : Type 0 where
  pub is_connecting : s.state ≡ State.connecting
  pub has_type : s.publish_queue_type ≡ queue_type
  pub has_size : s.publish_queue_size ≡ size
  pub holds : s.publish_queue ≡ queue

abbrev pub with_queue : List Message → Impl → Impl
with_queue queue s = record s { publish_queue = queue }

with_queue-IsQueueing :
    {queue_type : PublishQueueType} {size : ℕ} {queue : List Message} {s : Impl}
    (queue' : List Message)
    → IsQueueing queue_type size queue s
    → IsQueueing queue_type size queue' (with_queue queue' s)
with_queue-IsQueueing queue' q = record {
  is_connecting = q.is_connecting;
  has_type = q.has_type;
  has_size = q.has_size;
  holds = refl;
}

publish_fifo_room :
    (m : Message) (n : ℕ) (queue : List Message) (s : Impl)
    → IsQueueing PublishQueueType.fifo n queue s
    → length queue < n
    → publish m.topic m.message m.retain s ≡ ok (true, with_queue (queue ++ (m ∷ [])) s)
unfolding publish
publish_fifo_room m n queue s q h = ground arith

publish_fifo_full :
    (m x : Message) (n : ℕ) (queue : List Message) (s : Impl)
    → IsQueueing PublishQueueType.fifo n (x ∷ queue) s
    → n ≤ length (x ∷ queue)
    → publish m.topic m.message m.retain s ≡ ok (true, with_queue (queue ++ (m ∷ [])) s)
unfolding publish
publish_fifo_full m x n queue s q h = ground arith

last_cons : (n : ℕ) (m : Message) (ms : List Message) → n ≤ length ms → last n (m ∷ ms) ≡ last n ms
last_cons n m ms h = let e : length (m ∷ ms) - n ≡ suc (length ms - n) = omega arith in rw e refl

last_all : (n : ℕ) (ms : List Message) → length ms ≤ n → last n ms ≡ ms
last_all n ms h = let e : length ms - n ≡ 0 = omega arith in rw e refl

with_queue_self :
    (queue : List Message) (s : Impl) → s.publish_queue ≡ queue → s ≡ with_queue queue s
with_queue_self queue s e = ground arith

publish_all_nil : (s : Impl) → publish_all [] s ≡ ok (tt, s)
unfolding publish_all
publish_all_nil s = refl

publish_all_cons :
    (m : Message) (ms queue : List Message) (s : Impl)
    → publish m.topic m.message m.retain s ≡ ok (true, with_queue queue s)
    → publish_all (m ∷ ms) s ≡ publish_all ms (with_queue queue s)
unfolding publish_all
publish_all_cons m ms queue s e = rw e refl

-- While the client is connecting, a FIFO queue of n messages, n not 0, that holds no more than n, has
-- after any calls of `publish` the newest n of what it held and of what was published, oldest first; no
-- call faults.
pub publish_all-fifo :
    (ms : List Message) (n : ℕ) (queue : List Message) (s : Impl)
    → IsQueueing PublishQueueType.fifo n queue s
    → 0 < n
    → length queue ≤ n
    → publish_all ms s ≡ ok (tt, with_queue (last n (queue ++ ms)) s)
publish_all-fifo [] n queue s q pos h =
    rw (append-nil queue, last_all n queue h)
      (publish_all_nil s ∙ ap (λ (t : Impl). ok (tt, t)) (with_queue_self queue s q.holds))
publish_all-fifo (m ∷ ms) n [] s q pos h =
    publish_all_cons m ms (m ∷ []) s (publish_fifo_room m n [] s q pos)
    ∙ publish_all-fifo ms n (m ∷ []) (with_queue (m ∷ []) s) (with_queue-IsQueueing (m ∷ []) q) pos
        (omega arith)
publish_all-fifo (m ∷ ms) n (x ∷ queue) s q pos h = elim (dec_lt (length (x ∷ queue)) n) [
  | yes room ↦
      publish_all_cons m ms ((x ∷ queue) ++ (m ∷ [])) s (publish_fifo_room m n (x ∷ queue) s q room)
      ∙ publish_all-fifo ms n ((x ∷ queue) ++ (m ∷ [])) (with_queue ((x ∷ queue) ++ (m ∷ [])) s)
          (with_queue-IsQueueing ((x ∷ queue) ++ (m ∷ [])) q) pos
          (omega (arith, length-append (x ∷ queue) (m ∷ [])))
      ∙ ap (λ (ns : List Message). ok (tt, with_queue (last n ns) s))
          (append_assoc (x ∷ queue) (m ∷ []) ms)
  | no full ↦
      publish_all_cons m ms (queue ++ (m ∷ [])) s (publish_fifo_full m x n queue s q (omega arith))
      ∙ publish_all-fifo ms n (queue ++ (m ∷ [])) (with_queue (queue ++ (m ∷ [])) s)
          (with_queue-IsQueueing (queue ++ (m ∷ [])) q) pos
          (omega (arith, length-append queue (m ∷ [])))
      ∙ ap (λ (ns : List Message). ok (tt, with_queue ns s))
          (ap (last n) (append_assoc queue (m ∷ []) ms)
            ∙ sym (last_cons n x (queue ++ (m ∷ ms)) (omega (arith, length-append queue (m ∷ ms)))))
]

init-append : (front : List Message) (x : Message) → init (front ++ (x ∷ [])) ≡ front
unfolding init
init-append [] x = refl
init-append (y ∷ []) x = refl
init-append (y ∷ z ∷ front) x = ap (◌∷◌ y) (init-append (z ∷ front) x)

publish_lifo_room :
    (m : Message) (n : ℕ) (queue : List Message) (s : Impl)
    → IsQueueing PublishQueueType.lifo n queue s
    → length queue < n
    → publish m.topic m.message m.retain s ≡ ok (true, with_queue (queue ++ (m ∷ [])) s)
unfolding publish
publish_lifo_room m n queue s q h = ground arith

publish_lifo_full :
    (m x : Message) (n : ℕ) (queue : List Message) (s : Impl)
    → IsQueueing PublishQueueType.lifo n (x ∷ queue) s
    → n ≤ length (x ∷ queue)
    → publish m.topic m.message m.retain s ≡ ok (true, with_queue (init (x ∷ queue) ++ (m ∷ [])) s)
unfolding publish
publish_lifo_full m x n queue s q h = ground arith

publish_lifo_last :
    (m x : Message) (n : ℕ) (front : List Message) (s : Impl)
    → IsQueueing PublishQueueType.lifo n (front ++ (x ∷ [])) s
    → n ≤ suc (length front)
    → publish m.topic m.message m.retain s ≡ ok (true, with_queue (front ++ (m ∷ [])) s)
publish_lifo_last m x n [] s q h =
    publish_lifo_full m x n [] s q h
    ∙ ap (λ (ms : List Message). ok (true, with_queue (ms ++ (m ∷ [])) s)) (init-append [] x)
publish_lifo_last m x n (y ∷ front) s q h =
    publish_lifo_full m y n (front ++ (x ∷ [])) s q (omega (arith, length-append front (x ∷ [])))
    ∙ ap (λ (ms : List Message). ok (true, with_queue (ms ++ (m ∷ [])) s))
        (init-append (y ∷ front) x)

last_one : (m n : Message) (ms : List Message) → last 1 (m ∷ n ∷ ms) ≡ last 1 (n ∷ ms)
last_one m n ms = last_cons 1 m (n ∷ ms) (omega arith)

-- A full LIFO queue keeps all but its last message, and has the newest in its place.
publish_all-lifo_full :
    (ms : List Message) (n : ℕ) (front : List Message) (x : Message) (s : Impl)
    → IsQueueing PublishQueueType.lifo n (front ++ (x ∷ [])) s
    → n ≡ suc (length front)
    → publish_all ms s ≡ ok (tt, with_queue (front ++ last 1 (x ∷ ms)) s)
publish_all-lifo_full [] n front x s q h =
    publish_all_nil s
    ∙ ap (λ (t : Impl). ok (tt, t)) (with_queue_self (front ++ (x ∷ [])) s q.holds)
publish_all-lifo_full (m ∷ ms) n front x s q h =
    publish_all_cons m ms (front ++ (m ∷ [])) s (publish_lifo_last m x n front s q (omega arith))
    ∙ publish_all-lifo_full ms n front m (with_queue (front ++ (m ∷ [])) s)
        (with_queue-IsQueueing (front ++ (m ∷ [])) q) h
    ∙ ap (λ (ns : List Message). ok (tt, with_queue (front ++ ns) s)) (sym (last_one x m ms))

-- What a LIFO queue of n messages holds of a list of messages: all of them, if they fit; otherwise the
-- oldest n - 1, and the newest.
abbrev pub lifo_of : ℕ → List Message → List Message
lifo_of n ms = if leb (length ms) n then ms else take (n - 1) ms ++ last 1 ms

last_append :
    (queue : List Message) (m : Message) (ms : List Message)
    → last 1 (queue ++ (m ∷ ms)) ≡ last 1 (m ∷ ms)
last_append [] m ms = refl
last_append (x ∷ queue) m ms =
    last_cons 1 x (queue ++ (m ∷ ms)) (omega (arith, length-append queue (m ∷ ms)))
    ∙ last_append queue m ms

lifo_full :
    (n : ℕ) (queue : List Message) (m : Message) (ms : List Message)
    → n ≡ suc (length queue)
    → queue ++ last 1 (m ∷ ms) ≡ lifo_of n (queue ++ (m ∷ ms))
lifo_full n queue m [] h =
    let fits : leb (length (queue ++ (m ∷ []))) n ≡ true =
      ground (arith, length-append queue (m ∷ [])) in
    rw fits refl
lifo_full n queue m (k ∷ ms) h =
    let over : leb (length (queue ++ (m ∷ k ∷ ms))) n ≡ false =
      ground (arith, length-append queue (m ∷ k ∷ ms)) in
    let e : n - 1 ≡ length queue = omega arith in
    rw (over, e, take-append queue (m ∷ k ∷ ms), last_append queue m (k ∷ ms)) refl

-- While the client is connecting, a LIFO queue of n messages that has room for one holds what
-- `lifo_of n` says of what it held and what was published since; no call faults.
pub publish_all-lifo :
    (ms : List Message) (n : ℕ) (queue : List Message) (s : Impl)
    → IsQueueing PublishQueueType.lifo n queue s
    → length queue < n
    → publish_all ms s ≡ ok (tt, with_queue (lifo_of n (queue ++ ms)) s)
publish_all-lifo [] n queue s q h =
    let fits : leb (length queue) n ≡ true = ground arith in
    rw (append-nil queue, fits)
      (publish_all_nil s ∙ ap (λ (t : Impl). ok (tt, t)) (with_queue_self queue s q.holds))
publish_all-lifo (m ∷ ms) n queue s q h = elim (dec_lt (suc (length queue)) n) [
  | yes room ↦
      publish_all_cons m ms (queue ++ (m ∷ [])) s (publish_lifo_room m n queue s q h)
      ∙ publish_all-lifo ms n (queue ++ (m ∷ [])) (with_queue (queue ++ (m ∷ [])) s)
          (with_queue-IsQueueing (queue ++ (m ∷ [])) q)
          (omega (arith, length-append queue (m ∷ [])))
      ∙ ap (λ (ns : List Message). ok (tt, with_queue (lifo_of n ns) s))
          (append_assoc queue (m ∷ []) ms)
  | no full ↦
      publish_all_cons m ms (queue ++ (m ∷ [])) s (publish_lifo_room m n queue s q h)
      ∙ publish_all-lifo_full ms n queue m (with_queue (queue ++ (m ∷ [])) s)
          (with_queue-IsQueueing (queue ++ (m ∷ [])) q) (omega arith)
      ∙ ap (λ (ns : List Message). ok (tt, with_queue ns s)) (lifo_full n queue m ms (omega arith))
]

-- While the client is connecting, with an empty queue of size 0 that is not DROP, `publish` pops from an
-- empty deque.
pub publish_size_zero :
    (topic message : Text) (retain : Bool) (queue_type : PublishQueueType) (s : Impl)
    → IsQueueing queue_type 0 [] s
    → queue_type ≢ PublishQueueType.drop
    → publish topic message retain s ≡ fault Fault.pop_of_empty
unfolding publish
publish_size_zero topic message retain PublishQueueType.drop s q h = absurd (h refl)
publish_size_zero topic message retain PublishQueueType.fifo s q h = ground arith
publish_size_zero topic message retain PublishQueueType.lifo s q h = ground arith
