-- ===== src/Handlers/Refinement.antt =====
-- The client of src/Client.cpp refines the board.
use true_mqtt_cpp.Base.{◌≡◌, refl, inl, inr, true, List, [], ◌∷◌, Text, bag}
use true_mqtt_cpp.Subscription.{parts, find_match}
use true_mqtt_cpp.Subscription.Counting.{is_plain}
use true_mqtt_cpp.Client.{Impl, ok}
use true_mqtt_cpp.Handlers.Validity.{IsValid, Result-cases, Ensures, Ensures-ok}
use true_mqtt_cpp.Handlers.Lifecycle.{
  Operation, sets_last_will, sets_publish_queue, sets_send_queue, connects, disconnects, publishes,
  subscribes, unsubscribes, changes_connection, receives, run, run-IsValid, IsPossible,
}
use true_mqtt_cpp.Handlers.Careful.{run_all}
use true_mqtt_cpp.Handlers.Serving.{IsServed, IsOrdered, served-Returns, AreServed}
use true_mqtt_cpp.Handlers.Board.{Board, step, replay, told, Shows, find_match-told}
use true_mqtt_cpp.Handlers.Showing.{
  setters-Shows, connect-Shows, disconnect-Shows, publish-Shows, subscribe-Shows, unsubscribe-Shows,
  changes-Shows,
}

run-Shows :
    (op : Operation) (s : Impl) (b : Board)
    → IsValid s
    → IsOrdered s
    → IsPossible op s
    → IsServed op s
    → Shows b s
    → Ensures (Shows (step op b)) (run op s)
unfolding run step
run-Shows (sets_last_will t m r) s b w o p h v = (setters-Shows s b v).0 t m r
run-Shows (sets_publish_queue q n) s b w o p h v = (setters-Shows s b v).1 q n
run-Shows (sets_send_queue n) s b w o p h v = (setters-Shows s b v).2 n
run-Shows (receives t m) s b w o p h v = (setters-Shows s b v).3 t m
run-Shows connects s b w o p h v = connect-Shows s b v
run-Shows disconnects s b w o p h v = disconnect-Shows s b v
run-Shows (publishes t m r) s b w o p h v = publish-Shows t m r s b v
run-Shows (subscribes t cb) s b w o p h v = subscribe-Shows t cb s b h v
run-Shows (unsubscribes t) s b w o p (h, there) v = unsubscribe-Shows t s b h o v
run-Shows (changes_connection up) s b w o p h v = changes-Shows up s b w p h v

run_all-Shows :
    (ops : List Operation) (s : Impl) (b : Board)
    → IsValid s
    → IsOrdered s
    → AreServed ops s
    → Shows b s
    → (t : Impl) × (run_all ops s ≡ ok (tt, t)) × Shows (replay ops b) t
unfolding replay
run_all-Shows [] s b w o c v = (s, refl, v)
run_all-Shows (op ∷ ops) s b w o (p, h, rest) v = elim (Result-cases (run op s)) [
  | inl ((u, s'), f) ↦
      let (t, e, shown) =
        run_all-Shows ops s' (step op b) (Ensures-ok IsValid (run op s) (run-IsValid op s w p) f)
          (rw f at (served-Returns op s w o p h)) (rest s' f)
          (Ensures-ok (Shows (step op b)) (run op s) (run-Shows op s b w o p h v) f) in
      (t, rw f e, shown)
  | inr (k, f) ↦ absurd (rw f at (served-Returns op s w o p h))
]

-- A client refines a board, the list of filters with their callbacks that the calls of `subscribe` and
-- `unsubscribe` write to and erase from, with no tree, no flat list and no connection. From a valid
-- client that shows a board and whose flat list is in order, calls that are made where they may be
-- return, and leave a client that shows what the calls make of the board, if each of them has what it
-- needs where it is made: `publish` a publish queue of type DROP or of size 1 at least, `subscribe` and
-- `unsubscribe` room in the send queue for their packet, `connectionStateChange(true)` room for all
-- topics, and `unsubscribe` from a topic of the flat list a callback for it in the tree, which
-- `disconnect` takes away. `disconnect` needs nothing. A topic of which no part is `+` or `#` is
-- delivered, in some order, to exactly the callbacks of the entries whose filter leads to it, each as
-- often as it has an entry: each part of the filter but the last is `+` or the part of the topic at
-- that place, and the last may also be `#`.
pub run_all-refines :
    (ops : List Operation) (s : Impl) (b : Board)
    → IsValid s
    → IsOrdered s
    → AreServed ops s
    → Shows b s
    → (t : Impl) × (run_all ops s ≡ ok (tt, t))
      × Shows (replay ops b) t
      × ((topic : Text)
          → is_plain (parts topic) ≡ true
          → bag (find_match (parts topic) t.subscriptions)
            ≡ bag (told topic (replay ops b).entries))
run_all-refines ops s b w o c v =
    let (t, e, shown) = run_all-Shows ops s b w o c v in
    (t, e, shown, λ topic h. find_match-told topic t.subscriptions _ shown.same h)
