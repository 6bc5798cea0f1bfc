-- ===== src/Handlers/Showing.antt =====
-- Each function of src/Client.cpp does to the client what its call does to the board.
use true_mqtt_cpp.Base.{
  ℕ, ◌≡◌, refl, ◌≢◌, inl, inr, Bool, true, false, some, List, [], ◌∷◌, ◌++◌, Text, arith,
  Bool-cases, Option-cases, if◌then◌else◌, sym, ap, ◌∙◌,
}
use true_mqtt_cpp.Subscription.{Children, parts, remove}
use true_mqtt_cpp.Subscription.Parts.{parts-ne-nil}
use true_mqtt_cpp.Subscription.Lookup.{callbacks_at-nil, callbacks_at-insert}
use true_mqtt_cpp.Subscription.Removal.{callbacks_at-remove}
use true_mqtt_cpp.Client.{
  State, PublishQueueType, Message, Impl, Result, bind_result, ok, fault, pure,
}
use true_mqtt_cpp.Client.Topics.{set_contains}
use true_mqtt_cpp.Client.Topics.Sorted.{IsSorted, set_contains-set_emplace, set_contains-set_erase}
use true_mqtt_cpp.Sender.{send_publish}
use true_mqtt_cpp.Handlers.{
  is_disconnected, set_last_will, set_publish_queue, set_send_queue, connect, disconnect, publish,
  subscribe, unsubscribe, connection_state_change, message_received,
}
use true_mqtt_cpp.Handlers.Validity.{IsValid, Ensures}
use true_mqtt_cpp.Handlers.Subscribed.{disconnect_lem, subscribed, unsubscribed}
use true_mqtt_cpp.Handlers.Resubscribe.{restored, connection_state_change-restored}
use true_mqtt_cpp.Handlers.Lifecycle.{
  connects, disconnects, subscribes, unsubscribes, changes_connection,
}
use true_mqtt_cpp.Handlers.Returning.{SendsOne}
use true_mqtt_cpp.Handlers.Careful.{HasRoom}
use true_mqtt_cpp.Handlers.Announcing.{
  IsKept, Ensures-map, subscribe_announced, unsubscribe_announced,
}
use true_mqtt_cpp.Handlers.Board.{
  Board, step, without, Shows, entries_at-append, filter_eq-parts, entries_at-without,
  entries_at-none,
}

-- A client with the topics and the tree of `s`, and connected to the same extent.
abbrev IsSame : Impl → Impl → Type 0
IsSame s s' =
    (s'.subscription_topics ≡ s.subscription_topics)
    × (s'.subscriptions ≡ s.subscriptions)
    × (is_disconnected s'.state ≡ is_disconnected s.state)

same-Shows : (b : Board) (s s' : Impl) → IsSame s s' → Shows b s → Shows b s'
same-Shows b s s' (e, f, g) v = record {
  is_up = rw g v.is_up;
  same = λ h. rw f (v.same h);
  listed = λ t k. rw f (v.listed t (rw e at k));
}

Ensures-same :
    {A : Type 0} (b : Board) (s : Impl) (r : Result (A × Impl))
    → Shows b s
    → Ensures (IsSame s) r
    → Ensures (Shows b) r
Ensures-same b s (ok (a, s')) v h = same-Shows b s s' h v
Ensures-same b s (fault e) v h = tt

pub setters-Shows :
    (s : Impl) (b : Board)
    → Shows b s
    → ((t m : Text) (r : Bool) → Ensures (Shows b) (set_last_will t m r s))
      × ((q : PublishQueueType) (n : ℕ) → Ensures (Shows b) (set_publish_queue q n s))
      × ((n : ℕ) → Ensures (Shows b) (set_send_queue n s))
      × ((t m : Text) → Ensures (Shows b) (message_received t m s))
unfolding set_last_will set_publish_queue set_send_queue message_received
setters-Shows s b v = (
  (λ t m r. Ensures-same b s (set_last_will t m r s) v (ground arith)),
  (λ q n. Ensures-same b s (set_publish_queue q n s) v (ground arith)),
  (λ n. Ensures-same b s (set_send_queue n s) v (ground arith)),
  (λ t m. Ensures-same b s (message_received t m s) v (ground arith)),
)

-- A board that is not up takes no entry.
unmoved : (b after : Board) → b.up ≡ false → (if b.up then after else b) ≡ b
unmoved b after h = ap (λ (u : Bool). if u then after else b) h

moved : (b after : Board) → b.up ≡ true → (if b.up then after else b) ≡ after
moved b after h = ap (λ (u : Bool). if u then after else b) h

pub connect-Shows :
    (s : Impl) (b : Board) → Shows b s → Ensures (Shows (step connects b)) (connect s)
unfolding connect step
connect-Shows s b v = elim (Bool-cases (is_disconnected s.state)) [
  | inl e ↦ rw e (record { is_up = refl; same = v.same; listed = v.listed })
  | inr e ↦ rw e (record { is_up = rw e refl; same = v.same; listed = v.listed })
]

pub disconnect-Shows :
    (s : Impl) (b : Board) → Shows b s → Ensures (Shows (step disconnects b)) (disconnect s)
unfolding step disconnect
disconnect-Shows s b v = elim (Bool-cases (is_disconnected s.state)) [
  | inl e ↦ rw (e, unmoved b (record { up = false; entries = [] }) (rw e at v.is_up)) v
  | inr e ↦
      let up : b.up ≡ true = rw e at v.is_up in
      rw (up, disconnect_lem s (λ k. ground arith))
        (record {
          is_up = refl;
          same = λ f. callbacks_at-nil f;
          listed = λ t k. callbacks_at-nil (parts t);
        })
]

-- A PUBLISH leaves the tree and the flat list alone.
pub publish-Shows :
    (t m : Text) (r : Bool) (s : Impl) (b : Board)
    → Shows b s
    → Ensures (Shows b) (bind_result (publish t m r s) λ _. pure tt)
unfolding publish send_publish
publish-Shows t m r s b v =
    Ensures-same b s (bind_result (publish t m r s) λ _. pure tt) v (at s.publish_queue refl)
  where
    at :
        (queue : List Message)
        → s.publish_queue ≡ queue
        → Ensures (IsSame s) (bind_result (publish t m r s) λ _. pure tt)
    at [] e = ground arith
    at (n ∷ ms) e = ground arith

kept-IsSame : (s s' : Impl) → IsKept s s' → IsSame s s'
kept-IsSame s s' (e, f, g, _) = (e, f, ap is_disconnected g)

subscribed-Shows :
    (t : Text) (cb : ℕ) (s : Impl) (b : Board)
    → Shows b s
    → Shows (record b { entries = b.entries ++ ((t, cb) ∷ []) }) (subscribed t cb s)
subscribed-Shows t cb s b v = record {
  is_up = v.is_up;
  same = λ f. ground (
    arith,
    callbacks_at-insert (parts t) f cb s.subscriptions (parts-ne-nil t),
    entries_at-append f b.entries t cb,
    v.same f,
  );
  listed = λ u k. ground (
    arith,
    k,
    callbacks_at-insert (parts t) (parts u) cb s.subscriptions (parts-ne-nil t),
    set_contains-set_emplace t u s.subscription_topics,
    filter_eq-parts t u,
    v.listed u,
  );
}

pub subscribe-Shows :
    (t : Text) (cb : ℕ) (s : Impl) (b : Board)
    → SendsOne s
    → Shows b s
    → Ensures (Shows (step (subscribes t cb) b)) (subscribe t cb s)
unfolding subscribe step
subscribe-Shows t cb s b h v = elim (Bool-cases (is_disconnected s.state)) [
  | inl e ↦ rw (e, unmoved b _ (rw e at v.is_up)) v
  | inr e ↦
      let up : b.up ≡ true = rw e at v.is_up in
      rw (e, moved b _ up)
        (Ensures-same _ (subscribed t cb s) _ (subscribed-Shows t cb s b v) (
          Ensures-map _ (kept-IsSame (subscribed t cb s))
            (subscribe_announced t (subscribed t cb s) h)))
]

unsubscribed-Shows :
    (t : Text) (cs : Children) (s : Impl) (b : Board)
    → IsSorted s.subscription_topics
    → remove (parts t) s.subscriptions ≡ some cs
    → Shows b s
    → Shows (record b { entries = without t b.entries }) (unsubscribed t cs s)
unsubscribed-Shows t cs s b o found v = record {
  is_up = v.is_up;
  same = λ f. ground (
    arith,
    callbacks_at-remove (parts t) f s.subscriptions cs found,
    entries_at-without f t b.entries,
    v.same f,
  );
  listed = λ u k. ground (
    arith,
    k,
    callbacks_at-remove (parts t) (parts u) s.subscriptions cs found,
    set_contains-set_erase t u s.subscription_topics o,
    filter_eq-parts t u,
    v.listed u,
  );
}

-- A topic that is not on the flat list is not on the board.
unknown-Shows :
    (t : Text) (s : Impl) (b : Board)
    → set_contains t s.subscription_topics ≡ false
    → Shows b s
    → Shows (record b { entries = without t b.entries }) s
unknown-Shows t s b unknown v =
    let nothing = sym (v.same (parts t)) ∙ v.listed t unknown in
    record {
      is_up = v.is_up;
      same = λ f. v.same f ∙ sym (entries_at-none f t b.entries nothing);
      listed = v.listed;
    }

pub unsubscribe-Shows :
    (t : Text) (s : Impl) (b : Board)
    → SendsOne s
    → IsSorted s.subscription_topics
    → Shows b s
    → Ensures (Shows (step (unsubscribes t) b)) (unsubscribe t s)
unfolding unsubscribe step
unsubscribe-Shows t s b h o v = elim (Bool-cases (is_disconnected s.state)) [
  | inl e ↦ rw (e, unmoved b _ (rw e at v.is_up)) v
  | inr e ↦
      let up : b.up ≡ true = rw e at v.is_up in
      elim (Bool-cases (set_contains t s.subscription_topics)) [
        | inl known ↦ elim (Option-cases (remove (parts t) s.subscriptions)) [
          | inl lost ↦ rw (e, known, lost) tt
          | inr (cs, found) ↦
              rw (e, moved b _ up, known, found)
                (Ensures-same _ (unsubscribed t cs s) _ (unsubscribed-Shows t cs s b o found v) (
                  Ensures-map _ (kept-IsSame (unsubscribed t cs s))
                    (unsubscribe_announced t (unsubscribed t cs s) h)))
        ]
        | inr unknown ↦ rw (e, moved b _ up, unknown) (unknown-Shows t s b unknown v)
      ]
]

pub changes-Shows :
    (up : Bool) (s : Impl) (b : Board)
    → IsValid s
    → s.state ≢ State.disconnected
    → HasRoom (changes_connection up) s
    → Shows b s
    → Ensures (Shows b) (connection_state_change up s)
unfolding connection_state_change
changes-Shows false s b w p h v =
    Ensures-same b s (connection_state_change false s) v (ground arith)
changes-Shows true s b w p h v = elim (Option-cases s.connection) [
  | inl e ↦ absurd (ground arith)
  | inr (c, e) ↦
      rw (connection_state_change-restored c s e (h c e))
        (same-Shows b s (restored c s) (refl, refl, ground arith) v)
]
