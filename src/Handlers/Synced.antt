-- ===== src/Handlers/Synced.antt =====
-- The flat list of topics and the tree of subscriptions of src/Client.cpp agree.
use true_mqtt_cpp.Base.{
  ℕ, ◌≡◌, ◌≢◌, inl, inr, true, some, List, [], ◌∷◌, ◌++◌, Text, arith, Bool-cases, text_eq,
  text_eq→eq, text_eq_self, ap,
}
use true_mqtt_cpp.Subscription.{Children, parts, insert, remove}
use true_mqtt_cpp.Subscription.Parts.{parts-ne-nil, parts-injective}
use true_mqtt_cpp.Subscription.Lookup.{
  callbacks_at, filter_eq, filter_eq_iff, filter_eq_self, callbacks_at-insert,
}
use true_mqtt_cpp.Subscription.Removal.{callbacks_at-remove}
use true_mqtt_cpp.Client.{Impl}
use true_mqtt_cpp.Client.Topics.{set_emplace, set_erase, set_contains}
use true_mqtt_cpp.Client.Topics.Sorted.{IsSorted, set_contains-set_emplace, set_contains-set_erase}

-- The flat list is a set, and each of its topics has a callback in the tree.
abbrev pub HasCallbacks : List Text → Children → Type 0
HasCallbacks topics cs = (t : Text) → set_contains t topics ≡ true → callbacks_at (parts t) cs ≢ []

pub record IsSynced (s : Impl) : Type 0 where
  pub sorted : IsSorted s.subscription_topics
  pub synced : HasCallbacks s.subscription_topics s.subscriptions

append-ne-nil : (xs : List ℕ) (x : ℕ) → xs ++ (x ∷ []) ≢ []
append-ne-nil [] x e = cc
append-ne-nil (y ∷ xs) x e = cc

pub insert-HasCallbacks :
    (topic : Text) (cb : ℕ) (topics : List Text) (cs : Children)
    → HasCallbacks topics cs
    → HasCallbacks (set_emplace topic topics) (insert (parts topic) cb cs)
insert-HasCallbacks topic cb topics cs v t k =
    let at = callbacks_at-insert (parts topic) (parts t) cb cs (parts-ne-nil topic) in
    let more = append-ne-nil (callbacks_at (parts t) cs) cb in
    elim (Bool-cases (filter_eq (parts topic) (parts t))) [
      | inl e ↦ rw (at, e) more
      | inr e ↦
          rw (at, e)
            (v t (elim (Bool-cases (text_eq topic t)) [
              | inl same ↦
                  absurd (cc (e, filter_eq_self (parts topic), ap parts (text_eq→eq topic t same)))
              | inr other ↦ ground (arith, k, other, set_contains-set_emplace topic t topics)
            ]))
    ]

pub remove-HasCallbacks :
    (topic : Text) (topics : List Text) (cs after : Children)
    → IsSorted topics
    → remove (parts topic) cs ≡ some after
    → HasCallbacks topics cs
    → HasCallbacks (set_erase topic topics) after
remove-HasCallbacks topic topics cs after o h v t k =
    let at = callbacks_at-remove (parts topic) (parts t) cs after h in
    let still = set_contains-set_erase topic t topics o in
    elim (Bool-cases (filter_eq (parts topic) (parts t))) [
      | inl e ↦
          let same = parts-injective topic t (filter_eq_iff (parts topic) (parts t) e) in
          absurd (ground (arith, k, still, same, text_eq_self t))
      | inr e ↦ rw (at, e) (v t (ground (arith, k, still)))
    ]
