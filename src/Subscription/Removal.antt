-- ===== src/Subscription/Removal.antt =====
-- What `unsubscribe` does to the tree.
use true_mqtt_cpp.Base.{
  ◌≡◌, refl, ◌≢◌, none, some, List, [], ◌∷◌, Text, text_eq, text_eq→eq, if◌then◌else◌, arith,
  Bool-cases, Option-cases, inl, inr, sym,
}
use true_mqtt_cpp.Subscription.{
  SubscriptionPart, part, Children, nil, child, children, callbacks, find, modify, prune,
  remove_next, clear_callbacks, clear_path, remove, callbacks_of, children_of,
}
use true_mqtt_cpp.Subscription.Lookup.{
  callbacks_at, callbacks_at-nil, filter_eq, find-modify, find-erase,
}

-- The empty text is never erased, so its node stays, and holds nothing.
emptied :
    (p j : Text) (cs : Children) (node : SubscriptionPart)
    → find p cs ≡ some node
    → (callbacks_of (find j (prune p (modify p (λ _. part nil []) cs)))
        ≡ (if text_eq p j then [] else callbacks_of (find j cs)))
      × (children_of (find j (prune p (modify p (λ _. part nil []) cs)))
          ≡ (if text_eq p j then nil else children_of (find j cs)))
emptied [] j cs node found =
    rw (find-modify [] j (λ _. part nil []) cs, found) (ground arith, ground arith)
emptied (c ∷ k) j cs node found =
    rw
      (
        find-erase (c ∷ k) j (modify (c ∷ k) (λ _. part nil []) cs),
        find-modify (c ∷ k) j (λ _. part nil []) cs,
        found,
      )
      (ground arith, ground arith)

-- A node of the map is changed to `after`, and is then erased if that is empty and its part is not.
module _ (p j : Text) (cs : Children) (node : SubscriptionPart)
    (found : find p cs ≡ some node) where
  kept :
      (after : SubscriptionPart)
      → find j (modify p (λ _. after) cs) ≡ (if text_eq p j then some after else find j cs)
  kept after = rw (find-modify p j (λ _. after) cs, found)

  find_settled_callbacks :
      (after : SubscriptionPart)
      → callbacks_of (find j (prune (remove_next p after) (modify p (λ _. after) cs)))
        ≡ (if text_eq p j then callbacks after else callbacks_of (find j cs))
  find_settled_callbacks (part nil []) = (emptied p j cs node found).0
  find_settled_callbacks (part nil (c ∷ cbs)) = rw (kept (part nil (c ∷ cbs))) (ground arith)
  find_settled_callbacks (part (child k s ds) cbs) =
      rw (kept (part (child k s ds) cbs)) (ground arith)

  find_settled_children :
      (after : SubscriptionPart)
      → children_of (find j (prune (remove_next p after) (modify p (λ _. after) cs)))
        ≡ (if text_eq p j then children after else children_of (find j cs))
  find_settled_children (part nil []) = (emptied p j cs node found).1
  find_settled_children (part nil (c ∷ cbs)) = rw (kept (part nil (c ∷ cbs))) (ground arith)
  find_settled_children (part (child k s ds) cbs) =
      rw (kept (part (child k s ds) cbs)) (ground arith)

-- A step of `clear_path` that succeeds, taken apart.
abbrev Settled : Text → Children → SubscriptionPart → Children → Text → Type 0
Settled p cs left after k = (after ≡ modify p (λ _. left) cs) × (k ≡ remove_next p left)

clear_path_last :
    (p : Text) (cs after : Children) (k : Text)
    → clear_path (p ∷ []) cs ≡ some (after, k)
    → (node : SubscriptionPart) × (find p cs ≡ some node)
      × Settled p cs (clear_callbacks node) after k
unfolding clear_path
clear_path_last p cs after k h = elim (Option-cases (find p cs)) [
  | inl e ↦ absurd (ground (arith, e, h))
  | inr (node, e) ↦ (node, e, ground (arith, e, h))
]

clear_path_above :
    (p q : Text) (ps : List Text) (cs after : Children) (k : Text)
    → clear_path (p ∷ q ∷ ps) cs ≡ some (after, k)
    → (node : SubscriptionPart) × (below : Children × Text) × (find p cs ≡ some node)
      × (clear_path (q ∷ ps) (children node) ≡ some below)
      × Settled p cs (part (prune below.1 below.0) (callbacks node)) after k
unfolding clear_path
clear_path_above p q ps cs after k h = elim (Option-cases (find p cs)) [
  | inl e ↦ absurd (ground (arith, e, h))
  | inr (node, e) ↦ elim (Option-cases (clear_path (q ∷ ps) (children node))) [
    | inl e' ↦ absurd (ground (arith, e, e', h))
    | inr (below, e') ↦ (node, below, e, e', ground (arith, e, e', h))
  ]
]

cleared_callbacks : (node : SubscriptionPart) → callbacks (clear_callbacks node) ≡ []
cleared_callbacks (part cs cbs) = refl

cleared_children : (node : SubscriptionPart) → children (clear_callbacks node) ≡ children node
cleared_children (part cs cbs) = refl

-- What `clear_path` leaves, once the pending erasure is made.
clear_path_lem :
    (ps qs : List Text) (cs after : Children) (k : Text)
    → clear_path ps cs ≡ some (after, k)
    → callbacks_at qs (prune k after) ≡ (if filter_eq ps qs then [] else callbacks_at qs cs)
unfolding clear_path callbacks_at filter_eq
clear_path_lem [] qs cs after k h = cc
clear_path_lem (p ∷ []) [] cs after k h = refl
clear_path_lem (p ∷ q ∷ ps) [] cs after k h = refl
clear_path_lem (p ∷ []) (r ∷ []) cs after k h =
    let (node, e, (ea, ek)) = clear_path_last p cs after k h in
    rw (ea, ek, find_settled_callbacks p r cs node e (clear_callbacks node), cleared_callbacks node)
      (ground arith)
clear_path_lem (p ∷ []) (r ∷ s ∷ qs) cs after k h =
    let (node, e, (ea, ek)) = clear_path_last p cs after k h in
    rw (ea, ek, find_settled_children p r cs node e (clear_callbacks node), cleared_children node)
      (ground (arith, text_eq→eq p r, e))
clear_path_lem (p ∷ q ∷ ps) (r ∷ []) cs after k h =
    let (node, below, e, e', (ea, ek)) = clear_path_above p q ps cs after k h in
    rw
      (ea, ek, find_settled_callbacks p r cs node e (part (prune below.1 below.0) (callbacks node)))
      (ground (arith, text_eq→eq p r, e))
clear_path_lem (p ∷ q ∷ ps) (r ∷ s ∷ qs) cs after k h =
    let (node, below, e, e', (ea, ek)) = clear_path_above p q ps cs after k h in
    let ih = clear_path_lem (q ∷ ps) (s ∷ qs) (children node) below.0 below.1 e' in
    rw (ea, ek, find_settled_children p r cs node e (part (prune below.1 below.0) (callbacks node)))
      (elim (Bool-cases (text_eq p r)) [
        | inl same ↦ rw (same, ih, sym (text_eq→eq p r same), e) refl
        | inr other ↦ rw other refl
      ])

-- Where `unsubscribe` goes through, no callback is left at its filter, and every other filter has the
-- callbacks that it had.
pub callbacks_at-remove :
    (ps qs : List Text) (cs after : Children)
    → remove ps cs ≡ some after
    → callbacks_at qs after ≡ (if filter_eq ps qs then [] else callbacks_at qs cs)
unfolding remove
callbacks_at-remove ps qs cs after h = elim (Option-cases (clear_path ps cs)) [
  | inl e ↦ absurd (ground (arith, e, h))
  | inr ((cs', k), e) ↦
      let ea : after ≡ prune k cs' = ground (arith, e, h) in rw ea (clear_path_lem ps qs cs cs' k e)
]

-- A filter that has a callback can be removed: no part of it is missing.
clear_path-ne-none :
    (ps : List Text) (cs : Children) → callbacks_at ps cs ≢ [] → clear_path ps cs ≢ none
unfolding clear_path callbacks_at
clear_path-ne-none [] cs h = absurd (h refl)
clear_path-ne-none (p ∷ []) cs h = ground arith
clear_path-ne-none (p ∷ q ∷ ps) cs h = elim (Option-cases (find p cs)) [
  | inl e ↦ absurd (h (rw e (callbacks_at-nil (q ∷ ps))))
  | inr (node, e) ↦
      let ih = clear_path-ne-none (q ∷ ps) (children node) (rw e at h) in ground (arith, e)
]

-- `unsubscribe` dereferences no end iterator where the filter has a callback.
pub remove-ne-none :
    (ps : List Text) (cs : Children) → callbacks_at ps cs ≢ [] → remove ps cs ≢ none
unfolding remove
remove-ne-none ps cs h = let k = clear_path-ne-none ps cs h in ground (arith, k)

-- On an empty tree every look-up of `unsubscribe` ends at the end iterator.
pub remove-nil : (ps : List Text) → remove ps nil ≡ none
unfolding remove clear_path
remove-nil [] = refl
remove-nil (p ∷ []) = refl
remove-nil (p ∷ q ∷ ps) = refl
