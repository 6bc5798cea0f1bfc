-- ===== src/Subscription/Lookup.antt =====
-- What a tree holds, seen from outside: the callbacks at each filter, and how `subscribe` changes them.
use true_mqtt_cpp.Base.{
  ℕ, ◌≡◌, refl, ◌≢◌, Bool, true, false, ◌&&◌, Option, none, some, List, [], ◌∷◌, ◌++◌, Text,
  text_eq, text_eq_iff, text_eq→eq, text_eq_self, if◌then◌else◌, arith, Bool-cases, inl, inr,
}
use mathlib.Core.Option
use true_mqtt_cpp.Subscription.{
  SubscriptionPart, part, Children, nil, child, children, callbacks, find, emplace, modify, erase,
  insert, push_callback, on_children, callbacks_of, children_of,
}

-- The callbacks at the node that a filter leads to.
unfoldable pub callbacks_at : List Text → Children → List ℕ
unfolding find
callbacks_at [] cs = []
callbacks_at (p ∷ []) cs = callbacks_of (find p cs)
callbacks_at (p ∷ q ∷ ps) cs = callbacks_at (q ∷ ps) (children_of (find p cs))

-- `==` of two filters.
unfoldable pub filter_eq : List Text → List Text → Bool
unfolding text_eq
filter_eq [] [] = true
filter_eq [] (q ∷ qs) = false
filter_eq (p ∷ ps) [] = false
filter_eq (p ∷ ps) (q ∷ qs) = text_eq p q && filter_eq ps qs

abbrev pub or_empty : Option SubscriptionPart → SubscriptionPart
or_empty none = part nil []
or_empty (some s) = s

pub find-emplace :
    (k j : Text) (f : SubscriptionPart → SubscriptionPart) (cs : Children)
    → find j (emplace k f cs) ≡ (if text_eq k j then some (f (or_empty (find k cs))) else find j cs)
unfolding find emplace
find-emplace k j f nil = refl
find-emplace k j f (child i s cs) =
    ground (arith, text_eq_iff i k, text_eq_iff i j, text_eq_iff k j, find-emplace k j f cs)

pub find-modify :
    (k j : Text) (f : SubscriptionPart → SubscriptionPart) (cs : Children)
    → find j (modify k f cs) ≡ (if text_eq k j then Option.map f (find k cs) else find j cs)
unfolding find modify
find-modify k j f nil = ground arith
find-modify k j f (child i s cs) =
    ground (arith, text_eq_iff i k, text_eq_iff i j, text_eq_iff k j, find-modify k j f cs)

pub find-erase :
    (k j : Text) (cs : Children) → find j (erase k cs) ≡ (if text_eq k j then none else find j cs)
unfolding find erase
find-erase k j nil = ground arith
find-erase k j (child i s cs) =
    ground (arith, text_eq_iff i k, text_eq_iff i j, text_eq_iff k j, find-erase k j cs)

pub callbacks_at-nil : (ps : List Text) → callbacks_at ps nil ≡ []
unfolding callbacks_at
callbacks_at-nil [] = refl
callbacks_at-nil (p ∷ []) = refl
callbacks_at-nil (p ∷ q ∷ ps) = callbacks_at-nil (q ∷ ps)

-- Two filters with the same first part, behind it.
pub filter_eq_iff : (ps qs : List Text) → filter_eq ps qs ≡ true → ps ≡ qs
unfolding filter_eq
filter_eq_iff [] [] h = refl
filter_eq_iff [] (q ∷ qs) h = cc
filter_eq_iff (p ∷ ps) [] h = cc
filter_eq_iff (p ∷ ps) (q ∷ qs) h = ground (arith, text_eq→eq p q, filter_eq_iff ps qs)

pub filter_eq_self : (ps : List Text) → filter_eq ps ps ≡ true
unfolding filter_eq
filter_eq_self [] = refl
filter_eq_self (p ∷ ps) = ground (arith, text_eq_self p, filter_eq_self ps)

pushed_callbacks :
    (o : Option SubscriptionPart) (cb : ℕ)
    → callbacks (push_callback cb (or_empty o)) ≡ callbacks_of o ++ (cb ∷ [])
pushed_callbacks none cb = refl
pushed_callbacks (some (part cs cbs)) cb = refl

pushed_children :
    (o : Option SubscriptionPart) (cb : ℕ)
    → children (push_callback cb (or_empty o)) ≡ children_of o
pushed_children none cb = refl
pushed_children (some (part cs cbs)) cb = refl

below_callbacks :
    (o : Option SubscriptionPart) (f : Children → Children)
    → callbacks (on_children f (or_empty o)) ≡ callbacks_of o
below_callbacks none f = refl
below_callbacks (some (part cs cbs)) f = refl

below_children :
    (o : Option SubscriptionPart) (f : Children → Children)
    → children (on_children f (or_empty o)) ≡ f (children_of o)
below_children none f = refl
below_children (some (part cs cbs)) f = refl

-- After `insert ps cb`, where ps has one part at least, every filter has the callbacks that it had, and
-- the filter ps has `cb` behind them.
pub callbacks_at-insert :
    (ps qs : List Text) (cb : ℕ) (cs : Children)
    → ps ≢ []
    → callbacks_at qs (insert ps cb cs)
      ≡ (if filter_eq ps qs then callbacks_at qs cs ++ (cb ∷ []) else callbacks_at qs cs)
unfolding callbacks_at insert filter_eq
callbacks_at-insert [] qs cb cs h = absurd (h refl)
callbacks_at-insert (p ∷ []) [] cb cs h = refl
callbacks_at-insert (p ∷ q ∷ ps) [] cb cs h = refl
callbacks_at-insert (p ∷ []) (r ∷ []) cb cs h =
    rw (find-emplace p r (push_callback cb) cs)
      (ground (arith, text_eq→eq p r, pushed_callbacks (find p cs) cb))
callbacks_at-insert (p ∷ []) (r ∷ s ∷ qs) cb cs h =
    rw (find-emplace p r (push_callback cb) cs)
      (ground (arith, text_eq→eq p r, pushed_children (find p cs) cb))
callbacks_at-insert (p ∷ q ∷ ps) (r ∷ []) cb cs h =
    rw (find-emplace p r (on_children (insert (q ∷ ps) cb)) cs)
      (ground (arith, text_eq→eq p r, below_callbacks (find p cs) (insert (q ∷ ps) cb)))
callbacks_at-insert (p ∷ q ∷ ps) (r ∷ s ∷ qs) cb cs h =
    rw (find-emplace p r (on_children (insert (q ∷ ps) cb)) cs) (elim (Bool-cases (text_eq p r)) [
      | inl same ↦
          rw (same, below_children (find p cs) (insert (q ∷ ps) cb))
            (rw (text_eq→eq p r same)
              (callbacks_at-insert (q ∷ ps) (s ∷ qs) cb (children_of (find r cs)) (λ e. cc)))
      | inr other ↦ rw other refl
    ])
