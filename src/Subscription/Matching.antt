-- ===== src/Subscription/Matching.antt =====
-- Which filters a message is delivered to.
use true_mqtt_cpp.Base.{ℕ, ◌≡◌, refl, ◌≢◌, List, [], ◌∷◌, ◌++◌, map, Text, ap}
use mathlib.Core.List.{append_assoc, append-nil}
use true_mqtt_cpp.Subscription.{plus, hash, Children, find, children_of, find_match}
use true_mqtt_cpp.Subscription.Lookup.{callbacks_at}

-- The filters that are looked up for a topic that begins with p, from those for what follows p.
abbrev pub layer : Text → List (List Text) → List (List Text)
layer p deeper =
    (p ∷ []) ∷ (map (◌∷◌ p) deeper ++ ((plus ∷ []) ∷ (map (◌∷◌ plus) deeper ++ ((hash ∷ []) ∷ []))))

-- The filters that are looked up for a topic with these parts, in order.
unfoldable pub visited : List Text → List (List Text)
visited [] = []
visited (p ∷ []) = layer p []
visited (p ∷ q ∷ ps) = layer p (visited (q ∷ ps))

-- All callbacks of the filters in a list.
unfoldable pub gather : List (List Text) → Children → List ℕ
unfolding callbacks_at
gather [] cs = []
gather (f ∷ fs) cs = callbacks_at f cs ++ gather fs cs

gather-append :
    (fs gs : List (List Text)) (cs : Children) → gather (fs ++ gs) cs ≡ gather fs cs ++ gather gs cs
unfolding gather
gather-append [] gs cs = refl
gather-append (f ∷ fs) gs cs = simp (gather-append fs gs cs, append_assoc)

-- Every filter that is looked up has a part.
abbrev NonEmpty : List (List Text) → Type 0
NonEmpty [] = Unit {0}
NonEmpty (f ∷ fs) = (f ≢ []) × NonEmpty fs

gather-map :
    (p : Text) (fs : List (List Text)) (cs : Children)
    → NonEmpty fs
    → gather (map (◌∷◌ p) fs) cs ≡ gather fs (children_of (find p cs))
unfolding gather
gather-map p [] cs h = refl
gather-map p ([] ∷ fs) cs h = absurd (h.0 refl)
gather-map p ((f ∷ fs) ∷ gs) cs h = ap (◌++◌ _) (gather-map p gs cs h.1)

NonEmpty-append : (fs gs : List (List Text)) → NonEmpty fs → NonEmpty gs → NonEmpty (fs ++ gs)
NonEmpty-append [] gs h k = k
NonEmpty-append (f ∷ fs) gs h k = (h.0, NonEmpty-append fs gs h.1 k)

NonEmpty-map : (p : Text) (fs : List (List Text)) → NonEmpty (map (◌∷◌ p) fs)
NonEmpty-map p [] = tt
NonEmpty-map p (f ∷ fs) = ((λ e. cc), NonEmpty-map p fs)

visited-NonEmpty : (ps : List Text) → NonEmpty (visited ps)
unfolding visited
visited-NonEmpty [] = tt
visited-NonEmpty (p ∷ []) = ((λ e. cc), ((λ e. cc), ((λ e. cc), tt)))
visited-NonEmpty (p ∷ q ∷ ps) = (
  (λ e. cc),
  NonEmpty-append (map (◌∷◌ p) (visited (q ∷ ps))) _ (NonEmpty-map p (visited (q ∷ ps))) (
    (λ e. cc),
    NonEmpty-append (map (◌∷◌ plus) (visited (q ∷ ps))) _ (NonEmpty-map plus (visited (q ∷ ps)))
        ((λ e. cc), tt),
  ),
)

-- The callbacks that `findSubscriptionMatch` calls are those of the visited filters, in that order, a
-- callback once for each visit of its filter.
pub find_match-gather : (ps : List Text) (cs : Children) → find_match ps cs ≡ gather (visited ps) cs
unfolding find_match visited gather
find_match-gather [] cs = refl
find_match-gather (p ∷ []) cs = simp append-nil
find_match-gather (p ∷ q ∷ ps) cs =
    let ne = visited-NonEmpty (q ∷ ps) in
    rw
      (
        gather-append (map (◌∷◌ p) (visited (q ∷ ps)))
            ((plus ∷ []) ∷ (map (◌∷◌ plus) (visited (q ∷ ps)) ++ ((hash ∷ []) ∷ []))) cs,
        gather-append (map (◌∷◌ plus) (visited (q ∷ ps))) ((hash ∷ []) ∷ []) cs,
        gather-map p (visited (q ∷ ps)) cs ne,
        gather-map plus (visited (q ∷ ps)) cs ne,
        find_match-gather (q ∷ ps) (children_of (find p cs)),
        find_match-gather (q ∷ ps) (children_of (find plus cs)),
      )
      (simp append-nil)
