-- ===== src/Subscription/Examples.antt =====
-- The tree of subscriptions on concrete topics.
use true_mqtt_cpp.Base.{◌≡◌, refl, ◌↔◌, inl, some, List, [], ◌∷◌, ◌++◌, Text, text_eq}
use true_mqtt_cpp.Subscription.{
  plus, hash, nil, child, part, Children, find, emplace, modify, erase, next_part, parts_loop,
  parts, insert, remove, clear_path, find_match,
}
use true_mqtt_cpp.Subscription.Parts.{IsSplitOf, parts-IsSplitOf}
use true_mqtt_cpp.Subscription.Lookup.{callbacks_at}
use true_mqtt_cpp.Subscription.Delivery.{In, Reaches, find_match-Reaches, find_match_below}

abbrev a : Text
a = 97 ∷ []

abbrev b : Text
b = 98 ∷ []

-- "a/b"
abbrev a_b : Text
a_b = 97 ∷ 47 ∷ 98 ∷ []

-- Callback 1 at "a", 2 at "a/b", 3 at "+/b" and 4 at "#".
abbrev tree : Children
tree =
    child a (part (child b (part nil (2 ∷ [])) nil) (1 ∷ []))
      (child plus (part (child b (part nil (3 ∷ [])) nil) []) (child hash (part nil (4 ∷ [])) nil))

splits_a_b : parts a_b ≡ a ∷ b ∷ []
unfolding parts parts_loop next_part
splits_a_b = refl

-- "/" has two empty parts.
splits_slash : parts (47 ∷ []) ≡ [] ∷ [] ∷ []
unfolding parts parts_loop next_part
splits_slash = refl

inserts :
    insert (hash ∷ []) 4 (insert (plus ∷ b ∷ []) 3 (insert (a ∷ b ∷ []) 2 (insert (a ∷ []) 1 nil)))
    ≡ tree
unfolding insert emplace text_eq
inserts = refl

finds_all : find_match (a ∷ b ∷ []) tree ≡ 1 ∷ 2 ∷ 3 ∷ 4 ∷ []
unfolding find_match find text_eq
finds_all = refl

-- The last callback below "a" takes its node with it.
prunes_path :
    remove (a ∷ b ∷ []) tree
    ≡ some (
        child a (part nil (1 ∷ [])) (
          child plus
            (part (child b (part nil (3 ∷ [])) nil) [])
            (child hash (part nil (4 ∷ [])) nil)))
unfolding remove clear_path find modify erase text_eq
prunes_path = refl

parts-IsSplitOf_example : IsSplitOf a_b (parts a_b)
parts-IsSplitOf_example = parts-IsSplitOf a_b

find_match-Reaches_example :
    In 3 (find_match (a ∷ b ∷ []) tree)
    ↔ ((f : List Text) × Reaches f (a ∷ b ∷ []) × In 3 (callbacks_at f tree))
find_match-Reaches_example = find_match-Reaches 3 (a ∷ b ∷ []) tree

find_match_below_example : In 1 (find_match ((a ∷ []) ++ (b ∷ [])) tree)
unfolding callbacks_at find text_eq
find_match_below_example = find_match_below 1 (a ∷ []) (b ∷ []) tree (λ e. cc) (inl refl)
