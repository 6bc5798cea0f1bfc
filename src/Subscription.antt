-- ===== src/Subscription.antt =====
-- The tree of subscriptions: `SubscriptionPart` of src/ClientImpl.h, and the loops of src/Client.cpp
-- that walk it, in `subscribe`, `unsubscribe` and `findSubscriptionMatch`.
-- A callback is a number, by which the caller knows it. A `std::map` is the list of its entries: only
-- look-ups by key are made, so their order does not show.
pub mod Parts
pub mod Lookup
pub mod Matching
pub mod Delivery
pub mod Counting
pub mod Removal
mod Examples
use true_mqtt_cpp.Base.{
  ℕ, zero, suc, length, Bool, true, false, Option, none, some, List, [], ◌∷◌, ◌++◌, Text, text_eq,
  ◌==◌, if◌then◌else◌,
}

-- The bytes of '/', "+" and "#".
abbrev pub slash : ℕ
slash = 47

abbrev pub plus : Text
plus = 43 ∷ []

abbrev pub hash : Text
hash = 35 ∷ []

-- The text up to the first '/', and what follows it, if there is one: `find('/')`, `substr` and
-- `remove_prefix`.
unfoldable pub next_part : Text → Text × Option Text
next_part [] = ([], none)
next_part (c ∷ t) =
    let (p, rest) = next_part t in if c == slash then ([], some t) else (c ∷ p, rest)

abbrev pub next_loop : (Text → List Text) → Text × Option Text → List Text
next_loop again (p, none) = p ∷ []
next_loop again (p, some rest) = p ∷ again rest

-- The parts that the `while (true)` loops go through. Each round but the last takes a '/' away.
unfoldable pub parts_loop : ℕ → Text → List Text
unfolding next_part
parts_loop zero topic_search = []
parts_loop (suc fuel) topic_search = next_loop (parts_loop fuel) (next_part topic_search)

unfoldable pub parts : Text → List Text
unfolding parts_loop
parts topic = parts_loop (suc (length topic)) topic

mutual
  pub data SubscriptionPart : Type 0 where
    part : Children → List ℕ → SubscriptionPart

  pub data Children : Type 0 where
    nil : Children
    child : Text → SubscriptionPart → Children → Children

abbrev pub children : SubscriptionPart → Children
children (part cs callbacks) = cs

abbrev pub callbacks : SubscriptionPart → List ℕ
callbacks (part cs cbs) = cbs

unfoldable pub find : Text → Children → Option SubscriptionPart
find k nil = none
find k (child j s cs) = if text_eq j k then some s else find k cs

-- `try_emplace(k)`, and then the change `f` of the entry.
unfoldable pub emplace : Text → (SubscriptionPart → SubscriptionPart) → Children → Children
emplace k f nil = child k (f (part nil [])) nil
emplace k f (child j s cs) = if text_eq j k then child j (f s) cs else child j s (emplace k f cs)

-- The change `f` of the entry, where there is one.
unfoldable pub modify : Text → (SubscriptionPart → SubscriptionPart) → Children → Children
modify k f nil = nil
modify k f (child j s cs) = if text_eq j k then child j (f s) cs else child j s (modify k f cs)

-- `erase(find(k))`; keys are unique in a map.
unfoldable pub erase : Text → Children → Children
erase k nil = nil
erase k (child j s cs) = let rest = erase k cs in if text_eq j k then rest else child j s rest

abbrev pub push_callback : ℕ → SubscriptionPart → SubscriptionPart
push_callback cb (part cs cbs) = part cs (cbs ++ (cb ∷ []))

abbrev pub on_children : (Children → Children) → SubscriptionPart → SubscriptionPart
on_children f (part cs cbs) = part (f cs) cbs

-- `subscribe`: down the parts of the topic, adding nodes where they are missing, and the callback at
-- the last.
unfoldable pub insert : List Text → ℕ → Children → Children
unfolding emplace
insert [] cb cs = cs
insert (p ∷ []) cb cs = emplace p (push_callback cb) cs
insert (p ∷ q ∷ ps) cb cs = emplace p (on_children (insert (q ∷ ps) cb)) cs

-- `remove_next` is a part whose node has become empty; the empty text stands for none.
abbrev pub prune : Text → Children → Children
prune [] cs = cs
prune (c ∷ k) cs = erase (c ∷ k) cs

abbrev pub remove_next : Text → SubscriptionPart → Text
remove_next p (part nil []) = p
remove_next p (part nil (c ∷ cbs)) = []
remove_next p (part (child k s cs) cbs) = []

abbrev pub clear_callbacks : SubscriptionPart → SubscriptionPart
clear_callbacks (part cs cbs) = part cs []

-- The node of `p` as it has become, and whether it is to be removed.
abbrev pub settle : Text → Children → SubscriptionPart → Option (Children × Text)
settle p cs node = some (modify p (λ _. node) cs, remove_next p node)

abbrev pub settle_above :
    Text → Children → SubscriptionPart → Option (Children × Text) → Option (Children × Text)
settle_above p cs node none = none
settle_above p cs node (some (below, k)) = settle p cs (part (prune k below) (callbacks node))

-- `unsubscribe`: down the parts of the topic, and back up, erasing below each node the one that has
-- become empty. `none` is the dereference of an `end()` iterator, where a part has no node.
-- The result is a map and the `remove_next` that is still to be erased from it.
unfoldable pub clear_path : List Text → Children → Option (Children × Text)
unfolding find modify erase
clear_path [] cs = none
clear_path (p ∷ []) cs = elim (find p cs) [
  | none ↦ none
  | some node ↦ settle p cs (clear_callbacks node)
]
clear_path (p ∷ q ∷ ps) cs = elim (find p cs) [
  | none ↦ none
  | some node ↦ settle_above p cs node (clear_path (q ∷ ps) (children node))
]

abbrev pub prune_top : Option (Children × Text) → Option Children
prune_top none = none
prune_top (some (cs, k)) = some (prune k cs)

unfoldable pub remove : List Text → Children → Option Children
unfolding clear_path
remove ps cs = prune_top (clear_path ps cs)

abbrev pub callbacks_of : Option SubscriptionPart → List ℕ
callbacks_of none = []
callbacks_of (some s) = callbacks s

abbrev pub children_of : Option SubscriptionPart → Children
children_of none = nil
children_of (some s) = children s

-- `findSubscriptionMatch`: the callbacks in the order of their calls.
unfoldable pub find_match : List Text → Children → List ℕ
unfolding find
find_match [] cs = []
find_match (p ∷ []) cs =
    callbacks_of (find p cs) ++ (callbacks_of (find plus cs) ++ callbacks_of (find hash cs))
find_match (p ∷ q ∷ ps) cs =
    let exact = find_match (q ∷ ps) (children_of (find p cs)) in
    let any = find_match (q ∷ ps) (children_of (find plus cs)) in
    callbacks_of (find p cs)
    ++ (exact ++ (callbacks_of (find plus cs) ++ (any ++ callbacks_of (find hash cs))))
