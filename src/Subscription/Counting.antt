-- ===== src/Subscription/Counting.antt =====
-- How often a message calls the callbacks of a filter.
use true_mqtt_cpp.Base.{
  ℕ, ◌+◌, ◌≡◌, refl, Bool, true, false, not, ◌&&◌, ◌||◌, List, [], ◌∷◌, ◌++◌, map, Text, text_eq,
  text_eq→eq, text_eq_self, if◌then◌else◌, arith, Bool-cases, inl, inr,
}
use true_mqtt_cpp.Subscription.{plus, hash}
use true_mqtt_cpp.Subscription.Lookup.{filter_eq}
use true_mqtt_cpp.Subscription.Matching.{layer, visited}

-- Whether a filter leads to calls for a topic: each of its parts but the last is the topic's part at
-- that place or "+", and the last may also be "#". The topic may go on behind the filter.
unfoldable pub reaches : List Text → List Text → Bool
unfolding text_eq
reaches [] ps = false
reaches (f ∷ fs) [] = false
reaches (f ∷ []) (p ∷ ps) = text_eq f p || (text_eq f plus || text_eq f hash)
reaches (f ∷ g ∷ fs) (p ∷ ps) = (text_eq f p || text_eq f plus) && reaches (g ∷ fs) ps

-- No part of a topic is a wildcard.
unfoldable pub is_plain : List Text → Bool
unfolding text_eq
is_plain [] = true
is_plain (p ∷ ps) = not (text_eq p plus || text_eq p hash) && is_plain ps

-- How often a filter is in a list.
abbrev pub times : List Text → List (List Text) → ℕ
times f [] = 0
times f (g ∷ gs) = (if filter_eq f g then 1 else 0) + times f gs

times-append :
    (f : List Text) (gs hs : List (List Text)) → times f (gs ++ hs) ≡ times f gs + times f hs
times-append f [] hs = omega arith
times-append f (g ∷ gs) hs = omega (arith, times-append f gs hs)

times-map :
    (f p : Text) (fs : List Text) (gs : List (List Text))
    → times (f ∷ fs) (map (◌∷◌ p) gs) ≡ (if text_eq f p then times fs gs else 0)
unfolding filter_eq
times-map f p fs [] = ground arith
times-map f p fs (g ∷ gs) = ground (arith, times-map f p fs gs)

times-nil : (p : Text) (gs : List (List Text)) → times [] (map (◌∷◌ p) gs) ≡ 0
unfolding filter_eq
times-nil p [] = refl
times-nil p (g ∷ gs) = omega (arith, times-nil p gs)

-- A filter of one part is in a layer by itself, and any other by what is behind its first part.
abbrev alone : List Text → ℕ
alone fs = if filter_eq fs [] then 1 else 0

times-layer :
    (f p : Text) (fs : List Text) (deeper : List (List Text))
    → times (f ∷ fs) (layer p deeper)
      ≡ (if text_eq f p then alone fs + times fs deeper else 0)
        + ((if text_eq f plus then alone fs + times fs deeper else 0)
            + (if text_eq f hash then alone fs else 0))
unfolding filter_eq
times-layer f p fs deeper = ground (
  arith,
  times-append (f ∷ fs) (map (◌∷◌ p) deeper)
      ((plus ∷ []) ∷ (map (◌∷◌ plus) deeper ++ ((hash ∷ []) ∷ []))),
  times-append (f ∷ fs) (map (◌∷◌ plus) deeper) ((hash ∷ []) ∷ []),
  times-map f p fs deeper,
  times-map f plus fs deeper,
)

-- A part is one at most of a part of a topic without wildcards, "+" and "#".
plus-hash : text_eq plus hash ≡ false
unfolding text_eq
plus-hash = refl

part_once :
    (f p : Text) (n m : ℕ)
    → (text_eq p plus || text_eq p hash) ≡ false
    → (if text_eq f p then n else 0)
        + ((if text_eq f plus then n else 0) + (if text_eq f hash then m else 0))
      ≡ (if text_eq f p || text_eq f plus then n else if text_eq f hash then m else 0)
part_once f p n m h = elim (Bool-cases (text_eq f p)) [
  | inl e ↦ rw (text_eq→eq f p e) (ground (arith, h, text_eq_self p))
  | inr e ↦ elim (Bool-cases (text_eq f plus)) [
    | inl k ↦
        rw (text_eq→eq f plus k)
          (ground (arith, h, plus-hash, text_eq_self plus, text_eq→eq plus p))
    | inr k ↦ ground (arith, e, k)
  ]
]

pub times-visited :
    (f ps : List Text) → is_plain ps ≡ true → times f (visited ps) ≡ (if reaches f ps then 1 else 0)
unfolding visited reaches is_plain filter_eq
times-visited [] [] h = refl
times-visited (f ∷ []) [] h = refl
times-visited (f ∷ g ∷ fs) [] h = refl
times-visited [] (p ∷ []) h = refl
times-visited [] (p ∷ q ∷ ps) h = ground (
  arith,
  times-append [] (map (◌∷◌ p) (visited (q ∷ ps)))
      ((plus ∷ []) ∷ (map (◌∷◌ plus) (visited (q ∷ ps)) ++ ((hash ∷ []) ∷ []))),
  times-append [] (map (◌∷◌ plus) (visited (q ∷ ps))) ((hash ∷ []) ∷ []),
  times-nil p (visited (q ∷ ps)),
  times-nil plus (visited (q ∷ ps)),
)
times-visited (f ∷ []) (p ∷ []) h = ground (arith, part_once f p 1 1)
times-visited (f ∷ g ∷ fs) (p ∷ []) h = ground arith
times-visited (f ∷ []) (p ∷ q ∷ ps) h =
    ground
      (arith, times-layer f p [] (visited (q ∷ ps)), times-visited [] (q ∷ ps), part_once f p 1 1)
times-visited (f ∷ g ∷ fs) (p ∷ q ∷ ps) h = ground (
  arith,
  times-layer f p (g ∷ fs) (visited (q ∷ ps)),
  times-visited (g ∷ fs) (q ∷ ps),
  part_once f p 1 0,
)
