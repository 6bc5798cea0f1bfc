-- ===== src/Subscription/Delivery.antt =====
-- Which callbacks get a message, in terms of the filters that were subscribed to.
use true_mqtt_cpp.Base.{
  ℕ, ◌≡◌, refl, ◌≢◌, ◌⊎◌, ◌↔◌, List, [], ◌∷◌, ◌++◌, map, Text, inl, inr, ap, ◌∙◌,
}
use true_mqtt_cpp.Subscription.{plus, hash, Children, find_match}
use true_mqtt_cpp.Subscription.Lookup.{callbacks_at}
use true_mqtt_cpp.Subscription.Matching.{layer, visited, gather, find_match-gather}

-- Being an entry of a list, with its place.
abbrev pub In : {A : Type 0} → A → List A → Type 0
In x [] = ⊥
In x (y ∷ ys) = (x ≡ y) ⊎ In x ys

In-append_left : {A : Type 0} (x : A) (xs ys : List A) → In x xs → In x (xs ++ ys)
In-append_left x [] ys h = absurd h
In-append_left x (y ∷ xs) ys (inl e) = inl e
In-append_left x (y ∷ xs) ys (inr h) = inr (In-append_left x xs ys h)

pub In-append_right : {A : Type 0} (x : A) (xs ys : List A) → In x ys → In x (xs ++ ys)
In-append_right x [] ys h = h
In-append_right x (y ∷ xs) ys h = inr (In-append_right x xs ys h)

In-append_cases : {A : Type 0} (x : A) (xs ys : List A) → In x (xs ++ ys) → In x xs ⊎ In x ys
In-append_cases x [] ys h = inr h
In-append_cases x (y ∷ xs) ys (inl e) = inl (inl e)
In-append_cases x (y ∷ xs) ys (inr h) = elim (In-append_cases x xs ys h) [
  | inl l ↦ inl (inr l)
  | inr r ↦ inr r
]

-- A filter leads to calls for a topic: each of its parts but the last is the topic's part at that
-- place or "+", and the last may also be "#". The topic may go on behind the filter.
abbrev pub Reaches : List Text → List Text → Type 0
Reaches [] ps = ⊥
Reaches (f ∷ fs) [] = ⊥
Reaches (f ∷ []) (p ∷ ps) = (f ≡ p) ⊎ ((f ≡ plus) ⊎ (f ≡ hash))
Reaches (f ∷ g ∷ fs) (p ∷ ps) = ((f ≡ p) ⊎ (f ≡ plus)) × Reaches (g ∷ fs) ps

-- A filter matches a topic: the same, and they end together, unless the filter ends in "#".
abbrev pub Matches : List Text → List Text → Type 0
Matches [] ps = ⊥
Matches (f ∷ fs) [] = ⊥
Matches (f ∷ []) (p ∷ []) = (f ≡ p) ⊎ ((f ≡ plus) ⊎ (f ≡ hash))
Matches (f ∷ []) (p ∷ q ∷ ps) = f ≡ hash
Matches (f ∷ g ∷ fs) (p ∷ ps) = ((f ≡ p) ⊎ (f ≡ plus)) × Matches (g ∷ fs) ps

In-map :
    (p : Text) (f g : List Text) (fs : List (List Text))
    → f ≡ p ∷ g
    → In g fs
    → In f (map (◌∷◌ p) fs)
In-map p f g [] e h = absurd h
In-map p f g (k ∷ fs) e (inl e') = inl (e ∙ ap (◌∷◌ p) e')
In-map p f g (k ∷ fs) e (inr h) = inr (In-map p f g fs e h)

In-unmap :
    (p : Text) (f : List Text) (fs : List (List Text))
    → In f (map (◌∷◌ p) fs)
    → (g : List Text) × (f ≡ p ∷ g) × In g fs
In-unmap p f [] h = absurd h
In-unmap p f (g ∷ fs) (inl e) = (g, e, inl refl)
In-unmap p f (g ∷ fs) (inr h) = let (k, e, i) = In-unmap p f fs h in (k, e, inr i)

-- The ways into a layer.
module _ (p : Text) (f : List Text) (deeper : List (List Text)) where
  exact_part : f ≡ p ∷ [] → In f (layer p deeper)
  exact_part e = inl e

  exact_below : (g : List Text) → f ≡ p ∷ g → In g deeper → In f (layer p deeper)
  exact_below g e h = inr (In-append_left f (map (◌∷◌ p) deeper) _ (In-map p f g deeper e h))

  plus_part : f ≡ plus ∷ [] → In f (layer p deeper)
  plus_part e = inr (In-append_right f (map (◌∷◌ p) deeper) _ (inl e))

  plus_below : (g : List Text) → f ≡ plus ∷ g → In g deeper → In f (layer p deeper)
  plus_below g e h = inr (
      In-append_right f (map (◌∷◌ p) deeper) _
        (inr (In-append_left f (map (◌∷◌ plus) deeper) _ (In-map plus f g deeper e h))))

  hash_part : f ≡ hash ∷ [] → In f (layer p deeper)
  hash_part e = inr (
      In-append_right f (map (◌∷◌ p) deeper) _
        (inr (In-append_right f (map (◌∷◌ plus) deeper) _ (inl e))))

  -- There are no others.
  layer_cases :
      In f (layer p deeper)
      → (((f ≡ p ∷ []) ⊎ ((f ≡ plus ∷ []) ⊎ (f ≡ hash ∷ []))))
        ⊎ ((k : Text) × (g : List Text) × ((k ≡ p) ⊎ (k ≡ plus)) × (f ≡ k ∷ g) × In g deeper)
  layer_cases (inl e) = inl (inl e)
  layer_cases (inr h) = elim (In-append_cases f (map (◌∷◌ p) deeper) _ h) [
    | inl a ↦ let (g, e, i) = In-unmap p f deeper a in inr (p, g, inl refl, e, i)
    | inr (inl e) ↦ inl (inr (inl e))
    | inr (inr b) ↦ elim (In-append_cases f (map (◌∷◌ plus) deeper) _ b) [
      | inl a ↦ let (g, e, i) = In-unmap plus f deeper a in inr (plus, g, inr refl, e, i)
      | inr (inl e) ↦ inl (inr (inr e))
      | inr (inr z) ↦ absurd z
    ]
  ]

Reaches-visited : (f : List Text) (ps : List Text) → Reaches f ps → In f (visited ps)
unfolding visited
Reaches-visited [] ps h = absurd h
Reaches-visited (f ∷ fs) [] h = absurd h
Reaches-visited (f ∷ []) (p ∷ []) (inl e) = exact_part p (f ∷ []) [] (ap (λ (k : Text). k ∷ []) e)
Reaches-visited (f ∷ []) (p ∷ []) (inr (inl e)) =
    plus_part p (f ∷ []) [] (ap (λ (k : Text). k ∷ []) e)
Reaches-visited (f ∷ []) (p ∷ []) (inr (inr e)) =
    hash_part p (f ∷ []) [] (ap (λ (k : Text). k ∷ []) e)
Reaches-visited (f ∷ []) (p ∷ q ∷ ps) (inl e) =
    exact_part p (f ∷ []) (visited (q ∷ ps)) (ap (λ (k : Text). k ∷ []) e)
Reaches-visited (f ∷ []) (p ∷ q ∷ ps) (inr (inl e)) =
    plus_part p (f ∷ []) (visited (q ∷ ps)) (ap (λ (k : Text). k ∷ []) e)
Reaches-visited (f ∷ []) (p ∷ q ∷ ps) (inr (inr e)) =
    hash_part p (f ∷ []) (visited (q ∷ ps)) (ap (λ (k : Text). k ∷ []) e)
Reaches-visited (f ∷ g ∷ fs) (p ∷ []) (e, h) = elim fs [ [] ↦ absurd h | k ∷ ks ↦ absurd h ]
Reaches-visited (f ∷ g ∷ fs) (p ∷ q ∷ ps) (inl e, h) =
    exact_below p (f ∷ g ∷ fs) (visited (q ∷ ps)) (g ∷ fs) (ap (λ (k : Text). k ∷ g ∷ fs) e)
      (Reaches-visited (g ∷ fs) (q ∷ ps) h)
Reaches-visited (f ∷ g ∷ fs) (p ∷ q ∷ ps) (inr e, h) =
    plus_below p (f ∷ g ∷ fs) (visited (q ∷ ps)) (g ∷ fs) (ap (λ (k : Text). k ∷ g ∷ fs) e)
      (Reaches-visited (g ∷ fs) (q ∷ ps) h)

Reaches-one :
    (p : Text) (ps f : List Text)
    → (f ≡ p ∷ []) ⊎ ((f ≡ plus ∷ []) ⊎ (f ≡ hash ∷ []))
    → Reaches f (p ∷ ps)
Reaches-one p ps f (inl e) = rw e (inl refl)
Reaches-one p ps f (inr (inl e)) = rw e (inr (inl refl))
Reaches-one p ps f (inr (inr e)) = rw e (inr (inr refl))

Reaches-below :
    (p k : Text) (g f ps : List Text)
    → (k ≡ p) ⊎ (k ≡ plus)
    → f ≡ k ∷ g
    → Reaches g ps
    → Reaches f (p ∷ ps)
Reaches-below p k [] f ps c e r = absurd r
Reaches-below p k (h ∷ g) f ps c e r = rw e (c, r)

visited-Reaches : (f : List Text) (ps : List Text) → In f (visited ps) → Reaches f ps
unfolding visited
visited-Reaches f [] h = absurd h
visited-Reaches f (p ∷ []) h = elim (layer_cases p f [] h) [
  | inl c ↦ Reaches-one p [] f c
  | inr (k, g, c, e, i) ↦ absurd i
]
visited-Reaches f (p ∷ q ∷ ps) h = elim (layer_cases p f (visited (q ∷ ps)) h) [
  | inl c ↦ Reaches-one p (q ∷ ps) f c
  | inr (k, g, c, e, i) ↦ Reaches-below p k g f (q ∷ ps) c e (visited-Reaches g (q ∷ ps) i)
]

In-gather :
    (cb : ℕ) (f : List Text) (fs : List (List Text)) (cs : Children)
    → In f fs
    → In cb (callbacks_at f cs)
    → In cb (gather fs cs)
unfolding gather
In-gather cb f [] cs h i = absurd h
In-gather cb f (g ∷ fs) cs (inl e) i =
    In-append_left cb (callbacks_at g cs) (gather fs cs) (rw (← e) i)
In-gather cb f (g ∷ fs) cs (inr h) i =
    In-append_right cb (callbacks_at g cs) (gather fs cs) (In-gather cb f fs cs h i)

gather-In :
    (cb : ℕ) (fs : List (List Text)) (cs : Children)
    → In cb (gather fs cs)
    → (f : List Text) × In f fs × In cb (callbacks_at f cs)
unfolding gather
gather-In cb [] cs h = absurd h
gather-In cb (g ∷ fs) cs h = elim (In-append_cases cb (callbacks_at g cs) (gather fs cs) h) [
  | inl i ↦ (g, inl refl, i)
  | inr i ↦ let (f, j, k) = gather-In cb fs cs i in (f, inr j, k)
]

-- A callback is called for a topic exactly when it was subscribed to a filter that leads to calls for
-- that topic.
pub find_match-Reaches :
    (cb : ℕ) (ps : List Text) (cs : Children)
    → In cb (find_match ps cs) ↔ ((f : List Text) × Reaches f ps × In cb (callbacks_at f cs))
find_match-Reaches cb ps cs = (
  λ h.
      let (f, i, j) = gather-In cb (visited ps) cs (rw find_match-gather at h) in
      (f, visited-Reaches f ps i, j),
  λ (f, r, j). rw find_match-gather (In-gather cb f (visited ps) cs (Reaches-visited f ps r) j),
)

Matches-Reaches : (f ps : List Text) → Matches f ps → Reaches f ps
Matches-Reaches [] ps h = absurd h
Matches-Reaches (f ∷ fs) [] h = absurd h
Matches-Reaches (f ∷ []) (p ∷ []) h = h
Matches-Reaches (f ∷ []) (p ∷ q ∷ ps) h = inr (inr h)
Matches-Reaches (f ∷ g ∷ fs) (p ∷ ps) (c, h) = (c, Matches-Reaches (g ∷ fs) ps h)

-- Every callback that was subscribed to a filter which matches the topic is called.
pub find_match-Matches :
    (cb : ℕ) (f ps : List Text) (cs : Children)
    → Matches f ps
    → In cb (callbacks_at f cs)
    → In cb (find_match ps cs)
find_match-Matches cb f ps cs m h = (find_match-Reaches cb ps cs).1 (f, Matches-Reaches f ps m, h)

Reaches-prefix : (f more : List Text) → f ≢ [] → Reaches f (f ++ more)
Reaches-prefix [] more h = absurd (h refl)
Reaches-prefix (f ∷ []) more h = inl refl
Reaches-prefix (f ∷ g ∷ fs) more h = (inl refl, Reaches-prefix (g ∷ fs) more (λ e. cc))

-- A callback that was subscribed to a filter, of one part at least, is called for the topic with the
-- same parts and for every topic that goes on behind them.
pub find_match_below :
    (cb : ℕ) (f more : List Text) (cs : Children)
    → f ≢ []
    → In cb (callbacks_at f cs)
    → In cb (find_match (f ++ more) cs)
find_match_below cb f more cs ne h =
    (find_match-Reaches cb (f ++ more) cs).1 (f, Reaches-prefix f more ne, h)
