-- ===== src/Subscription/Parts.antt =====
-- The parts of a topic.
use true_mqtt_cpp.Base.{
  ℕ, zero, suc, ◌<◌, ◌≡◌, refl, ◌≢◌, Option, none, some, List, [], ◌∷◌, ◌++◌, Text, arith,
  Bool-cases, inl, inr, ap, sym, ◌∙◌, length, ◌==◌, ==_iff, All,
}
use true_mqtt_cpp.Subscription.{slash, next_part, next_loop, parts_loop, parts}

-- Parts with a '/' between each two.
unfoldable pub join : List Text → Text
join [] = []
join (p ∷ []) = p
join (p ∷ q ∷ ps) = p ++ (slash ∷ join (q ∷ ps))

abbrev pub HasNoSlash : Text → Type 0
HasNoSlash = All (λ c. c ≢ slash)

-- What `next_part` returns: the topic is the part with no '/' in it, alone or before the rest.
abbrev pub Splits : Text → Text × Option Text → Type 0
Splits t (p, none) = (t ≡ p) × HasNoSlash p
Splits t (p, some rest) = (t ≡ p ++ (slash ∷ rest)) × HasNoSlash p × (length rest < length t)

Splits-cons :
    (c : ℕ) (t : Text) (r : Text × Option Text)
    → c ≢ slash
    → Splits t r
    → Splits (c ∷ t) (c ∷ r.0, r.1)
Splits-cons c t (p, none) h (e, s) = (ap (◌∷◌ c) e, (h, s))
Splits-cons c t (p, some rest) h (e, s, l) = (ap (◌∷◌ c) e, (h, s), omega arith)

pub next_part-Splits : (t : Text) → Splits t (next_part t)
unfolding next_part
next_part-Splits [] = (refl, tt)
next_part-Splits (c ∷ t) = elim (Bool-cases (c == slash)) [
  | inl e ↦ rw e (ap (λ (d : ℕ). d ∷ t) ((==_iff c slash).0 e), tt, omega arith)
  | inr e ↦ rw e (Splits-cons c t (next_part t) (ground arith) (next_part-Splits t))
]

join-cons : (p : Text) (ps : List Text) → ps ≢ [] → join (p ∷ ps) ≡ p ++ (slash ∷ join ps)
unfolding join
join-cons p [] h = absurd (h refl)
join-cons p (q ∷ ps) h = refl

-- The parts ps make up the topic t, and there is one at least.
abbrev pub IsSplitOf : Text → List Text → Type 0
IsSplitOf t ps = (join ps ≡ t) × All HasNoSlash ps × (ps ≢ [])

next_loop-IsSplitOf :
    (again : Text → List Text) (t : Text) (r : Text × Option Text)
    → Splits t r
    → ((u : Text) → length u < length t → IsSplitOf u (again u))
    → IsSplitOf t (next_loop again r)
unfolding join
next_loop-IsSplitOf again t (p, none) (e, s) h = (sym e, (s, tt), λ z. cc)
next_loop-IsSplitOf again t (p, some rest) (e, s, l) h =
    let (j, a, ne) = h rest l in
    (join-cons p (again rest) ne ∙ ap (λ (u : Text). p ++ (slash ∷ u)) j ∙ sym e, (s, a), λ z. cc)

parts_loop-IsSplitOf : (fuel : ℕ) (t : Text) → length t < fuel → IsSplitOf t (parts_loop fuel t)
unfolding parts_loop
parts_loop-IsSplitOf zero t h = absurd (omega arith)
parts_loop-IsSplitOf (suc fuel) t h =
    next_loop-IsSplitOf (parts_loop fuel) t (next_part t) (next_part-Splits t)
      λ u l. parts_loop-IsSplitOf fuel u (omega arith)

-- The loop over a topic comes to an end, and goes through one part at least. The parts have no '/' in
-- them, and joined by '/' they are the topic.
pub parts-IsSplitOf : (t : Text) → IsSplitOf t (parts t)
unfolding parts
parts-IsSplitOf t = parts_loop-IsSplitOf (suc (length t)) t (omega arith)

pub parts-ne-nil : (t : Text) → parts t ≢ []
parts-ne-nil t = (parts-IsSplitOf t).2

-- Two topics with the same parts are the same.
pub parts-injective : (s t : Text) → parts s ≡ parts t → s ≡ t
parts-injective s t h = sym (parts-IsSplitOf s).0 ∙ ap join h ∙ (parts-IsSplitOf t).0
