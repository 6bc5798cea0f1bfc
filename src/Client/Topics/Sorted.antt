-- ===== src/Client/Topics/Sorted.antt =====
-- The entries of a set are in order, so none is there twice.
use true_mqtt_cpp.Base.{
  ◌≡◌, refl, inl, inr, true, false, not, ◌||◌, ◌&&◌, List, [], ◌∷◌, Text, text_eq, text_eq→eq,
  arith, Bool-cases,
}
use true_mqtt_cpp.Client.Topics.{text_ltb, set_emplace, set_erase, set_contains}

text_ltb_trans : (s t u : Text) → text_ltb s t ≡ true → text_ltb t u ≡ true → text_ltb s u ≡ true
unfolding text_ltb
text_ltb_trans [] [] u h k = absurd (ground arith)
text_ltb_trans [] (b ∷ t) [] h k = absurd (ground arith)
text_ltb_trans [] (b ∷ t) (c ∷ u) h k = refl
text_ltb_trans (a ∷ s) [] u h k = absurd (ground arith)
text_ltb_trans (a ∷ s) (b ∷ t) [] h k = absurd (ground arith)
text_ltb_trans (a ∷ s) (b ∷ t) (c ∷ u) h k = ground (arith, text_ltb_trans s t u)

text_ltb_irrefl : (t : Text) → text_ltb t t ≡ false
unfolding text_ltb
text_ltb_irrefl [] = refl
text_ltb_irrefl (a ∷ t) = ground (arith, text_ltb_irrefl t)

abbrev pub AllAbove : Text → List Text → Type 0
AllAbove t [] = Unit {0}
AllAbove t (u ∷ us) = (text_ltb t u ≡ true) × AllAbove t us

abbrev pub IsSorted : List Text → Type 0
IsSorted [] = Unit {0}
IsSorted (u ∷ us) = AllAbove u us × IsSorted us

AllAbove-trans : (s t : Text) (us : List Text) → text_ltb s t ≡ true → AllAbove t us → AllAbove s us
AllAbove-trans s t [] h k = tt
AllAbove-trans s t (u ∷ us) h (k, ks) = (text_ltb_trans s t u h k, AllAbove-trans s t us h ks)

AllAbove-set_emplace :
    (s t : Text) (us : List Text)
    → text_ltb s t ≡ true
    → AllAbove s us
    → AllAbove s (set_emplace t us)
unfolding set_emplace
AllAbove-set_emplace s t [] h k = (h, tt)
AllAbove-set_emplace s t (u ∷ us) h (k, ks) = elim (Bool-cases (text_ltb t u)) [
  | inl a ↦ rw a (h, (k, ks))
  | inr a ↦ elim (Bool-cases (text_ltb u t)) [
    | inl b ↦ rw (a, b) (k, AllAbove-set_emplace s t us h ks)
    | inr b ↦ rw (a, b) (k, ks)
  ]
]

AllAbove-set_erase : (s t : Text) (us : List Text) → AllAbove s us → AllAbove s (set_erase t us)
unfolding set_erase
AllAbove-set_erase s t [] k = tt
AllAbove-set_erase s t (u ∷ us) (k, ks) = elim (Bool-cases (text_eq u t)) [
  | inl e ↦ rw e ks
  | inr e ↦ rw e (k, AllAbove-set_erase s t us ks)
]

pub set_emplace-IsSorted : (t : Text) (us : List Text) → IsSorted us → IsSorted (set_emplace t us)
unfolding set_emplace
set_emplace-IsSorted t [] v = (tt, tt)
set_emplace-IsSorted t (u ∷ us) (k, v) = elim (Bool-cases (text_ltb t u)) [
  | inl a ↦ rw a ((a, AllAbove-trans t u us a k), (k, v))
  | inr a ↦ elim (Bool-cases (text_ltb u t)) [
    | inl b ↦ rw (a, b) (AllAbove-set_emplace u t us b k, set_emplace-IsSorted t us v)
    | inr b ↦ rw (a, b) (k, v)
  ]
]

pub set_erase-IsSorted : (t : Text) (us : List Text) → IsSorted us → IsSorted (set_erase t us)
unfolding set_erase
set_erase-IsSorted t [] v = tt
set_erase-IsSorted t (u ∷ us) (k, v) = elim (Bool-cases (text_eq u t)) [
  | inl e ↦ rw e v
  | inr e ↦ rw e (AllAbove-set_erase u t us k, set_erase-IsSorted t us v)
]

-- Two texts of which neither is less are equal.
text_ltb_total : (s t : Text) → text_ltb s t ≡ false → text_ltb t s ≡ false → s ≡ t
unfolding text_ltb
text_ltb_total [] [] h k = refl
text_ltb_total [] (b ∷ t) h k = absurd (ground arith)
text_ltb_total (a ∷ s) [] h k = absurd (ground arith)
text_ltb_total (a ∷ s) (b ∷ t) h k = ground (arith, text_ltb_total s t)

pub set_contains-set_emplace :
    (t u : Text) (us : List Text)
    → set_contains u (set_emplace t us) ≡ (text_eq t u || set_contains u us)
unfolding set_contains set_emplace
set_contains-set_emplace t u [] = refl
set_contains-set_emplace t u (v ∷ us) =
    ground (arith, set_contains-set_emplace t u us, text_ltb_total t v)

above-set_contains :
    (t u : Text) (us : List Text) → AllAbove t us → set_contains u us ≡ true → text_ltb t u ≡ true
unfolding set_contains
above-set_contains t u [] k h = absurd (ground arith)
above-set_contains t u (v ∷ us) (k, ks) h = elim (Bool-cases (text_eq v u)) [
  | inl e ↦ rw (← text_eq→eq v u e) k
  | inr e ↦ above-set_contains t u us ks (ground (arith, e, h))
]

not_above : (t : Text) (us : List Text) → AllAbove t us → set_contains t us ≡ false
not_above t us k = ground (arith, above-set_contains t t us k, text_ltb_irrefl t)

pub set_contains-set_erase :
    (t u : Text) (us : List Text)
    → IsSorted us
    → set_contains u (set_erase t us) ≡ (not (text_eq t u) && set_contains u us)
unfolding set_contains set_erase
set_contains-set_erase t u [] v = ground arith
set_contains-set_erase t u (w ∷ us) (k, v) =
    ground
      (arith, set_contains-set_erase t u us v, text_eq→eq w t, text_eq→eq t u, not_above w us k)
