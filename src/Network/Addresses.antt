-- ===== src/Network/Addresses.antt =====
-- The order in which `resolve` of src/Connection.cpp puts the addresses of the host.
use true_mqtt_cpp.Base.{◌≡◌, refl, true, false, List, [], ◌∷◌, ap, All, arith, Bool-cases, inl, inr}
use true_mqtt_cpp.Connection.{Family, Address}
use true_mqtt_cpp.Network.{same_family, of_family, interweave, order_addresses}

-- All addresses of a list have the family.
abbrev pub Only : Family → List Address → Type 0
Only f = All (λ a. same_family a.family f ≡ true)

of_family-Only : (f : Family) (xs : List Address) → Only f (of_family f xs)
unfolding of_family
of_family-Only f [] = tt
of_family-Only f (a ∷ xs) = elim (Bool-cases (same_family a.family f)) [
  | inl e ↦ rw e (e, of_family-Only f xs)
  | inr e ↦ rw e (of_family-Only f xs)
]

module _ (f g : Family) (apart : same_family g f ≡ false) where
  -- An address of the other family.
  is_other : (h : Family) → same_family h g ≡ true → same_family h f ≡ false
  is_other h e = ground arith

  others : (xs : List Address) → Only g xs → of_family f (interweave [] xs) ≡ []
  unfolding of_family interweave
  others [] h = refl
  others (a ∷ xs) h = rw (is_other a.family h.0) (others xs h.1)

  firsts : (xs : List Address) → Only f xs → of_family f (interweave xs []) ≡ xs
  unfolding of_family interweave
  firsts [] h = refl
  firsts (a ∷ xs) h = rw (h.0) (ap (◌∷◌ a) (firsts xs h.1))

  others_left : (xs : List Address) → Only g xs → of_family f (interweave xs []) ≡ []
  unfolding of_family interweave
  others_left [] h = refl
  others_left (a ∷ xs) h = rw (is_other a.family h.0) (others_left xs h.1)

  firsts_right : (xs : List Address) → Only f xs → of_family f (interweave [] xs) ≡ xs
  unfolding of_family interweave
  firsts_right [] h = refl
  firsts_right (a ∷ xs) h = rw (h.0) (ap (◌∷◌ a) (firsts_right xs h.1))

  left_kept : (xs ys : List Address) → Only f xs → Only g ys → of_family f (interweave xs ys) ≡ xs
  unfolding of_family interweave
  left_kept [] ys hx hy = others ys hy
  left_kept (a ∷ xs) [] hx hy = firsts (a ∷ xs) hx
  left_kept (a ∷ xs) (b ∷ ys) hx hy =
      rw (hx.0, is_other b.family hy.0) (ap (◌∷◌ a) (left_kept xs ys hx.1 hy.1))

  right_kept : (xs ys : List Address) → Only g xs → Only f ys → of_family f (interweave xs ys) ≡ ys
  unfolding of_family interweave
  right_kept [] ys hx hy = firsts_right ys hy
  right_kept (a ∷ xs) [] hx hy = others_left (a ∷ xs) hx
  right_kept (a ∷ xs) (b ∷ ys) hx hy =
      rw (is_other a.family hx.0, hy.0) (ap (◌∷◌ b) (right_kept xs ys hx.1 hy.1))

-- Of each of the two families, the addresses that `resolve` will try are those that the look-up
-- returned, in its order.
of_family-order_addresses :
    (list : List Address)
    → (of_family Family.inet6 (order_addresses list) ≡ of_family Family.inet6 list)
      × (of_family Family.inet (order_addresses list) ≡ of_family Family.inet list)
unfolding order_addresses
of_family-order_addresses list =
    let six = of_family-Only Family.inet6 list in
    let four = of_family-Only Family.inet list in
    (
      left_kept Family.inet6 Family.inet refl _ _ six four,
      right_kept Family.inet Family.inet6 refl _ _ six four,
    )
