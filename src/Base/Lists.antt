-- ===== src/Base/Lists.antt =====
-- Lists measured and indexed by native numbers, under the library's names, and texts as byte lists.
use Prim.Native.Nat.{ℕ, zero, suc, ◌+◌, ◌-◌, ◌≤◌, ◌<◌}
use mathlib.Core.Path.{◌≡◌, refl, ap}
use mathlib.Core.Logic.{◌↔◌}
use mathlib.Core.Bool.{Bool, true, false, ◌&&◌}
use mathlib.Core.List.{List, [], ◌∷◌, ◌++◌}
use native.Mathlib.Omega.{arith}
use Prim.Native.Nat.add
use true_mqtt_cpp.Base.Tests.{◌==◌}

module _ {ℓ} {A : Type ℓ} where
  abbrev pub length : List A → ℕ
  length [] = 0
  length (x ∷ xs) = suc (length xs)

  abbrev pub get_or : List A → ℕ → A → A
  get_or [] i d = d
  get_or (x ∷ xs) zero d = x
  get_or (x ∷ xs) (suc i) d = get_or xs i d

  -- A write out of bounds changes nothing.
  abbrev pub set : List A → ℕ → A → List A
  set [] i v = []
  set (x ∷ xs) zero v = v ∷ xs
  set (x ∷ xs) (suc i) v = x ∷ set xs i v

  abbrev pub take : ℕ → List A → List A
  take zero xs = []
  take (suc n) [] = []
  take (suc n) (x ∷ xs) = x ∷ take n xs

  abbrev pub drop : ℕ → List A → List A
  drop zero xs = xs
  drop (suc n) [] = []
  drop (suc n) (x ∷ xs) = drop n xs

  abbrev pub All {κ} : (A → Type κ) → List A → Type κ
  All P [] = Unit {κ}
  All P (x ∷ xs) = P x × All P xs

module _ {ℓ} {A : Type ℓ} where
  pub length_zero : (xs : List A) → length xs ≡ 0 → xs ≡ []
  length_zero [] h = refl
  length_zero (x ∷ xs) h = absurd (omega arith)

  pub length-append : (xs ys : List A) → length (xs ++ ys) ≡ length xs + length ys
  length-append [] ys = omega arith
  length-append (x ∷ xs) ys = omega (arith, length-append xs ys)

  pub take-append-drop : (n : ℕ) (xs : List A) → take n xs ++ drop n xs ≡ xs
  take-append-drop zero xs = refl
  take-append-drop (suc n) [] = refl
  take-append-drop (suc n) (x ∷ xs) = rw (take-append-drop n xs)

  pub length-drop : (n : ℕ) (xs : List A) → length (drop n xs) ≡ length xs - n
  length-drop zero xs = omega arith
  length-drop (suc n) [] = omega arith
  length-drop (suc n) (x ∷ xs) = omega (arith, length-drop n xs)

  pub take-append : (xs ys : List A) → take (length xs) (xs ++ ys) ≡ xs
  take-append [] ys = refl
  take-append (x ∷ xs) ys = ap (◌∷◌ x) (take-append xs ys)

  pub drop-append : (xs ys : List A) → drop (length xs) (xs ++ ys) ≡ ys
  drop-append [] ys = refl
  drop-append (x ∷ xs) ys = drop-append xs ys

  drop-nil : (n : ℕ) → drop {A = A} n [] ≡ []
  drop-nil zero = refl
  drop-nil (suc n) = refl

  pub drop-drop : (m n : ℕ) (xs : List A) → drop n (drop m xs) ≡ drop (m + n) xs
  drop-drop zero n xs = rw (add.zero n) refl
  drop-drop (suc m) n [] = rw (add.suc m n) (drop-nil n)
  drop-drop (suc m) n (x ∷ xs) = rw (add.suc m n) (drop-drop m n xs)

  pub take_short : (n : ℕ) (xs ys : List A) → n ≤ length xs → take n (xs ++ ys) ≡ take n xs
  take_short zero xs ys h = refl
  take_short (suc n) [] ys h = elim h [ ]
  take_short (suc n) (x ∷ xs) ys h = ap (◌∷◌ x) (take_short n xs ys (omega arith))

  pub drop_short : (n : ℕ) (xs ys : List A) → n ≤ length xs → drop n (xs ++ ys) ≡ drop n xs ++ ys
  drop_short zero xs ys h = refl
  drop_short (suc n) [] ys h = elim h [ ]
  drop_short (suc n) (x ∷ xs) ys h = drop_short n xs ys (omega arith)

  pub length-take_short : (n : ℕ) (xs : List A) → n ≤ length xs → length (take n xs) ≡ n
  length-take_short zero xs h = refl
  length-take_short (suc n) [] h = elim h [ ]
  length-take_short (suc n) (x ∷ xs) h = ap suc (length-take_short n xs (omega arith))

  pub drop-eq-cons-lt :
      (n : ℕ) (xs : List A) {y : A} {ys : List A} → drop n xs ≡ y ∷ ys → n < length xs
  drop-eq-cons-lt n xs {ys = ys} h = omega (arith, length-drop n xs, ap length h)

  pub get_or-drop :
      (n : ℕ) (xs : List A) (d : A) {y : A} {ys : List A} → drop n xs ≡ y ∷ ys → get_or xs n d ≡ y
  get_or-drop zero [] d h = cc
  get_or-drop (suc n) [] d h = cc
  get_or-drop zero (x ∷ xs) d h = cc
  get_or-drop (suc n) (x ∷ xs) d h = get_or-drop n xs d h

  pub drop-suc :
      (n : ℕ) (xs : List A) {y : A} {ys : List A} → drop n xs ≡ y ∷ ys → drop (suc n) xs ≡ ys
  drop-suc zero [] h = cc
  drop-suc (suc n) [] h = cc
  drop-suc zero (x ∷ xs) h = cc
  drop-suc (suc n) (x ∷ xs) h = drop-suc n xs h

-- Texts are lists of bytes; this is `==` of `std::string`.
abbrev pub Text : Type 0
Text = List ℕ

unfoldable pub text_eq : Text → Text → Bool
text_eq [] [] = true
text_eq [] (b ∷ t) = false
text_eq (a ∷ s) [] = false
text_eq (a ∷ s) (b ∷ t) = (a == b) && text_eq s t

pub text_eq→eq : (s t : Text) → text_eq s t ≡ true → s ≡ t
unfolding text_eq
text_eq→eq [] [] h = refl
text_eq→eq [] (b ∷ t) h = cc
text_eq→eq (a ∷ s) [] h = cc
text_eq→eq (a ∷ s) (b ∷ t) h = ground (arith, text_eq→eq s t)

pub text_eq_self : (s : Text) → text_eq s s ≡ true
unfolding text_eq
text_eq_self [] = refl
text_eq_self (a ∷ s) = ground (arith, text_eq_self s)

pub text_eq_iff : (s t : Text) → (text_eq s t ≡ true) ↔ (s ≡ t)
text_eq_iff s t = (text_eq→eq s t, λ e. rw (← e) (text_eq_self s))

-- A byte, n times.
unfoldable pub copies : ℕ → ℕ → Text
copies zero b = []
copies (suc n) b = b ∷ copies n b

pub length-copies : (n b : ℕ) → length (copies n b) ≡ n
unfolding copies
length-copies zero b = refl
length-copies (suc n) b = omega (arith, length-copies n b)
