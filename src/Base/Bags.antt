-- ===== src/Base/Bags.antt =====
-- Lists of numbers up to order: how often a number is there.
use Prim.Native.Nat.{ℕ, ◌+◌}
use mathlib.Core.Path.{◌≡◌}
use mathlib.Core.List.{List, [], ◌∷◌, ◌++◌}
use mathlib.Core.Quot
use mathlib.Core.Quot.{Quot}
use native.Mathlib.Omega.{arith}
use true_mqtt_cpp.Base.Tests.{◌==◌, if◌then◌else◌}

abbrev pub count : ℕ → List ℕ → ℕ
count x [] = 0
count x (y ∷ ys) = (if x == y then 1 else 0) + count x ys

pub count-append : (x : ℕ) (ys zs : List ℕ) → count x (ys ++ zs) ≡ count x ys + count x zs
count-append x [] zs = omega arith
count-append x (y ∷ ys) zs = omega (arith, count-append x ys zs)

abbrev pub SameItems : List ℕ → List ℕ → Type 0
SameItems xs ys = (x : ℕ) → count x xs ≡ count x ys

-- A list whose order is forgotten.
abbrev pub Bag : Type 0
Bag = Quot SameItems

abbrev pub bag : List ℕ → Bag
bag = Quot.mk

pub bag-eq : (xs ys : List ℕ) → SameItems xs ys → bag xs ≡ bag ys
bag-eq xs ys h = Quot.sound h
