-- ===== src/Client/Topics.antt =====
-- `std::set<std::string>`: the sorted list of its entries. Strings compare by their bytes.
pub mod Sorted
use true_mqtt_cpp.Base.{
  Bool, true, false, ◌||◌, ◌&&◌, List, [], ◌∷◌, Text, text_eq, ltb, ◌==◌, if◌then◌else◌,
}

unfoldable pub text_ltb : Text → Text → Bool
text_ltb [] [] = false
text_ltb [] (b ∷ t) = true
text_ltb (a ∷ s) [] = false
text_ltb (a ∷ s) (b ∷ t) = ltb a b || ((a == b) && text_ltb s t)

-- `emplace`, `erase` of an entry that is there, and `find` compared with `end`.
unfoldable pub set_emplace : Text → List Text → List Text
unfolding text_ltb
set_emplace t [] = t ∷ []
set_emplace t (u ∷ us) =
    let rest = set_emplace t us in
    if text_ltb t u then t ∷ u ∷ us else if text_ltb u t then u ∷ rest else u ∷ us

unfoldable pub set_erase : Text → List Text → List Text
set_erase t [] = []
set_erase t (u ∷ us) = let rest = set_erase t us in if text_eq u t then us else u ∷ rest

unfoldable pub set_contains : Text → List Text → Bool
set_contains t [] = false
set_contains t (u ∷ us) = text_eq u t || set_contains t us
