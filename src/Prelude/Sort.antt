-- ===== src/Prelude/Sort.antt =====
-- `std::sort` by the byte strings `key` of the elements, with the `<` of `std::string`. The program
-- sorts elements with different keys, for which every sort gives the same list.
use mathlib.Core.Bool.{Bool, true, false, ◌&&◌, ◌||◌}
use mathlib.Core.List.{List, [], ◌∷◌}
use mini_kvstore.Prelude.Tests.{Bytes, ltb, ◌==◌, if◌then◌else◌}

unfoldable pub bytes_lt : Bytes → Bytes → Bool
bytes_lt xs [] = false
bytes_lt [] (y ∷ ys) = true
bytes_lt (x ∷ xs) (y ∷ ys) = ltb x y || (x == y && bytes_lt xs ys)

module _ {ℓ} {A : Type ℓ} (key : A → Bytes) where
  unfoldable pub insert_sorted : A → List A → List A
  insert_sorted x [] = x ∷ []
  insert_sorted x (y ∷ ys) = if bytes_lt (key y) (key x) then y ∷ insert_sorted x ys else x ∷ y ∷ ys

  unfoldable pub sort : List A → List A
  unfolding insert_sorted
  sort [] = []
  sort (x ∷ xs) = insert_sorted x (sort xs)
