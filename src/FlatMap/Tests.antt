-- ===== src/FlatMap/Tests.antt =====
-- hexa/flat_map.hpp on a concrete vector.
use hexahedra.Base.{ℕ, ◌≡◌, refl, [], ◌∷◌, none, some, true, ◌==◌, if◌then◌else◌, arith}
use hexahedra.FlatMap.{FlatMap, insert, value_of, erase}
use hexahedra.FlatMap.Refinement.{IsSorted, first_of, insert-value_of, erase-value_of}

abbrev layers : FlatMap ℕ
layers = (2, 20) ∷ (5, 50) ∷ (9, 90) ∷ []

insert-value_of_example :
    IsSorted (insert (5, 55) layers).0
    × ((l : ℕ)
        → value_of l (insert (5, 55) layers).0
          ≡ (if l == 5 then some (first_of (value_of l layers) 55) else value_of l layers))
insert-value_of_example = insert-value_of (5, 55) layers (omega arith)

erase-value_of_example :
    IsSorted (erase 5 layers).0
    × ((l : ℕ) → value_of l (erase 5 layers).0 ≡ (if l == 5 then none else value_of l layers))
erase-value_of_example = erase-value_of 5 layers (omega arith)

new_layer : insert (7, 70) layers ≡ ((2, 20) ∷ (5, 50) ∷ (7, 70) ∷ (9, 90) ∷ [], 2, true)
unfolding insert
new_layer = refl
