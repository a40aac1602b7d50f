-- ===== src/FlatMap.antt =====
-- A map kept as a sorted vector, hexa/flat_map.hpp, at keys that are numbers with their order, as
-- hexa/client/render_surface.hpp uses it.
pub mod Search
pub mod Refinement
mod Tests
use hexahedra.Base.{
  ℕ, zero, suc, ◌+◌, List, [], ◌∷◌, Option, none, some, Bool, true, false, ltb, ◌==◌, ◌&&◌, ◌||◌,
  not, length, if◌then◌else◌,
}

-- The vector. An iterator is an index, the end its length.
abbrev pub FlatMap : Type 0 → Type 0
FlatMap V = List (ℕ × V)

module _ {V : Type 0} where
  -- `*(begin() + i)`
  unfoldable pub entry_at : ℕ → FlatMap V → Option (ℕ × V)
  entry_at i [] = none
  entry_at zero (p ∷ m) = some p
  entry_at (suc i) (p ∷ m) = entry_at i m

  -- `std::lower_bound`: the first place whose key is not less.
  unfoldable pub lower_bound : ℕ → FlatMap V → ℕ
  lower_bound k [] = 0
  lower_bound k (p ∷ m) = let later = lower_bound k m in if ltb p.0 k then suc later else 0

  -- `i == end() || k < i->first`
  unfoldable pub is_absent : ℕ → ℕ → FlatMap V → Bool
  unfolding entry_at
  is_absent k i m = elim (entry_at i m) [ none ↦ true | some p ↦ ltb k p.0 ]

  -- `vector::insert` and `vector::erase` at an iterator
  unfoldable pub insert_at : ℕ → ℕ × V → FlatMap V → FlatMap V
  insert_at zero q m = q ∷ m
  insert_at (suc i) q [] = q ∷ []
  insert_at (suc i) q (p ∷ m) = p ∷ insert_at i q m

  unfoldable pub erase_at : ℕ → FlatMap V → FlatMap V
  erase_at i [] = []
  erase_at zero (p ∷ m) = m
  erase_at (suc i) (p ∷ m) = p ∷ erase_at i m

  -- `insert(val)`: the vector, the iterator, and whether the value is new.
  unfoldable pub insert : ℕ × V → FlatMap V → FlatMap V × ℕ × Bool
  unfolding lower_bound is_absent insert_at
  insert val m =
      let i = lower_bound val.0 m in
      if is_absent val.0 i m then (insert_at i val m, i, true) else (m, i, false)

  -- `find`: the end when the key is not there.
  unfoldable pub find : ℕ → FlatMap V → ℕ
  unfolding lower_bound is_absent
  find k m = let i = lower_bound k m in if is_absent k i m then length m else i

  -- What the iterator of `find` leads to.
  unfoldable pub value_of : ℕ → FlatMap V → Option V
  unfolding find entry_at
  value_of k m = elim (entry_at (find k m) m) [ none ↦ none | some p ↦ some p.1 ]

  -- `erase(k)`, with the number of entries that go.
  unfoldable pub erase : ℕ → FlatMap V → FlatMap V × ℕ
  unfolding find erase_at
  erase k m = let i = find k m in if i == length m then (m, 0) else (erase_at i m, 1)
