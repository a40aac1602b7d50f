-- ===== src/LruCache.antt =====
-- The container of hexa/lru_cache.hpp: a list of pairs, the newest first, and a map from keys to
-- iterators into the list.
pub mod Nodes
pub mod Invariant
pub mod Refinement
pub mod Pruning
pub mod Reading
pub mod Assign
mod Tests
use hexahedra.Base.{
  ℕ, zero, suc, ◌+◌, ◌-◌, ◌≡◌, refl, Bool, true, false, Option, none, some, ltb, ◌==◌,
  if◌then◌else◌, List, [], ◌∷◌, map,
}
use hexahedra.Base.Table.{Table, put, erase_key}

-- An element of the list. An iterator is the address of its element, and stays with it when the
-- element moves.
pub record Node (K V : Type 0) : Type 0 where
  pub iterator : ℕ
  pub first : K
  pub second : V

-- `allocated` is the address that the next element of the list gets.
pub record LruCache (K V : Type 0) : Type 0 where
  pub list : List (Node K V)
  pub index : Table K ℕ
  pub size : ℕ
  pub allocated : ℕ

module _ {K V : Type 0} where
  -- What an iterator points to; nothing for one whose element is gone.
  unfoldable pub deref : ℕ → List (Node K V) → Option (Node K V)
  deref it [] = none
  deref it (n ∷ ns) = let later = deref it ns in if n.iterator == it then some n else later

  -- `list_.erase(it)`
  unfoldable pub erase_at : ℕ → List (Node K V) → List (Node K V)
  erase_at it [] = []
  erase_at it (n ∷ ns) = let later = erase_at it ns in if n.iterator == it then ns else n ∷ later

  -- `list_.splice(list_.begin(), list_, it)`; nothing for an iterator whose element is gone.
  unfoldable pub splice_front : ℕ → List (Node K V) → Option (List (Node K V))
  unfolding deref erase_at
  splice_front it ns = elim (deref it ns) [ none ↦ none | some n ↦ some (n ∷ erase_at it ns) ]

  -- `list_.back()` with the list that `pop_back` leaves; nothing for an empty list.
  unfoldable pub pop_back : List (Node K V) → Option (Node K V × List (Node K V))
  pop_back [] = none
  pop_back (n ∷ ns) = elim (pop_back ns) [ none ↦ some (n, []) | some r ↦ some (r.0, n ∷ r.1) ]

  -- The pairs that `for_each` goes through.
  abbrev pub pairs : LruCache K V → List (K × V)
  pairs c = map (λ n. (n.first, n.second)) c.list

  -- The cache that is made empty.
  abbrev pub empty_cache : LruCache K V
  empty_cache = record { list = []; index = λ k. none; size = 0; allocated = 0 }

  -- `touch`, for a build without assertions.
  unfoldable pub touch : K → LruCache K V → Option (LruCache K V)
  unfolding splice_front
  touch k c = elim (c.index k) [
    | none ↦ some c
    | some it ↦ elim (splice_front it c.list) [
      | none ↦ none
      | some ns ↦ some (record c { list = ns })
    ]
  ]

  -- `get` and the `try_get` of a constant cache, with no value for the exception of the one and the
  -- empty optional of the other.
  unfoldable pub get : K → LruCache K V → Option (Option V)
  unfolding deref
  get k c = elim (c.index k) [
    | none ↦ some none
    | some it ↦ elim (deref it c.list) [ none ↦ none | some n ↦ some (some n.second) ]
  ]

  -- `try_get` of a cache that is not constant.
  unfoldable pub try_get : K → LruCache K V → Option (LruCache K V × Option V)
  unfolding splice_front
  try_get k c = elim (c.index k) [
    | none ↦ some (c, none)
    | some it ↦ elim (splice_front it c.list) [
      | none ↦ none
      | some ns ↦ elim (deref it ns) [
        | none ↦ none
        | some n ↦ some (record c { list = ns }, some n.second)
      ]
    ]
  ]

  unfoldable pub count : K → LruCache K V → ℕ
  count k c = elim (c.index k) [ none ↦ 0 | some it ↦ 1 ]

  unfoldable pub clear : LruCache K V → LruCache K V
  clear c = record c { list = []; index = λ k. none; size = 0 }

module _ {K V : Type 0} (dec : Discrete K) where
  -- The body of the loop of `prune`, with the pair that it removes.
  unfoldable pub prune_step : LruCache K V → Option ((K × V) × LruCache K V)
  unfolding pop_back
  prune_step c = elim (pop_back c.list) [
    | none ↦ none
    | some r ↦ some (
      (r.0.first, r.0.second),
      record c { index = erase_key dec r.0.first c.index; list = r.1; size = c.size - 1 },
    )
  ]

  -- The loop of `prune`, with the pairs for which `on_remove` is called; nothing when the fuel is
  -- out or a list is empty that must not be.
  unfoldable pub prune_while : ℕ → ℕ → LruCache K V → Option (List (K × V) × LruCache K V)
  unfolding prune_step
  prune_while zero max_size c = none
  prune_while (suc fuel) max_size c =
      let rest : Option (List (K × V) × LruCache K V) = elim (prune_step c) [
        | none ↦ none
        | some r ↦ elim (prune_while fuel max_size r.1) [
          | none ↦ none
          | some s ↦ some (r.0 ∷ s.0, s.1)
        ]
      ] in
      if ltb max_size c.size then rest else some ([], c)

  unfoldable pub prune : ℕ → LruCache K V → Option (List (K × V) × LruCache K V)
  unfolding prune_while
  prune max_size c = prune_while (suc c.size) max_size c

  -- `operator[]`, with the iterator of the element that it returns a reference to. `new_value` is
  -- `mapped_type()`.
  unfoldable pub lookup : V → K → LruCache K V → Option (LruCache K V × ℕ)
  unfolding splice_front
  lookup new_value k c = elim (c.index k) [
    | none ↦ some (
      record {
        list = record { iterator = c.allocated; first = k; second = new_value } ∷ c.list;
        index = put dec k c.allocated c.index;
        size = c.size + 1;
        allocated = c.allocated + 1;
      },
      c.allocated,
    )
    | some it ↦ elim (splice_front it c.list) [
      | none ↦ none
      | some ns ↦ some (record c { list = ns }, it)
    ]
  ]

  unfoldable pub remove : K → LruCache K V → Option (LruCache K V)
  unfolding deref erase_at
  remove k c = elim (c.index k) [
    | none ↦ some c
    | some it ↦ elim (deref it c.list) [
      | none ↦ none
      | some n ↦ some (record c {
        list = erase_at it c.list;
        index = erase_key dec k c.index;
        size = c.size - 1;
      })
    ]
  ]
