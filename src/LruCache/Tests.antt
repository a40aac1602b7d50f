-- ===== src/LruCache/Tests.antt =====
-- A cache with two pairs, on which the theorems are used.
use hexahedra.Base.{ℕ, ◌≡◌, refl, none, some, List, [], ◌∷◌, arith, take, ◌++◌}
use hexahedra.Base.Table.{put, put_ne}
use hexahedra.LruCache.{LruCache, lookup, remove, prune, pairs, empty_cache}
use hexahedra.LruCache.Invariant.{IsValid, empty_cache-IsValid, added-IsValid}
use hexahedra.LruCache.Refinement.{without, value_or, lookup-pairs, remove-pairs}
use hexahedra.LruCache.Pruning.{prune-pairs}
use native.Mathlib.Decide.{ℕ_discrete}
use mathlib.Core.List.{reverse}

abbrev one_pair : LruCache ℕ ℕ
one_pair = record {
  list = record { iterator = 0; first = 5; second = 50 } ∷ [];
  index = put ℕ_discrete 5 0 (λ k. none);
  size = 1;
  allocated = 1;
}

abbrev two_pairs : LruCache ℕ ℕ
two_pairs = record {
  list =
      record { iterator = 1; first = 8; second = 80 }
      ∷ record { iterator = 0; first = 5; second = 50 }
      ∷ [];
  index = put ℕ_discrete 8 1 one_pair.index;
  size = 2;
  allocated = 2;
}

two_pairs-IsValid : IsValid two_pairs
two_pairs-IsValid =
    let absent : one_pair.index 8 ≡ none = put_ne ℕ_discrete 5 8 0 (λ k. none) (omega arith) in
    added-IsValid one_pair (added-IsValid empty_cache (empty_cache-IsValid) ℕ_discrete 5 50 refl)
      ℕ_discrete 8 80 absent

lookup-pairs_example :
    (r : LruCache ℕ ℕ × ℕ) × (lookup ℕ_discrete 0 5 two_pairs ≡ some r)
    × IsValid r.0
    × (pairs r.0
        ≡ (5, value_or ℕ_discrete 5 0 (pairs two_pairs)) ∷ without ℕ_discrete 5 (pairs two_pairs))
lookup-pairs_example = lookup-pairs ℕ_discrete two_pairs two_pairs-IsValid 5 0

remove-pairs_example :
    (c : LruCache ℕ ℕ) × (remove ℕ_discrete 8 two_pairs ≡ some c)
    × IsValid c
    × (pairs c ≡ without ℕ_discrete 8 (pairs two_pairs))
remove-pairs_example = remove-pairs ℕ_discrete two_pairs two_pairs-IsValid 8

prune-pairs_example :
    (r : List (ℕ × ℕ) × LruCache ℕ ℕ) × (prune ℕ_discrete 1 two_pairs ≡ some r)
    × IsValid r.1
    × (pairs r.1 ≡ take 1 (pairs two_pairs))
    × (pairs two_pairs ≡ pairs r.1 ++ reverse r.0)
prune-pairs_example = prune-pairs ℕ_discrete 1 two_pairs two_pairs-IsValid
