-- ===== src/ChunkCache/Memory.antt =====
-- One kind of data of hexa/client/chunk_cache.cpp: a cache of hexa/lru_cache.hpp, and what the
-- database holds of that kind.
use hexahedra.Base.{ℕ, Bool, true, false, not, ◌==◌, ◌||◌, Option, none, some}
use hexahedra.Base.Table.{Table, put}
use hexahedra.LruCache.{LruCache, count, try_get, remove, prune}
use hexahedra.LruCache.Assign.{assign}

pub record Cached (K V P : Type 0) : Type 0 where
  pub cache : LruCache K V
  pub stored : Table K P

module _ {K V P : Type 0} where
  -- `count(pos) != 0 || store_.is_available(pos)`
  unfoldable pub is_available : K → Cached K V P → Bool
  unfolding count
  is_available k c =
      not (count k c.cache == 0) || elim (c.stored k) [ none ↦ false | some x ↦ true ]

module _ {K V P : Type 0} (dec : Discrete K) where
  -- The body of the getters: `try_get`, then the database. No value is one that is in neither.
  unfoldable pub read_through : (P → V) → V → K → Cached K V P → Option (Cached K V P × Option V)
  unfolding try_get assign
  read_through unpack_as new_value k c = elim (try_get k c.cache) [
    | none ↦ none
    | some r ↦ elim r.1 [
      | some x ↦ some (record c { cache = r.0 }, some x)
      | none ↦ elim (c.stored k) [
        | none ↦ some (record c { cache = r.0 }, none)
        | some x ↦ elim (assign dec new_value k (unpack_as x) r.0) [
          | none ↦ none
          | some cache' ↦ some (record c { cache = cache' }, some (unpack_as x))
        ]
      ]
    ]
  ]

  -- `store_surface` and `store_lightmap`: what is in memory is removed, and the database written.
  unfoldable pub replace_packed : K → P → Cached K V P → Option (Cached K V P)
  unfolding remove
  replace_packed k x c = elim (remove dec k c.cache) [
    | none ↦ none
    | some cache' ↦ some (record c { cache = cache'; stored = put dec k x c.stored })
  ]

  unfoldable pub prune_to : ℕ → Cached K V P → Option (Cached K V P)
  unfolding prune
  prune_to limit c = elim (prune dec limit c.cache) [
    | none ↦ none
    | some r ↦ some (record c { cache = r.1 })
  ]

module _ {K V : Type 0} (dec : Discrete K) where
  -- `store_coarse_height`: memory and database are written.
  unfoldable pub replace_value : V → K → V → Cached K V V → Option (Cached K V V)
  unfolding assign
  replace_value new_value k x c = elim (assign dec new_value k x c.cache) [
    | none ↦ none
    | some cache' ↦ some (record c { cache = cache'; stored = put dec k x c.stored })
  ]
