-- ===== src/ChunkCache.antt =====
-- The client's cache of hexa/client/chunk_cache.cpp: three caches of hexa/lru_cache.hpp before a
-- database of compressed data.
pub mod Memory
pub mod Coherence
pub mod Tier
pub mod Service
pub mod Equivalence
mod Tests
use hexahedra.Base.{ℕ, ◌*◌, Bool, Option, none, some, if◌then◌else◌, false, true, ◌||◌, not, ◌==◌}
use hexahedra.LruCache.{LruCache, count}
use hexahedra.World.Heights.{ChunkCoordinates, MapCoordinates, undefined_height, is_air_chunk}
use hexahedra.World.State.{chunk_discrete, map_discrete, column}
use hexahedra.ChunkCache.Memory.{
  Cached, is_available, read_through, replace_packed, replace_value, prune_to,
}

-- What the cache does not implement: how surfaces and light maps are unpacked, and empty ones.
pub record Unpacking (Surface Light Packed : Type 0) : Type 0 where
  pub unpack_surface : Packed → Surface
  pub unpack_light : Packed → Light
  pub new_surface : Surface
  pub new_light : Light

pub record ChunkCache (Surface Light Packed : Type 0) : Type 0 where
  pub surfaces : Cached ChunkCoordinates Surface Packed
  pub lightmaps : Cached ChunkCoordinates Light Packed
  pub heights : Cached MapCoordinates ℕ ℕ
  pub limit : ℕ

module _ {Surface Light Packed : Type 0} (setup : Unpacking Surface Light Packed) where
  open setup use {unpack_surface, unpack_light, new_surface, new_light}

  abbrev Cache : Type 0
  Cache = ChunkCache Surface Light Packed

  -- Nothing is left when one of the caches fails.
  unfoldable pub cleanup : Cache → Option Cache
  unfolding prune_to
  cleanup c = elim (prune_to chunk_discrete c.limit c.surfaces) [
    | none ↦ none
    | some s ↦ elim (prune_to chunk_discrete c.limit c.lightmaps) [
      | none ↦ none
      | some l ↦ elim (prune_to map_discrete (c.limit * 8) c.heights) [
        | none ↦ none
        | some h ↦ some (record c { surfaces = s; lightmaps = l; heights = h })
      ]
    ]
  ]

  unfoldable pub is_coarse_height_available : MapCoordinates → Cache → Bool
  unfolding is_available
  is_coarse_height_available pos c = is_available pos c.heights

  unfoldable pub get_coarse_height : MapCoordinates → Cache → Option (Cache × ℕ)
  unfolding read_through
  get_coarse_height pos c = elim (read_through map_discrete (λ h. h) 0 pos c.heights) [
    | none ↦ none
    | some r ↦ some (record c { heights = r.0 }, elim r.1 [ none ↦ undefined_height | some h ↦ h ])
  ]

  unfoldable pub store_coarse_height : MapCoordinates → ℕ → Cache → Option Cache
  unfolding replace_value
  store_coarse_height pos value c = elim (replace_value map_discrete 0 pos value c.heights) [
    | none ↦ none
    | some h ↦ some (record c { heights = h })
  ]

  unfoldable pub is_surface_available : ChunkCoordinates → Cache → Bool
  unfolding is_available
  is_surface_available pos c = is_available pos c.surfaces

  -- `none` also for the failed assertion of a surface that is nowhere.
  unfoldable pub get_surface : ChunkCoordinates → Cache → Option (Cache × Surface)
  unfolding read_through
  get_surface pos c = elim (read_through chunk_discrete unpack_surface new_surface pos c.surfaces) [
    | none ↦ none
    | some r ↦ elim r.1 [ none ↦ none | some srf ↦ some (record c { surfaces = r.0 }, srf) ]
  ]

  unfoldable pub store_surface : ChunkCoordinates → Packed → Cache → Option Cache
  unfolding replace_packed
  store_surface pos x c = elim (replace_packed chunk_discrete pos x c.surfaces) [
    | none ↦ none
    | some s ↦ some (record c { surfaces = s })
  ]

  unfoldable pub is_lightmap_available : ChunkCoordinates → Cache → Bool
  unfolding is_available
  is_lightmap_available pos c = is_available pos c.lightmaps

  -- `none` also for the failed assertion of a light map that is nowhere.
  unfoldable pub get_lightmap : ChunkCoordinates → Cache → Option (Cache × Light)
  unfolding read_through
  get_lightmap pos c = elim (read_through chunk_discrete unpack_light new_light pos c.lightmaps) [
    | none ↦ none
    | some r ↦ elim r.1 [ none ↦ none | some lm ↦ some (record c { lightmaps = r.0 }, lm) ]
  ]

  unfoldable pub store_lightmap : ChunkCoordinates → Packed → Cache → Option Cache
  unfolding replace_packed
  store_lightmap pos x c = elim (replace_packed chunk_discrete pos x c.lightmaps) [
    | none ↦ none
    | some l ↦ some (record c { lightmaps = l })
  ]

  -- `is_air`
  unfoldable pub is_air : ChunkCoordinates → Cache → Option (Cache × Bool)
  unfolding is_coarse_height_available get_coarse_height
  is_air pos c =
      if is_coarse_height_available (column pos) c
      then (elim (get_coarse_height (column pos) c) [
        | none ↦ none
        | some r ↦ some (r.0, is_air_chunk pos r.1)
      ])
      else some (c, false)
