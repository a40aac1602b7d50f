-- ===== src/ChunkCache/Service.antt =====
-- Requests to hexa/client/chunk_cache.cpp, and the same requests to the database alone.
use hexahedra.Base.{ℕ, Bool, false, Option, none, some, List, [], ◌∷◌, if◌then◌else◌}
use hexahedra.Base.Table.{Table, put}
use hexahedra.World.Heights.{ChunkCoordinates, MapCoordinates, undefined_height, is_air_chunk}
use hexahedra.World.State.{chunk_discrete, map_discrete, column}
use hexahedra.ChunkCache.{
  Unpacking, ChunkCache, cleanup, is_coarse_height_available, get_coarse_height,
  store_coarse_height, is_surface_available, get_surface, store_surface, is_lightmap_available,
  get_lightmap, store_lightmap, is_air,
}
use hexahedra.ChunkCache.Coherence.{unpacked}
use hexahedra.ChunkCache.Tier.{is_stored}

pub data Request (Packed : Type 0) : Type 0 where
  clean : Request Packed
  height_available : MapCoordinates → Request Packed
  get_height : MapCoordinates → Request Packed
  put_height : MapCoordinates → ℕ → Request Packed
  surface_available : ChunkCoordinates → Request Packed
  read_surface : ChunkCoordinates → Request Packed
  put_surface : ChunkCoordinates → Packed → Request Packed
  light_available : ChunkCoordinates → Request Packed
  read_light : ChunkCoordinates → Request Packed
  put_light : ChunkCoordinates → Packed → Request Packed
  air : ChunkCoordinates → Request Packed

pub data Answer (Surface Light : Type 0) : Type 0 where
  done : Answer Surface Light
  whether : Bool → Answer Surface Light
  height : ℕ → Answer Surface Light
  surface : Surface → Answer Surface Light
  light : Light → Answer Surface Light

-- The database alone.
pub record Database (Packed : Type 0) : Type 0 where
  pub surfaces : Table ChunkCoordinates Packed
  pub lightmaps : Table ChunkCoordinates Packed
  pub heights : Table MapCoordinates ℕ

module _ {Surface Light Packed : Type 0} (setup : Unpacking Surface Light Packed) where
  open setup use {unpack_surface, unpack_light}

  -- The method of the cache for each request.
  unfoldable pub serve :
      Request Packed
      → ChunkCache Surface Light Packed
      → Option (ChunkCache Surface Light Packed × Answer Surface Light)
  serve clean c = elim (cleanup setup c) [ none ↦ none | some c' ↦ some (c', done) ]
  serve (height_available p) c = some (c, whether (is_coarse_height_available setup p c))
  serve (get_height p) c = elim (get_coarse_height setup p c) [
    | none ↦ none
    | some r ↦ some (r.0, height r.1)
  ]
  serve (put_height p h) c = elim (store_coarse_height setup p h c) [
    | none ↦ none
    | some c' ↦ some (c', done)
  ]
  serve (surface_available p) c = some (c, whether (is_surface_available setup p c))
  serve (read_surface p) c = elim (get_surface setup p c) [
    | none ↦ none
    | some r ↦ some (r.0, surface r.1)
  ]
  serve (put_surface p x) c = elim (store_surface setup p x c) [
    | none ↦ none
    | some c' ↦ some (c', done)
  ]
  serve (light_available p) c = some (c, whether (is_lightmap_available setup p c))
  serve (read_light p) c = elim (get_lightmap setup p c) [
    | none ↦ none
    | some r ↦ some (r.0, light r.1)
  ]
  serve (put_light p x) c = elim (store_lightmap setup p x c) [
    | none ↦ none
    | some c' ↦ some (c', done)
  ]
  serve (air p) c = elim (is_air setup p c) [ none ↦ none | some r ↦ some (r.0, whether r.1) ]

  -- All answers to a sequence of requests; nothing when one of them fails.
  unfoldable pub serve_all :
      List (Request Packed) → ChunkCache Surface Light Packed → Option (List (Answer Surface Light))
  unfolding serve
  serve_all [] c = some []
  serve_all (q ∷ qs) c = elim (serve q c) [
    | none ↦ none
    | some r ↦ elim (serve_all qs r.0) [ none ↦ none | some rest ↦ some (r.1 ∷ rest) ]
  ]

  -- The height that the database has, or the mark of an undefined one.
  abbrev stored_height : MapCoordinates → Database Packed → ℕ
  stored_height p d = elim (d.heights p) [ none ↦ undefined_height | some h ↦ h ]

  -- The database alone, after a request and with its answer; `none` where a surface or a light map
  -- is read that it does not have.
  unfoldable pub look_up :
      Request Packed → Database Packed → Option (Database Packed × Answer Surface Light)
  look_up clean d = some (d, done)
  look_up (height_available p) d = some (d, whether (is_stored p d.heights))
  look_up (get_height p) d = some (d, height (stored_height p d))
  look_up (put_height p h) d = some (record d { heights = put map_discrete p h d.heights }, done)
  look_up (surface_available p) d = some (d, whether (is_stored p d.surfaces))
  look_up (read_surface p) d = elim (unpacked unpack_surface d.surfaces p) [
    | none ↦ none
    | some srf ↦ some (d, surface srf)
  ]
  look_up (put_surface p x) d =
      some (record d { surfaces = put chunk_discrete p x d.surfaces }, done)
  look_up (light_available p) d = some (d, whether (is_stored p d.lightmaps))
  look_up (read_light p) d = elim (unpacked unpack_light d.lightmaps p) [
    | none ↦ none
    | some lm ↦ some (d, light lm)
  ]
  look_up (put_light p x) d =
      some (record d { lightmaps = put chunk_discrete p x d.lightmaps }, done)
  look_up (air p) d = some (
    d,
    whether (
        if is_stored (column p) d.heights
        then is_air_chunk p (stored_height (column p) d)
        else false),
  )

  unfoldable pub look_up_all :
      List (Request Packed) → Database Packed → Option (List (Answer Surface Light))
  unfolding look_up
  look_up_all [] d = some []
  look_up_all (q ∷ qs) d = elim (look_up q d) [
    | none ↦ none
    | some r ↦ elim (look_up_all qs r.0) [ none ↦ none | some rest ↦ some (r.1 ∷ rest) ]
  ]
