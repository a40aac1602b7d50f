-- ===== src/ChunkCache/Equivalence.antt =====
-- The cache of hexa/client/chunk_cache.cpp beside the database alone, request by request.
use hexahedra.Base.{◌≡◌, none, some}
use hexahedra.Base.Table.{Table}
use hexahedra.World.State.{chunk_discrete, map_discrete}
use hexahedra.ChunkCache.{Unpacking, ChunkCache}
use hexahedra.ChunkCache.Coherence.{IsCoherent}
use hexahedra.ChunkCache.Service.{Request, Answer, Database, serve, look_up}

module _ {Surface Light Packed : Type 0} (setup : Unpacking Surface Light Packed) where
  open setup use {unpack_surface, unpack_light, new_surface, new_light}

  pub record IsSound (c : ChunkCache Surface Light Packed) : Type 0 where
    pub surfaces : IsCoherent chunk_discrete unpack_surface c.surfaces
    pub lightmaps : IsCoherent chunk_discrete unpack_light c.lightmaps
    pub heights : IsCoherent map_discrete (λ h. h) c.heights

  abbrev pub database : ChunkCache Surface Light Packed → Database Packed
  database c = record {
    surfaces = c.surfaces.stored;
    lightmaps = c.lightmaps.stored;
    heights = c.heights.stored;
  }

  -- A request that the cache and the database answer alike, with the two in step afterwards, or
  -- that fails in both.
  record Agrees (c : ChunkCache Surface Light Packed) (q : Request Packed) : Type 0 where
    after : ChunkCache Surface Light Packed
    answer : Answer Surface Light
    served : serve setup q c ≡ some (after, answer)
    sound : IsSound after
    stored : look_up setup q (database c) ≡ some (database after, answer)

  Refused : ChunkCache Surface Light Packed → Request Packed → Type 0
  Refused c q = (serve setup q c ≡ none) × (look_up setup q (database c) ≡ none)
