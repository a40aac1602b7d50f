-- ===== src/ChunkCache/Tests.antt =====
-- A cache of hexa/client/chunk_cache.cpp over numbers, in front of a database with one surface.
use hexahedra.Base.{ℕ, ◌+◌, none, List, [], ◌∷◌}
use hexahedra.Base.Table.{Table, put}
use hexahedra.LruCache.{empty_cache}
use hexahedra.World.Heights.{ChunkCoordinates}
use hexahedra.World.State.{chunk_discrete, column}
use hexahedra.ChunkCache.{Unpacking, ChunkCache}
use hexahedra.ChunkCache.Memory.{Cached}
use hexahedra.ChunkCache.Service.{
  Request, clean, get_height, put_height, read_surface, put_surface, air,
}

abbrev setup : Unpacking ℕ ℕ ℕ
setup = record {
  unpack_surface = λ x. x + 1;
  unpack_light = λ x. x;
  new_surface = 0;
  new_light = 0;
}

abbrev cold : {K V P : Type 0} → Table K P → Cached K V P
cold stored = record { cache = empty_cache; stored = stored }

abbrev place : ChunkCoordinates
place = record { x = 1; y = 2; z = 3 }

abbrev client : ChunkCache ℕ ℕ ℕ
client = record {
  surfaces = cold (put chunk_discrete place 7 (λ p. none));
  lightmaps = cold (λ p. none);
  heights = cold (λ p. none);
  limit = 1;
}

abbrev requests : List (Request ℕ)
requests =
    read_surface place
    ∷ clean
    ∷ put_surface place 20
    ∷ read_surface place
    ∷ put_height (column place) 9
    ∷ air place
    ∷ get_height (column place)
    ∷ []
