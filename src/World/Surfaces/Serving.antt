-- ===== src/World/Surfaces/Serving.antt =====
-- Sequences of requests to hexa/server/world.cpp, with changes through hexa/server/world_write.cpp,
-- and the reply that hexa/server/network.cpp sends.
use hexahedra.Base.{List, [], ◌∷◌, some}
use hexahedra.Base.Table.{put}
use hexahedra.World.Heights.{ChunkCoordinates, IsLegal}
use hexahedra.World.State.{chunk_discrete, get_chunk_writable}
use hexahedra.Surface.{Blocks}
use hexahedra.World.Surfaces.State.{
  SceneSetup, Scene, Step, give, ◌>>=◌, check_place, on_world, reach_chunk, get_surface,
}
use hexahedra.World.Surfaces.Borders.{IsAway, IsInland}
use hexahedra.World.Surfaces.Lights.{
  get_lightmap, get_compressed_surface, get_compressed_lightmap, commit_write,
}

-- What the rest of the server asks of the world. A change is what is done to the blocks of a chunk
-- between `acquire_write_access` and the end of the `world_write`.
pub data Request : Type 0 where
  ask_chunk : ChunkCoordinates → Request
  ask_surface : ChunkCoordinates → Request
  ask_lightmap : ChunkCoordinates → Request
  ask_packed_surface : ChunkCoordinates → Request
  ask_packed_lightmap : ChunkCoordinates → Request
  change : ChunkCoordinates → (Blocks → Blocks) → Request

-- How far from the limits of the world the place of a request is: no chunk for a chunk alone, one
-- for a surface or a light map, which look at the chunks around, and two for a change, which renews
-- the surfaces around.
abbrev pub IsAllowed : Request → Type 0
IsAllowed (ask_chunk p) = IsLegal p
IsAllowed (ask_surface p) = IsInland p
IsAllowed (ask_lightmap p) = IsInland p
IsAllowed (ask_packed_surface p) = IsInland p
IsAllowed (ask_packed_lightmap p) = IsInland p
IsAllowed (change p f) = IsAway 2 p

module _ {Light Packed : Type 0} (setup : SceneSetup Light Packed) where
  open setup use {chunks}

  -- A chunk in memory is changed through the reference that `get_chunk_writable` gave.
  abbrev pub write_blocks : ChunkCoordinates → Blocks → Step (Scene Light Packed) Unit
  write_blocks p c s = (
    record s { world = record s.world { chunks = put chunk_discrete p c s.world.chunks } },
    some tt,
  )

  unfoldable pub change_chunk :
      ChunkCoordinates → (Blocks → Blocks) → Step (Scene Light Packed) Unit
  unfolding commit_write get_chunk_writable check_place
  change_chunk p f = check_place p >>= λ _. on_world (get_chunk_writable chunks p) >>= λ c.
      write_blocks p (f c) >>= λ _. commit_write setup p

  unfoldable pub answer : Request → Step (Scene Light Packed) Unit
  unfolding reach_chunk get_surface get_lightmap get_compressed_surface get_compressed_lightmap
      change_chunk
  answer (ask_chunk p) = reach_chunk setup p >>= λ _. give tt
  answer (ask_surface p) = get_surface setup p >>= λ _. give tt
  answer (ask_lightmap p) = get_lightmap setup p >>= λ _. give tt
  answer (ask_packed_surface p) = get_compressed_surface setup p >>= λ _. give tt
  answer (ask_packed_lightmap p) = get_compressed_lightmap setup p >>= λ _. give tt
  answer (change p f) = change_chunk p f

  unfoldable pub answer_all : List Request → Step (Scene Light Packed) Unit
  unfolding answer
  answer_all [] = give tt
  answer_all (r ∷ rs) = answer r >>= λ _. answer_all rs

  -- `network::send_surface`: the terrain and the light of the reply
  unfoldable pub send_surface : ChunkCoordinates → Step (Scene Light Packed) (Packed × Packed)
  unfolding get_compressed_surface get_compressed_lightmap
  send_surface p = get_compressed_surface setup p >>= λ terrain.
      get_compressed_lightmap setup p >>= λ light. give (terrain, light)
