-- ===== src/World/State.antt =====
-- The part of hexa/server/world.cpp that finds chunks and heights: in memory, in the database or by
-- the terrain generators. Nothing in world.cpp prunes the maps that hold them in memory.
use hexahedra.Base.{ℕ, ◌+◌, ◌%◌, ◌^◌, none, some, List, [], ◌∷◌, ltb, ◌==◌, ◌||◌, if◌then◌else◌}
use hexahedra.World.Heights.{
  ChunkCoordinates, MapCoordinates, undefined_height, chunk_world_limit, is_air_chunk,
  needs_chunk_height_adjustment,
}
use hexahedra.Base.Table.{Table, put}
use native.Mathlib.Decide.{ℕ_discrete}

unfoldable pub chunk_discrete : Discrete ChunkCoordinates
chunk_discrete = hlevel ℕ_discrete

pub map_discrete : Discrete MapCoordinates
map_discrete = hlevel ℕ_discrete

-- The column that a chunk stands in: the conversion to `map_coordinates`.
abbrev pub column : ChunkCoordinates → MapCoordinates
column p = record { x = p.x; y = p.y }

-- A terrain generator: its estimate of a column's height, given that of the generators before it,
-- and what it makes of a chunk.
pub record Generator (Chunk : Type 0) : Type 0 where
  pub estimate_height : MapCoordinates → ℕ → ℕ
  pub generate : ChunkCoordinates → Chunk → Chunk

-- What the world is given: its generators in their order, and how chunks are made and stored, where
-- `pack` and `unpack_as` go through the compression library.
pub record Setup (Chunk Packed : Type 0) : Type 0 where
  pub terraingen : List (Generator Chunk)
  pub new_chunk : Chunk
  pub empty : Chunk
  pub pack : Chunk → Packed
  pub unpack_as : Packed → Chunk

-- The maps in memory, the database, and the positions that `on_update_coarse_height` was called
-- with, the last one first.
pub record World (Chunk Packed : Type 0) : Type 0 where
  pub coarse_heights : Table MapCoordinates ℕ
  pub chunks : Table ChunkCoordinates Chunk
  pub stored_heights : Table MapCoordinates ℕ
  pub stored_chunks : Table ChunkCoordinates Packed
  pub height_updates : List ChunkCoordinates

module _ {Chunk : Type 0} where
  -- The loop over the generators in `generate_coarse_height`.
  unfoldable pub highest_estimate : List (Generator Chunk) → MapCoordinates → ℕ → ℕ
  highest_estimate [] pos result = result
  highest_estimate (g ∷ gs) pos result =
      let s = g.estimate_height pos result in
      highest_estimate gs pos (
        if s == undefined_height
        then result
        else if result == undefined_height || ltb result s
        then s
        else result)

  -- `generate_chunk`: each generator works on what the ones before it made.
  unfoldable pub generate_steps : List (Generator Chunk) → ChunkCoordinates → Chunk → Chunk
  generate_steps [] pos cnk = cnk
  generate_steps (g ∷ gs) pos cnk = generate_steps gs pos (g.generate pos cnk)

module _ {Chunk Packed : Type 0} where
  unfoldable pub set_coarse_height : ChunkCoordinates → World Chunk Packed → World Chunk Packed × ℕ
  set_coarse_height pos w = (
    record w {
      coarse_heights = put map_discrete (column pos) pos.z w.coarse_heights;
      stored_heights = put map_discrete (column pos) pos.z w.stored_heights;
      height_updates = pos ∷ w.height_updates;
    },
    pos.z,
  )

module _ {Chunk Packed : Type 0} (setup : Setup Chunk Packed) where
  open setup use {terraingen, new_chunk, empty, pack, unpack_as}

  unfoldable pub generate_coarse_height : MapCoordinates → ℕ
  unfolding highest_estimate
  generate_coarse_height pos =
      let result = highest_estimate terraingen pos undefined_height in
      if result == undefined_height then chunk_world_limit else result

  unfoldable pub get_coarse_height : MapCoordinates → World Chunk Packed → World Chunk Packed × ℕ
  unfolding set_coarse_height
  get_coarse_height pos w = elim (w.coarse_heights pos) [
    | some h ↦ (w, h)
    | none ↦ elim (w.stored_heights pos) [
      | some h ↦ (record w { coarse_heights = put map_discrete pos h w.coarse_heights }, h)
      | none ↦ set_coarse_height (record { x = pos.x; y = pos.y; z = generate_coarse_height pos }) w
    ]
  ]

  unfoldable pub adjust_coarse_height : ChunkCoordinates → World Chunk Packed → World Chunk Packed
  unfolding set_coarse_height
  adjust_coarse_height pos w =
      let (w', current) = get_coarse_height (column pos) w in
      if needs_chunk_height_adjustment pos current
      then (set_coarse_height (record pos { z = (pos.z + 1) % 2 ^ 32 }) w').0
      else w'

  -- A chunk that is in memory and in the database.
  unfoldable pub keep_chunk : ChunkCoordinates → Chunk → World Chunk Packed → World Chunk Packed
  keep_chunk pos cnk w = record w {
    chunks = put chunk_discrete pos cnk w.chunks;
    stored_chunks = put chunk_discrete pos (pack cnk) w.stored_chunks;
  }

  -- The rest of `get_chunk_writable` for a chunk that is in memory, as new, but not in the
  -- database, in a column of the given height.
  unfoldable pub find_or_make :
      ChunkCoordinates → World Chunk Packed → ℕ → World Chunk Packed × Chunk
  unfolding generate_steps keep_chunk
  find_or_make pos w height =
      if is_air_chunk pos height
      then (let w' = adjust_coarse_height pos w in
          (
            record w' { stored_chunks = put chunk_discrete pos (pack new_chunk) w'.stored_chunks },
            new_chunk,
          ))
      else (let result = generate_steps terraingen pos new_chunk in
          (keep_chunk pos result w, result))

  -- `get_chunk_writable`. `chunks_[pos]` makes the entry before the chunk is found or generated.
  unfoldable pub get_chunk_writable :
      ChunkCoordinates → World Chunk Packed → World Chunk Packed × Chunk
  get_chunk_writable pos w = elim (w.chunks pos) [
    | some cnk ↦ (w, cnk)
    | none ↦
        let entered = record w { chunks = put chunk_discrete pos new_chunk w.chunks } in
        elim (w.stored_chunks pos) [
          | some compressed ↦
              let result = unpack_as compressed in
              (record entered { chunks = put chunk_discrete pos result entered.chunks }, result)
          | none ↦
              let (w', height) = get_coarse_height (column pos) entered in
              find_or_make pos w' height
        ]
  ]

  unfoldable pub get_chunk : ChunkCoordinates → World Chunk Packed → World Chunk Packed × Chunk
  get_chunk pos w =
      let (w', height) = get_coarse_height (column pos) w in
      if is_air_chunk pos height then (w', empty) else get_chunk_writable pos w'
