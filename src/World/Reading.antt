-- ===== src/World/Reading.antt =====
-- What get_chunk of hexa/server/world.cpp reads after a chunk was found or made: by a later
-- request, and after the server was started again.
use hexahedra.Base.{ℕ, ◌≡◌, refl, ◌∙◌, inl, inr, false, none, some, arith, Bool-cases, Option-cases}
use hexahedra.World.Heights.{ChunkCoordinates, is_air_chunk, IsLegal}
use hexahedra.Base.Table.{put_self}
use hexahedra.World.State.{
  World, Setup, chunk_discrete, column, keep_chunk, generate_steps, get_coarse_height, find_or_make,
  get_chunk_writable, get_chunk, adjust_coarse_height,
}
use hexahedra.World.Invariant.Column.{Below, HasHeights, get_coarse_height-HeightAt}
use hexahedra.World.Invariant.Chunks.{IsSound, below_not_air, get_chunk_writable-ChunkAt}

-- A new start: nothing is in memory.
abbrev pub restart : {Chunk Packed : Type 0} → World Chunk Packed → World Chunk Packed
restart w = record w { coarse_heights = λ _. none; chunks = λ _. none }

pub restart-IsSound :
    {Chunk Packed : Type 0} {w : World Chunk Packed} → IsSound w → IsSound (restart w)
restart-IsSound s = record {
  heights = record { same_height = λ m h e. absurd (cc); known = s.heights.known };
  chunks_below = λ p c e. absurd (cc);
  stored_below = s.stored_below;
}

module _ {Chunk Packed : Type 0} (setup : Setup Chunk Packed) where
  open setup use {terraingen, new_chunk, pack, unpack_as}

  -- A chunk below the height of its column is no air to a reader.
  get_chunk_solid :
      (w : World Chunk Packed) (pos : ChunkCoordinates)
      → HasHeights w
      → Below w.stored_heights pos
      → get_chunk setup pos w
        ≡ get_chunk_writable setup pos (get_coarse_height setup (column pos) w).0
  unfolding get_chunk
  get_chunk_solid w pos heights (h, e, lt) =
      let at = get_coarse_height-HeightAt setup w heights (column pos) in
      let (h', e', le) = at.grows (column pos) h e in
      let found = (get_coarse_height setup (column pos) w).1 in
      let stored_height = at.height in
      let same : found ≡ h' = cc in
      let solid : is_air_chunk pos found ≡ false = below_not_air pos found (omega arith) in rw solid

  in_memory :
      (w : World Chunk Packed) (pos : ChunkCoordinates) (c : Chunk)
      → w.chunks pos ≡ some c
      → get_chunk_writable setup pos w ≡ (w, c)
  unfolding get_chunk_writable
  in_memory w pos c here = rw (here, get_chunk_writable)

  in_database :
      (w : World Chunk Packed) (pos : ChunkCoordinates) (x : Packed)
      → w.chunks pos ≡ none
      → w.stored_chunks pos ≡ some x
      → (get_chunk_writable setup pos w).1 ≡ unpack_as x
  unfolding get_chunk_writable
  in_database w pos x away there = rw (away, there, get_chunk_writable)

  -- In a sound world, the chunk that a request for writing inside the world's limits gives is the
  -- chunk that a reader of the same place gets next: the reader never takes it for air.
  pub get_chunk-get_chunk_writable :
      (w : World Chunk Packed) (pos : ChunkCoordinates)
      → IsSound w
      → IsLegal pos
      → (get_chunk setup pos (get_chunk_writable setup pos w).0).1
        ≡ (get_chunk_writable setup pos w).1
  get_chunk-get_chunk_writable w pos s legal =
      let at = get_chunk_writable-ChunkAt setup w pos s legal in
      let w' = (get_chunk_writable setup pos w).0 in
      let c = (get_chunk_writable setup pos w).1 in
      let heights = get_coarse_height-HeightAt setup w' at.sound.heights (column pos) in
      let here : (get_coarse_height setup (column pos) w').0.chunks pos ≡ some c =
        rw heights.same_chunks at.chunk in
      rw (get_chunk_solid w' pos at.sound.heights (at.sound.chunks_below pos c at.chunk))
        (rw (in_memory (get_coarse_height setup (column pos) w').0 pos c here))

  -- The chunk at a place, as it is in the database, is the given one.
  record Kept (w : World Chunk Packed) (pos : ChunkCoordinates) (c : Chunk) : Type 0 where
    packed : Packed
    stored : w.stored_chunks pos ≡ some packed
    same : unpack_as packed ≡ c

  find_or_make-Kept :
      (w : World Chunk Packed) (pos : ChunkCoordinates) (h : ℕ)
      → ((c : Chunk) → unpack_as (pack c) ≡ c)
      → Kept (find_or_make setup pos w h).0 pos (find_or_make setup pos w h).1
  unfolding find_or_make keep_chunk
  find_or_make-Kept w pos h law = elim (Bool-cases (is_air_chunk pos h)) [
    | inl air ↦ rw air (record {
      packed = pack new_chunk;
      stored =
          put_self chunk_discrete pos (pack new_chunk)
            (adjust_coarse_height setup pos w).stored_chunks;
      same = law new_chunk;
    })
    | inr solid ↦
        let c = generate_steps terraingen pos new_chunk in
        rw solid (record {
          packed = pack c;
          stored = put_self chunk_discrete pos (pack c) w.stored_chunks;
          same = law c;
        })
  ]

  get_chunk_writable-Kept :
      (w : World Chunk Packed) (pos : ChunkCoordinates)
      → w.chunks pos ≡ none
      → ((c : Chunk) → unpack_as (pack c) ≡ c)
      → Kept (get_chunk_writable setup pos w).0 pos (get_chunk_writable setup pos w).1
  unfolding get_chunk_writable
  get_chunk_writable-Kept w pos away law = elim (Option-cases (w.stored_chunks pos)) [
    | inr (x, there) ↦
        rw (away, there, get_chunk_writable) (record { packed = x; stored = there; same = refl })
    | inl nowhere ↦ rw (away, nowhere, get_chunk_writable) (find_or_make-Kept _ pos _ law)
  ]

  -- In a sound world, where what is packed unpacks to what it was, a chunk inside the world's
  -- limits that was not in memory when it was requested for writing is the chunk that a reader gets
  -- when the server has been started again.
  pub get_chunk-restart-get_chunk_writable :
      (w : World Chunk Packed) (pos : ChunkCoordinates)
      → IsSound w
      → IsLegal pos
      → w.chunks pos ≡ none
      → ((c : Chunk) → unpack_as (pack c) ≡ c)
      → (get_chunk setup pos (restart (get_chunk_writable setup pos w).0)).1
        ≡ (get_chunk_writable setup pos w).1
  get_chunk-restart-get_chunk_writable w pos s legal away law =
      let at = get_chunk_writable-ChunkAt setup w pos s legal in
      let kept = get_chunk_writable-Kept w pos away law in
      let w' = (get_chunk_writable setup pos w).0 in
      let again = restart-IsSound at.sound in
      let heights = get_coarse_height-HeightAt setup (restart w') again.heights (column pos) in
      let found = (get_coarse_height setup (column pos) (restart w')).0 in
      let nothing : found.chunks pos ≡ none = rw heights.same_chunks refl in
      let there : found.stored_chunks pos ≡ some kept.packed = rw heights.same_stored kept.stored in
      rw
        (get_chunk_solid (restart w') pos again.heights
          (at.sound.stored_below pos kept.packed kept.stored))
        (in_database found pos kept.packed nothing there ∙ kept.same)
