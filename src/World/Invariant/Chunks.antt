-- ===== src/World/Invariant/Chunks.antt =====
-- The invariant of chunks of hexa/server/world.cpp, and what the operations leave in memory and in
-- the database.
use hexahedra.Base.{ℕ, ◌≡◌, ◌∙◌, inl, inr, false, some, arith, Bool-cases, Option-cases, ◌<◌, ◌⊎◌}
use hexahedra.World.Heights.{
  ChunkCoordinates, MapCoordinates, undefined_height, is_air_chunk, IsLegal,
}
use hexahedra.Base.Table.{Table, put, put_self, put_cases}
use hexahedra.World.State.{
  World, Setup, chunk_discrete, column, adjust_coarse_height, find_or_make, get_chunk_writable,
  generate_steps,
}
use hexahedra.World.Invariant.Column.{
  Below, Grows, Grows-refl, Grows-trans, Below-Grows, HasHeights, HeightAt,
  get_coarse_height-HeightAt, adjust_coarse_height-HeightAt,
}

not_air :
    (p : ChunkCoordinates) (h : ℕ) → is_air_chunk p h ≡ false → (h ≡ undefined_height) ⊎ (p.z < h)
unfolding is_air_chunk
not_air p h e = ground arith

pub below_not_air : (p : ChunkCoordinates) (h : ℕ) → p.z < h → is_air_chunk p h ≡ false
unfolding is_air_chunk
below_not_air p h lt = ground arith

-- Every chunk that is in memory or in the database lies below the height of its column, so that it
-- is not taken for air.
pub record IsSound {Chunk Packed : Type 0} (w : World Chunk Packed) : Type 0 where
  pub heights : HasHeights w
  pub chunks_below :
      (p : ChunkCoordinates) (c : Chunk) → w.chunks p ≡ some c → Below w.stored_heights p
  pub stored_below :
      (p : ChunkCoordinates) (c : Packed) → w.stored_chunks p ≡ some c → Below w.stored_heights p

-- What a read of a chunk leaves behind: a sound world with no height fallen, where `pos` holds the
-- chunk `c`.
pub record ChunkAt {Chunk Packed : Type 0} (w w' : World Chunk Packed) (pos : ChunkCoordinates)
    (c : Chunk) : Type 0 where
  pub sound : IsSound w'
  pub grows : Grows w.stored_heights w'.stored_heights
  pub chunk : w'.chunks pos ≡ some c

-- A table of chunks to which one is added that lies below the height of its column.
put-Below :
    {V : Type 0} (heights heights' : Table MapCoordinates ℕ) (pos : ChunkCoordinates) (v : V)
    (table : Table ChunkCoordinates V)
    → Grows heights heights'
    → Below heights' pos
    → ((p : ChunkCoordinates) (c : V) → table p ≡ some c → Below heights p)
    → (p : ChunkCoordinates) (c : V) → put chunk_discrete pos v table p ≡ some c
    → Below heights' p
put-Below heights heights' pos v table g below all p c e =
    elim (put_cases chunk_discrete pos p v c table e) [
      | inl (here, _) ↦ rw here below
      | inr (_, there) ↦ Below-Grows heights heights' p g (all p c there)
    ]

-- In a column whose height is `h`, a chunk that is not air lies below it.
Below-of_height :
    {Chunk Packed : Type 0} (w : World Chunk Packed) (pos : ChunkCoordinates) (h : ℕ)
    → HasHeights w
    → w.stored_heights (column pos) ≡ some h
    → is_air_chunk pos h ≡ false
    → Below w.stored_heights pos
Below-of_height w pos h heights e solid = elim (not_air pos h solid) [
  | inl unknown ↦ absurd (heights.known (column pos) h e unknown)
  | inr lt ↦ (h, e, lt)
]

module _ {Chunk Packed : Type 0} (w : World Chunk Packed) (s : IsSound w)
    (pos : ChunkCoordinates) where
  abbrev with_chunk : Chunk → World Chunk Packed
  with_chunk c = record w { chunks = put chunk_discrete pos c w.chunks }

  -- The chunk is in the database.
  loaded : (c : Chunk) → Below w.stored_heights pos → ChunkAt w (with_chunk c) pos c
  loaded c below = record {
    sound = record {
      heights = record { same_height = s.heights.same_height; known = s.heights.known };
      chunks_below =
          put-Below w.stored_heights w.stored_heights pos c w.chunks (Grows-refl w.stored_heights)
            below s.chunks_below;
      stored_below = s.stored_below;
    };
    grows = Grows-refl w.stored_heights;
    chunk = put_self chunk_discrete pos c w.chunks;
  }

  module _ (new : Chunk) (x : Packed) (w' : World Chunk Packed) (h : ℕ) where
    -- The heights are in order, with the new chunk in memory already.
    entered-Below :
        HeightAt (with_chunk new) w' (column pos) h
        → pos.z < h
        → (p : ChunkCoordinates) (c : Chunk) → w'.chunks p ≡ some c
        → Below w'.stored_heights p
    entered-Below at lt = rw at.same_chunks (
        put-Below w.stored_heights w'.stored_heights pos new w.chunks at.grows (h, at.height, lt)
          s.chunks_below)

    stored-Below_new :
        HeightAt (with_chunk new) w' (column pos) h
        → pos.z < h
        → (p : ChunkCoordinates) (c : Packed) → put chunk_discrete pos x w'.stored_chunks p ≡ some c
        → Below w'.stored_heights p
    stored-Below_new at lt = rw at.same_stored (
        put-Below w.stored_heights w'.stored_heights pos x w.stored_chunks at.grows
          (h, at.height, lt) s.stored_below)

    -- A generated chunk replaces the new one, in memory and in the database.
    generated :
        (c : Chunk)
        → HeightAt (with_chunk new) w' (column pos) h
        → pos.z < h
        → ChunkAt w
            (record w' {
              chunks = put chunk_discrete pos c w'.chunks;
              stored_chunks = put chunk_discrete pos x w'.stored_chunks;
            })
            pos
            c
    generated c at lt = record {
      sound = record {
        heights = record { same_height = at.sound.same_height; known = at.sound.known };
        chunks_below =
            put-Below w'.stored_heights w'.stored_heights pos c w'.chunks
              (Grows-refl w'.stored_heights) (h, at.height, lt) (entered-Below at lt);
        stored_below = stored-Below_new at lt;
      };
      grows = at.grows;
      chunk = put_self chunk_discrete pos c w'.chunks;
    }

    -- The new chunk stays as it is, and goes to the database.
    stored :
        HeightAt (with_chunk new) w' (column pos) h
        → pos.z < h
        → ChunkAt w
            (record w' { stored_chunks = put chunk_discrete pos x w'.stored_chunks })
            pos
            new
    stored at lt = record {
      sound = record {
        heights = record { same_height = at.sound.same_height; known = at.sound.known };
        chunks_below = entered-Below at lt;
        stored_below = stored-Below_new at lt;
      };
      grows = at.grows;
      chunk = rw at.same_chunks (put_self chunk_discrete pos new w.chunks);
    }

HeightAt-trans :
    {Chunk Packed : Type 0} (w w' w'' : World Chunk Packed) (m : MapCoordinates) (h h' : ℕ)
    → HeightAt w w' m h
    → HeightAt w' w'' m h'
    → HeightAt w w'' m h'
HeightAt-trans w w' w'' m h h' a b = record {
  sound = b.sound;
  height = b.height;
  grows = Grows-trans w.stored_heights w'.stored_heights w''.stored_heights a.grows b.grows;
  same_chunks = b.same_chunks ∙ a.same_chunks;
  same_stored = b.same_stored ∙ a.same_stored;
}

module _ {Chunk Packed : Type 0} (setup : Setup Chunk Packed) where
  open setup use {terraingen, new_chunk, empty, pack, unpack_as}

  -- The chunk is neither in memory nor in the database, and the height of its column is `h`.
  absent :
      (w w' : World Chunk Packed) (pos : ChunkCoordinates) (h : ℕ)
      → IsSound w
      → IsLegal pos
      → HeightAt (record w { chunks = put chunk_discrete pos new_chunk w.chunks }) w' (column pos) h
      → ChunkAt w (find_or_make setup pos w' h).0 pos (find_or_make setup pos w' h).1
  unfolding find_or_make
  absent w w' pos h s legal at = elim (Bool-cases (is_air_chunk pos h)) [
    | inl air ↦
        let (h', at', lt) = adjust_coarse_height-HeightAt setup w' at.sound pos legal in
        rw air (
          stored w s pos new_chunk (pack new_chunk) (adjust_coarse_height setup pos w') h'
            (HeightAt-trans _ w' _ (column pos) h h' at at') lt)
    | inr solid ↦ elim (not_air pos h solid) [
      | inl unknown ↦ absurd (at.sound.known (column pos) h at.height unknown)
      | inr lt ↦ rw solid (
          generated w s pos new_chunk (pack (generate_steps terraingen pos new_chunk)) w' h
            (generate_steps terraingen pos new_chunk) at lt)
    ]
  ]

  -- In a sound world a request for a chunk inside the world's limits gives the chunk that is in
  -- memory from then on, and leaves the world sound, with no height of a column lowered.
  pub get_chunk_writable-ChunkAt :
      (w : World Chunk Packed) (pos : ChunkCoordinates)
      → IsSound w
      → IsLegal pos
      → ChunkAt w (get_chunk_writable setup pos w).0 pos (get_chunk_writable setup pos w).1
  unfolding get_chunk_writable
  get_chunk_writable-ChunkAt w pos s legal = elim (Option-cases (w.chunks pos)) [
    | inr (c, here) ↦
        rw (here, get_chunk_writable)
          (record { sound = s; grows = Grows-refl w.stored_heights; chunk = here })
    | inl away ↦ elim (Option-cases (w.stored_chunks pos)) [
      | inr (x, there) ↦
          let below = s.stored_below pos x there in
          let new = loaded w s pos new_chunk below in
          let found =
            loaded (record w { chunks = put chunk_discrete pos new_chunk w.chunks }) new.sound pos
              (unpack_as x) below in
          rw (away, there, get_chunk_writable)
            (record { sound = found.sound; grows = found.grows; chunk = found.chunk })
      | inl nowhere ↦
          let entered = record w { chunks = put chunk_discrete pos new_chunk w.chunks } in
          let ready : HasHeights entered = record {
            same_height = s.heights.same_height;
            known = s.heights.known;
          } in
          rw (away, nowhere, get_chunk_writable)
            (absent w _ pos _ s legal (get_coarse_height-HeightAt setup entered ready (column pos)))
    ]
  ]
