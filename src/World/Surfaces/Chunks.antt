-- ===== src/World/Surfaces/Chunks.antt =====
-- The chunks that hexa/server/world.cpp has stay as they are when others are read.
use hexahedra.Base.{ℕ, ◌≡◌, refl, ap, ◌∙◌, inl, inr, some, false, Bool-cases, Option-cases}
use hexahedra.Base.Table.{put, put_ne}
use hexahedra.World.Heights.{ChunkCoordinates, MapCoordinates, is_air_chunk}
use hexahedra.World.State.{
  World, Setup, chunk_discrete, column, get_coarse_height, find_or_make, keep_chunk,
  get_chunk_writable, get_chunk,
}
use hexahedra.World.Invariant.Column.{HasHeights, get_coarse_height-HeightAt}
use hexahedra.World.Surfaces.Quiet.{same_heights, get_coarse_height-known}

-- The chunks that were in memory or in the database are there still.
pub record Stays {Chunk Packed : Type 0} (w w' : World Chunk Packed) : Type 0 where
  pub chunks_kept : (p : ChunkCoordinates) (c : Chunk) → w.chunks p ≡ some c → w'.chunks p ≡ some c
  pub packed_kept :
      (p : ChunkCoordinates) (x : Packed) → w.stored_chunks p ≡ some x → w'.stored_chunks p ≡ some x

pub Stays-refl : {Chunk Packed : Type 0} {w : World Chunk Packed} → Stays w w
Stays-refl = record { chunks_kept = λ p c e. e; packed_kept = λ p x e. e }

pub Stays-trans :
    {Chunk Packed : Type 0} {w w' w'' : World Chunk Packed}
    → Stays w w'
    → Stays w' w''
    → Stays w w''
Stays-trans a b = record {
  chunks_kept = λ p c e. b.chunks_kept p c (a.chunks_kept p c e);
  packed_kept = λ p x e. b.packed_kept p x (a.packed_kept p x e);
}

module _ {Chunk Packed : Type 0} (setup : Setup Chunk Packed) where
  open setup use {terraingen, new_chunk, empty, pack, unpack_as}

  pub get_coarse_height-Stays :
      (w : World Chunk Packed) (m : MapCoordinates)
      → HasHeights w
      → Stays w (get_coarse_height setup m w).0
  get_coarse_height-Stays w m heights =
      let at = get_coarse_height-HeightAt setup w heights m in
      record {
        chunks_kept = λ p c e. ap (λ t. t p) at.same_chunks ∙ e;
        packed_kept = λ p x e. ap (λ t. t p) at.same_stored ∙ e;
      }

  -- A chunk that is made replaces none.
  solid-Stays :
      (w : World Chunk Packed) (pos : ChunkCoordinates) (h : ℕ)
      → HasHeights w
      → w.stored_heights (column pos) ≡ some h
      → is_air_chunk pos h ≡ false
      → Stays w (get_chunk_writable setup pos w).0
  unfolding get_chunk_writable find_or_make keep_chunk
  solid-Stays w pos h heights e solid = elim (Option-cases (w.chunks pos)) [
    | inr (c, here) ↦ rw (here, get_chunk_writable) Stays-refl
    | inl away ↦ elim (Option-cases (w.stored_chunks pos)) [
      | inr (x, there) ↦
          rw (away, there, get_chunk_writable)
            (record {
              chunks_kept = λ p c found. elim (chunk_discrete p pos) [
                | yes same ↦ absurd (cc)
                | no other ↦
                    put_ne chunk_discrete pos p _ _ other
                    ∙ put_ne chunk_discrete pos p _ w.chunks other
                    ∙ found
              ];
              packed_kept = λ p y found. found;
            })
      | inl nowhere ↦
          let entered = record w { chunks = put chunk_discrete pos new_chunk w.chunks } in
          let ready = same_heights w entered refl refl heights in
          let same = get_coarse_height-known setup entered (column pos) h ready.heights e in
          let at = get_coarse_height-HeightAt setup entered ready.heights (column pos) in
          let solid' : is_air_chunk pos (get_coarse_height setup (column pos) entered).1 ≡ false =
            rw same solid in
          rw (away, nowhere, get_chunk_writable, solid')
            (record {
              chunks_kept = λ p c found. elim (chunk_discrete p pos) [
                | yes same ↦ absurd (cc)
                | no other ↦
                    put_ne chunk_discrete pos p _ _ other
                    ∙ ap (λ t. t p) at.same_chunks
                    ∙ put_ne chunk_discrete pos p _ w.chunks other
                    ∙ found
              ];
              packed_kept = λ p x found. elim (chunk_discrete p pos) [
                | yes same ↦ absurd (cc)
                | no other ↦
                    put_ne chunk_discrete pos p _ _ other ∙ ap (λ t. t p) at.same_stored ∙ found
              ];
            })
    ]
  ]

  pub get_chunk-Stays :
      (w : World Chunk Packed) (pos : ChunkCoordinates)
      → HasHeights w
      → Stays w (get_chunk setup pos w).0
  unfolding get_chunk
  get_chunk-Stays w pos heights =
      let at = get_coarse_height-HeightAt setup w heights (column pos) in
      let found = get_coarse_height-Stays w (column pos) heights in
      elim (Bool-cases (is_air_chunk pos (get_coarse_height setup (column pos) w).1)) [
        | inl air ↦ rw air found
        | inr solid ↦ rw solid (Stays-trans found (solid-Stays _ pos _ at.sound at.height solid))
      ]
