-- ===== src/World/Surfaces/Quiet.antt =====
-- Reads of hexa/server/world.cpp: what they leave as it was, and how they follow each other.
use hexahedra.Base.{ℕ, ◌≡◌, refl, sym, ap, ◌∙◌, inl, inr, some, false, Bool-cases, Option-cases}
use hexahedra.Base.Table.{put, put_ne}
use hexahedra.World.Heights.{ChunkCoordinates, MapCoordinates, is_air_chunk}
use hexahedra.World.State.{
  World, Setup, map_discrete, chunk_discrete, column, set_coarse_height, get_coarse_height,
  find_or_make, keep_chunk, get_chunk_writable, get_chunk,
}
use hexahedra.World.Invariant.Column.{HasHeights, get_coarse_height-HeightAt}

-- The heights are in order, and those that were known are the same.
pub record SameHeights {Chunk Packed : Type 0} (w w' : World Chunk Packed) : Type 0 where
  pub heights : HasHeights w'
  pub kept :
      (m : MapCoordinates) (h : ℕ) → w.stored_heights m ≡ some h → w'.stored_heights m ≡ some h

pub SameHeights-refl :
    {Chunk Packed : Type 0} {w : World Chunk Packed} → HasHeights w → SameHeights w w
SameHeights-refl heights = record { heights = heights; kept = λ m h e. e }

pub SameHeights-trans :
    {Chunk Packed : Type 0} {w w' w'' : World Chunk Packed}
    → SameHeights w w'
    → SameHeights w' w''
    → SameHeights w w''
SameHeights-trans a b = record { heights = b.heights; kept = λ m h e. b.kept m h (a.kept m h e) }

-- Only the chunks differ.
pub same_heights :
    {Chunk Packed : Type 0} (w w' : World Chunk Packed)
    → w'.coarse_heights ≡ w.coarse_heights
    → w'.stored_heights ≡ w.stored_heights
    → HasHeights w
    → SameHeights w w'
same_heights w w' memory database heights = record {
  heights = record {
    same_height =
        λ m h e. ap (λ t. t m) database ∙ heights.same_height m h (ap (λ t. t m) (sym memory) ∙ e);
    known = λ m h e. heights.known m h (ap (λ t. t m) (sym database) ∙ e);
  };
  kept = λ m h e. ap (λ t. t m) database ∙ e;
}

module _ {Chunk Packed : Type 0} (setup : Setup Chunk Packed) where
  open setup use {terraingen, new_chunk, empty, pack, unpack_as}

  pub get_coarse_height-kept :
      (w : World Chunk Packed) (m k : MapCoordinates) (h : ℕ)
      → w.stored_heights k ≡ some h
      → (get_coarse_height setup m w).0.stored_heights k ≡ some h
  unfolding get_coarse_height set_coarse_height
  get_coarse_height-kept w m k h e = elim (Option-cases (w.coarse_heights m)) [
    | inr (c, cached) ↦ rw (cached, get_coarse_height) e
    | inl new ↦ elim (Option-cases (w.stored_heights m)) [
      | inr (c, stored) ↦ rw (new, stored, get_coarse_height) e
      | inl unknown ↦
          rw (new, unknown, get_coarse_height)
            (elim (map_discrete k m) [
              | yes here ↦ absurd (cc)
              | no away ↦ put_ne map_discrete m k _ w.stored_heights away ∙ e
            ])
    ]
  ]

  pub get_coarse_height-SameHeights :
      (w : World Chunk Packed) (m : MapCoordinates)
      → HasHeights w
      → SameHeights w (get_coarse_height setup m w).0
  get_coarse_height-SameHeights w m heights = record {
    heights = (get_coarse_height-HeightAt setup w heights m).sound;
    kept = get_coarse_height-kept w m;
  }

  -- The height that is found is the one that is known.
  pub get_coarse_height-known :
      (w : World Chunk Packed) (m : MapCoordinates) (h : ℕ)
      → HasHeights w
      → w.stored_heights m ≡ some h
      → (get_coarse_height setup m w).1 ≡ h
  get_coarse_height-known w m h heights e =
      let at = (get_coarse_height-HeightAt setup w heights m).height in
      let same = get_coarse_height-kept w m m h e in cc

  -- A chunk that is not air is found or made without a change of the heights.
  solid-SameHeights :
      (w : World Chunk Packed) (pos : ChunkCoordinates) (h : ℕ)
      → HasHeights w
      → w.stored_heights (column pos) ≡ some h
      → is_air_chunk pos h ≡ false
      → SameHeights w (get_chunk_writable setup pos w).0
  unfolding get_chunk_writable find_or_make keep_chunk
  solid-SameHeights w pos h heights e solid = elim (Option-cases (w.chunks pos)) [
    | inr (c, here) ↦ rw (here, get_chunk_writable) (SameHeights-refl heights)
    | inl away ↦ elim (Option-cases (w.stored_chunks pos)) [
      | inr (x, there) ↦ rw (away, there, get_chunk_writable) (same_heights w _ refl refl heights)
      | inl nowhere ↦
          let entered = record w { chunks = put chunk_discrete pos new_chunk w.chunks } in
          let ready = same_heights w entered refl refl heights in
          let same = get_coarse_height-known entered (column pos) h ready.heights e in
          let found = get_coarse_height-SameHeights entered (column pos) ready.heights in
          let solid' : is_air_chunk pos (get_coarse_height setup (column pos) entered).1 ≡ false =
            rw same solid in
          rw (away, nowhere, get_chunk_writable, solid')
            (SameHeights-trans ready
              (SameHeights-trans found (same_heights _ _ refl refl found.heights)))
    ]
  ]

  pub get_chunk-SameHeights :
      (w : World Chunk Packed) (pos : ChunkCoordinates)
      → HasHeights w
      → SameHeights w (get_chunk setup pos w).0
  unfolding get_chunk
  get_chunk-SameHeights w pos heights =
      let at = get_coarse_height-HeightAt setup w heights (column pos) in
      let found = get_coarse_height-SameHeights w (column pos) heights in
      elim (Bool-cases (is_air_chunk pos (get_coarse_height setup (column pos) w).1)) [
        | inl air ↦ rw air found
        | inr solid ↦
            rw solid
              (SameHeights-trans found (solid-SameHeights _ pos _ found.heights at.height solid))
      ]
