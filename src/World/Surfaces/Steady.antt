-- ===== src/World/Surfaces/Steady.antt =====
-- What a read of a height or a chunk in hexa/server/world.cpp leaves as it was.
use hexahedra.Base.{ℕ, ◌≡◌, some}
use hexahedra.World.Heights.{ChunkCoordinates, MapCoordinates}
use hexahedra.World.State.{World, Setup, get_coarse_height, get_chunk}
use hexahedra.World.Invariant.Column.{HasHeights}
use hexahedra.World.Surfaces.Quiet.{
  SameHeights, SameHeights-refl, get_coarse_height-SameHeights, get_chunk-SameHeights,
}
use hexahedra.World.Surfaces.Chunks.{
  Stays, Stays-refl, Stays-trans, get_coarse_height-Stays, get_chunk-Stays,
}

-- The heights are in order, and the heights and the chunks that were there are the same.
pub record Steady {Chunk Packed : Type 0} (w w' : World Chunk Packed) : Type 0 where
  pub heights : HasHeights w'
  pub kept :
      (m : MapCoordinates) (h : ℕ) → w.stored_heights m ≡ some h → w'.stored_heights m ≡ some h
  pub stays : Stays w w'

both :
    {Chunk Packed : Type 0} {w w' : World Chunk Packed}
    → SameHeights w w'
    → Stays w w'
    → Steady w w'
both same stays = record { heights = same.heights; kept = same.kept; stays = stays }

pub Steady-refl : {Chunk Packed : Type 0} {w : World Chunk Packed} → HasHeights w → Steady w w
Steady-refl heights = both (SameHeights-refl heights) Stays-refl

pub Steady-trans :
    {Chunk Packed : Type 0} {w w' w'' : World Chunk Packed}
    → Steady w w'
    → Steady w' w''
    → Steady w w''
Steady-trans a b = record {
  heights = b.heights;
  kept = λ m h e. b.kept m h (a.kept m h e);
  stays = Stays-trans a.stays b.stays;
}

module _ {Chunk Packed : Type 0} (setup : Setup Chunk Packed) where
  pub get_coarse_height-Steady :
      (w : World Chunk Packed) (m : MapCoordinates)
      → HasHeights w
      → Steady w (get_coarse_height setup m w).0
  get_coarse_height-Steady w m heights =
      both (get_coarse_height-SameHeights setup w m heights)
        (get_coarse_height-Stays setup w m heights)

  pub get_chunk-Steady :
      (w : World Chunk Packed) (pos : ChunkCoordinates)
      → HasHeights w
      → Steady w (get_chunk setup pos w).0
  get_chunk-Steady w pos heights =
      both (get_chunk-SameHeights setup w pos heights) (get_chunk-Stays setup w pos heights)
