-- ===== src/World/Surfaces/Commit.antt =====
-- commit_write of hexa/server/world.cpp: the chunk and its neighbours after a change.
use hexahedra.Base.{◌≡◌, ◌⊎◌, List, ◌∷◌, Bool, true, All, if◌then◌else◌}
use hexahedra.World.Heights.{ChunkCoordinates}
use hexahedra.Surface.{WorldVector}
use hexahedra.World.Surfaces.State.{SceneSetup, Scene, neighbour}
use hexahedra.World.Surfaces.Steady.{Steady}
use hexahedra.World.Surfaces.Reads.{AirAt}
use hexahedra.World.Surfaces.Laws.{IsLawful}
use hexahedra.World.Surfaces.Keeping.{IsInStep}
use hexahedra.World.Surfaces.Relight.{IsLit}
use hexahedra.World.Surfaces.News.{announced}

module _ {Light Packed : Type 0} (setup : SceneSetup Light Packed) (lawful : IsLawful setup) where
  open setup use {chunks}

  -- What one turn of the loop leaves behind.
  record Turn (q : ChunkCoordinates) (air : Bool) (s s' : Scene Light Packed) : Type 0 where
    in_step : IsInStep setup s'
    steady : Steady s.world s'.world
    lit : AirAt q true s' ⊎ IsLit q s'
    keeps : (k : ChunkCoordinates) → IsLit k s → IsLit k s'
    updates : s'.surface_updates ≡ (if air then s.surface_updates else q ∷ s.surface_updates)

  -- What the loop leaves behind.
  record Loop (p : ChunkCoordinates) (rels : List WorldVector) (s s' : Scene Light Packed)
      : Type 0 where
    in_step : IsInStep setup s'
    steady : Steady s.world s'.world
    lit :
        All
          (λ (rel : WorldVector). AirAt (neighbour p rel) true s' ⊎ IsLit (neighbour p rel) s')
          rels
    keeps : (k : ChunkCoordinates) → IsLit k s → IsLit k s'
    updates : s'.surface_updates ≡ announced s'.world p rels s.surface_updates
