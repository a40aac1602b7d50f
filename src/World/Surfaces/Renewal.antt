-- ===== src/World/Surfaces/Renewal.antt =====
-- What the loop of commit_write in hexa/server/world.cpp makes of a chunk and its neighbours.
use hexahedra.Base.{ℕ, ◌+◌, ◌%◌, ◌^◌, ◌≡◌, ◌∷◌, some}
use hexahedra.World.Heights.{ChunkCoordinates}
use hexahedra.World.Surfaces.State.{SurfaceData, SceneSetup, Scene}
use hexahedra.World.Surfaces.Steady.{Steady}
use hexahedra.World.Surfaces.Borders.{IsInland}
use hexahedra.World.Surfaces.Laws.{IsLawful}
use hexahedra.World.Surfaces.Keeping.{IsInStep}
use hexahedra.World.Surfaces.Relight.{IsLit}

module _ {Light Packed : Type 0} (setup : SceneSetup Light Packed) (lawful : IsLawful setup)
    (p : ChunkCoordinates) (inland : IsInland p) where
  open setup use {pack_surface, pack_light}

  abbrev pub next_version : SurfaceData → ℕ
  next_version old = (old.version + 1) % 2 ^ 32

  -- What the renewal of a chunk leaves behind: a surface and a light map that fit, in memory and in
  -- the database, a version that has counted up, and the news of the change. What fitted before at
  -- another place still does.
  pub record Renewal (s s' : Scene Light Packed) : Type 0 where
    pub in_step : IsInStep setup s'
    pub steady : Steady s.world s'.world
    pub lit : IsLit p s'
    pub keeps : (q : ChunkCoordinates) → IsLit q s → IsLit q s'
    pub updates : s'.surface_updates ≡ p ∷ s.surface_updates
    pub version :
        (old : SurfaceData)
        → s.surfaces p ≡ some old
        → (srf : SurfaceData) × (s'.surfaces p ≡ some srf) × (srf.version ≡ next_version old)
