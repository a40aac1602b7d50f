-- ===== src/World/Surfaces/Requests.antt =====
-- Requests to hexa/server/world.cpp are served to their end, and what is sent fits together.
use hexahedra.Base.{◌≡◌, some}
use hexahedra.World.Heights.{ChunkCoordinates}
use hexahedra.World.State.{World}
use hexahedra.World.Surfaces.State.{SurfaceData, LightData, SceneSetup, Scene}
use hexahedra.World.Surfaces.Laws.{IsLawful}
use hexahedra.World.Surfaces.Generation.{Fits}
use hexahedra.World.Surfaces.Keeping.{IsInStep}
use hexahedra.World.Surfaces.Serving.{send_surface}

module _ {Light Packed : Type 0} (setup : SceneSetup Light Packed) (lawful : IsLawful setup) where
  open setup use {chunks, unpack_surface, unpack_light}

  abbrev InStep : {A : Type 0} → A → Scene Light Packed → Type 0
  InStep a s = IsInStep setup s

  -- The reply for a place is sent without a failure, changes nothing, and has a light for each
  -- face.
  abbrev pub IsSent : ChunkCoordinates → Scene Light Packed → Type 0
  IsSent q s =
      (terrain : Packed) × ((light : Packed) × (send_surface setup q s ≡ (s, some (terrain, light)))
        × ((srf : SurfaceData) × (lm : LightData Light) × (unpack_surface terrain ≡ some srf)
            × (unpack_light light ≡ some lm)
            × Fits lm srf))
