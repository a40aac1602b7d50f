-- ===== src/World/Surfaces/Generation.antt =====
-- The light map that generate_lightmap of hexa/server/world.cpp makes.
use hexahedra.Base.{ℕ, ◌≡◌, refl, none, some, length}
use hexahedra.Base.Table.{put, put_self, put_ne}
use hexahedra.World.Heights.{ChunkCoordinates}
use hexahedra.World.State.{chunk_discrete}
use hexahedra.World.Surfaces.Count.{count_faces}
use hexahedra.World.Surfaces.State.{SurfaceData, LightData, SceneSetup, Scene}
use hexahedra.World.Surfaces.Lights.{enter_lightmap, lightmap_at, generate_lightmap}
use hexahedra.World.Surfaces.Steady.{Steady-refl}
use hexahedra.World.Surfaces.Borders.{IsInland}
use hexahedra.World.Surfaces.Reads.{
  IsReady, IsRead, give-IsRead, then-IsRead, map-IsRead, same-IsRead,
}
use hexahedra.World.Surfaces.Laws.{IsLawful, Given, Given-kept}
use hexahedra.World.Surfaces.Getting.{get_surface-IsRead}
use hexahedra.World.Surfaces.Lighting.{light_faces-IsRead}

-- A light map has a light for each face of a surface.
abbrev pub Fits : {Light : Type 0} → LightData Light → SurfaceData → Type 0
Fits lm srf =
    (length lm.opaque ≡ count_faces srf.opaque)
    × (length lm.transparent ≡ count_faces srf.transparent)

module _ {Light Packed : Type 0} (setup : SceneSetup Light Packed) (lawful : IsLawful setup)
    (p : ChunkCoordinates) (inland : IsInland p) where
  -- A light map in memory that fits the surface of its chunk.
  abbrev pub Generated : LightData Light → Scene Light Packed → Type 0
  Generated lm s = (s.lightmaps p ≡ some lm) × ((srf : SurfaceData) × Given p srf s × Fits lm srf)

  enter_lightmap-IsRead :
      (lm : LightData Light) (s : Scene Light Packed)
      → IsReady setup none s
      → IsRead setup none (some p) (enter_lightmap p lm) s (λ u s'. s'.lightmaps p ≡ some lm)
  enter_lightmap-IsRead lm s ready = record {
    value = tt;
    final = record s { lightmaps = put chunk_discrete p lm s.lightmaps };
    runs = refl;
    quiet = record {
      steady = Steady-refl ready.heights;
      same_lightmaps = λ q ne. put_ne chunk_discrete p q lm s.lightmaps (λ e. ne (cc));
      same_stored_lightmaps = refl;
      same_updates = refl;
      surfaces_kept = λ q srf e. e;
      stored_kept = λ q x e. e;
    };
    ready = record {
      heights = ready.heights;
      surfaces_stored = ready.surfaces_stored;
      unpacks = ready.unpacks;
    };
    holds = put_self chunk_discrete p lm s.lightmaps;
  }

  -- The light map is made for the surface that a request for it gives.
  pub generate_lightmap-IsRead :
      (level : ℕ) (s : Scene Light Packed)
      → IsReady setup none s
      → IsRead setup none (some p) (generate_lightmap setup p level) s Generated
  unfolding generate_lightmap
  generate_lightmap-IsRead level s ready =
      let old = lightmap_at p s in
      let start = enter_lightmap-IsRead old s ready in
      let srf = get_surface-IsRead setup lawful p inland start.final start.ready in
      let made =
        light_faces-IsRead setup lawful p srf.value.opaque level _ old.opaque srf.final srf.ready
          inland in
      let first =
        enter_lightmap-IsRead (record old { opaque = made.value.1 }) made.final made.ready in
      let also =
        light_faces-IsRead setup lawful p srf.value.transparent level made.value.0 old.transparent
          first.final first.ready inland in
      let lm = record old { opaque = made.value.1; transparent = also.value.1 } in
      let last = enter_lightmap-IsRead lm also.final also.ready in
      let lights = then-IsRead _ made (
        then-IsRead _ first (
          then-IsRead _ also (
            then-IsRead _ last (
              give-IsRead {Holds = λ lm s'. (s'.lightmaps p ≡ some lm) × Fits lm srf.value} lm
                last.final last.ready (last.holds, (made.holds, also.holds)))))) in
      let (here, fits) = lights.holds in
      same-IsRead _ refl (
        then-IsRead _ start (
          then-IsRead _ srf (
            map-IsRead lights (
              here,
              (
                srf.value,
                Given-kept p srf.value srf.final lights.final lights.quiet srf.holds,
                fits,
              ),
            ))))
