-- ===== src/World/Surfaces/Relight.antt =====
-- What the loop of commit_write in hexa/server/world.cpp makes of a light map.
use hexahedra.Base.{◌≡◌, ◌≢◌, refl, ap, ◌∙◌, inl, inr, ◌∷◌, none, some, true, false}
use hexahedra.Base.Table.{put_self, put_ne}
use hexahedra.World.Heights.{ChunkCoordinates}
use hexahedra.World.State.{chunk_discrete}
use hexahedra.World.Surfaces.State.{SurfaceData, LightData, SceneSetup, Scene}
use hexahedra.World.Surfaces.Lights.{renew_lightmap}
use hexahedra.World.Surfaces.Steady.{Steady}
use hexahedra.World.Surfaces.Borders.{IsInland}
use hexahedra.World.Surfaces.Reads.{Quiet, AirAt}
use hexahedra.World.Surfaces.Laws.{IsLawful, AirAt-kept}
use hexahedra.World.Surfaces.Generation.{Fits, generate_lightmap-IsRead}
use hexahedra.World.Surfaces.Keeping.{
  Runs, ran, then-Runs, IsInStep, lit_scene, keep_lightmap-runs, lit_scene-IsInStep,
}

module _ {Light Packed : Type 0} where
  -- A surface and a light map in memory that fit each other.
  abbrev pub IsLit : ChunkCoordinates → Scene Light Packed → Type 0
  IsLit q s =
      (srf : SurfaceData) × ((lm : LightData Light) × (s.surfaces q ≡ some srf)
        × (s.lightmaps q ≡ some lm)
        × Fits lm srf)

  pub IsLit-Quiet :
      (q : ChunkCoordinates) (s s' : Scene Light Packed) → Quiet none s s' → IsLit q s → IsLit q s'
  IsLit-Quiet q s s' quiet (srf, (lm, here, lit, fits)) = (
    srf,
    (lm, quiet.surfaces_kept q srf here, quiet.same_lightmaps q (λ e. absurd (cc)) ∙ lit, fits),
  )

  -- A chunk is not both air and no air.
  pub AirAt-solid :
      {T : Type 0} (p : ChunkCoordinates) (s : Scene Light Packed)
      → AirAt p true s
      → AirAt p false s
      → T
  AirAt-solid p s (h, known, air) (h', known', solid) = let same : h ≡ h' = cc in absurd (cc)

module _ {Light Packed : Type 0} (setup : SceneSetup Light Packed) (lawful : IsLawful setup)
    (p : ChunkCoordinates) (inland : IsInland p) where
  open setup use {pack_surface, pack_light}

  -- What a new light map leaves behind.
  pub record Lighting (s s' : Scene Light Packed) : Type 0 where
    pub in_step : IsInStep setup s'
    pub steady : Steady s.world s'.world
    pub lit : IsLit p s'
    pub surfaces_kept :
        (q : ChunkCoordinates) (srf : SurfaceData)
        → s.surfaces q ≡ some srf
        → s'.surfaces q ≡ some srf
    pub lights_kept : (q : ChunkCoordinates) → q ≢ p → s'.lightmaps q ≡ s.lightmaps q
    pub updates : s'.surface_updates ≡ p ∷ s.surface_updates

  pub renew_lightmap-Lighting :
      (s : Scene Light Packed)
      → IsInStep setup s
      → AirAt p false s
      → Runs (renew_lightmap setup p) s (λ u s'. Lighting s s')
  unfolding renew_lightmap
  renew_lightmap-Lighting s step solid =
      let gen = generate_lightmap-IsRead setup lawful p inland 0 s step.ready in
      let lm = gen.value in
      let (x, packs, back) = lawful.light_back lm in
      let last = lit_scene setup lawful p inland lm x gen.final in
      let in_step =
        lit_scene-IsInStep setup lawful p inland lm x s gen.final step gen.quiet gen.ready back in
      let (there, (srf, given, fits)) = gen.holds in
      let here : gen.final.surfaces p ≡ some srf = elim given [
        | inl (air, _) ↦
            AirAt-solid p gen.final air (AirAt-kept p false s gen.final gen.quiet solid)
        | inr (_, found) ↦ found
      ] in
      let done : Lighting s (record last { surface_updates = p ∷ last.surface_updates }) = record {
        in_step = record {
          ready = record {
            heights = in_step.ready.heights;
            surfaces_stored = in_step.ready.surfaces_stored;
            unpacks = in_step.ready.unpacks;
          };
          lights_stored = in_step.lights_stored;
          lights_unpack = in_step.lights_unpack;
        };
        steady = gen.quiet.steady;
        lit = (srf, (lm, here, put_self chunk_discrete p lm gen.final.lightmaps, fits));
        surfaces_kept = gen.quiet.surfaces_kept;
        lights_kept = λ q other.
            put_ne chunk_discrete p q lm gen.final.lightmaps other
            ∙ gen.quiet.same_lightmaps q (λ e. other (cc));
        updates = ap (◌∷◌ p) gen.quiet.same_updates;
      } in
      then-Runs _ (ran gen.value gen.final gen.runs) (
        then-Runs _ (ran lm last (keep_lightmap-runs setup lawful p inland lm x gen.final packs))
          (record {
            value = tt;
            final = record last { surface_updates = p ∷ last.surface_updates };
            runs = refl;
            holds = done;
          }))
