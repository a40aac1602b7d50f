-- ===== src/World/Surfaces/Compressed.antt =====
-- The packed surfaces and light maps that hexa/server/world.cpp hands out.
use hexahedra.Base.{◌≡◌, refl, sym, ap, ◌∙◌, inl, inr, none, some, false, Option-cases}
use hexahedra.Base.Table.{put, put_self, put_ne}
use hexahedra.World.Heights.{ChunkCoordinates}
use hexahedra.World.State.{chunk_discrete}
use hexahedra.World.Surfaces.State.{
  SurfaceData, SceneSetup, Scene, give, ◌>>=◌, or_throw, write_surface, get_surface,
}
use hexahedra.World.Surfaces.Lights.{
  write_lightmap, get_lightmap, get_compressed_surface, get_compressed_lightmap,
}
use hexahedra.World.Surfaces.Borders.{IsInland}
use hexahedra.World.Surfaces.Reads.{AirAt, put-Unpacks, then_runs}
use hexahedra.World.Surfaces.Laws.{IsLawful, AirAt-kept}
use hexahedra.World.Surfaces.Getting.{get_surface-found}
use hexahedra.World.Surfaces.Keeping.{Runs, IsInStep, read-IsInStep, get_lightmap-Runs}

module _ {Light Packed : Type 0} (setup : SceneSetup Light Packed) (lawful : IsLawful setup)
    (p : ChunkCoordinates) (inland : IsInland p) (s : Scene Light Packed)
    (step : IsInStep setup s) where
  open setup use {pack_surface, unpack_surface, pack_light, unpack_light}

  made_surface :
      s.stored_surfaces p ≡ none
      → Runs (get_compressed_surface setup p) s (λ x s'.
        IsInStep setup s' × (s'.stored_surfaces p ≡ some x) × (AirAt p false s → AirAt p false s'))
  unfolding get_compressed_surface ◌>>=◌
  made_surface nowhere =
      let r = get_surface-found setup lawful {lit = none} p inland s step.ready in
      let (x, packs, restored) = lawful.surface_back r.value in
      let stored = r.final.stored_surfaces in
      let same : (v : SurfaceData) → r.final.surfaces p ≡ some v → unpack_surface x ≡ some v =
        λ v e. elim r.holds.1 [
          | inl untouched ↦
              let before : s.surfaces p ≡ some v = ap (λ t. t p) (sym untouched) ∙ e in
              let (y, there, back) = step.ready.surfaces_stored p v (λ o. absurd (cc)) before in
              absurd (cc)
          | inr here ↦ let one : r.value ≡ v = cc in restored ∙ ap some one
        ] in
      let kept = read-IsInStep setup step r in
      record {
        value = x;
        final = record r.final { stored_surfaces = put chunk_discrete p x stored };
        runs =
            rw (nowhere, get_compressed_surface)
              (then_runs (get_surface setup p)
                  (λ srf. or_throw (pack_surface srf) >>= λ x. write_surface p x >>= λ _. give x) s
                  r.final r.value r.runs
                ∙ rw packs refl);
        holds = (
          record {
            ready = record {
              heights = r.ready.heights;
              surfaces_stored = λ q v ne e. elim (chunk_discrete q p) [
                | yes here ↦
                    (x, rw here (put_self chunk_discrete p x stored), same v (rw here at e))
                | no away ↦
                    let (y, there, back) = r.ready.surfaces_stored q v ne e in
                    (y, put_ne chunk_discrete p q x stored away ∙ there, back)
              ];
              unpacks = put-Unpacks unpack_surface stored p x r.value restored r.ready.unpacks;
            };
            lights_stored = kept.lights_stored;
            lights_unpack = kept.lights_unpack;
          },
          put_self chunk_discrete p x stored,
          λ solid. AirAt-kept p false s r.final r.quiet solid,
        );
      }

  pub get_compressed_surface-Runs : Runs (get_compressed_surface setup p) s (λ x s'.
      IsInStep setup s' × (s'.stored_surfaces p ≡ some x) × (AirAt p false s → AirAt p false s'))
  unfolding get_compressed_surface
  get_compressed_surface-Runs = elim (Option-cases (s.stored_surfaces p)) [
    | inr (x, there) ↦ record {
      value = x;
      final = s;
      runs = rw (there, get_compressed_surface) refl;
      holds = (step, there, λ solid. solid);
    }
    | inl nowhere ↦ made_surface nowhere
  ]

  made_lightmap :
      s.stored_lightmaps p ≡ none
      → Runs
          (get_compressed_lightmap setup p)
          s
          (λ x s'. IsInStep setup s' × (s'.stored_lightmaps p ≡ some x))
  unfolding get_compressed_lightmap ◌>>=◌
  made_lightmap nowhere =
      let r = get_lightmap-Runs setup lawful p inland s step in
      let (kept, (y, there, back)) = r.holds in
      let (x, packs, restored) = lawful.light_back r.value in
      let stored = r.final.stored_lightmaps in
      record {
        value = x;
        final = record r.final { stored_lightmaps = put chunk_discrete p x stored };
        runs =
            rw (nowhere, get_compressed_lightmap)
              (then_runs (get_lightmap setup p)
                  (λ lm. or_throw (pack_light lm) >>= λ x. write_lightmap p x >>= λ _. give x) s
                  r.final r.value r.runs
                ∙ rw packs refl);
        holds = (
          record {
            ready = record {
              heights = kept.ready.heights;
              surfaces_stored = kept.ready.surfaces_stored;
              unpacks = kept.ready.unpacks;
            };
            lights_stored = λ q v e. elim (chunk_discrete q p) [
              | yes here ↦
                  let (z, found, unpacked) = kept.lights_stored q v e in
                  let one : z ≡ y = cc in
                  (
                    x,
                    rw here (put_self chunk_discrete p x stored),
                    restored ∙ sym back ∙ ap unpack_light (sym one) ∙ unpacked,
                  )
              | no away ↦
                  let (z, found, unpacked) = kept.lights_stored q v e in
                  (z, put_ne chunk_discrete p q x stored away ∙ found, unpacked)
            ];
            lights_unpack = put-Unpacks unpack_light stored p x r.value restored kept.lights_unpack;
          },
          put_self chunk_discrete p x stored,
        );
      }

  pub get_compressed_lightmap-Runs :
      Runs
        (get_compressed_lightmap setup p)
        s
        (λ x s'. IsInStep setup s' × (s'.stored_lightmaps p ≡ some x))
  unfolding get_compressed_lightmap
  get_compressed_lightmap-Runs = elim (Option-cases (s.stored_lightmaps p)) [
    | inr (x, there) ↦ record {
      value = x;
      final = s;
      runs = rw (there, get_compressed_lightmap) refl;
      holds = (step, there);
    }
    | inl nowhere ↦ made_lightmap nowhere
  ]
