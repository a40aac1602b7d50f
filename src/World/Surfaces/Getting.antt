-- ===== src/World/Surfaces/Getting.antt =====
-- Requests for surfaces in hexa/server/world.cpp: in memory, in the database or built.
use hexahedra.Base.{
  ◌≡◌, ◌⊎◌, refl, sym, ap, ◌∙◌, inl, inr, Option, none, some, false, Bool-cases, Option-cases,
}
use hexahedra.Base.Table.{put_self, put_ne, put_cases}
use hexahedra.World.Heights.{ChunkCoordinates}
use hexahedra.World.State.{chunk_discrete}
use hexahedra.World.Surfaces.State.{
  SurfaceData, check_place, empty_surface, SceneSetup, Scene, ◌>>=◌, build_surface, keep_surface,
  find_surface, get_surface,
}
use hexahedra.World.Surfaces.Borders.{IsInland, IsAway-IsLegal}
use hexahedra.World.Surfaces.Reads.{
  IsReady, IsRead, Quiet-refl, give-IsRead, then_runs, then-IsRead, map-IsRead, is_air_at-IsRead,
  checked-IsRead, check_place-runs,
}
use hexahedra.World.Surfaces.Steady.{Steady-refl}
use hexahedra.World.Surfaces.Laws.{
  IsLawful, Given, AirAt-kept, with_hole, entered_surface, entered_surface-IsReady, kept_surface,
  keep_surface-runs, kept_surface-IsReady,
}
use hexahedra.World.Surfaces.Gather.{build_surface-IsRead}

module _ {Light Packed : Type 0} (setup : SceneSetup Light Packed) (lawful : IsLawful setup)
    {lit : Option ChunkCoordinates} (p : ChunkCoordinates) (inland : IsInland p) where
  open setup use {pack_surface, unpack_surface}

  -- A surface that is nowhere is built and stored.
  made-IsRead :
      (s : Scene Light Packed)
      → IsReady setup none s
      → s.surfaces p ≡ none
      → s.stored_surfaces p ≡ none
      → IsRead setup none lit (find_surface setup p) s (λ srf s'. s'.surfaces p ≡ some srf)
  unfolding find_surface ◌>>=◌
  made-IsRead s ready away nowhere =
      let start = entered_surface setup p empty_surface s in
      let r =
        build_surface-IsRead setup lawful.sorted p start
          (entered_surface-IsReady setup p empty_surface s (with_hole setup p s ready)) inland in
      let (x, packs, back) = lawful.surface_back r.value in
      record {
        value = r.value;
        final = kept_surface setup p r.value x r.final;
        runs =
            rw (away, nowhere, find_surface)
              (then_runs (build_surface setup p) (keep_surface setup p) start r.final r.value r.runs
                ∙ keep_surface-runs setup p r.value x r.final packs);
        quiet = record {
          steady = r.quiet.steady;
          same_lightmaps = r.quiet.same_lightmaps;
          same_stored_lightmaps = r.quiet.same_stored_lightmaps;
          same_updates = r.quiet.same_updates;
          surfaces_kept = λ q srf e. elim (chunk_discrete q p) [
            | yes here ↦ absurd (cc)
            | no other ↦
                put_ne chunk_discrete p q r.value r.final.surfaces other
                ∙ r.quiet.surfaces_kept q srf
                    (put_ne chunk_discrete p q empty_surface s.surfaces other ∙ e)
          ];
          stored_kept = λ q y e. elim (chunk_discrete q p) [
            | yes here ↦ absurd (cc)
            | no other ↦
                put_ne chunk_discrete p q x r.final.stored_surfaces other
                ∙ r.quiet.stored_kept q y e
          ];
        };
        ready = kept_surface-IsReady setup p r.value x r.final r.ready back;
        holds = put_self chunk_discrete p r.value r.final.surfaces;
      }

  -- A surface that the database has is unpacked.
  loaded-IsRead :
      (s : Scene Light Packed) (x : Packed) (srf : SurfaceData)
      → IsReady setup none s
      → s.surfaces p ≡ none
      → s.stored_surfaces p ≡ some x
      → unpack_surface x ≡ some srf
      → IsRead setup none lit (find_surface setup p) s (λ srf s'. s'.surfaces p ≡ some srf)
  unfolding find_surface ◌>>=◌
  loaded-IsRead s x srf ready away there back =
      let start = entered_surface setup p empty_surface s in
      record {
        value = srf;
        final = entered_surface setup p srf start;
        runs = rw (away, there, find_surface) (rw back refl);
        quiet = record {
          steady = Steady-refl ready.heights;
          same_lightmaps = λ q ne. refl;
          same_stored_lightmaps = refl;
          same_updates = refl;
          surfaces_kept = λ q v e. elim (chunk_discrete q p) [
            | yes here ↦ absurd (cc)
            | no other ↦
                put_ne chunk_discrete p q srf start.surfaces other
                ∙ put_ne chunk_discrete p q empty_surface s.surfaces other
                ∙ e
          ];
          stored_kept = λ q y e. e;
        };
        ready = record {
          heights = ready.heights;
          surfaces_stored = λ q v ne e. elim (put_cases chunk_discrete p q srf v start.surfaces e) [
            | inl (here, same) ↦ (x, rw here there, back ∙ ap some (sym same))
            | inr (other, found) ↦
                ready.surfaces_stored q v ne
                  (sym (put_ne chunk_discrete p q empty_surface s.surfaces other) ∙ found)
          ];
          unpacks = ready.unpacks;
        };
        holds = put_self chunk_discrete p srf start.surfaces;
      }

  pub find_surface-IsRead :
      (s : Scene Light Packed)
      → IsReady setup none s
      → IsRead setup none lit (find_surface setup p) s (λ srf s'. s'.surfaces p ≡ some srf)
  unfolding find_surface
  find_surface-IsRead s ready = elim (Option-cases (s.surfaces p)) [
    | inr (srf, here) ↦ record {
      value = srf;
      final = s;
      runs = rw (here, find_surface) refl;
      quiet = Quiet-refl ready;
      ready = ready;
      holds = here;
    }
    | inl away ↦ elim (Option-cases (s.stored_surfaces p)) [
      | inr (x, there) ↦
          let (srf, back) = ready.unpacks p x there in loaded-IsRead s x srf ready away there back
      | inl nowhere ↦ made-IsRead s ready away nowhere
    ]
  ]

  -- A request for a surface gives one. For air, no surface is entered.
  pub get_surface-found :
      (s : Scene Light Packed)
      → IsReady setup none s
      → IsRead setup none lit
          (get_surface setup p)
          s
          (λ srf s'. Given p srf s' × ((s'.surfaces ≡ s.surfaces) ⊎ (s'.surfaces p ≡ some srf)))
  unfolding get_surface
  get_surface-found s ready =
      let legal = IsAway-IsLegal 1 p inland in
      let test = is_air_at-IsRead setup p s ready legal in
      let (answer, same) = test.holds in
      checked-IsRead (check_place p) _ (check_place-runs p s legal) (elim (Bool-cases test.value) [
        | inl air ↦ then-IsRead _ test (
            rw air (
              give-IsRead empty_surface test.final test.ready
                (inl (rw air at answer, refl), inl same)))
        | inr solid ↦
            let found = find_surface-IsRead test.final test.ready in
            let below =
              AirAt-kept p false test.final found.final found.quiet (rw solid at answer) in
            then-IsRead _ test
              (rw solid (map-IsRead found (inr (below, found.holds), inr found.holds)))
      ])

  pub get_surface-IsRead :
      (s : Scene Light Packed)
      → IsReady setup none s
      → IsRead setup none lit (get_surface setup p) s (Given p)
  get_surface-IsRead s ready =
      let found = get_surface-found s ready in map-IsRead found found.holds.0
