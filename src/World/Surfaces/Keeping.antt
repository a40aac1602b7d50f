-- ===== src/World/Surfaces/Keeping.antt =====
-- Memory and database of hexa/server/world.cpp stay in step over the requests for surfaces and
-- light maps.
use hexahedra.Base.{◌≡◌, refl, sym, ap, ◌∙◌, inl, inr, Option, none, some, Option-cases}
use hexahedra.Base.Table.{put, put_self, put_ne, put_cases}
use hexahedra.World.Heights.{ChunkCoordinates}
use hexahedra.World.State.{chunk_discrete}
use hexahedra.World.Surfaces.State.{LightData, SceneSetup, Scene, Step, ◌>>=◌}
use hexahedra.World.Surfaces.Lights.{
  lightmap_at, generate_lightmap, keep_lightmap, find_lightmap, get_lightmap,
}
use hexahedra.World.Surfaces.Borders.{IsInland, IsAway-IsLegal}
use hexahedra.World.Surfaces.Reads.{
  IsReady, IsRead, Quiet, Unpacks, put-Unpacks, then_runs, check_place-runs,
}
use hexahedra.World.Surfaces.Laws.{IsLawful}
use hexahedra.World.Surfaces.Generation.{generate_lightmap-IsRead}

-- A step that gives a value, of which something holds.
pub record Runs {S A : Type 0} (m : Step S A) (s : S) (Holds : A → S → Type 0) : Type 0 where
  pub value : A
  pub final : S
  pub runs : m s ≡ (final, some value)
  pub holds : Holds value final

abbrev pub ran :
    {S A : Type 0} {m : Step S A} {s : S} (a : A) (s' : S)
    → m s ≡ (s', some a)
    → Runs m s (λ b t. Unit {0})
ran a s' e = record { value = a; final = s'; runs = e; holds = tt }

pub then-Runs :
    {S A B : Type 0} {m : Step S A} {s : S} {Holds : A → S → Type 0} {Then : B → S → Type 0}
    (f : A → Step S B) (first : Runs m s Holds)
    → Runs (f first.value) first.final Then
    → Runs (m >>= f) s Then
unfolding ◌>>=◌
then-Runs {S} {A} {B} f first second = record {
  value = second.value;
  final = second.final;
  runs =
      ap
        (λ (r : S × Option A). elim r.1 as (λ x. S × Option B) [
          | none ↦ (r.0, none)
          | some a ↦ f a r.0
        ])
        first.runs
      ∙ second.runs;
  holds = second.holds;
}

module _ {Light Packed : Type 0} (setup : SceneSetup Light Packed) where
  open setup use {unpack_light}

  -- The database has the light map that is in memory at a place.
  abbrev pub LightStored : ChunkCoordinates → LightData Light → Scene Light Packed → Type 0
  LightStored p lm s = (x : Packed) × (s.stored_lightmaps p ≡ some x) × (unpack_light x ≡ some lm)

  -- Heights, surfaces and light maps in memory are those of the database, and everything in it can
  -- be unpacked.
  pub record IsInStep (s : Scene Light Packed) : Type 0 where
    pub ready : IsReady setup none s
    pub lights_stored :
        (p : ChunkCoordinates) (lm : LightData Light) → s.lightmaps p ≡ some lm → LightStored p lm s
    pub lights_unpack : Unpacks unpack_light s.stored_lightmaps

  pub read-IsInStep :
      {A : Type 0} {m : Step (Scene Light Packed) A} {s : Scene Light Packed}
      {Holds : A → Scene Light Packed → Type 0}
      → IsInStep s
      → (r : IsRead setup none none m s Holds) → IsInStep r.final
  read-IsInStep {s = s} step r = record {
    ready = r.ready;
    lights_stored = λ p lm e.
        let before : s.lightmaps p ≡ some lm =
          sym (r.quiet.same_lightmaps p (λ o. absurd (cc))) ∙ e in
        let (x, stored, back) = step.lights_stored p lm before in
        (x, ap (λ t. t p) r.quiet.same_stored_lightmaps ∙ stored, back);
    lights_unpack =
        λ p x e. step.lights_unpack p x (ap (λ t. t p) (sym r.quiet.same_stored_lightmaps) ∙ e);
  }

module _ {Light Packed : Type 0} (setup : SceneSetup Light Packed) (lawful : IsLawful setup)
    (p : ChunkCoordinates) (inland : IsInland p) where
  open setup use {pack_surface, pack_light, unpack_light}

  abbrev pub lit_scene : LightData Light → Packed → Scene Light Packed → Scene Light Packed
  lit_scene lm x s = record s {
    lightmaps = put chunk_discrete p lm s.lightmaps;
    stored_lightmaps = put chunk_discrete p x s.stored_lightmaps;
  }

  pub keep_lightmap-runs :
      (lm : LightData Light) (x : Packed) (s : Scene Light Packed)
      → pack_light lm ≡ some x
      → keep_lightmap setup p lm s ≡ (lit_scene lm x s, some lm)
  unfolding ◌>>=◌
  keep_lightmap-runs lm x s packs = rw packs refl

  -- A light map goes to memory and to the database, where those of the other places have been left
  -- alone.
  pub lit_scene-IsInStep :
      (lm : LightData Light) (x : Packed) (s s' : Scene Light Packed)
      → IsInStep setup s
      → Quiet (some p) s s'
      → IsReady setup none s'
      → unpack_light x ≡ some lm
      → IsInStep setup (lit_scene lm x s')
  lit_scene-IsInStep lm x s s' step quiet ready back = record {
    ready = record {
      heights = ready.heights;
      surfaces_stored = ready.surfaces_stored;
      unpacks = ready.unpacks;
    };
    lights_stored = λ q v e. elim (put_cases chunk_discrete p q lm v s'.lightmaps e) [
      | inl (here, same) ↦
          (x, rw here (put_self chunk_discrete p x s'.stored_lightmaps), back ∙ ap some (sym same))
      | inr (away, there) ↦
          let before : s.lightmaps q ≡ some v =
            sym (quiet.same_lightmaps q (λ e. away (cc))) ∙ there in
          let (y, stored, unpacked) = step.lights_stored q v before in
          (
            y,
            put_ne chunk_discrete p q x s'.stored_lightmaps away
                ∙ ap (λ t. t q) quiet.same_stored_lightmaps
                ∙ stored,
            unpacked,
          )
    ];
    lights_unpack =
        put-Unpacks unpack_light s'.stored_lightmaps p x lm back
          (λ q y e. step.lights_unpack q y (ap (λ t. t q) (sym quiet.same_stored_lightmaps) ∙ e));
  }

  -- What a request for a light map gives is in memory and in the database from then on.
  abbrev pub LightKept : LightData Light → Scene Light Packed → Type 0
  LightKept lm s = IsInStep setup s × LightStored setup p lm s

  made-Runs :
      (s : Scene Light Packed)
      → IsInStep setup s
      → s.lightmaps p ≡ none
      → s.stored_lightmaps p ≡ none
      → Runs (find_lightmap setup p) s LightKept
  unfolding find_lightmap ◌>>=◌
  made-Runs s step away nowhere =
      let old = lightmap_at p s in
      let start = record s { lightmaps = put chunk_discrete p old s.lightmaps } in
      let r = generate_lightmap-IsRead setup lawful p inland 0 start (record {
        heights = step.ready.heights;
        surfaces_stored = step.ready.surfaces_stored;
        unpacks = step.ready.unpacks;
      }) in
      let quiet : Quiet (some p) s r.final = record {
        steady = r.quiet.steady;
        same_lightmaps = λ q ne.
            r.quiet.same_lightmaps q ne ∙ put_ne chunk_discrete p q old s.lightmaps (λ e. ne (cc));
        same_stored_lightmaps = r.quiet.same_stored_lightmaps;
        same_updates = r.quiet.same_updates;
        surfaces_kept = r.quiet.surfaces_kept;
        stored_kept = r.quiet.stored_kept;
      } in
      let (x, packs, back) = lawful.light_back r.value in
      record {
        value = r.value;
        final = lit_scene r.value x r.final;
        runs =
            rw (away, nowhere, find_lightmap)
              (then_runs (generate_lightmap setup p 0) (keep_lightmap setup p) start r.final r.value
                  r.runs
                ∙ keep_lightmap-runs r.value x r.final packs);
        holds = (
          lit_scene-IsInStep r.value x s r.final step quiet r.ready back,
          (x, put_self chunk_discrete p x r.final.stored_lightmaps, back),
        );
      }

  loaded-Runs :
      (s : Scene Light Packed) (x : Packed) (lm : LightData Light)
      → IsInStep setup s
      → s.lightmaps p ≡ none
      → s.stored_lightmaps p ≡ some x
      → unpack_light x ≡ some lm
      → Runs (find_lightmap setup p) s LightKept
  unfolding find_lightmap ◌>>=◌
  loaded-Runs s x lm step away there back =
      let old = lightmap_at p s in
      let entered = put chunk_discrete p old s.lightmaps in
      record {
        value = lm;
        final = record s { lightmaps = put chunk_discrete p lm entered };
        runs = rw (away, there, find_lightmap) (rw back refl);
        holds = (
          record {
            ready = record {
              heights = step.ready.heights;
              surfaces_stored = step.ready.surfaces_stored;
              unpacks = step.ready.unpacks;
            };
            lights_stored = λ q v e. elim (put_cases chunk_discrete p q lm v entered e) [
              | inl (here, same) ↦ (x, rw here there, back ∙ ap some (sym same))
              | inr (other, found) ↦
                  step.lights_stored q v
                    (sym (put_ne chunk_discrete p q old s.lightmaps other) ∙ found)
            ];
            lights_unpack = step.lights_unpack;
          },
          (x, there, back),
        );
      }

  find_lightmap-Runs :
      (s : Scene Light Packed) → IsInStep setup s → Runs (find_lightmap setup p) s LightKept
  unfolding find_lightmap
  find_lightmap-Runs s step = elim (Option-cases (s.lightmaps p)) [
    | inr (lm, here) ↦ record {
      value = lm;
      final = s;
      runs = rw (here, find_lightmap) refl;
      holds = (step, step.lights_stored p lm here);
    }
    | inl away ↦ elim (Option-cases (s.stored_lightmaps p)) [
      | inr (x, there) ↦
          let (lm, back) = step.lights_unpack p x there in loaded-Runs s x lm step away there back
      | inl nowhere ↦ made-Runs s step away nowhere
    ]
  ]

  -- A request for a light map gives one.
  pub get_lightmap-Runs :
      (s : Scene Light Packed) → IsInStep setup s → Runs (get_lightmap setup p) s LightKept
  unfolding get_lightmap
  get_lightmap-Runs s step =
      then-Runs _ (ran tt s (check_place-runs p s (IsAway-IsLegal 1 p inland)))
        (find_lightmap-Runs s step)
