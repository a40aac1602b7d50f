-- ===== src/World/Surfaces/Laws.antt =====
-- What the surfaces and light maps of hexa/server/world.cpp rely on, and a surface that is being
-- made.
use hexahedra.Base.{
  ℕ, ◌≡◌, refl, ◌≢◌, ◌⊎◌, sym, ap, ◌∙◌, inl, inr, List, Option, none, some, Bool, true, false, All,
  length,
}
use hexahedra.Base.Table.{put, put_self, put_ne, put_cases}
use hexahedra.World.Heights.{ChunkCoordinates, IsLegal}
use hexahedra.World.State.{chunk_discrete, column}
use hexahedra.Surface.{BlockFaces}
use hexahedra.Surface.Loops.{meets}
use hexahedra.World.Surfaces.State.{
  SurfaceData, empty_surface, LightData, Reads, finish, read_chunk, read_surface, LightGenerator,
  SceneSetup, Scene, ◌>>=◌, keep_surface,
}
use hexahedra.World.Surfaces.Borders.{IsInland}
use hexahedra.World.Surfaces.Reads.{IsReady, Quiet, AirAt, put-Unpacks}

-- A generator ends with as many lights as it was given, whatever it reads, and asks only for chunks
-- inside the limits of the world, and for surfaces of which the chunks around are.
abbrev pub Keeps : {Light : Type 0} → ℕ → Reads (List Light) → Type 0
Keeps n (finish lights) = length lights ≡ n
Keeps n (read_chunk p continue) = IsLegal p × ((c : _) → Keeps n (continue c))
Keeps n (read_surface p continue) = IsInland p × ((srf : SurfaceData) → Keeps n (continue srf))

-- Sorting keeps the places, every surface and light map can be packed and unpacks to what it was
-- (the compression throws for one of more than 65535 bytes), and the generators keep the number of
-- lights and the limits, for a place of which the chunks around are inside the limits.
pub record IsLawful {Light Packed : Type 0} (setup : SceneSetup Light Packed) : Type 0 where
  pub sorted :
      (places : List ChunkCoordinates) (q : ChunkCoordinates)
      → meets q (setup.sort places) ≡ meets q places
  pub surface_back :
      (srf : SurfaceData)
      → (x : Packed) × (setup.pack_surface srf ≡ some x) × (setup.unpack_surface x ≡ some srf)
  pub light_back :
      (lm : LightData Light)
      → (x : Packed) × (setup.pack_light lm ≡ some x) × (setup.unpack_light x ≡ some lm)
  pub lights_kept :
      All
        (λ (gen : LightGenerator Light).
          (p : ChunkCoordinates) (faces : List BlockFaces) (lights : List Light) (level : ℕ)
          → IsInland p
          → Keeps (length lights) (gen.generate p faces lights level))
        setup.lightgen

-- What a request for a surface gives: the empty one for air, else the one that is in memory from
-- then on.
abbrev pub Given :
    {Light Packed : Type 0} → ChunkCoordinates → SurfaceData → Scene Light Packed → Type 0
Given p srf s =
    (AirAt p true s × (srf ≡ empty_surface)) ⊎ (AirAt p false s × (s.surfaces p ≡ some srf))

module _ {Light Packed : Type 0} {lit : Option ChunkCoordinates} (p : ChunkCoordinates) where
  pub AirAt-kept :
      (air : Bool) (s s' : Scene Light Packed) → Quiet lit s s' → AirAt p air s → AirAt p air s'
  AirAt-kept air s s' quiet (h, e, test) = (h, quiet.steady.kept (column p) h e, test)

  pub Given-kept :
      (srf : SurfaceData) (s s' : Scene Light Packed)
      → Quiet lit s s'
      → Given p srf s
      → Given p srf s'
  Given-kept srf s s' quiet (inl (air, nothing)) = inl (AirAt-kept true s s' quiet air, nothing)
  Given-kept srf s s' quiet (inr (solid, here)) =
      inr (AirAt-kept false s s' quiet solid, quiet.surfaces_kept p srf here)

module _ {Light Packed : Type 0} (setup : SceneSetup Light Packed) (p : ChunkCoordinates) where
  open setup use {unpack_surface}

  other_hole : (q : ChunkCoordinates) → q ≢ p → some p ≢ some q
  other_hole q away e = away (cc)

  -- While the surface at `p` is made, the others are in order.
  pub with_hole : (s : Scene Light Packed) → IsReady setup none s → IsReady setup (some p) s
  with_hole s ready = record {
    heights = ready.heights;
    surfaces_stored = λ q srf ne e. ready.surfaces_stored q srf (λ o. absurd (cc)) e;
    unpacks = ready.unpacks;
  }

  abbrev pub entered_surface : SurfaceData → Scene Light Packed → Scene Light Packed
  entered_surface srf s = record s { surfaces = put chunk_discrete p srf s.surfaces }

  pub entered_surface-IsReady :
      (srf : SurfaceData) (s : Scene Light Packed)
      → IsReady setup (some p) s
      → IsReady setup (some p) (entered_surface srf s)
  entered_surface-IsReady srf s ready = record {
    heights = ready.heights;
    surfaces_stored = λ q v ne e. elim (put_cases chunk_discrete p q srf v s.surfaces e) [
      | inl (here, _) ↦ absurd (ne (cc))
      | inr (away, there) ↦ ready.surfaces_stored q v ne there
    ];
    unpacks = ready.unpacks;
  }

  -- A surface is entered, of which the database has this packed form.
  abbrev pub kept_surface : SurfaceData → Packed → Scene Light Packed → Scene Light Packed
  kept_surface srf x s = record s {
    surfaces = put chunk_discrete p srf s.surfaces;
    stored_surfaces = put chunk_discrete p x s.stored_surfaces;
  }

  pub keep_surface-runs :
      (srf : SurfaceData) (x : Packed) (s : Scene Light Packed)
      → setup.pack_surface srf ≡ some x
      → keep_surface setup p srf s ≡ (kept_surface srf x s, some srf)
  unfolding ◌>>=◌
  keep_surface-runs srf x s packs = rw packs refl

  pub kept_surface-IsReady :
      (srf : SurfaceData) (x : Packed) (s : Scene Light Packed)
      → IsReady setup (some p) s
      → unpack_surface x ≡ some srf
      → IsReady setup none (kept_surface srf x s)
  kept_surface-IsReady srf x s ready back = record {
    heights = ready.heights;
    surfaces_stored = λ q v ne e. elim (put_cases chunk_discrete p q srf v s.surfaces e) [
      | inl (here, same) ↦
          (x, rw here (put_self chunk_discrete p x s.stored_surfaces), back ∙ ap some (sym same))
      | inr (away, there) ↦
          let (y, stored, unpacked) = ready.surfaces_stored q v (other_hole q away) there in
          (y, put_ne chunk_discrete p q x s.stored_surfaces away ∙ stored, unpacked)
    ];
    unpacks = put-Unpacks unpack_surface s.stored_surfaces p x srf back ready.unpacks;
  }
