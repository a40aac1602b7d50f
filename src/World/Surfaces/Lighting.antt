-- ===== src/World/Surfaces/Lighting.antt =====
-- How light maps are generated in hexa/server/world.cpp.
use hexahedra.Base.{
  ℕ, zero, suc, ◌≡◌, refl, ap, ◌∙◌, inl, inr, List, [], ◌∷◌, Option, none, Bool-cases, All, length,
  ◌==◌,
}
use mathlib.Core.Logic.{if_pos, if_neg}
use hexahedra.World.Heights.{ChunkCoordinates, IsLegal}
use hexahedra.World.State.{chunk_discrete}
use hexahedra.Surface.{BlockFaces}
use hexahedra.World.Surfaces.Count.{count_faces}
use hexahedra.World.Surfaces.State.{
  Reads, finish, read_chunk, read_surface, LightGenerator, SceneSetup, Scene, give,
}
use hexahedra.World.Surfaces.Lights.{
  Access, access_chunk, resize_lights, run_reads, light_each, light_faces,
}
use hexahedra.World.Surfaces.Borders.{IsInland}
use hexahedra.World.Surfaces.Reads.{IsReady, IsRead, give-IsRead, then-IsRead, reach_chunk-IsRead}
use hexahedra.World.Surfaces.Laws.{Keeps, IsLawful}
use hexahedra.World.Surfaces.Getting.{get_surface-IsRead}

resize_lights-length :
    {A : Type 0} (n : ℕ) (a : A) (xs : List A) → length (resize_lights n a xs) ≡ n
unfolding resize_lights
resize_lights-length zero a xs = refl
resize_lights-length (suc n) a [] = ap suc (resize_lights-length n a [])
resize_lights-length (suc n) a (x ∷ xs) = ap suc (resize_lights-length n a xs)

module _ {Light Packed : Type 0} (setup : SceneSetup Light Packed) (lawful : IsLawful setup)
    {lit : Option ChunkCoordinates} where
  open setup use {chunks, lightgen, no_light}

  access_chunk-IsRead :
      (access : Access) (p : ChunkCoordinates) (s : Scene Light Packed)
      → IsReady setup none s
      → IsLegal p
      → IsRead setup none lit (access_chunk setup access p) s (λ out s'. Unit)
  unfolding access_chunk
  access_chunk-IsRead access p s ready legal =
      let c = reach_chunk-IsRead setup p s ready legal in
      let asked =
        then-IsRead (λ c. give (record { cached_pos = p; cached_cnk = c }, c)) c
          (give-IsRead _ c.final c.ready tt) in
      elim (chunk_discrete p access.cached_pos) [
        | yes again ↦
            rw (if_pos (chunk_discrete p access.cached_pos) again _ _)
              (give-IsRead (access, access.cached_cnk) s ready tt)
        | no other ↦ rw (if_neg (chunk_discrete p access.cached_pos) other _ _) asked
      ]

  -- What a generator reads is there, and it ends with as many lights as it was given.
  run_reads-IsRead :
      (n : ℕ) (access : Access) (r : Reads (List Light)) (s : Scene Light Packed)
      → IsReady setup none s
      → Keeps n r
      → IsRead setup none lit (run_reads setup access r) s (λ out s'. length out.1 ≡ n)
  unfolding run_reads
  run_reads-IsRead n access (finish lights) s ready keeps =
      give-IsRead (access, lights) s ready keeps
  run_reads-IsRead n access (read_chunk p continue) s ready (legal, keeps) =
      let answer = access_chunk-IsRead access p s ready legal in
      then-IsRead _ answer (
        run_reads-IsRead n answer.value.0 (continue answer.value.1) answer.final answer.ready
          (keeps answer.value.1))
  run_reads-IsRead n access (read_surface p continue) s ready (inland, keeps) =
      let srf = get_surface-IsRead setup lawful p inland s ready in
      then-IsRead _ srf
        (run_reads-IsRead n access (continue srf.value) srf.final srf.ready (keeps srf.value))

  light_each-IsRead :
      (p : ChunkCoordinates) (faces : List BlockFaces) (level n : ℕ)
      (gens : List (LightGenerator Light)) (access : Access) (lights : List Light)
      (s : Scene Light Packed)
      → IsReady setup none s
      → length lights ≡ n
      → IsInland p
      → All
          (λ (gen : LightGenerator Light).
            (p : ChunkCoordinates) (faces : List BlockFaces) (lights : List Light) (level : ℕ)
            → IsInland p
            → Keeps (length lights) (gen.generate p faces lights level))
          gens
      → IsRead setup none lit
          (light_each setup p faces level gens access lights)
          s
          (λ out s'. length out.1 ≡ n)
  unfolding light_each
  light_each-IsRead p faces level n [] access lights s ready size inland all =
      give-IsRead (access, lights) s ready size
  light_each-IsRead p faces level n (gen ∷ gens) access lights s ready size inland (keeps, all) =
      let made =
        run_reads-IsRead (length lights) access (gen.generate p faces lights level) s ready
          (keeps p faces lights level inland) in
      then-IsRead _ made (
        light_each-IsRead p faces level n gens made.value.0 made.value.1 made.final made.ready
          (made.holds ∙ size) inland all)

  -- A surface gets a light for each of its faces.
  pub light_faces-IsRead :
      (p : ChunkCoordinates) (faces : List BlockFaces) (level : ℕ) (access : Access)
      (old : List Light) (s : Scene Light Packed)
      → IsReady setup none s
      → IsInland p
      → IsRead setup none lit
          (light_faces setup p faces level access old)
          s
          (λ out s'. length out.1 ≡ count_faces faces)
  unfolding light_faces
  light_faces-IsRead p faces level access old s ready inland =
      let lights = resize_lights (count_faces faces) no_light old in
      let size = resize_lights-length (count_faces faces) no_light old in
      elim (Bool-cases (length lights == 0)) [
        | inl nothing ↦ rw nothing (give-IsRead (access, lights) s ready size)
        | inr some_faces ↦ rw some_faces (
            light_each-IsRead p faces level (count_faces faces) lightgen access lights s ready size
              inland lawful.lights_kept)
      ]
