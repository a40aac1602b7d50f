-- ===== src/World/Surfaces/Lights.antt =====
-- Light maps of hexa/server/world.cpp, with the access to the world that their generators have in
-- hexa/server/world_lightmap_access.cpp, and the commit of a change to a chunk.
use hexahedra.Base.{
  ℕ, zero, suc, ◌+◌, ◌%◌, ◌^◌, List, [], ◌∷◌, Option, none, some, Bool, true, false, ◌||◌, ◌==◌,
  length, if◌then◌else◌,
}
use hexahedra.Base.Table.{put}
use mathlib.Core.Logic.{ite}
use hexahedra.World.Heights.{ChunkCoordinates}
use hexahedra.World.State.{chunk_discrete, adjust_coarse_height}
use hexahedra.Surface.{Blocks, BlockFaces, WorldVector}
use hexahedra.World.Surfaces.Count.{count_faces}
use hexahedra.World.Surfaces.State.{
  SurfaceData, LightData, Reads, finish, read_chunk, read_surface, LightGenerator, SceneSetup,
  Scene, Step, give, ◌>>=◌, or_throw, check_column, check_place, on_world, reach_chunk,
  write_surface, keep_surface, neighbour, neumann_neighborhood, build_surface, is_air_at,
  get_surface,
}

-- The chunk that a `world_lightmap_access` keeps, with its position.
pub record Access : Type 0 where
  pub cached_pos : ChunkCoordinates
  pub cached_cnk : Blocks

-- `vector::resize`
unfoldable pub resize_lights : {A : Type 0} → ℕ → A → List A → List A
resize_lights zero a xs = []
resize_lights (suc n) a [] = a ∷ resize_lights n a []
resize_lights (suc n) a (x ∷ xs) = x ∷ resize_lights n a xs

abbrev pub is_some : {A : Type 0} → Option A → Bool
is_some none = false
is_some (some a) = true

module _ {Light Packed : Type 0} where
  abbrev pub enter_lightmap : ChunkCoordinates → LightData Light → Step (Scene Light Packed) Unit
  enter_lightmap p lm s = (record s { lightmaps = put chunk_discrete p lm s.lightmaps }, some tt)

  abbrev pub write_lightmap : ChunkCoordinates → Packed → Step (Scene Light Packed) Unit
  write_lightmap p x s =
      (record s { stored_lightmaps = put chunk_discrete p x s.stored_lightmaps }, some tt)

  -- `on_update_surface(p)`
  abbrev pub announce : ChunkCoordinates → Step (Scene Light Packed) Unit
  announce p s = (record s { surface_updates = p ∷ s.surface_updates }, some tt)

  -- `lightmaps_[pos]`
  abbrev pub lightmap_at : ChunkCoordinates → Scene Light Packed → LightData Light
  lightmap_at p s = elim (s.lightmaps p) [
    | none ↦ record { opaque = []; transparent = []; phase = 0 }
    | some lm ↦ lm
  ]

  unfoldable pub is_surface_available : ChunkCoordinates → Scene Light Packed → Bool
  is_surface_available p s = is_some (s.surfaces p) || is_some (s.stored_surfaces p)

module _ {Light Packed : Type 0} (setup : SceneSetup Light Packed) where
  open setup use {chunks, lightgen, no_light, pack_surface, pack_light, unpack_light}

  -- `world_lightmap_access::get_chunk`, with the access that it leaves
  unfoldable pub access_chunk :
      Access → ChunkCoordinates → Step (Scene Light Packed) (Access × Blocks)
  unfolding reach_chunk
  access_chunk access p =
      ite (chunk_discrete p access.cached_pos) (give (access, access.cached_cnk))
        (reach_chunk setup p >>= λ c. give (record { cached_pos = p; cached_cnk = c }, c))

  -- What a generator asks for is answered by `world_lightmap_access`.
  unfoldable pub run_reads :
      {A : Type 0} → Access → Reads A → Step (Scene Light Packed) (Access × A)
  unfolding get_surface access_chunk
  run_reads access (finish a) = give (access, a)
  run_reads access (read_chunk p continue) =
      access_chunk access p >>= λ answer. run_reads answer.0 (continue answer.1)
  run_reads access (read_surface p continue) =
      get_surface setup p >>= λ srf. run_reads access (continue srf)

  -- The generators work on the lights in their order.
  unfoldable pub light_each :
      ChunkCoordinates
      → List BlockFaces
      → ℕ
      → List (LightGenerator Light)
      → Access
      → List Light
      → Step (Scene Light Packed) (Access × List Light)
  unfolding run_reads
  light_each p faces level [] access lights = give (access, lights)
  light_each p faces level (gen ∷ gens) access lights =
      run_reads access (gen.generate p faces lights level) >>= λ made.
      light_each p faces level gens made.0 made.1

  -- The lights of one of the two surfaces.
  unfoldable pub light_faces :
      ChunkCoordinates
      → List BlockFaces
      → ℕ
      → Access
      → List Light
      → Step (Scene Light Packed) (Access × List Light)
  unfolding light_each resize_lights count_faces
  light_faces p faces level access old =
      let lights = resize_lights (count_faces faces) no_light old in
      if length lights == 0
      then give (access, lights)
      else light_each p faces level lightgen access lights

  unfoldable pub generate_lightmap :
      ChunkCoordinates → ℕ → Step (Scene Light Packed) (LightData Light)
  unfolding light_faces get_surface
  generate_lightmap p level s =
      let none_cached : Access = record {
        cached_pos = record { x = 0xffff_ffff; y = 0xffff_ffff; z = 0xffff_ffff };
        cached_cnk = chunks.new_chunk;
      } in
      let old = lightmap_at p s in
      (enter_lightmap p old >>= λ _. get_surface setup p >>= λ surf.
      light_faces p surf.opaque level none_cached old.opaque >>= λ made.
      enter_lightmap p (record old { opaque = made.1 }) >>= λ _.
      light_faces p surf.transparent level made.0 old.transparent >>= λ also.
      enter_lightmap p (record old { opaque = made.1; transparent = also.1 }) >>= λ _.
      give (record old { opaque = made.1; transparent = also.1 }))
        s

  -- A light map goes to memory and to the database.
  abbrev pub keep_lightmap :
      ChunkCoordinates → LightData Light → Step (Scene Light Packed) (LightData Light)
  keep_lightmap p lm = enter_lightmap p lm >>= λ _.
      or_throw (pack_light lm) >>= λ x. write_lightmap p x >>= λ _. give lm

  -- `get_lightmap` after its asserts. `lightmaps_[pos]` makes the entry before it is filled.
  unfoldable pub find_lightmap : ChunkCoordinates → Step (Scene Light Packed) (LightData Light)
  unfolding generate_lightmap
  find_lightmap p s = elim (s.lightmaps p) [
    | some lm ↦ (s, some lm)
    | none ↦
        (enter_lightmap p (lightmap_at p s) >>= λ _ entered. elim (entered.stored_lightmaps p) [
          | some compressed ↦
              (or_throw (unpack_light compressed) >>= λ lm. enter_lightmap p lm >>= λ _. give lm)
                entered
          | none ↦ (generate_lightmap p 0 >>= keep_lightmap p) entered
        ])
          s
  ]

  unfoldable pub get_lightmap : ChunkCoordinates → Step (Scene Light Packed) (LightData Light)
  unfolding check_place find_lightmap
  get_lightmap p = check_place p >>= λ _. find_lightmap p

  unfoldable pub get_compressed_surface : ChunkCoordinates → Step (Scene Light Packed) Packed
  unfolding get_surface
  get_compressed_surface p s = elim (s.stored_surfaces p) [
    | some compressed ↦ (s, some compressed)
    | none ↦
        (get_surface setup p >>= λ srf.
        or_throw (pack_surface srf) >>= λ x. write_surface p x >>= λ _. give x)
          s
  ]

  unfoldable pub get_compressed_lightmap : ChunkCoordinates → Step (Scene Light Packed) Packed
  unfolding get_lightmap
  get_compressed_lightmap p s = elim (s.stored_lightmaps p) [
    | some compressed ↦ (s, some compressed)
    | none ↦
        (get_lightmap p >>= λ lm.
        or_throw (pack_light lm) >>= λ x. write_lightmap p x >>= λ _. give x)
          s
  ]

  -- The version of a surface that was built: one more than that of the surface that is there.
  unfoldable pub versioned : ChunkCoordinates → SurfaceData → Step (Scene Light Packed) SurfaceData
  unfolding get_surface is_surface_available
  versioned p srf s =
      if is_surface_available p s
      then ((get_surface setup p >>= λ old.
            give (record srf { version = (old.version + 1) % 2 ^ 32 }))
          s)
      else (s, some srf)

  -- The body of the loop in `commit_write` from `generate_lightmap` on.
  unfoldable pub renew_lightmap : ChunkCoordinates → Step (Scene Light Packed) Unit
  unfolding generate_lightmap
  renew_lightmap p = generate_lightmap p 0 >>= λ lm. keep_lightmap p lm >>= λ _. announce p

  -- The rest of the body of the loop in `commit_write`, for a chunk that is no air.
  unfoldable pub renew : ChunkCoordinates → Step (Scene Light Packed) Unit
  unfolding build_surface versioned renew_lightmap
  renew p = build_surface setup p >>= λ built.
      versioned p built >>= λ srf. keep_surface setup p srf >>= λ _. renew_lightmap p

  -- The loop of `commit_write`.
  unfoldable pub renew_each : ChunkCoordinates → List WorldVector → Step (Scene Light Packed) Unit
  unfolding is_air_at renew neighbour
  renew_each p [] = give tt
  renew_each p (rel ∷ rels) = is_air_at setup (neighbour p rel) >>= λ air.
      (if air then give tt else renew (neighbour p rel)) >>= λ _. renew_each p rels

  -- `storage_.store(chunk, pos, pack(chunks_.get(pos)))`, which throws if the chunk is not there.
  unfoldable pub store_chunk : ChunkCoordinates → Step (Scene Light Packed) Unit
  store_chunk p s = elim (s.world.chunks p) [
    | none ↦ (s, none)
    | some c ↦
        let w = s.world in
        (
          record s {
            world = record w {
              stored_chunks = put chunk_discrete p (chunks.pack c) w.stored_chunks;
            };
          },
          some tt,
        )
  ]

  -- The asserts are those of `get_coarse_height`, which `adjust_coarse_height` begins with.
  unfoldable pub commit_write : ChunkCoordinates → Step (Scene Light Packed) Unit
  unfolding check_column adjust_coarse_height store_chunk renew_each neumann_neighborhood
  commit_write p = check_column p >>= λ _.
      on_world (λ w. (adjust_coarse_height chunks p w, tt)) >>= λ _.
      store_chunk p >>= λ _. renew_each p neumann_neighborhood
