-- ===== src/World/Surfaces/State.antt =====
-- The state of hexa/server/world.cpp with its surfaces and light maps, what a light map generator
-- may do, and the steps that read chunks and surfaces.
use hexahedra.Base.{
  ℕ, ◌+◌, ◌-◌, ◌%◌, ◌^◌, List, [], ◌∷◌, Option, none, some, Bool, ltb, ◌&&◌, ◌||◌, if◌then◌else◌,
}
use hexahedra.Base.Int.{ℤ, pos, negsuc}
use hexahedra.Base.Table.{Table, put}
use hexahedra.World.Heights.{
  ChunkCoordinates, chunk_world_limit, is_air_chunk, is_legal_chunk_coordinate,
}
use hexahedra.World.State.{World, Setup, chunk_discrete, column, get_coarse_height, get_chunk}
use hexahedra.Protocol.Records.{Material}
use hexahedra.Surface.{
  Blocks, BlockFaces, WorldVector, vec, Subsection, extract_opaque_surface,
  extract_transparent_surface,
}
use native.Mathlib.Decide.{ℕ_discrete}

-- `surface_data`
pub record SurfaceData : Type 0 where
  pub version : ℕ
  pub opaque : List BlockFaces
  pub transparent : List BlockFaces

abbrev pub empty_surface : SurfaceData
empty_surface = record { version = 0; opaque = []; transparent = [] }

-- `light_data`; a light map is a list of lights.
pub record LightData (Light : Type 0) : Type 0 where
  pub opaque : List Light
  pub transparent : List Light
  pub phase : ℕ

-- What a light map generator does with its `world_lightmap_access`: it asks for chunks and for
-- surfaces, and goes on with what it gets, until it has its result.
pub data Reads (A : Type 0) : Type 0 where
  finish : A → Reads A
  read_chunk : ChunkCoordinates → (Blocks → Reads A) → Reads A
  read_surface : ChunkCoordinates → (SurfaceData → Reads A) → Reads A

-- A light map generator: it works on the lights of a surface, in a phase.
pub record LightGenerator (Light : Type 0) : Type 0 where
  pub generate : ChunkCoordinates → List BlockFaces → List Light → ℕ → Reads (List Light)

-- What surfaces and light maps are made with. Packing and unpacking throw where they give `none`.
pub record SceneSetup (Light Packed : Type 0) : Type 0 where
  pub chunks : Setup Blocks Packed
  pub sort : List ChunkCoordinates → List ChunkCoordinates
  pub material_prop : ℕ → Material
  pub lightgen : List (LightGenerator Light)
  pub no_light : Light
  pub pack_surface : SurfaceData → Option Packed
  pub unpack_surface : Packed → Option SurfaceData
  pub pack_light : LightData Light → Option Packed
  pub unpack_light : Packed → Option (LightData Light)

-- The heights and chunks, the surfaces and light maps in memory and in the database, and the
-- positions that `on_update_surface` was called with, the last one first.
pub record Scene (Light Packed : Type 0) : Type 0 where
  pub world : World Blocks Packed
  pub surfaces : Table ChunkCoordinates SurfaceData
  pub lightmaps : Table ChunkCoordinates (LightData Light)
  pub stored_surfaces : Table ChunkCoordinates Packed
  pub stored_lightmaps : Table ChunkCoordinates Packed
  pub surface_updates : List ChunkCoordinates

pub vector_discrete : Discrete WorldVector
vector_discrete = hlevel ℕ_discrete

-- `pos + rel`, which wraps at 32 bits.
unfoldable pub wrap : ℕ → ℤ → ℕ
wrap n (pos k) = (n + k) % 2 ^ 32
wrap n (negsuc k) = (n + (2 ^ 32 - 1 - k)) % 2 ^ 32

unfoldable pub neighbour : ChunkCoordinates → WorldVector → ChunkCoordinates
unfolding wrap
neighbour p rel = record { x = wrap p.x rel.x; y = wrap p.y rel.y; z = wrap p.z rel.z }

unfoldable pub neumann_neighborhood : List WorldVector
neumann_neighborhood =
    vec (negsuc 0) (pos 0) (pos 0)
    ∷ vec (pos 0) (negsuc 0) (pos 0)
    ∷ vec (pos 0) (pos 0) (negsuc 0)
    ∷ vec (pos 0) (pos 0) (pos 0)
    ∷ vec (pos 0) (pos 0) (pos 1)
    ∷ vec (pos 0) (pos 1) (pos 0)
    ∷ vec (pos 1) (pos 0) (pos 0)
    ∷ []

-- A step changes the state, and gives a result or throws.
abbrev pub Step : Type 0 → Type 0 → Type 0
Step S A = S → S × Option A

abbrev pub give : {S A : Type 0} → A → Step S A
give a s = (s, some a)

infixl 50 ◌>>=◌
unfoldable pub ◌>>=◌ : {S A B : Type 0} → Step S A → (A → Step S B) → Step S B
(m >>= f) s = let (s', r) = m s in elim r [ none ↦ (s', none) | some a ↦ f a s' ]

-- An assert that may fail.
abbrev ensure : {S : Type 0} → Bool → Step S Unit
ensure test s = (s, if test then some tt else none)

-- What was packed or unpacked, or the exception of that.
abbrev pub or_throw : {S A : Type 0} → Option A → Step S A
or_throw r s = (s, r)

-- The asserts of `get_coarse_height`
unfoldable pub check_column : {S : Type 0} → ChunkCoordinates → Step S Unit
check_column p = ensure (ltb p.x chunk_world_limit && ltb p.y chunk_world_limit)

-- The asserts of `get_surface`, `get_lightmap` and `get_chunk_writable`
unfoldable pub check_place : {S : Type 0} → ChunkCoordinates → Step S Unit
check_place p = ensure (is_legal_chunk_coordinate p)

module _ {Light Packed : Type 0} where
  abbrev pub on_world :
      {A : Type 0} → (World Blocks Packed → World Blocks Packed × A) → Step (Scene Light Packed) A
  on_world f s = let (w, a) = f s.world in (record s { world = w }, some a)

  -- `surfaces_[pos] = srf` and the like
  abbrev pub enter_surface : ChunkCoordinates → SurfaceData → Step (Scene Light Packed) Unit
  enter_surface p srf s = (record s { surfaces = put chunk_discrete p srf s.surfaces }, some tt)

  abbrev pub write_surface : ChunkCoordinates → Packed → Step (Scene Light Packed) Unit
  write_surface p x s =
      (record s { stored_surfaces = put chunk_discrete p x s.stored_surfaces }, some tt)

module _ {Light Packed : Type 0} (setup : SceneSetup Light Packed) where
  open setup use {chunks, sort, material_prop, pack_surface, unpack_surface}

  -- `get_chunk`, with the asserts of the two that it calls: `get_coarse_height`, and
  -- `get_chunk_writable` for a chunk that is no air.
  unfoldable pub reach_chunk : ChunkCoordinates → Step (Scene Light Packed) Blocks
  unfolding check_column
  reach_chunk p = check_column p >>= λ _ s.
      (if is_legal_chunk_coordinate p
          || is_air_chunk p (get_coarse_height chunks (column p) s.world).1
        then on_world (get_chunk chunks p) s
        else (s, none))

  -- The loop of `build_surface`, which adds the chunks to the part of the world.
  unfoldable pub gather_chunks :
      ChunkCoordinates → List WorldVector → Subsection → Step (Scene Light Packed) Subsection
  unfolding neighbour reach_chunk
  gather_chunks p [] nbh = give nbh
  gather_chunks p (rel ∷ rels) nbh =
      reach_chunk (neighbour p rel) >>= λ c. gather_chunks p rels (put vector_discrete rel c nbh)

  unfoldable pub build_surface : ChunkCoordinates → Step (Scene Light Packed) SurfaceData
  unfolding gather_chunks neumann_neighborhood extract_opaque_surface extract_transparent_surface
  build_surface p = gather_chunks p neumann_neighborhood (λ rel. none) >>= λ nbh s. (
    s,
    elim (extract_opaque_surface sort material_prop nbh) [
      | none ↦ none
      | some o ↦ elim (extract_transparent_surface sort material_prop nbh) [
        | none ↦ none
        | some t ↦ some (record { version = 1; opaque = o; transparent = t })
      ]
    ],
  )

  -- The height of the column is read, behind its asserts, and tested.
  unfoldable pub is_air_at : ChunkCoordinates → Step (Scene Light Packed) Bool
  unfolding is_air_chunk check_column
  is_air_at p = check_column p >>= λ _.
      on_world (get_coarse_height chunks (column p)) >>= λ height. give (is_air_chunk p height)

  -- A surface goes to memory and to the database.
  abbrev pub keep_surface : ChunkCoordinates → SurfaceData → Step (Scene Light Packed) SurfaceData
  keep_surface p srf = enter_surface p srf >>= λ _.
      or_throw (pack_surface srf) >>= λ x. write_surface p x >>= λ _. give srf

  -- `get_surface` after its asserts and its first test. `surfaces_[pos]` makes the entry before it
  -- is filled.
  unfoldable pub find_surface : ChunkCoordinates → Step (Scene Light Packed) SurfaceData
  unfolding build_surface
  find_surface p s = elim (s.surfaces p) [
    | some srf ↦ (s, some srf)
    | none ↦
        (enter_surface p empty_surface >>= λ _ entered. elim (entered.stored_surfaces p) [
          | some compressed ↦
              (or_throw (unpack_surface compressed) >>= λ srf.
              enter_surface p srf >>= λ _. give srf)
                entered
          | none ↦ (build_surface p >>= keep_surface p) entered
        ])
          s
  ]

  unfoldable pub get_surface : ChunkCoordinates → Step (Scene Light Packed) SurfaceData
  unfolding check_place is_air_at find_surface
  get_surface p = check_place p >>= λ _.
      is_air_at p >>= λ air. if air then give empty_surface else find_surface p
