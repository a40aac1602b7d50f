-- ===== src/World/Surfaces/Tests.antt =====
-- Surfaces and light maps of hexa/server/world.cpp in a concrete world.
use hexahedra.Base.{
  ℕ, ◌+◌, ◌≡◌, refl, List, [], ◌∷◌, Option, none, some, true, ◌==◌, if◌then◌else◌, arith,
}
use hexahedra.World.Heights.{ChunkCoordinates}
use hexahedra.World.State.{Generator}
use hexahedra.Protocol.Records.{Material}
use hexahedra.Surface.{Blocks, BlockFaces, vec, at}
use hexahedra.Base.Int.{pos, negsuc}
use hexahedra.World.Surfaces.Count.{count_faces, count_faces_soft, count_faces-count_faces_soft}
use hexahedra.World.Surfaces.State.{
  SurfaceData, LightData, finish, read_chunk, read_surface, LightGenerator, SceneSetup, Scene,
  neighbour,
}
use hexahedra.World.Surfaces.Renewal.{Renewal}
use hexahedra.World.Surfaces.Serving.{Request, ask_surface, ask_packed_lightmap, change}

-- What the database of the example holds.
data Stored : Type 0 where
  chunk_form : Blocks → Stored
  surface_form : SurfaceData → Stored
  light_form : LightData ℕ → Stored

abbrev unpack_blocks : Stored → Blocks
unpack_blocks (chunk_form c) = c
unpack_blocks (surface_form srf) = λ place. 0
unpack_blocks (light_form lm) = λ place. 0

abbrev unpack_srf : Stored → Option SurfaceData
unpack_srf (chunk_form c) = none
unpack_srf (surface_form srf) = some srf
unpack_srf (light_form lm) = none

abbrev unpack_lm : Stored → Option (LightData ℕ)
unpack_lm (chunk_form c) = none
unpack_lm (surface_form srf) = none
unpack_lm (light_form lm) = some lm

abbrev brighten : List ℕ → List ℕ
brighten [] = []
brighten (l ∷ lights) = (l + 1) ∷ brighten lights

-- A generator that looks at the chunk and at the surface before it adds some light.
abbrev sunlight : LightGenerator ℕ
sunlight = record {
  generate =
      λ p faces lights level. read_chunk p (λ c. read_surface p (λ srf. finish (brighten lights)));
}

abbrev stone_and_glass : ℕ → Material
stone_and_glass type = record {
  textures = [];
  name = [];
  model = [];
  bounding_box = [];
  transparency = if type == 1 then 0 else 255;
  light_emission = 0;
  is_solid = true;
}

abbrev plains : Generator Blocks
plains = record {
  estimate_height = λ m h. 5;
  generate = λ p c place. if place == 0 then 1 else c place;
}

abbrev sample_setup : SceneSetup ℕ Stored
sample_setup = record {
  chunks = record {
    terraingen = plains ∷ [];
    new_chunk = λ place. 0;
    empty = λ place. 0;
    pack = chunk_form;
    unpack_as = unpack_blocks;
  };
  sort = λ places. places;
  material_prop = stone_and_glass;
  lightgen = sunlight ∷ [];
  no_light = 0;
  pack_surface = λ srf. some (surface_form srf);
  unpack_surface = unpack_srf;
  pack_light = λ lm. some (light_form lm);
  unpack_light = unpack_lm;
}

-- Every column is of height 5, and every chunk in memory is the same.
abbrev sample_scene : Scene ℕ Stored
sample_scene = record {
  world = record {
    coarse_heights = λ m. none;
    chunks = λ p. some (λ place. 1);
    stored_heights = λ m. some 5;
    stored_chunks = λ p. none;
    height_updates = [];
  };
  surfaces = λ p. none;
  lightmaps = λ p. none;
  stored_surfaces = λ p. none;
  stored_lightmaps = λ p. none;
  surface_updates = [];
}

abbrev place : ChunkCoordinates
place = at 3 4 2

abbrev requests : List Request
requests = ask_surface place ∷ change place (λ c p. 2) ∷ ask_packed_lightmap place ∷ []

abbrev sample_faces : List BlockFaces
sample_faces =
    (record { pos = at 0 0 0; dirs = 21; type = 1 })
    ∷ (record { pos = at 1 0 0; dirs = 63; type = 2 })
    ∷ []

count_faces-count_faces_soft_example : count_faces sample_faces ≡ count_faces_soft sample_faces
count_faces-count_faces_soft_example =
    count_faces-count_faces_soft sample_faces (omega arith, (omega arith, tt))

nine_faces : count_faces sample_faces ≡ 9
unfolding count_faces
nine_faces = refl

-- A neighbour below zero is at the other end of the numbers.
wrapped : neighbour (at 0 4 2) (vec (negsuc 0) (pos 0) (pos 1)) ≡ at 0xffff_ffff 4 3
unfolding neighbour
wrapped = refl
