-- ===== src/Surface/Tests.antt =====
-- hexa/server/extract_surface.cpp on a concrete part of the world.
use hexahedra.Base.{
  ℕ, ◌+◌, ◌≡◌, refl, ap, ◌∙◌, List, [], ◌∷◌, some, Bool, true, false, ltb, ◌==◌, ◌&&◌, ◌||◌,
  if◌then◌else◌, arith,
}
use hexahedra.Base.Int.{◌+ℤ◌}
use hexahedra.Wire.Points.{Vector3}
use hexahedra.Protocol.Records.{Material}
use hexahedra.VoxelRange.{is_same_voxel}
use hexahedra.Surface.{
  Blocks, BlockFaces, at, signed, Subsection, terrain_at, opaque_block, extract_opaque_surface,
  extract_transparent_surface,
}
use hexahedra.Surface.Loops.{meets, IsInside}
use hexahedra.Surface.Lookup.{HasNeighbours}
use hexahedra.Surface.Faces.{faces_at, opaque_faces, transparent_faces}
use hexahedra.Surface.Visible.{
  extract_opaque_surface-faces_at, extract_transparent_surface-faces_at,
}

-- Places in the order of their z, y and x.
abbrev is_before : Vector3 ℕ → Vector3 ℕ → Bool
is_before p q = ltb p.z q.z || ((p.z == q.z) && (ltb p.y q.y || ((p.y == q.y) && ltb p.x q.x)))

abbrev insert_place : Vector3 ℕ → List (Vector3 ℕ) → List (Vector3 ℕ)
insert_place p [] = p ∷ []
insert_place p (q ∷ places) =
    let rest = insert_place p places in if is_before q p then q ∷ rest else p ∷ q ∷ places

abbrev sort_places : List (Vector3 ℕ) → List (Vector3 ℕ)
sort_places [] = []
sort_places (p ∷ places) = insert_place p (sort_places places)

insert_place-meets :
    (p : Vector3 ℕ) (places : List (Vector3 ℕ)) (q : Vector3 ℕ)
    → meets q (insert_place p places) ≡ meets q (p ∷ places)
insert_place-meets p [] q = refl
insert_place-meets p (r ∷ places) q =
    let rest = insert_place-meets p places q in turn (is_before r p) rest
  where
    turn :
        (b : Bool)
        → meets q (insert_place p places) ≡ meets q (p ∷ places)
        → meets q (if b then r ∷ insert_place p places else p ∷ r ∷ places)
          ≡ meets q (p ∷ r ∷ places)
    turn true rest = omega (arith, rest)
    turn false rest = refl

sort_places-meets :
    (places : List (Vector3 ℕ)) (q : Vector3 ℕ) → meets q (sort_places places) ≡ meets q places
sort_places-meets [] q = refl
sort_places-meets (p ∷ places) q =
    insert_place-meets p (sort_places places) q
    ∙ ap (λ n. (if is_same_voxel p q then 1 else 0) + n) (sort_places-meets places q)

-- Air, stone and glass.
abbrev sample_materials : ℕ → Material
sample_materials type = record {
  textures = type ∷ type ∷ type ∷ type ∷ type ∷ type ∷ [];
  name = [];
  model = [];
  bounding_box = [];
  transparency = if type == 1 then 0 else 255;
  light_emission = 0;
  is_solid = true;
}

-- A stone in a corner of each chunk and a glass beside it, in air.
abbrev sample_chunk : Blocks
sample_chunk place = if place == 0 then 1 else if place == 1 then 2 else 0

abbrev sample_terrain : Subsection
sample_terrain position = some sample_chunk

abbrev sample_around : HasNeighbours sample_terrain
sample_around = record {
  center = (sample_chunk, refl);
  east = (sample_chunk, refl);
  west = (sample_chunk, refl);
  north = (sample_chunk, refl);
  south = (sample_chunk, refl);
  up = (sample_chunk, refl);
  down = (sample_chunk, refl);
}

extract_opaque_surface-faces_at_example :
    (r : List BlockFaces) × (extract_opaque_surface sort_places sample_materials sample_terrain
      ≡ some r)
    × ((p : Vector3 ℕ) (type : ℕ)
        → IsInside p
        → terrain_at sample_terrain (signed p) ≡ some type
        → faces_at p r ≡ opaque_faces sample_materials (terrain_at sample_terrain) p type)
extract_opaque_surface-faces_at_example =
    extract_opaque_surface-faces_at sort_places sort_places-meets sample_materials sample_terrain
      sample_around

extract_transparent_surface-faces_at_example :
    (r : List BlockFaces) × (extract_transparent_surface sort_places sample_materials sample_terrain
      ≡ some r)
    × ((p : Vector3 ℕ) (type : ℕ)
        → IsInside p
        → terrain_at sample_terrain (signed p) ≡ some type
        → faces_at p r ≡ transparent_faces sample_materials (terrain_at sample_terrain) p type)
extract_transparent_surface-faces_at_example =
    extract_transparent_surface-faces_at sort_places sort_places-meets sample_materials
      sample_terrain sample_around

-- The glass beside it does not hide a side of the stone in the corner.
corner :
    opaque_block sample_materials (terrain_at sample_terrain) (at 0 0 0) 1
    ≡ some ((record { pos = at 0 0 0; dirs = 63; type = 1 }) ∷ [])
unfolding opaque_block terrain_at ◌+ℤ◌
corner = refl
