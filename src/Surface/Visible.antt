-- ===== src/Surface/Visible.antt =====
-- The faces of a chunk that extract_opaque_surface and extract_transparent_surface of
-- hexa/server/extract_surface.cpp find.
use hexahedra.Base.{
  ℕ, ◌+◌, ◌/◌, ◌%◌, ◌^◌, ◌≡◌, ◌↔◌, refl, sym, ap, ◌∙◌, List, ◌++◌, Option, some, Bool, true, All,
  arith,
}
use hexahedra.Wire.Points.{Vector3}
use hexahedra.Protocol.Records.{Material}
use hexahedra.Surface.{
  BlockFaces, WorldVector, signed, directions, collect, Subsection, terrain_at, x_sides, y_sides,
  z_sides, chunk_inner_core, chunk_outer_shell, extract, extract_opaque_surface,
  extract_transparent_surface,
}
use hexahedra.Surface.Loops.{meets, IsInside}
use hexahedra.Surface.Lookup.{HasNeighbours, block_at-some, inner}
use hexahedra.Surface.Mask.{Look, mask, is_seen, AllSome, collect-mask, mask_bits}
use hexahedra.Surface.Faces.{
  faces_at, IsBody, opaque_faces, transparent_faces, opaque_block-IsBody, transparent_block-IsBody,
}
use hexahedra.Surface.Extraction.{type_at, gather, extract-gather, extract-faces_at}

-- Where every direction leads to a block, the loop over the directions ends with a mask in which
-- the bit of a direction is set exactly when the test says that the face shows there.
pub collect-mask_bits :
    (look : Look) (shows : ℕ → ℕ → Bool) (i : WorldVector)
    → AllSome look i directions
    → (m : ℕ) × (collect look shows i directions 0 ≡ some m)
      × All
          (λ (d : ℕ × WorldVector). (m / 2 ^ d.0 % 2 ≡ 1) ↔ (is_seen look shows i d ≡ true))
          directions
collect-mask_bits look shows i all = (
  mask look shows i directions,
  collect-mask look shows i directions 0 all ∙ ap some (no_more (mask look shows i directions)),
  mask_bits look shows i,
)
  where
    no_more : (n : ℕ) → 0 + n ≡ n
    no_more n = omega arith

module _ {body : Look → Vector3 ℕ → ℕ → Option (List BlockFaces)}
    {expected : Look → Vector3 ℕ → ℕ → List BlockFaces} (good : IsBody body expected)
    (sort : List (Vector3 ℕ) → List (Vector3 ℕ))
    (sorted : (places : List (Vector3 ℕ)) (q : Vector3 ℕ) → meets q (sort places) ≡ meets q places)
    (terrain : Subsection) (around : HasNeighbours terrain) where
  type_at-terrain_at :
      (p : Vector3 ℕ)
      → IsInside p
      → terrain_at terrain (signed p) ≡ some (type_at good terrain around p)
  type_at-terrain_at p (lx, ly, lz) =
      sym (inner terrain around (signed p) p.x p.y p.z refl lx ly lz)
      ∙ block_at-some around.center.0 p.x p.y p.z lx ly lz

  visible :
      (r : List BlockFaces) × (extract body terrain (chunk_outer_shell sort) chunk_inner_core
        ≡ some r)
      × ((p : Vector3 ℕ) (type : ℕ)
          → IsInside p
          → terrain_at terrain (signed p) ≡ some type
          → faces_at p r ≡ expected (terrain_at terrain) p type)
  unfolding chunk_outer_shell
  visible =
      let shell = chunk_outer_shell sort in
      (
        gather good terrain around shell ++ gather good terrain around chunk_inner_core,
        extract-gather good terrain around shell (sorted (x_sides ++ (y_sides ++ z_sides))),
        λ p type inside there.
            let same : type_at good terrain around p ≡ type = cc (type_at-terrain_at p inside) in
            extract-faces_at good terrain around shell p (sorted (x_sides ++ (y_sides ++ z_sides)))
              inside
            ∙ ap (expected (terrain_at terrain) p) same,
      )

module _ (sort : List (Vector3 ℕ) → List (Vector3 ℕ))
    (sorted : (places : List (Vector3 ℕ)) (q : Vector3 ℕ) → meets q (sort places) ≡ meets q places)
    (material_prop : ℕ → Material) (terrain : Subsection) (around : HasNeighbours terrain) where
  -- When the chunk and the six next to it are there, and sorting keeps the places that it is given,
  -- the opaque surface is made without a failure. It has at each place inside the chunk nothing for
  -- air and transparent blocks, one entry with all six directions for a custom block, and for any
  -- other block one entry with the directions in which the next block, in this chunk or another, is
  -- not solid to the eye, if there is one.
  pub extract_opaque_surface-faces_at :
      (r : List BlockFaces) × (extract_opaque_surface sort material_prop terrain ≡ some r)
      × ((p : Vector3 ℕ) (type : ℕ)
          → IsInside p
          → terrain_at terrain (signed p) ≡ some type
          → faces_at p r ≡ opaque_faces material_prop (terrain_at terrain) p type)
  unfolding extract_opaque_surface
  extract_opaque_surface-faces_at =
      visible (opaque_block-IsBody material_prop) sort sorted terrain around

  -- When the chunk and the six next to it are there, and sorting keeps the places that it is given,
  -- the transparent surface is made without a failure. It has entries for the transparent blocks
  -- that are no air and no custom blocks, one for each place inside the chunk, with the directions
  -- in which the next block, in this chunk or another, is of another type, not solid to the eye and
  -- has another texture on the side that it shares, if there is one.
  pub extract_transparent_surface-faces_at :
      (r : List BlockFaces) × (extract_transparent_surface sort material_prop terrain ≡ some r)
      × ((p : Vector3 ℕ) (type : ℕ)
          → IsInside p
          → terrain_at terrain (signed p) ≡ some type
          → faces_at p r ≡ transparent_faces material_prop (terrain_at terrain) p type)
  unfolding extract_transparent_surface
  extract_transparent_surface-faces_at =
      visible (transparent_block-IsBody material_prop) sort sorted terrain around
