-- ===== src/Surface/Faces.antt =====
-- What the loop bodies of hexa/server/extract_surface.cpp make of a block.
use hexahedra.Base.{
  ℕ, ◌+◌, ◌≡◌, refl, ap, ◌∙◌, inl, inr, List, [], ◌∷◌, Option, some, Bool, true, false, not, ◌||◌,
  ◌==◌, if◌then◌else◌, Bool-cases, arith,
}
use hexahedra.Wire.Points.{Vector3}
use hexahedra.Protocol.Records.{Material}
use hexahedra.VoxelRange.{is_same_voxel}
use hexahedra.Surface.{
  BlockFaces, signed, directions, collect, emplace, is_transparent, is_custom_block, shows_opaque,
  shows_transparent, opaque_block, transparent_block,
}
use hexahedra.Surface.Mask.{Look, mask, AllSome, AllSame, collect-mask, mask-AllSame, mask-shows}
use hexahedra.Surface.Shown.{opaque_shown, transparent_shown, same_opaque, same_transparent}

-- The entries of a surface at a place.
abbrev pub faces_at : Vector3 ℕ → List BlockFaces → List BlockFaces
faces_at p [] = []
faces_at p (f ∷ fs) = if is_same_voxel f.pos p then f ∷ faces_at p fs else faces_at p fs

-- What a body promises: at a place whose directions all lead to blocks it gives the faces that are
-- expected there, all of that place; and these depend on nothing but what the directions lead to.
pub record IsBody (body : Look → Vector3 ℕ → ℕ → Option (List BlockFaces))
    (expected : Look → Vector3 ℕ → ℕ → List BlockFaces) : Type 0 where
  pub gives :
      (look : Look) (i : Vector3 ℕ) (type : ℕ)
      → AllSome look (signed i) directions
      → body look i type ≡ some (expected look i type)
  pub looks :
      (look look' : Look) (i : Vector3 ℕ) (type : ℕ)
      → AllSame look look' (signed i) directions
      → expected look i type ≡ expected look' i type
  pub stays :
      (look : Look) (i p : Vector3 ℕ) (type : ℕ)
      → faces_at p (expected look i type) ≡ (if is_same_voxel i p then expected look i type else [])

nothing-faces_at : (b : Bool) → ◌≡◌ {A = List BlockFaces} [] (if b then [] else [])
nothing-faces_at true = refl
nothing-faces_at false = refl

emplace-faces_at :
    (i p : Vector3 ℕ) (type dirs : ℕ)
    → faces_at p (emplace i type dirs) ≡ (if is_same_voxel i p then emplace i type dirs else [])
unfolding emplace
emplace-faces_at i p type dirs = elim (Bool-cases (dirs == 0)) [
  | inl nothing ↦ rw nothing (nothing-faces_at (is_same_voxel i p))
  | inr seen ↦ rw seen refl
]

module _ (material_prop : ℕ → Material) where
  -- Air and transparent blocks have no opaque faces, a custom block has all six, and any other has
  -- those with nothing solid next to them.
  unfoldable pub opaque_faces : Look → Vector3 ℕ → ℕ → List BlockFaces
  opaque_faces look i type =
      if type == 0
      then []
      else if is_custom_block (material_prop type)
      then emplace i type 0x3f
      else if is_transparent (material_prop type)
      then []
      else emplace i type (mask look (opaque_shown material_prop) (signed i) directions)

  -- A block that is transparent, no custom block and no air has the faces whose other side is of
  -- another type, is not solid to the eye and has another texture.
  unfoldable pub transparent_faces : Look → Vector3 ℕ → ℕ → List BlockFaces
  transparent_faces look i type =
      if type == 0
      then []
      else if not (is_transparent (material_prop type)) || is_custom_block (material_prop type)
      then []
      else emplace i type (mask look (transparent_shown material_prop type) (signed i) directions)

  module _ (look : Look) (i : Vector3 ℕ) (type : ℕ) where
    -- The mask that a pass over the directions gives, when each leads to a block.
    collected :
        (shows shown : ℕ → ℕ → Bool)
        → ((dir t : ℕ) → shows dir t ≡ shown dir t)
        → AllSome look (signed i) directions
        → collect look shows (signed i) directions 0 ≡ some (mask look shown (signed i) directions)
    collected shows shown same all =
        collect-mask look shows (signed i) directions 0 all
        ∙ ap some (no_more (mask look shows (signed i) directions))
        ∙ ap some (mask-shows look shows shown (signed i) directions same)
      where
        no_more : (n : ℕ) → 0 + n ≡ n
        no_more n = omega arith

    opaque_gives :
        AllSome look (signed i) directions
        → opaque_block material_prop look i type ≡ some (opaque_faces look i type)
    unfolding opaque_block opaque_faces
    opaque_gives all = elim (Bool-cases (type == 0)) [
      | inl air ↦ rw air refl
      | inr thing ↦ elim (Bool-cases (is_custom_block (material_prop type))) [
        | inl custom ↦ rw thing (rw custom refl)
        | inr plain ↦ elim (Bool-cases (is_transparent (material_prop type))) [
          | inl clear ↦ rw thing (rw plain (rw clear refl))
          | inr opaque ↦ rw thing (
              rw plain (
                rw opaque (
                  rw
                    (collected (shows_opaque material_prop type) (opaque_shown material_prop)
                      (same_opaque material_prop type) all)
                    refl)))
        ]
      ]
    ]

    opaque_stays :
        (p : Vector3 ℕ)
        → faces_at p (opaque_faces look i type)
          ≡ (if is_same_voxel i p then opaque_faces look i type else [])
    unfolding opaque_faces
    opaque_stays p = elim (Bool-cases (type == 0)) [
      | inl air ↦ rw air (nothing-faces_at (is_same_voxel i p))
      | inr thing ↦ elim (Bool-cases (is_custom_block (material_prop type))) [
        | inl custom ↦ rw thing (rw custom (emplace-faces_at i p type 0x3f))
        | inr plain ↦ elim (Bool-cases (is_transparent (material_prop type))) [
          | inl clear ↦ rw thing (rw plain (rw clear (nothing-faces_at (is_same_voxel i p))))
          | inr opaque ↦ rw thing (
              rw plain (
                rw opaque (
                  emplace-faces_at i p type
                    (mask look (opaque_shown material_prop) (signed i) directions))))
        ]
      ]
    ]

    transparent_gives :
        AllSome look (signed i) directions
        → transparent_block material_prop look i type ≡ some (transparent_faces look i type)
    unfolding transparent_block transparent_faces
    transparent_gives all = elim (Bool-cases (type == 0)) [
      | inl air ↦ rw air refl
      | inr thing ↦
          elim (Bool-cases
            (not (is_transparent (material_prop type)) || is_custom_block (material_prop type))) [
              | inl other ↦ rw thing (rw other refl)
              | inr clear ↦ rw thing (
                  rw clear (
                    rw
                      (collected (shows_transparent material_prop type)
                        (transparent_shown material_prop type) (same_transparent material_prop type)
                        all)
                      refl))
            ]
    ]

    transparent_stays :
        (p : Vector3 ℕ)
        → faces_at p (transparent_faces look i type)
          ≡ (if is_same_voxel i p then transparent_faces look i type else [])
    unfolding transparent_faces
    transparent_stays p = elim (Bool-cases (type == 0)) [
      | inl air ↦ rw air (nothing-faces_at (is_same_voxel i p))
      | inr thing ↦
          elim (Bool-cases
            (not (is_transparent (material_prop type)) || is_custom_block (material_prop type))) [
              | inl other ↦ rw thing (rw other (nothing-faces_at (is_same_voxel i p)))
              | inr clear ↦ rw thing (
                  rw clear (
                    emplace-faces_at i p type
                      (mask look (transparent_shown material_prop type) (signed i) directions)))
            ]
    ]

  opaque_looks :
      (look look' : Look) (i : Vector3 ℕ) (type : ℕ)
      → AllSame look look' (signed i) directions
      → opaque_faces look i type ≡ opaque_faces look' i type
  unfolding opaque_faces
  opaque_looks look look' i type all =
      rw (mask-AllSame look look' (opaque_shown material_prop) (signed i) directions all) refl

  transparent_looks :
      (look look' : Look) (i : Vector3 ℕ) (type : ℕ)
      → AllSame look look' (signed i) directions
      → transparent_faces look i type ≡ transparent_faces look' i type
  unfolding transparent_faces
  transparent_looks look look' i type all =
      rw (mask-AllSame look look' (transparent_shown material_prop type) (signed i) directions all)
        refl

  pub opaque_block-IsBody : IsBody (opaque_block material_prop) opaque_faces
  opaque_block-IsBody = record {
    gives = opaque_gives;
    looks = opaque_looks;
    stays = λ look i p type. opaque_stays look i type p;
  }

  pub transparent_block-IsBody : IsBody (transparent_block material_prop) transparent_faces
  transparent_block-IsBody = record {
    gives = transparent_gives;
    looks = transparent_looks;
    stays = λ look i p type. transparent_stays look i type p;
  }
