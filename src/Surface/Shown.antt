-- ===== src/Surface/Shown.antt =====
-- When a face shows in hexa/server/extract_surface.cpp, in terms of the two materials.
use hexahedra.Base.{
  ℕ, ◌+◌, ◌-◌, ◌*◌, ◌%◌, ◌≡◌, ap, ◌∙◌, List, [], ◌∷◌, Bool, true, false, not, ltb, ◌==◌, ◌&&◌,
  arith,
}
use hexahedra.Protocol.Records.{Material, CustomBlockPart}
use hexahedra.Surface.{
  is_transparent, is_custom_block, is_visually_solid, texture, opposite, shows_opaque,
  shows_transparent,
}

abbrev has_no_model : List CustomBlockPart → Bool
has_no_model [] = true
has_no_model (part ∷ parts) = false

-- A block hides what is behind it if no light comes through and it has no model of its own.
abbrev pub conceals : Material → Bool
conceals m = (m.transparency == 0) && has_no_model m.model

is_visually_solid_lem : (m : Material) → is_visually_solid m ≡ conceals m
unfolding is_visually_solid is_transparent is_custom_block
is_visually_solid_lem m = go m.transparency m.model
  where
    no_light : (n : ℕ) → not (ltb 0 n) ≡ (n == 0)
    no_light n = ground arith

    go :
        (n : ℕ) (model : List CustomBlockPart)
        → (not (ltb 0 n) && not (elim model [ [] ↦ false | part ∷ parts ↦ true ]))
          ≡ ((n == 0) && has_no_model model)
    go n [] = ap (λ b. b && true) (no_light n)
    go n (part ∷ parts) = ap (λ b. b && false) (no_light n)

-- The direction that looks back: each axis has two that follow each other.
abbrev pub facing : ℕ → ℕ
facing dir = dir + 1 - 2 * (dir % 2)

opposite_lem : (dir : ℕ) → opposite dir ≡ facing dir
unfolding opposite
opposite_lem dir = ground arith

module _ (material_prop : ℕ → Material) where
  abbrev pub opaque_shown : ℕ → ℕ → Bool
  opaque_shown dir other_type = not (conceals (material_prop other_type))

  abbrev pub transparent_shown : ℕ → ℕ → ℕ → Bool
  transparent_shown type dir other_type =
      not (type == other_type)
      && (not (conceals (material_prop other_type))
          && not (
              texture (material_prop type).textures dir
              == texture (material_prop other_type).textures (facing dir)))

  pub same_opaque :
      (type dir other_type : ℕ)
      → shows_opaque material_prop type dir other_type ≡ opaque_shown dir other_type
  unfolding shows_opaque
  same_opaque type dir other_type = ap not (is_visually_solid_lem (material_prop other_type))

  pub same_transparent :
      (type dir other_type : ℕ)
      → shows_transparent material_prop type dir other_type ≡ transparent_shown type dir other_type
  unfolding shows_transparent
  same_transparent type dir other_type =
      ap
        (λ b.
          not (type == other_type)
          && (not b
              && not (
                  texture (material_prop type).textures dir
                  == texture (material_prop other_type).textures (opposite dir))))
        (is_visually_solid_lem (material_prop other_type))
      ∙ ap
          (λ d.
            not (type == other_type)
            && (not (conceals (material_prop other_type))
                && not (
                    texture (material_prop type).textures dir
                    == texture (material_prop other_type).textures d)))
          (opposite_lem dir)
