-- ===== src/Surface.antt =====
-- Which faces of a chunk's blocks can be seen: hexa/server/extract_surface.cpp, with the chunks of
-- hexa/chunk_base.hpp and the part of the world of hexa/server/world_subsection.hpp it looks at.
pub mod Loops
pub mod Places
pub mod Lookup
pub mod Mask
pub mod Shown
pub mod Faces
pub mod Extraction
pub mod Visible
mod Tests
use hexahedra.Base.{
  ℕ, zero, suc, ◌+◌, ◌-◌, ◌*◌, ◌%◌, ◌^◌, List, [], ◌∷◌, ◌++◌, Option, none, some, Bool, true, false,
  not, ltb, ◌==◌, ◌&&◌, ◌||◌, if◌then◌else◌,
}
use hexahedra.Base.Int.{ℤ, pos, negsuc, ◌+ℤ◌, shift_right4, low4, to_u8}
use hexahedra.Wire.Points.{Vector3}
use hexahedra.Protocol.Records.{Material}

-- The 4096 block types of a chunk, in the order of its array.
abbrev pub Blocks : Type 0
Blocks = ℕ → ℕ

-- `world_vector` and `block_vector`
abbrev pub WorldVector : Type 0
WorldVector = Vector3 ℤ

abbrev pub vec : ℤ → ℤ → ℤ → WorldVector
vec x y z = record { x = x; y = y; z = z }

-- The places inside a chunk are of these.
abbrev pub at : ℕ → ℕ → ℕ → Vector3 ℕ
at x y z = record { x = x; y = y; z = z }

abbrev pub signed : Vector3 ℕ → WorldVector
signed p = vec (pos p.x) (pos p.y) (pos p.z)

-- `+` of vectors
unfoldable pub translate : WorldVector → WorldVector → WorldVector
translate a b = vec (a.x +ℤ b.x) (a.y +ℤ b.y) (a.z +ℤ b.z)

-- `chunk_base::operator()`; `none` is a failed assert.
unfoldable pub block_at : Blocks → WorldVector → Option ℕ
unfolding to_u8
block_at c i =
    let x = to_u8 i.x in
    let y = to_u8 i.y in
    let z = to_u8 i.z in
    if ltb x 16 && (ltb y 16 && ltb z 16) then some (c (x + y * 16 + z * 256)) else none

-- The chunks around a place, as `world_subsection_read` keeps them.
abbrev pub Subsection : Type 0
Subsection = WorldVector → Option Blocks

-- `world_subsection_read::operator[]`; `none` is a chunk that is not there.
unfoldable pub terrain_at : Subsection → WorldVector → Option ℕ
unfolding shift_right4 low4 block_at
terrain_at terrain p =
    elim (terrain (vec (shift_right4 p.x) (shift_right4 p.y) (shift_right4 p.z))) [
      | none ↦ none
      | some c ↦ block_at c (vec (pos (low4 p.x)) (pos (low4 p.y)) (pos (low4 p.z)))
    ]

-- `dir_vector`, with the place of each direction in it
unfoldable pub directions : List (ℕ × WorldVector)
directions =
    (0, vec (pos 1) (pos 0) (pos 0))
    ∷ (1, vec (negsuc 0) (pos 0) (pos 0))
    ∷ (2, vec (pos 0) (pos 1) (pos 0))
    ∷ (3, vec (pos 0) (negsuc 0) (pos 0))
    ∷ (4, vec (pos 0) (pos 0) (pos 1))
    ∷ (5, vec (pos 0) (pos 0) (negsuc 0))
    ∷ []

-- `faces`
pub record BlockFaces : Type 0 where
  pub pos : Vector3 ℕ
  pub dirs : ℕ
  pub type : ℕ

unfoldable pub is_transparent : Material → Bool
is_transparent m = ltb 0 m.transparency

unfoldable pub is_custom_block : Material → Bool
is_custom_block m = elim m.model [ [] ↦ false | part ∷ parts ↦ true ]

unfoldable pub is_visually_solid : Material → Bool
unfolding is_transparent is_custom_block
is_visually_solid m = not (is_transparent m) && not (is_custom_block m)

-- `m.textures[dir]`, of the six
unfoldable pub texture : List ℕ → ℕ → ℕ
texture [] dir = 0
texture (t ∷ ts) zero = t
texture (t ∷ ts) (suc dir) = texture ts dir

-- `dir ^ 1`
unfoldable pub opposite : ℕ → ℕ
opposite dir = if dir % 2 == 0 then dir + 1 else dir - 1

-- The loop over the directions: `shows` is the test of the type that is next in a direction.
unfoldable pub collect :
    (WorldVector → Option ℕ) → (ℕ → ℕ → Bool) → WorldVector → List (ℕ × WorldVector) → ℕ → Option ℕ
unfolding translate
collect look shows i [] dirs = some dirs
collect look shows i (d ∷ ds) dirs = elim (look (translate i d.1)) [
  | none ↦ none
  | some other_type ↦
      collect look shows i ds (if shows d.0 other_type then dirs + 2 ^ d.0 else dirs)
]

-- A block with its faces, if it has any.
unfoldable pub emplace : Vector3 ℕ → ℕ → ℕ → List BlockFaces
emplace i type dirs = if dirs == 0 then [] else (record { pos = i; dirs = dirs; type = type }) ∷ []

module _ (material_prop : ℕ → Material) where
  -- A face of an opaque block can be seen where what is next to it is not solid to the eye.
  unfoldable pub shows_opaque : ℕ → ℕ → ℕ → Bool
  unfolding is_visually_solid
  shows_opaque type dir other_type = not (is_visually_solid (material_prop other_type))

  unfoldable pub shows_transparent : ℕ → ℕ → ℕ → Bool
  unfolding is_visually_solid texture opposite
  shows_transparent type dir other_type =
      not (type == other_type)
      && (not (is_visually_solid (material_prop other_type))
          && not (
              texture (material_prop type).textures dir
              == texture (material_prop other_type).textures (opposite dir)))

  -- The body of the loops of `extract_opaque_surface`, which differ in where they look.
  unfoldable pub opaque_block : (WorldVector → Option ℕ) → Vector3 ℕ → ℕ → Option (List BlockFaces)
  unfolding is_custom_block is_transparent collect shows_opaque directions emplace
  opaque_block look i type =
      let seen : Option (List BlockFaces) =
        elim (collect look (shows_opaque type) (signed i) directions 0) [
          | none ↦ none
          | some dirs ↦ some (emplace i type dirs)
        ] in
      if type == 0
      then some []
      else if is_custom_block (material_prop type)
      then some (emplace i type 0x3f)
      else if is_transparent (material_prop type)
      then some []
      else seen

  -- The body of the loops of `extract_transparent_surface`.
  unfoldable pub transparent_block :
      (WorldVector → Option ℕ) → Vector3 ℕ → ℕ → Option (List BlockFaces)
  unfolding is_custom_block is_transparent collect shows_transparent directions emplace
  transparent_block look i type =
      let seen : Option (List BlockFaces) =
        elim (collect look (shows_transparent type) (signed i) directions 0) [
          | none ↦ none
          | some dirs ↦ some (emplace i type dirs)
        ] in
      if type == 0
      then some []
      else if not (is_transparent (material_prop type)) || is_custom_block (material_prop type)
      then some []
      else seen

-- A loop over places of the center chunk, whose body adds to the result.
unfoldable pub extract_each :
    Blocks
    → (Vector3 ℕ → ℕ → Option (List BlockFaces))
    → List (Vector3 ℕ)
    → Option (List BlockFaces)
unfolding block_at
extract_each center body [] = some []
extract_each center body (i ∷ places) = elim (block_at center (signed i)) [
  | none ↦ none
  | some type ↦ elim (body i type) [
    | none ↦ none
    | some first ↦ elim (extract_each center body places) [
      | none ↦ none
      | some later ↦ some (first ++ later)
    ]
  ]
]

-- Both passes: the outer shell looks at the terrain around, the inner core at the chunk alone.
unfoldable pub extract :
    ((WorldVector → Option ℕ) → Vector3 ℕ → ℕ → Option (List BlockFaces))
    → Subsection
    → List (Vector3 ℕ)
    → List (Vector3 ℕ)
    → Option (List BlockFaces)
unfolding extract_each terrain_at block_at
extract body terrain chunk_outer_shell chunk_inner_core =
    elim (terrain (vec (pos 0) (pos 0) (pos 0))) [
      | none ↦ none
      | some center_chunk ↦
          elim (extract_each center_chunk (body (terrain_at terrain)) chunk_outer_shell) [
            | none ↦ none
            | some outer ↦
                elim (extract_each center_chunk (body (block_at center_chunk)) chunk_inner_core) [
                  | none ↦ none
                  | some inner ↦ some (outer ++ inner)
                ]
          ]
    ]

-- `for (k = a; k < a + n; ++k)`, with what each turn adds
unfoldable pub loop : {A : Type 0} → ℕ → ℕ → (ℕ → List A) → List A
loop a zero turn = []
loop a (suc n) turn = turn a ++ loop (suc a) n turn

-- `init_surface_extraction`: the places on the six sides, before they are sorted, and those inside.
unfoldable pub x_sides : List (Vector3 ℕ)
x_sides = loop 0 16 (λ y. loop 0 16 (λ z. at 0 y z ∷ at 15 y z ∷ []))

unfoldable pub y_sides : List (Vector3 ℕ)
y_sides = loop 0 16 (λ z. loop 1 14 (λ x. at x 0 z ∷ at x 15 z ∷ []))

unfoldable pub z_sides : List (Vector3 ℕ)
z_sides = loop 1 14 (λ y. loop 1 14 (λ x. at x y 0 ∷ at x y 15 ∷ []))

unfoldable pub chunk_inner_core : List (Vector3 ℕ)
chunk_inner_core = loop 1 14 (λ z. loop 1 14 (λ y. loop 1 14 (λ x. at x y z ∷ [])))

module _ (sort : List (Vector3 ℕ) → List (Vector3 ℕ)) where
  unfoldable pub chunk_outer_shell : List (Vector3 ℕ)
  unfolding x_sides y_sides z_sides
  chunk_outer_shell = sort (x_sides ++ (y_sides ++ z_sides))

  unfoldable pub extract_opaque_surface : (ℕ → Material) → Subsection → Option (List BlockFaces)
  unfolding extract opaque_block
  extract_opaque_surface material_prop terrain =
      extract (opaque_block material_prop) terrain chunk_outer_shell chunk_inner_core

  unfoldable pub extract_transparent_surface :
      (ℕ → Material) → Subsection → Option (List BlockFaces)
  unfolding extract transparent_block
  extract_transparent_surface material_prop terrain =
      extract (transparent_block material_prop) terrain chunk_outer_shell chunk_inner_core
