-- ===== src/VoxelRange.antt =====
-- Iteration over boxes of voxels: hexa/voxel_range.hpp.
pub mod Order
pub mod Chunks
mod Tests
use hexahedra.Base.{
  ℕ, zero, suc, ◌+◌, ◌-◌, ◌*◌, ◌/◌, ◌%◌, ◌^◌, List, [], ◌∷◌, Option, none, some, Bool, leb, ◌==◌,
  ◌&&◌, ◌||◌, if◌then◌else◌,
}
use hexahedra.Wire.Points.{Vector3}

-- `range`, of coordinates without a sign
pub record Range : Type 0 where
  pub first : Vector3 ℕ
  pub last : Vector3 ℕ

-- `==` of cursors
unfoldable pub is_same_voxel : Vector3 ℕ → Vector3 ℕ → Bool
is_same_voxel a b = (a.x == b.x) && ((a.y == b.y) && (a.z == b.z))

abbrev pub voxel : ℕ → ℕ → ℕ → Vector3 ℕ
voxel x y z = record { x = x; y = y; z = z }

-- `iterator::operator++` behind its assert. Its three tests are nested there.
unfoldable pub advance_z : Range → ℕ → Vector3 ℕ
advance_z r z =
    if suc z == r.last.z then voxel r.last.x r.last.y (suc z) else voxel r.first.x r.first.y (suc z)

unfoldable pub advance_y : Range → ℕ → ℕ → Vector3 ℕ
unfolding advance_z
advance_y r y z = if leb r.last.y (suc y) then advance_z r z else voxel r.first.x (suc y) z

unfoldable pub advance : Range → Vector3 ℕ → Vector3 ℕ
unfolding advance_y
advance r cursor =
    if leb r.last.x (suc cursor.x)
    then advance_y r cursor.y cursor.z
    else voxel (suc cursor.x) cursor.y cursor.z

-- The voxels that `for (auto p : range)` meets from a cursor on; `none` when `steps` of them do not
-- bring it to the end.
unfoldable pub visit : ℕ → Range → Vector3 ℕ → Option (List (Vector3 ℕ))
unfolding is_same_voxel advance
visit zero r cursor = if is_same_voxel cursor r.last then some [] else none
visit (suc steps) r cursor =
    let later : Option (List (Vector3 ℕ)) = elim (visit steps r (advance r cursor)) [
      | none ↦ none
      | some ps ↦ some (cursor ∷ ps)
    ] in
    if is_same_voxel cursor r.last then some [] else later

unfoldable pub dimensions : Range → Vector3 ℕ
dimensions r = voxel (r.last.x - r.first.x) (r.last.y - r.first.y) (r.last.z - r.first.z)

-- `size`, the product of the dimensions; `prod` multiplies in the type of the coordinates, which
-- are of 32 bits here.
unfoldable pub size : Range → ℕ
unfolding dimensions
size r = let d = dimensions r in (d.x * d.y % 2 ^ 32) * d.z % 2 ^ 32

unfoldable pub is_empty : Range → Bool
is_empty r = (r.first.x == r.last.x) || ((r.first.y == r.last.y) || (r.first.z == r.last.z))

-- `operator--`, `operator/=` and `operator++` of a range of 32-bit coordinates
unfoldable pub contract : Range → Range
contract r = record r {
  last =
      voxel ((r.last.x + (2 ^ 32 - 1)) % 2 ^ 32) ((r.last.y + (2 ^ 32 - 1)) % 2 ^ 32)
        ((r.last.z + (2 ^ 32 - 1)) % 2 ^ 32);
}

unfoldable pub divide : Range → ℕ → Range
divide r d = record {
  first = voxel (r.first.x / d) (r.first.y / d) (r.first.z / d);
  last = voxel (r.last.x / d) (r.last.y / d) (r.last.z / d);
}

unfoldable pub expand : Range → Range
expand r = record r {
  last = voxel ((r.last.x + 1) % 2 ^ 32) ((r.last.y + 1) % 2 ^ 32) ((r.last.z + 1) % 2 ^ 32);
}

unfoldable pub to_chunk_range : Range → Range
unfolding contract divide expand
to_chunk_range blocks = expand (divide (contract blocks) 16)
