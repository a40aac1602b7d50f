-- ===== src/VoxelRange/Tests.antt =====
-- hexa/voxel_range.hpp on concrete boxes.
use hexahedra.Base.{ℕ, ◌≡◌, ◌↔◌, refl, [], ◌∷◌, some, true, false, arith}
use hexahedra.Wire.Points.{Vector3}
use hexahedra.VoxelRange.{Range, voxel, visit, dimensions, size, is_empty, to_chunk_range}
use hexahedra.VoxelRange.Order.{box, visit-box_all}
use hexahedra.VoxelRange.Chunks.{IsWithin, chunk_of, to_chunk_range-IsWithin_iff}

abbrev blocks : Range
blocks = record { first = voxel 14 3 7; last = voxel 17 5 9 }

visit-box_all_example :
    visit (size blocks) blocks blocks.first
    ≡ some (box (dimensions blocks).x (dimensions blocks).y (dimensions blocks).z 14 3 7)
unfolding dimensions
visit-box_all_example = visit-box_all blocks (omega arith) (omega arith) (omega arith) (omega arith)

to_chunk_range-IsWithin_iff_example :
    IsWithin (to_chunk_range blocks) (voxel 1 0 0)
    ↔ ((p : Vector3 ℕ) × IsWithin blocks p × (chunk_of p ≡ voxel 1 0 0))
to_chunk_range-IsWithin_iff_example =
    to_chunk_range-IsWithin_iff blocks (omega arith) (omega arith) (voxel 1 0 0)

-- A range that is empty along x only counts as empty, and still yields voxels.
abbrev flat : Range
flat = record { first = voxel 0 0 0; last = voxel 0 2 1 }

flat_empty : (is_empty flat ≡ true) × (size flat ≡ 0)
unfolding is_empty size
flat_empty = (refl, refl)

-- The product of the dimensions of a box is taken in 32 bits: one with 2 ^ 32 voxels has size 0.
abbrev huge : Range
huge = record { first = voxel 0 0 0; last = voxel 65536 65536 1 }

huge_size : (is_empty huge ≡ false) × (size huge ≡ 0)
unfolding is_empty size
huge_size = (refl, refl)

flat_voxels : visit 2 flat flat.first ≡ some (voxel 0 0 0 ∷ voxel 0 1 0 ∷ [])
unfolding visit
flat_voxels = refl
