-- ===== src/VoxelRange/Chunks.antt =====
-- From boxes of blocks to boxes of chunks: to_chunk_range of hexa/voxel_range.hpp.
use hexahedra.Base.{
  ℕ, ◌+◌, ◌-◌, ◌*◌, ◌/◌, ◌%◌, ◌^◌, ◌<◌, ◌≤◌, ◌≡◌, ◌↔◌, inl, inr, Bool-cases, leb, arith,
}
use hexahedra.Wire.Points.{Vector3}
use mathlib.Core.Path.{subst}
use hexahedra.VoxelRange.{Range, voxel, contract, divide, expand, to_chunk_range}

-- A voxel lies in a box.
abbrev pub IsWithin : Range → Vector3 ℕ → Type 0
IsWithin r p =
    ((r.first.x ≤ p.x) × (p.x < r.last.x))
    × ((r.first.y ≤ p.y) × (p.y < r.last.y))
    × ((r.first.z ≤ p.z) × (p.z < r.last.z))

-- The chunk of a block
abbrev pub chunk_of : Vector3 ℕ → Vector3 ℕ
chunk_of p = voxel (p.x / 16) (p.y / 16) (p.z / 16)

abbrev upper : ℕ → ℕ
upper l = ((l + (2 ^ 32 - 1)) % 2 ^ 32 / 16 + 1) % 2 ^ 32

upper_lem : (l : ℕ) → 0 < l → l < 2 ^ 32 → upper l ≡ (l - 1) / 16 + 1
upper_lem l pos lt = omega arith

axis_block :
    (f l q : ℕ)
    → f < l
    → l < 2 ^ 32
    → f / 16 ≤ q
    → q < upper l
    → (p : ℕ) × ((f ≤ p) × (p < l)) × (p / 16 ≡ q)
axis_block f l q lt small low high =
    let top = upper_lem l (omega arith) small in
    elim (Bool-cases (leb f (16 * q))) [
      | inl h ↦ let le : f ≤ 16 * q = ground arith in (16 * q, (le, omega arith), omega arith)
      | inr h ↦ let gt : 16 * q < f = ground arith in (f, (omega arith, lt), omega arith)
    ]

axis_chunk : (f l p : ℕ) → f ≤ p → p < l → l < 2 ^ 32 → (f / 16 ≤ p / 16) × (p / 16 < upper l)
axis_chunk f l p low high small =
    let top = upper_lem l (omega arith) small in (omega arith, omega arith)

-- For a box of blocks that is not empty and lies below the limit of 32-bit coordinates, the box of
-- chunks has exactly the chunks of which a block lies in the box.
pub to_chunk_range-IsWithin_iff :
    (r : Range)
    → (r.first.x < r.last.x) × (r.first.y < r.last.y) × (r.first.z < r.last.z)
    → (r.last.x < 2 ^ 32) × (r.last.y < 2 ^ 32) × (r.last.z < 2 ^ 32)
    → (q : Vector3 ℕ)
    → IsWithin (to_chunk_range r) q ↔ ((p : Vector3 ℕ) × IsWithin r p × (chunk_of p ≡ q))
unfolding to_chunk_range contract divide expand
to_chunk_range-IsWithin_iff r (fx, fy, fz) (lx, ly, lz) q = (
  λ ((ax, bx), (ay, by), (az, bz)).
      let (x, inx, ex) = axis_block r.first.x r.last.x q.x fx lx ax bx in
      let (y, iny, ey) = axis_block r.first.y r.last.y q.y fy ly ay by in
      let (z, inz, ez) = axis_block r.first.z r.last.z q.z fz lz az bz in
      (voxel x y z, (inx, iny, inz), cc (ex, ey, ez)),
  λ (p, ((ax, bx), (ay, by), (az, bz)), same).
      let cx = axis_chunk r.first.x r.last.x p.x ax bx lx in
      let cy = axis_chunk r.first.y r.last.y p.y ay by ly in
      let cz = axis_chunk r.first.z r.last.z p.z az bz lz in
      subst (IsWithin (to_chunk_range r)) same (cx, cy, cz),
)
