-- ===== src/World/Heights.antt =====
-- The rules of hexa/basic_types.hpp for the coarse height map, which says from which chunk upwards
-- there is only air.
use hexahedra.Base.{
  ℕ, ◌+◌, ◌%◌, ◌^◌, ◌<◌, ◌≡◌, ◌≢◌, Bool, true, false, not, ◌&&◌, ◌||◌, ltb, leb, ◌==◌,
  if◌then◌else◌, List, [], ◌∷◌, arith, All,
}
use hexahedra.Wire.Points.{Vector2, Vector3}

abbrev pub ChunkCoordinates : Type 0
ChunkCoordinates = Vector3 ℕ

abbrev pub MapCoordinates : Type 0
MapCoordinates = Vector2 ℕ

abbrev pub undefined_height : ℕ
undefined_height = 0xffff_ffff

-- The bound in each direction, `chunk_world_limit`.
abbrev pub chunk_world_limit : ℕ
chunk_world_limit = 268435456

unfoldable pub is_legal_chunk_coordinate : ChunkCoordinates → Bool
is_legal_chunk_coordinate p =
    ltb p.x chunk_world_limit && ltb p.y chunk_world_limit && ltb p.z chunk_world_limit

unfoldable pub is_air_chunk : ChunkCoordinates → ℕ → Bool
is_air_chunk p h = not (h == undefined_height) && leb h p.z

unfoldable pub needs_chunk_height_adjustment : ChunkCoordinates → ℕ → Bool
needs_chunk_height_adjustment p h = h == undefined_height || leb h p.z

unfoldable pub adjust_chunk_height : ChunkCoordinates → ℕ → ℕ
unfolding needs_chunk_height_adjustment
adjust_chunk_height p h = if needs_chunk_height_adjustment p h then (p.z + 1) % 2 ^ 32 else h

-- A height to which every chunk of a list has adjusted the one before.
unfoldable pub adjust_all : List ChunkCoordinates → ℕ → ℕ
adjust_all [] h = h
adjust_all (p ∷ ps) h = adjust_all ps (adjust_chunk_height p h)

abbrev pub IsLegal : ChunkCoordinates → Type 0
IsLegal p = is_legal_chunk_coordinate p ≡ true

abbrev pub NotAir : ℕ → ChunkCoordinates → Type 0
NotAir h p = is_air_chunk p h ≡ false

adjust_all_keeps :
    (ps : List ChunkCoordinates) (q : ChunkCoordinates) (h : ℕ)
    → All IsLegal ps
    → h ≢ undefined_height
    → q.z < h
    → q.z < adjust_all ps h
unfolding adjust_all adjust_chunk_height is_legal_chunk_coordinate
adjust_all_keeps [] q h legal known below = below
adjust_all_keeps (p ∷ ps) q h (lp, lps) known below =
    adjust_all_keeps ps q (adjust_chunk_height p h) lps (ground arith) (ground arith)

adjust_all_known :
    (ps : List ChunkCoordinates) (h : ℕ)
    → All IsLegal ps
    → h ≢ undefined_height
    → adjust_all ps h ≢ undefined_height
unfolding adjust_all adjust_chunk_height is_legal_chunk_coordinate
adjust_all_known [] h legal known = known
adjust_all_known (p ∷ ps) h (lp, lps) known =
    adjust_all_known ps (adjust_chunk_height p h) lps (ground arith)

first_below :
    (p : ChunkCoordinates) (ps : List ChunkCoordinates) (h : ℕ)
    → IsLegal p
    → All IsLegal ps
    → is_air_chunk p (adjust_all ps (adjust_chunk_height p h)) ≡ false
unfolding is_air_chunk adjust_chunk_height is_legal_chunk_coordinate
first_below p ps h lp lps = ground (arith, adjust_all_keeps ps p (adjust_chunk_height p h) lps)

-- From any height, known or not, the adjustments for a list of chunks inside the world lead to a
-- height below which all of them lie: none of them is taken for air.
pub adjust_all-NotAir :
    (ps : List ChunkCoordinates) (h : ℕ) → All IsLegal ps → All (NotAir (adjust_all ps h)) ps
unfolding adjust_all
adjust_all-NotAir [] h legal = tt
adjust_all-NotAir (p ∷ ps) h (lp, lps) =
    let h' = adjust_chunk_height p h in (first_below p ps h lp lps, adjust_all-NotAir ps h' lps)
