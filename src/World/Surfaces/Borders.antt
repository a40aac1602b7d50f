-- ===== src/World/Surfaces/Borders.antt =====
-- How far a chunk is from the limits of the world, whose asserts hexa/server/world.cpp has at its
-- requests.
use hexahedra.Base.{ℕ, suc, ◌+◌, ◌≤◌, ◌<◌, All, arith}
use hexahedra.World.Heights.{
  ChunkCoordinates, chunk_world_limit, is_legal_chunk_coordinate, IsLegal,
}
use hexahedra.Surface.{WorldVector}
use hexahedra.World.Surfaces.State.{wrap, neighbour, neumann_neighborhood}

-- At least `n` chunks are between this one and each limit.
abbrev pub IsAway : ℕ → ChunkCoordinates → Type 0
IsAway n p =
    ((n ≤ p.x) × (p.x + n < chunk_world_limit))
    × ((n ≤ p.y) × (p.y + n < chunk_world_limit))
    × ((n ≤ p.z) × (p.z + n < chunk_world_limit))

-- All seven places around the chunk are inside the limits.
abbrev pub IsInland : ChunkCoordinates → Type 0
IsInland p = IsAway 1 p

pub IsAway-IsLegal : (n : ℕ) (p : ChunkCoordinates) → IsAway n p → IsLegal p
unfolding is_legal_chunk_coordinate
IsAway-IsLegal n p away = ground arith

pub neighbour-IsAway :
    (n : ℕ) (p : ChunkCoordinates)
    → IsAway (suc n) p
    → All (λ (rel : WorldVector). IsAway n (neighbour p rel)) neumann_neighborhood
unfolding neighbour wrap neumann_neighborhood
neighbour-IsAway n p away = omega arith

pub inland-IsLegal :
    (p : ChunkCoordinates)
    → IsInland p
    → All (λ (rel : WorldVector). IsLegal (neighbour p rel)) neumann_neighborhood
unfolding neighbour wrap neumann_neighborhood is_legal_chunk_coordinate
inland-IsLegal p inland = ground arith
