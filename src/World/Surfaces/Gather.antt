-- ===== src/World/Surfaces/Gather.antt =====
-- The chunks around a place, and the surface that is built from them, in hexa/server/world.cpp.
use hexahedra.Base.{◌≡◌, refl, ◌∙◌, List, [], ◌∷◌, Option, none, some, All}
use hexahedra.Base.Table.{put, put_self, put_ne}
use hexahedra.World.Heights.{ChunkCoordinates, IsLegal}
use hexahedra.Surface.{Blocks, WorldVector, Subsection}
use hexahedra.Surface.Loops.{meets}
use hexahedra.Surface.Lookup.{HasNeighbours}
use hexahedra.Surface.Visible.{
  extract_opaque_surface-faces_at, extract_transparent_surface-faces_at,
}
use hexahedra.World.Surfaces.State.{
  SceneSetup, Scene, vector_discrete, neighbour, neumann_neighborhood, gather_chunks, build_surface,
}
use hexahedra.World.Surfaces.Borders.{IsInland, inland-IsLegal}
use hexahedra.World.Surfaces.Reads.{
  IsReady, IsRead, Quiet-refl, give-IsRead, then-IsRead, map-IsRead, reach_chunk-IsRead,
}

-- A part of the world has a chunk at a place.
abbrev Present : Subsection → WorldVector → Type 0
Present nbh q = (c : Blocks) × (nbh q ≡ some c)

put-Present :
    (rel q : WorldVector) (c : Blocks) (nbh : Subsection)
    → Present nbh q
    → Present (put vector_discrete rel c nbh) q
put-Present rel q c nbh (b, there) = elim (vector_discrete q rel) [
  | yes here ↦ (c, rw here (put_self vector_discrete rel c nbh))
  | no away ↦ (b, put_ne vector_discrete rel q c nbh away ∙ there)
]

neumann-HasNeighbours :
    (nbh : Subsection) → All (Present nbh) neumann_neighborhood → HasNeighbours nbh
unfolding neumann_neighborhood
neumann-HasNeighbours nbh (w, (s, (d, (c, (u, (n, (e, _))))))) = record {
  center = c;
  east = e;
  west = w;
  north = n;
  south = s;
  up = u;
  down = d;
}

module _ {Light Packed : Type 0} (setup : SceneSetup Light Packed)
    {hole lit : Option ChunkCoordinates} where
  open setup use {sort, material_prop}

  -- The chunks are gathered, and none is lost that was there.
  gather_chunks-IsRead :
      (p : ChunkCoordinates) (rels : List WorldVector) (nbh : Subsection) (s : Scene Light Packed)
      → IsReady setup hole s
      → All (λ (rel : WorldVector). IsLegal (neighbour p rel)) rels
      → IsRead setup hole lit (gather_chunks setup p rels nbh) s (λ nbh' s'.
        ((q : WorldVector) → Present nbh q → Present nbh' q) × All (Present nbh') rels)
  unfolding gather_chunks
  gather_chunks-IsRead p [] nbh s ready legal = give-IsRead nbh s ready (λ q there. there, tt)
  gather_chunks-IsRead p (rel ∷ rels) nbh s ready (inside, legal) =
      let here = reach_chunk-IsRead setup (neighbour p rel) s ready inside in
      let c = here.value in
      let rest =
        gather_chunks-IsRead p rels (put vector_discrete rel c nbh) here.final here.ready legal in
      let (kept, all) = rest.holds in
      then-IsRead _ here (
        map-IsRead rest (
          λ q there. kept q (put-Present rel q c nbh there),
          (kept rel (c, put_self vector_discrete rel c nbh), all),
        ))

  module _
      (sorted : (places : List ChunkCoordinates) (q : ChunkCoordinates)
        → meets q (sort places) ≡ meets q places) where
    pub build_surface-IsRead :
        (p : ChunkCoordinates) (s : Scene Light Packed)
        → IsReady setup hole s
        → IsInland p
        → IsRead setup hole lit (build_surface setup p) s (λ srf s'. srf.version ≡ 1)
    unfolding build_surface
    build_surface-IsRead p s ready inland =
        let nbh =
          gather_chunks-IsRead p neumann_neighborhood (λ rel. none) s ready
            (inland-IsLegal p inland) in
        let around = neumann-HasNeighbours nbh.value nbh.holds.1 in
        let (o, made, _) =
          extract_opaque_surface-faces_at sort sorted material_prop nbh.value around in
        let (t, also, _) =
          extract_transparent_surface-faces_at sort sorted material_prop nbh.value around in
        then-IsRead _ nbh (record {
          value = record { version = 1; opaque = o; transparent = t };
          final = nbh.final;
          runs = rw (made, also) refl;
          quiet = Quiet-refl nbh.ready;
          ready = nbh.ready;
          holds = refl;
        })
