-- ===== src/World/Surfaces/News.antt =====
-- Which places commit_write of hexa/server/world.cpp announces.
use hexahedra.Base.{
  ℕ, ◌≡◌, ap, ◌∙◌, List, [], ◌∷◌, Option, none, some, Bool, true, false, not, if◌then◌else◌,
}
use hexahedra.World.Heights.{ChunkCoordinates, is_air_chunk}
use hexahedra.World.State.{World, column}
use hexahedra.Surface.{Blocks, WorldVector}
use hexahedra.World.Surfaces.State.{Scene, neighbour}
use hexahedra.World.Surfaces.Steady.{Steady}
use hexahedra.World.Surfaces.Reads.{AirAt}

-- Whether a chunk is no air, by the height that the database has for its column.
abbrev pub is_solid_in : {Packed : Type 0} → World Blocks Packed → ChunkCoordinates → Bool
is_solid_in w q = elim (w.stored_heights (column q)) [
  | none ↦ false
  | some h ↦ not (is_air_chunk q h)
]

-- The places next to `p` that are no air, the last one first, before those announced already.
abbrev pub announced :
    {Packed : Type 0}
    → World Blocks Packed
    → ChunkCoordinates
    → List WorldVector
    → List ChunkCoordinates
    → List ChunkCoordinates
announced w p [] before = before
announced w p (rel ∷ rels) before =
    announced w p rels
      (if is_solid_in w (neighbour p rel) then neighbour p rel ∷ before else before)

pub is_solid_in-AirAt :
    {Light Packed : Type 0} (q : ChunkCoordinates) (air : Bool) (s : Scene Light Packed)
    → AirAt q air s
    → is_solid_in s.world q ≡ not air
is_solid_in-AirAt q air s (h, known, test) =
    ap
      (λ (o : Option ℕ). elim o as (λ x. Bool) [
        | none ↦ false
        | some height ↦ not (is_air_chunk q height)
      ])
      known
    ∙ ap not test

-- The news after one turn, by the test and by the height.
pub turn_news :
    (air solid : Bool) (q : ChunkCoordinates) (before same after : List ChunkCoordinates)
    → solid ≡ not air
    → same ≡ before
    → after ≡ (if air then same else q ∷ same)
    → after ≡ (if solid then q ∷ before else before)
turn_news true solid q before same after e kept news = rw e (news ∙ kept)
turn_news false solid q before same after e kept news = rw e (news ∙ ap (◌∷◌ q) kept)

pub AirAt-Steady :
    {Light Packed : Type 0} (q : ChunkCoordinates) (air : Bool) (s s' : Scene Light Packed)
    → Steady s.world s'.world
    → AirAt q air s
    → AirAt q air s'
AirAt-Steady q air s s' steady (h, known, test) = (h, steady.kept (column q) h known, test)
