-- ===== src/World/Areas/Tests.antt =====
-- Area data over numbers: a generator that is written to the database, and one that is not.
use hexahedra.Base.{ℕ, ◌+◌, ◌≡◌, refl, true, false, Option, none, some, List, [], ◌∷◌, arith}
use hexahedra.World.Heights.{MapCoordinates}
use hexahedra.World.State.{chunk_discrete}
use hexahedra.Base.Table.{put}
use hexahedra.World.Areas.{
  AreaGenerator, AreaSetup, Areas, TerrainGenerator, store_area, find_area_generator, generator_at,
  adapt, get_area_data_writable, try_get_area_data, make_area_data, text_discrete,
}
use native.Mathlib.Decide.{ℕ_discrete}
use hexahedra.World.Areas.Requests.{
  forget, get_area_data_refused, get_area_data_restart, try_get_area_data_end,
}

abbrev heightmap : AreaGenerator ℕ
heightmap = record { name = 104 ∷ []; generate = λ m. m.x + 100; should_write_to_file = true }

abbrev rainfall : AreaGenerator ℕ
rainfall = record { name = 114 ∷ []; generate = λ m. m.y; should_write_to_file = false }

abbrev first : List ℕ → Option ℕ
first [] = none
first (c ∷ cs) = some c

-- A generator that looks at the area data with index 1 in the same column, and adds them.
abbrev add_rainfall : TerrainGenerator ℕ (List ℕ)
add_rainfall name m ad w = elim (w.area_data (record { x = m.x; y = m.y; z = 1 })) [
  | none ↦ (w, some (ad + 1))
  | some rain ↦ (w, some (ad + rain))
]

abbrev setup : AreaSetup ℕ (List ℕ)
setup = record {
  areagen = heightmap ∷ rainfall ∷ [];
  terraingen = add_rainfall ∷ [];
  new_data = 0;
  pack = λ c. c ∷ [];
  unpack_as = first;
}

abbrev fresh : Areas ℕ (List ℕ)
fresh = record { area_data = λ p. none; stored_areas = λ p. none }

abbrev spot : MapCoordinates
spot = record { x = 3; y = 4 }

generated : (get_area_data_writable setup spot 0 fresh).1 ≡ some 104
unfolding get_area_data_writable generator_at make_area_data adapt store_area put chunk_discrete
    ℕ_discrete
generated = refl

get_area_data_refused_example :
    ((get_area_data_writable setup spot 2 fresh).1 ≡ none)
    × ((get_area_data_writable setup spot 2 (get_area_data_writable setup spot 2 fresh).0).1
        ≡ some 0)
get_area_data_refused_example = get_area_data_refused setup spot 2 fresh (omega arith) refl refl

get_area_data_restart_example :
    (get_area_data_writable setup spot 0 (forget (get_area_data_writable setup spot 0 fresh).0)).1
    ≡ some 104
unfolding generator_at
get_area_data_restart_example =
    get_area_data_restart setup spot 0 fresh heightmap 104 refl refl (λ c. refl) refl generated

try_get_area_data_end_example : (try_get_area_data setup spot (some 2) fresh).1 ≡ none
try_get_area_data_end_example = try_get_area_data_end setup spot fresh (omega arith) refl refl

found_rainfall : find_area_generator (114 ∷ []) (heightmap ∷ rainfall ∷ []) ≡ some 1
unfolding find_area_generator text_discrete ℕ_discrete
found_rainfall = refl
