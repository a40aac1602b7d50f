-- ===== src/World/Tests.antt =====
-- A world over numbers with one generator, in which the theorems on world.cpp are used.
use hexahedra.Base.{ℕ, ◌+◌, ◌≡◌, refl, none, List, [], ◌∷◌, All}
use hexahedra.World.Heights.{
  ChunkCoordinates, adjust_all, adjust_all-NotAir, is_air_chunk, NotAir, IsLegal,
  is_legal_chunk_coordinate,
}
use hexahedra.World.State.{
  World, Setup, Generator, get_chunk, get_chunk_writable, get_coarse_height, generate_coarse_height,
  highest_estimate,
}
use hexahedra.World.Invariant.Column.{HasHeights}
use hexahedra.World.Invariant.Chunks.{IsSound, ChunkAt, get_chunk_writable-ChunkAt}
use hexahedra.World.Reading.{
  restart, get_chunk-get_chunk_writable, get_chunk-restart-get_chunk_writable,
}

abbrev hills : Generator ℕ
hills = record { estimate_height = λ pos h. 10; generate = λ pos c. c + pos.z }

unfoldable first : List ℕ → ℕ
first [] = 0
first (c ∷ cs) = c

abbrev setup : Setup ℕ (List ℕ)
setup = record {
  terraingen = hills ∷ [];
  new_chunk = 7;
  empty = 0;
  pack = λ c. c ∷ [];
  unpack_as = first;
}

abbrev fresh : World ℕ (List ℕ)
fresh = record {
  coarse_heights = λ m. none;
  chunks = λ p. none;
  stored_heights = λ m. none;
  stored_chunks = λ p. none;
  height_updates = [];
}

fresh-HasHeights : HasHeights fresh
fresh-HasHeights = record { same_height = λ m h e. absurd (cc); known = λ m h e. absurd (cc) }

fresh-IsSound : IsSound fresh
fresh-IsSound = record {
  heights = fresh-HasHeights;
  chunks_below = λ p c e. absurd (cc);
  stored_below = λ p c e. absurd (cc);
}

abbrev soil : ChunkCoordinates
soil = record { x = 4; y = 5; z = 3 }

abbrev sky : ChunkCoordinates
sky = record { x = 4; y = 5; z = 12 }

sky-IsLegal : IsLegal sky
unfolding is_legal_chunk_coordinate
sky-IsLegal = refl

soil-IsLegal : IsLegal soil
unfolding is_legal_chunk_coordinate
soil-IsLegal = refl

first_pack : (c : ℕ) → first (c ∷ []) ≡ c
unfolding first
first_pack c = refl

adjust_all-NotAir_example : All (NotAir (adjust_all (sky ∷ soil ∷ []) 10)) (sky ∷ soil ∷ [])
adjust_all-NotAir_example = adjust_all-NotAir (sky ∷ soil ∷ []) 10 (sky-IsLegal, (soil-IsLegal, tt))

get_chunk_writable-ChunkAt_example :
    ChunkAt fresh (get_chunk_writable setup sky fresh).0 sky (get_chunk_writable setup sky fresh).1
get_chunk_writable-ChunkAt_example =
    get_chunk_writable-ChunkAt setup fresh sky fresh-IsSound sky-IsLegal

get_chunk-get_chunk_writable_example :
    (get_chunk setup sky (get_chunk_writable setup sky fresh).0).1
    ≡ (get_chunk_writable setup sky fresh).1
get_chunk-get_chunk_writable_example =
    get_chunk-get_chunk_writable setup fresh sky fresh-IsSound sky-IsLegal

get_chunk-restart-get_chunk_writable_example :
    (get_chunk setup soil (restart (get_chunk_writable setup soil fresh).0)).1
    ≡ (get_chunk_writable setup soil fresh).1
get_chunk-restart-get_chunk_writable_example =
    get_chunk-restart-get_chunk_writable setup fresh soil fresh-IsSound soil-IsLegal refl first_pack

-- A reader takes the sky for air.
read_sky : (get_chunk setup sky fresh).1 ≡ 0
unfolding get_chunk get_coarse_height generate_coarse_height highest_estimate is_air_chunk
read_sky = refl
