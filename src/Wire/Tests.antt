-- ===== src/Wire/Tests.antt =====
-- Runs of the wire format, and its theorems at concrete inputs.
use hexahedra.Base.{ℕ, ◌≡◌, ◌↔◌, refl, List, [], ◌∷◌, ◌++◌, take, arith}
use hexahedra.Wire.Defs.{ok}
use hexahedra.Wire.Endian.{little_endian, big_endian, memory, to_network}
use hexahedra.Wire.Scalars.{u8, u16, u64}
use hexahedra.Wire.Sequences.{string, vector}
use hexahedra.Wire.Points.{Vector3, pack_index, unpack_index}
use hexahedra.Wire.Laws.Scalars.{write-u64}
use hexahedra.Wire.Laws.Points.{InChunk}
use hexahedra.Wire.Laws.Limits.{unpack_index-pack_index_iff, string_over, vector-write_cut}

abbrev corner : Vector3 ℕ
corner = record { x = 16; y = 2; z = 15 }

-- The corner comes back as another place.
corner_moves : unpack_index (pack_index corner) ≡ record { x = 0; y = 3; z = 15 }
unfolding unpack_index pack_index
corner_moves = refl

little_u16 : (u16 ⦃host = little_endian⦄).write 0x1234 (7 ∷ []) ≡ ok (7 ∷ 0x12 ∷ 0x34 ∷ [])
unfolding u16 memory to_network
little_u16 = refl

write-u64_example :
    (u64 ⦃host = big_endian⦄).write 0x0102030405060708 [] ≡ ok (5 ∷ 6 ∷ 7 ∷ 8 ∷ 1 ∷ 2 ∷ 3 ∷ 4 ∷ [])
write-u64_example = write-u64 big_endian 0x0102030405060708 [] (omega arith)

unpack_index-pack_index_iff_example : (unpack_index (pack_index corner) ≡ corner) ↔ InChunk corner
unpack_index-pack_index_iff_example = unpack_index-pack_index_iff corner (omega arith)

string_over_example :
    (b : List ℕ) × ((string ⦃host = little_endian⦄).write [] [] ≡ ok b)
    × ((string ⦃host = little_endian⦄).read (b'a' ∷ []) (b ++ (9 ∷ [])) ≡ ok (b'a' ∷ [], 9 ∷ []))
string_over_example = string_over ⦃host = little_endian⦄ (b'a' ∷ []) [] (9 ∷ []) (omega arith)

vector-write_cut_example :
    (vector ⦃host = little_endian⦄ u8).write (4 ∷ 5 ∷ []) []
    ≡ (vector ⦃host = little_endian⦄ u8).write (take 2 (4 ∷ 5 ∷ [])) []
vector-write_cut_example = vector-write_cut ⦃host = little_endian⦄ u8 (4 ∷ 5 ∷ []) []
