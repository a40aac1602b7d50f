-- ===== src/Wire/Laws/Limits.antt =====
-- What the 16-bit lengths and the compact block index of hexa/serialize.hpp can hold, and what
-- happens to values beyond them or to objects that are read twice.
use hexahedra.Base.{
  ℕ, zero, suc, ◌%◌, ◌≤◌, ◌<◌, ◌≡◌, ◌↔◌, refl, ap, List, [], ◌∷◌, ◌++◌, length, take, arith,
}
use hexahedra.Wire.Defs.{ok, string_too_long, end_of_string, Serial}
use hexahedra.Wire.Endian.{ByteOrder}
use hexahedra.Wire.Sequences.{Text, string, vector}
use hexahedra.Wire.Points.{Vector3, pack_index, unpack_index}
use hexahedra.Wire.Laws.Scalars.{u16-Lawful}
use hexahedra.Wire.Laws.Elements.{IsText}
use hexahedra.Wire.Laws.Sequences.{refilled, counted-reads, counted-writes}
use hexahedra.Wire.Laws.Points.{InChunk, unpack_index-pack_index}

length-take_le : {A : Type 0} (n : ℕ) (xs : List A) → n ≤ length xs → length (take n xs) ≡ n
length-take_le zero xs h = refl
length-take_le (suc n) [] h = absurd (omega arith)
length-take_le (suc n) (x ∷ xs) h = ap suc (length-take_le n xs (omega arith))

take-take : {A : Type 0} (n : ℕ) (xs : List A) → take n (take n xs) ≡ take n xs
take-take zero xs = refl
take-take (suc n) [] = refl
take-take (suc n) (x ∷ xs) = ap (◌∷◌ x) (take-take n xs)

-- Coordinates that are not negative, as patterns of an `int8_t`.
abbrev pub NotNegative : Vector3 ℕ → Type 0
NotNegative v = (v.x < 128) × (v.y < 128) × (v.z < 128)

-- A block's place with no negative coordinate comes back from its compact form exactly when all
-- three coordinates are below 16.
pub unpack_index-pack_index_iff :
    (v : Vector3 ℕ) → NotNegative v → (unpack_index (pack_index v) ≡ v) ↔ InChunk v
unfolding unpack_index pack_index
unpack_index-pack_index_iff v h = (
  λ e.
      let ex : (unpack_index (pack_index v)).x ≡ v.x = ap (λ w. w.x) e in
      let ey : (unpack_index (pack_index v)).y ≡ v.y = ap (λ w. w.y) e in
      let ez : (unpack_index (pack_index v)).z ≡ v.z = ap (λ w. w.z) e in omega (arith, ex, ey, ez),
  unpack_index-pack_index v,
)

module _ ⦃host : ByteOrder⦄ where
  -- A text that fits the format is written, and a read of it over an object that held another text
  -- gives the text that was written, unless that is empty: then the old text stays.
  pub string_over :
      (old val rest : Text)
      → IsText val
      → (b : List ℕ) × (string.write val [] ≡ ok b)
        × (string.read old (b ++ rest) ≡ ok (refilled old val, rest))
  unfolding string
  string_over old val rest h = (
    u16-Lawful.bytes (length val) ++ val,
    counted-writes string_too_long end_of_string val [] h,
    counted-reads string_too_long end_of_string old val rest h.0,
  )

  -- A vector passes no test of its length: of a vector of any length, the archive gets what it
  -- would get of the first elements alone, as many as the length modulo 65536 says.
  pub vector-write_cut :
      {A : Type 0} (s : Serial A) (xs : List A) (out : List ℕ)
      → (vector s).write xs out ≡ (vector s).write (take (length xs % 65536) xs) out
  unfolding vector
  vector-write_cut s xs out =
      let n = length xs % 65536 in
      let short : length (take n xs) ≡ n = length-take_le n xs (omega arith) in
      let small : n % 65536 ≡ n = omega arith in rw (short, small) (rw (take-take n xs))
