-- ===== src/Wire/Sequences.antt =====
-- The operators of serializer and deserializer for strings, vectors and arrays.
use hexahedra.Base.{ℕ, zero, suc, ◌*◌, ◌%◌, ◌^◌, List, [], ◌∷◌, ◌++◌, length, take, drop}
use hexahedra.Base.{replicate}
use hexahedra.Base.{ltb, ◌==◌, if◌then◌else◌}
use hexahedra.Wire.Defs.{
  Fault, string_too_long, array_too_long, end_of_string, end_of_array, Result, ok, err, ◌>>=◌,
  Serial, checked,
}
use hexahedra.Wire.Endian.{ByteOrder}
use hexahedra.Wire.Scalars.{u16}

-- The bytes of a `std::string` or of a vector of bytes.
abbrev pub Text : Type 0
Text = List ℕ

-- `val.resize(len)`
abbrev pub resize {ℓ} : {A : Type ℓ} → ℕ → A → List A → List A
resize zero fresh val = []
resize (suc n) fresh [] = fresh ∷ resize n fresh []
resize (suc n) fresh (x ∷ xs) = x ∷ resize n fresh xs

module _ {A : Type 0} (s : Serial A) where
  -- `for (i = 0; i < size; ++i) (*this)(val[i]);`
  unfoldable pub write_each : List A → List ℕ → Result (List ℕ)
  write_each [] out = ok out
  write_each (x ∷ xs) out = s.write x out >>= write_each xs

  unfoldable pub read_each : List A → List ℕ → Result (List A × List ℕ)
  read_each [] src = ok ([], src)
  read_each (x ∷ xs) src = do
    (y, mid) ← s.read x src
    (ys, rest) ← read_each xs mid
    ok (y ∷ ys, rest)

  -- `count` objects with no length before them. An array that holds that many is not resized.
  unfoldable pub elements : ℕ → Serial (List A)
  elements count = record {
    write = write_each;
    read = λ val src. read_each (resize count s.fresh val) src;
    fresh = replicate count s.fresh;
  }

  -- `std::array<t, count>`, of objects of `size` bytes in memory
  unfoldable pub array : ℕ → ℕ → Serial (List A)
  unfolding elements checked
  array count size = checked (count * size) (elements count)

-- The bytes of `val` behind their number `len`. With no bytes to come the source returns at once,
-- and leaves `val` as it was.
unfoldable pub refill : Fault → ℕ → List ℕ → List ℕ → Result (List ℕ × List ℕ)
refill short len val src =
    if len == 0
    then ok (val, src)
    else if ltb (length src) len
    then err short
    else ok (take len src, drop len src)

module _ ⦃host : ByteOrder⦄ where
  -- Bytes behind their number; `long` and `short` are what the two operators throw.
  unfoldable pub counted_bytes : Fault → Fault → Serial (List ℕ)
  unfolding refill
  counted_bytes long short = record {
    write = λ val out. if ltb 65535 (length val) then err long else (do
      let byte_size = length val % 2 ^ 16
      out' ← u16.write byte_size out
      if ltb 0 byte_size then ok (out' ++ val) else ok out');
    read = λ val src. (do (len, rest) ← u16.read 0 src; refill short len val rest);
    fresh = [];
  }

  -- `std::string`
  unfoldable pub string : Serial (List ℕ)
  unfolding counted_bytes
  string = counted_bytes string_too_long end_of_string

  -- `std::vector<char>`
  unfoldable pub char_vector : Serial (List ℕ)
  unfolding counted_bytes
  char_vector = counted_bytes array_too_long end_of_array

  -- `std::vector<t>`: the length is cut to 16 bits, and only so many elements are written.
  unfoldable pub vector : {A : Type 0} → Serial A → Serial (List A)
  vector s = record {
    write = λ val out. (do
      let array_size = length val % 2 ^ 16
      out' ← u16.write array_size out
      write_each s (take array_size val) out');
    read = λ val src. (do (len, rest) ← u16.read 0 src; read_each s (resize len s.fresh val) rest);
    fresh = [];
  }
