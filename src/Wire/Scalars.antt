-- ===== src/Wire/Scalars.antt =====
-- The operators of serializer and deserializer for one scalar. Signed integers and floats are their
-- bit patterns, as the unions and casts of the source read them.
use hexahedra.Base.{ℕ, ◌<◌, ◌^◌, List, [], ◌∷◌, ◌++◌, Bool, true, false, ◌==◌, if◌then◌else◌}
use hexahedra.Wire.Defs.{ok, ◌>>=◌, Serial, read_raw}
use hexahedra.Wire.Endian.{ByteOrder, memory, load, to_network, ntohll}

-- A value of `size` bytes.
unfoldable pub scalar : {A : Type 0} → ℕ → (A → List ℕ) → (List ℕ → A) → A → Serial A
scalar size encode decode fresh = record {
  write = λ a out. ok (out ++ encode a);
  read = λ _ src. (do (raw, rest) ← read_raw size src; ok (decode raw, rest));
  fresh = fresh;
}

-- The byte at the cursor.
abbrev pub first_byte : List ℕ → ℕ
first_byte [] = 0
first_byte (b ∷ _) = b

-- `uint8_t`, `int8_t`, `char` and `direction_type`
unfoldable pub u8 : Serial ℕ
unfolding scalar
u8 = scalar 1 (λ v. v ∷ []) first_byte 0

unfoldable pub bool : Serial Bool
unfolding scalar
bool =
    scalar 1 (λ b. (if b then 1 else 0) ∷ []) (λ raw. if first_byte raw == 0 then false else true)
      false

module _ ⦃host : ByteOrder⦄ where
  -- `uint16_t` and `int16_t`
  unfoldable pub u16 : Serial ℕ
  unfolding scalar
  u16 = scalar 2 (λ v. memory 2 (to_network 2 v)) (λ raw. to_network 2 (load raw)) 0

  -- `uint32_t`, `int32_t` and `float`
  unfoldable pub u32 : Serial ℕ
  unfolding scalar
  u32 = scalar 4 (λ v. memory 4 (to_network 4 v)) (λ raw. to_network 4 (load raw)) 0

  -- `uint64_t`
  unfoldable pub u64 : Serial ℕ
  unfolding scalar
  u64 = scalar 8 (λ v. memory 8 (ntohll v)) (λ raw. ntohll (load raw)) 0

abbrev pub IsByte : ℕ → Type 0
IsByte v = v < 256

abbrev pub IsU16 : ℕ → Type 0
IsU16 v = v < 2 ^ 16

abbrev pub IsU32 : ℕ → Type 0
IsU32 v = v < 2 ^ 32

abbrev pub IsU64 : ℕ → Type 0
IsU64 v = v < 2 ^ 64
