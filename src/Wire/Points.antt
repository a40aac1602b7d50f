-- ===== src/Wire/Points.antt =====
-- The operators for points, boxes and positions; the records are those of hexa/vector2.hpp,
-- hexa/vector3.hpp, hexa/aabb.hpp and hexa/wfpos.hpp, which the archives see as their fields.
use hexahedra.Base.{ℕ, ◌+◌, ◌*◌, ◌/◌, ◌%◌, ◌^◌, ltb, if◌then◌else◌}
use hexahedra.Wire.Defs.{Serial, ◌▸◌, fields, checked}
use hexahedra.Wire.Endian.{ByteOrder}
use hexahedra.Wire.Scalars.{u16, u32}

pub record Vector2 (A : Type 0) : Type 0 where
  pub x : A
  pub y : A

pub record Vector3 (A : Type 0) : Type 0 where
  pub x : A
  pub y : A
  pub z : A

pub record Aabb (A : Type 0) : Type 0 where
  pub first : A
  pub second : A

pub record Wfpos : Type 0 where
  pub pos : Vector3 ℕ
  pub frac : Vector3 ℕ

abbrev pub chunk_size : ℕ
chunk_size = 16

abbrev pub chunk_area : ℕ
chunk_area = chunk_size * chunk_size

module _ {A : Type 0} (size : ℕ) (s : Serial A) where
  -- `vector2<t>` and `vector3<t>`, of objects of `size` bytes
  unfoldable pub vector2 : Serial (Vector2 A)
  unfolding checked fields ◌▸◌
  vector2 = checked (2 * size) (fields (λ t. record { x = t.0; y = t.1 }) (λ v. (v.x, v.y)) (s ▸ s))

  unfoldable pub vector3 : Serial (Vector3 A)
  unfolding checked fields ◌▸◌
  vector3 =
      checked (3 * size) (
        fields (λ t. record { x = t.0; y = t.1.0; z = t.1.1 }) (λ v. (v.x, (v.y, v.z))) (s ▸ s ▸ s))

-- `aabb<t>`
unfoldable pub aabb : {A : Type 0} → Serial A → Serial (Aabb A)
unfolding fields ◌▸◌
aabb s = fields (λ t. record { first = t.0; second = t.1 }) (λ b. (b.first, b.second)) (s ▸ s)

-- An `int8_t` as a 16-bit two's complement pattern.
unfoldable pub widen : ℕ → ℕ
widen v = if ltb v 128 then v else v + 65280

-- `uint16_t(val.x + chunk_size * val.y + chunk_area * val.z)`
unfoldable pub pack_index : Vector3 ℕ → ℕ
unfolding widen
pack_index v = (widen v.x + chunk_size * widen v.y + chunk_area * widen v.z) % 2 ^ 16

unfoldable pub unpack_index : ℕ → Vector3 ℕ
unpack_index temp = record {
  x = temp % chunk_size;
  y = temp / chunk_size % chunk_size;
  z = temp / chunk_area % chunk_size;
}

module _ ⦃host : ByteOrder⦄ where
  -- `vector3<int8_t>`, in its compact form
  unfoldable pub chunk_index : Serial (Vector3 ℕ)
  unfolding checked fields pack_index unpack_index
  chunk_index = checked 2 (fields unpack_index pack_index u16)

  -- `vector3<uint32_t>` and `vector3<float>`; `vector2` of the same
  abbrev pub coordinates : Serial (Vector3 ℕ)
  coordinates = vector3 4 u32

  abbrev pub map_coordinates : Serial (Vector2 ℕ)
  map_coordinates = vector2 4 u32

  -- `wfpos`
  unfoldable pub wfpos : Serial Wfpos
  unfolding fields ◌▸◌
  wfpos =
      fields (λ t. record { pos = t.0; frac = t.1 }) (λ p. (p.pos, p.frac))
        (coordinates ▸ coordinates)
