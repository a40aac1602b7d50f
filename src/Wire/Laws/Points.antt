-- ===== src/Wire/Laws/Points.antt =====
-- The contract of points, boxes and positions.
use hexahedra.Base.{ℕ, ◌*◌, ◌≤◌, ◌<◌, ◌≡◌, refl, ◌++◌, length, length-append, arith}
use hexahedra.Wire.Defs.{Serial}
use hexahedra.Wire.Endian.{ByteOrder}
use hexahedra.Wire.Scalars.{u16, IsU32, IsU16}
use hexahedra.Wire.Points.{
  Vector2, Vector3, Aabb, Wfpos, vector2, vector3, aabb, pack_index, unpack_index, chunk_index,
  coordinates, map_coordinates, wfpos,
}
use hexahedra.Wire.Laws.Defs.{Lawful}
use hexahedra.Wire.Laws.Combinators.{▸-Lawful, fields-Lawful, checked-Lawful}
use hexahedra.Wire.Laws.Scalars.{u16-Lawful, u32-Lawful, u16_room, u32_room}

abbrev pub Each2 : {A : Type 0} → (A → Type 0) → Vector2 A → Type 0
Each2 P v = P v.x × P v.y

abbrev pub Each3 : {A : Type 0} → (A → Type 0) → Vector3 A → Type 0
Each3 P v = P v.x × P v.y × P v.z

abbrev pub EachCorner : {A : Type 0} → (A → Type 0) → Aabb A → Type 0
EachCorner P b = P b.first × P b.second

module _ {A : Type 0} {s : Serial A} {P : A → Type 0} (size : ℕ) (ls : Lawful s P)
    (room : (a : A) → P a → size ≤ length (ls.bytes a)) where
  pub vector2-Lawful : Lawful (vector2 size s) (Each2 P)
  unfolding vector2 ▸-Lawful fields-Lawful
  vector2-Lawful =
      checked-Lawful
        (fields-Lawful (▸-Lawful ls ls) (λ t. record { x = t.0; y = t.1 }) (λ v. (v.x, v.y)) refl
          (λ v h. h) (λ v h. refl))
        (2 * size)
        (λ v h.
          omega (arith, length-append (ls.bytes v.x) (ls.bytes v.y), room v.x h.0, room v.y h.1))

  pub vector3-Lawful : Lawful (vector3 size s) (Each3 P)
  unfolding vector3 ▸-Lawful fields-Lawful
  vector3-Lawful =
      checked-Lawful
        (fields-Lawful (▸-Lawful ls (▸-Lawful ls ls))
          (λ t. record { x = t.0; y = t.1.0; z = t.1.1 }) (λ v. (v.x, (v.y, v.z))) refl
          (λ v h. (h.0, (h.1, h.2))) (λ v h. refl))
        (3 * size)
        (λ v h. omega (
          arith,
          length-append (ls.bytes v.x) (ls.bytes v.y ++ ls.bytes v.z),
          length-append (ls.bytes v.y) (ls.bytes v.z),
          room v.x h.0,
          room v.y h.1,
          room v.z h.2,
        ))

pub aabb-Lawful :
    {A : Type 0} {s : Serial A} {P : A → Type 0} → Lawful s P → Lawful (aabb s) (EachCorner P)
unfolding aabb
aabb-Lawful ls =
    fields-Lawful (▸-Lawful ls ls) (λ t. record { first = t.0; second = t.1 })
      (λ b. (b.first, b.second)) refl (λ b h. h) (λ b h. refl)

-- A block's place inside a chunk.
abbrev pub InChunk : Vector3 ℕ → Type 0
InChunk v = Each3 (λ c. c < 16) v

pack_index-lt : (v : Vector3 ℕ) → IsU16 (pack_index v)
unfolding pack_index
pack_index-lt v = omega arith

-- The compact form of a block's place is unpacked to the place that was packed.
pub unpack_index-pack_index : (v : Vector3 ℕ) → InChunk v → unpack_index (pack_index v) ≡ v
unfolding unpack_index pack_index
unpack_index-pack_index v h = ground arith

abbrev pub WfposFits : Wfpos → Type 0
WfposFits p = Each3 IsU32 p.pos × Each3 IsU32 p.frac

module _ ⦃host : ByteOrder⦄ where
  index_fresh : pack_index (unpack_index u16.fresh) ≡ u16.fresh
  unfolding u16 pack_index unpack_index
  index_fresh = refl

  pub chunk_index-Lawful : Lawful chunk_index InChunk
  unfolding chunk_index fields-Lawful
  chunk_index-Lawful =
      checked-Lawful
        (fields-Lawful u16-Lawful unpack_index pack_index index_fresh (λ v h. pack_index-lt v)
          unpack_index-pack_index)
        2 (λ v h. u16_room (pack_index v) (pack_index-lt v))

  pub coordinates-Lawful : Lawful coordinates (Each3 IsU32)
  coordinates-Lawful = vector3-Lawful 4 u32-Lawful u32_room

  pub map_coordinates-Lawful : Lawful map_coordinates (Each2 IsU32)
  map_coordinates-Lawful = vector2-Lawful 4 u32-Lawful u32_room

  pub wfpos-Lawful : Lawful wfpos WfposFits
  unfolding wfpos
  wfpos-Lawful =
      fields-Lawful (▸-Lawful coordinates-Lawful coordinates-Lawful)
        (λ t. record { pos = t.0; frac = t.1 }) (λ p. (p.pos, p.frac)) refl (λ p h. h) (λ p h. refl)
