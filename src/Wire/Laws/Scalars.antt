-- ===== src/Wire/Laws/Scalars.antt =====
-- The contract of the scalar types, on either kind of host.
use hexahedra.Base.{
  ℕ, ◌%◌, ◌/◌, ◌≤◌, ◌≡◌, refl, List, [], ◌∷◌, ◌++◌, length, Bool, false, All, arith, length-append,
  take-append-drop, take-append_length, drop-append_length, take-append_le, drop-append_le,
}
use hexahedra.Wire.Defs.{ok, >>=-eq-ok, read_raw}
use hexahedra.Wire.Endian.{
  ByteOrder, little_endian, big_endian, memory, load, to_network, high_first, ntohll,
}
use hexahedra.Wire.Scalars.{
  scalar, first_byte, u8, bool, u16, u32, u64, IsByte, IsU16, IsU32, IsU64,
}
use hexahedra.Wire.Laws.Defs.{Lawful}

read_raw-append_length : (raw rest : List ℕ) → read_raw (length raw) (raw ++ rest) ≡ ok (raw, rest)
unfolding read_raw
read_raw-append_length raw rest =
    ground (arith, length-append raw rest, take-append_length raw rest, drop-append_length raw rest)

read_raw-append :
    (size : ℕ) (src more raw rest : List ℕ)
    → read_raw size src ≡ ok (raw, rest)
    → read_raw size (src ++ more) ≡ ok (raw, rest ++ more)
unfolding read_raw
read_raw-append size src more raw rest h =
    ground
      (arith, length-append src more, take-append_le size src more, drop-append_le size src more)

read_raw_takes :
    (size : ℕ) (src raw rest : List ℕ) → read_raw size src ≡ ok (raw, rest) → src ≡ raw ++ rest
unfolding read_raw
read_raw_takes size src raw rest h = ground (arith, take-append-drop size src)

module _ {A : Type 0} (size : ℕ) (encode : A → List ℕ) (decode : List ℕ → A) (fresh : A)
    {P : A → Type 0} (length-encode : (a : A) → P a → length (encode a) ≡ size)
    (decode-encode : (a : A) → P a → decode (encode a) ≡ a)
    (encode-IsByte : (a : A) → P a → All IsByte (encode a)) where
  scalar-reads :
      (old a : A) (rest : List ℕ)
      → P a
      → (scalar size encode decode fresh).read old (encode a ++ rest) ≡ ok (a, rest)
  unfolding scalar
  scalar-reads old a rest h =
      rw (← length-encode a h, read_raw-append_length (encode a) rest, decode-encode a h)

  scalar-extends :
      (old a : A) (src rest more : List ℕ)
      → (scalar size encode decode fresh).read old src ≡ ok (a, rest)
      → (scalar size encode decode fresh).read old (src ++ more) ≡ ok (a, rest ++ more)
  unfolding scalar
  scalar-extends old a src rest more h =
      let ((raw, rest'), e, h') = >>=-eq-ok (read_raw size src) _ h in
      rw (read_raw-append size src more raw rest' e) (cc)

  scalar-takes :
      (old a : A) (src rest : List ℕ)
      → (scalar size encode decode fresh).read old src ≡ ok (a, rest)
      → (taken : List ℕ) × (src ≡ taken ++ rest)
  unfolding scalar
  scalar-takes old a src rest h =
      let ((raw, rest'), e, h') = >>=-eq-ok (read_raw size src) _ h in
      (raw, cc (read_raw_takes size src raw rest' e))

  pub scalar-Lawful : Lawful (scalar size encode decode fresh) P
  unfolding scalar
  scalar-Lawful = record {
    bytes = encode;
    merge = λ _ a. a;
    writes = λ a out h. refl;
    reads = scalar-reads;
    fresh_merge = λ a h. refl;
    octets = encode-IsByte;
    extends = scalar-extends;
    takes = scalar-takes;
  }

pub u8-Lawful : Lawful u8 IsByte
unfolding u8
u8-Lawful = scalar-Lawful 1 (λ v. v ∷ []) first_byte 0 (λ a h. refl) (λ a h. refl) (λ a h. (h, tt))

pub bool-Lawful : Lawful bool (λ _. Unit {0})
unfolding bool
bool-Lawful = scalar-Lawful 1 _ _ false (λ a h. refl) (λ a h. ground arith) (λ a h. ground arith)

pub bool_replaced : (old b : Bool) → bool-Lawful.merge old b ≡ b
unfolding bool-Lawful scalar-Lawful
bool_replaced old b = refl

module _ ⦃host : ByteOrder⦄ where
  -- A 16-bit and a 32-bit value is in memory, once converted, with its highest byte first.
  memory-to_network2 : (v : ℕ) → IsU16 v → memory 2 (to_network 2 v) ≡ high_first 2 v
  unfolding memory to_network
  memory-to_network2 v h = ground arith

  memory-to_network4 : (v : ℕ) → IsU32 v → memory 4 (to_network 4 v) ≡ high_first 4 v
  unfolding memory to_network
  memory-to_network4 v h = ground arith

  to_network-load2 : (v : ℕ) → IsU16 v → to_network 2 (load (memory 2 (to_network 2 v))) ≡ v
  unfolding memory load to_network
  to_network-load2 v h = ground arith

  to_network-load4 : (v : ℕ) → IsU32 v → to_network 4 (load (memory 4 (to_network 4 v))) ≡ v
  unfolding memory load to_network
  to_network-load4 v h = ground arith

  pub u16-Lawful : Lawful u16 IsU16
  unfolding u16
  u16-Lawful =
      scalar-Lawful 2 _ _ 0 (λ v h. rw (memory-to_network2 v h) refl) to_network-load2
        (λ v h. rw (memory-to_network2 v h) (omega arith))

  pub u32-Lawful : Lawful u32 IsU32
  unfolding u32
  u32-Lawful =
      scalar-Lawful 4 _ _ 0 (λ v h. rw (memory-to_network4 v h) refl) to_network-load4
        (λ v h. rw (memory-to_network4 v h) (omega arith))

  -- A read replaces what was there.
  pub u16_replaced : (old v : ℕ) → u16-Lawful.merge old v ≡ v
  unfolding u16-Lawful scalar-Lawful
  u16_replaced old v = refl

  pub u16_room : (v : ℕ) → IsU16 v → 2 ≤ length (u16-Lawful.bytes v)
  unfolding u16-Lawful scalar-Lawful
  u16_room v h = rw (memory-to_network2 v h) (omega arith)

  pub u32_room : (v : ℕ) → IsU32 v → 4 ≤ length (u32-Lawful.bytes v)
  unfolding u32-Lawful scalar-Lawful
  u32_room v h = rw (memory-to_network4 v h) (omega arith)

  -- 16-bit and 32-bit values are written behind what is there, highest byte first on every host.
  pub write-u16-u32 :
      (v w : ℕ) (out : List ℕ)
      → IsU16 v
      → IsU32 w
      → (u16.write v out ≡ ok (out ++ high_first 2 v))
        × (u32.write w out ≡ ok (out ++ high_first 4 w))
  unfolding u16 u32
  write-u16-u32 v w out hv hw = (rw (memory-to_network2 v hv), rw (memory-to_network4 w hw))

-- The bytes of a 64-bit value: on one kind of host its two halves change places.
abbrev pub u64_wire : ByteOrder → ℕ → List ℕ
u64_wire little_endian v = high_first 8 v
u64_wire big_endian v = high_first 4 (v % 4294967296) ++ high_first 4 (v / 4294967296)

-- 64-bit values are written highest byte first only if the host keeps the lowest byte first; a host
-- that keeps the highest byte first writes the lower half before the upper one.
pub write-u64 :
    (host : ByteOrder) (v : ℕ) (out : List ℕ)
    → IsU64 v
    → (u64 ⦃host = host⦄).write v out ≡ ok (out ++ u64_wire host v)
unfolding u64 memory ntohll to_network
write-u64 little_endian v out h = ground arith
write-u64 big_endian v out h = ground arith
