-- ===== src/Wire/Endian.antt =====
-- The byte order of the host, and the conversions between it and network order.
use hexahedra.Base.{ℕ, zero, suc, ◌+◌, ◌*◌, ◌/◌, ◌%◌, ◌^◌, List, [], ◌∷◌, ◌++◌}

-- The order in which the host keeps the bytes of an integer in memory.
pub data ByteOrder : Type 0 where
  little_endian big_endian : ByteOrder

-- The `w` bytes of an integer, lowest first and highest first.
abbrev pub low_first : ℕ → ℕ → List ℕ
low_first zero v = []
low_first (suc w) v = (v % 256) ∷ low_first w (v / 256)

abbrev pub high_first : ℕ → ℕ → List ℕ
high_first zero v = []
high_first (suc w) v = high_first w (v / 256) ++ ((v % 256) ∷ [])

abbrev pub low_value : List ℕ → ℕ
low_value [] = 0
low_value (b ∷ bs) = b + 256 * low_value bs

abbrev pub high_value : ℕ → List ℕ → ℕ
high_value acc [] = acc
high_value acc (b ∷ bs) = high_value (256 * acc + b) bs

abbrev byte_swap : ℕ → ℕ → ℕ
byte_swap w v = high_value 0 (low_first w v)

module _ ⦃host : ByteOrder⦄ where
  -- The bytes of an integer in the host's memory, and the integer that such bytes stand for.
  unfoldable pub memory : ℕ → ℕ → List ℕ
  memory w v = elim host [ little_endian ↦ low_first w v | big_endian ↦ high_first w v ]

  unfoldable pub load : List ℕ → ℕ
  load raw = elim host [ little_endian ↦ low_value raw | big_endian ↦ high_value 0 raw ]

  -- `htons` and `ntohs` at 2 bytes, `htonl` and `ntohl` at 4: on every host the same function,
  -- which swaps the bytes where the host keeps the lowest first.
  unfoldable pub to_network : ℕ → ℕ → ℕ
  to_network w v = elim host [ little_endian ↦ byte_swap w v | big_endian ↦ v ]

  -- `ntohll`, which `htonll` calls.
  unfoldable pub ntohll : ℕ → ℕ
  ntohll x =
      to_network 4 (x * 2 ^ 32 % 2 ^ 64 / 2 ^ 32 % 2 ^ 32) * 2 ^ 32 % 2 ^ 64
      + to_network 4 (x / 2 ^ 32 % 2 ^ 32)
