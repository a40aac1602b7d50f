-- ===== src/World/Surfaces/Count.antt =====
-- How many faces a surface has: hexa/surface.cpp, which has two ways to count the bits of a mask.
use hexahedra.Base.{
  ℕ, zero, suc, ◌+◌, ◌/◌, ◌%◌, ◌<◌, ◌≡◌, refl, inl, inr, List, [], ◌∷◌, ◌++◌, replicate, All, Bool,
  true, ◌==◌, ◌&&◌, Bool-cases, arith,
}
use hexahedra.Surface.{BlockFaces}

-- `__builtin_popcount` of a byte
unfoldable pub popcount : ℕ → ℕ
popcount n =
    n % 2 + n / 2 % 2 + n / 4 % 2 + n / 8 % 2 + n / 16 % 2 + n / 32 % 2 + n / 64 % 2 + n / 128 % 2

-- The loop of `count_faces` that the compiler's function counts in.
unfoldable pub count_faces : List BlockFaces → ℕ
unfolding popcount
count_faces [] = 0
count_faces (f ∷ s) = popcount f.dirs + count_faces s

unfoldable pub bitcount : List ℕ
bitcount =
    0
    ∷ 1
    ∷ 1
    ∷ 2
    ∷ 1
    ∷ 2
    ∷ 2
    ∷ 3
    ∷ 1
    ∷ 2
    ∷ 2
    ∷ 3
    ∷ 2
    ∷ 3
    ∷ 3
    ∷ 4
    ∷ 1
    ∷ 2
    ∷ 2
    ∷ 3
    ∷ 2
    ∷ 3
    ∷ 3
    ∷ 4
    ∷ 2
    ∷ 3
    ∷ 3
    ∷ 4
    ∷ 3
    ∷ 4
    ∷ 4
    ∷ 5
    ∷ 1
    ∷ 2
    ∷ 2
    ∷ 3
    ∷ 2
    ∷ 3
    ∷ 3
    ∷ 4
    ∷ 2
    ∷ 3
    ∷ 3
    ∷ 4
    ∷ 3
    ∷ 4
    ∷ 4
    ∷ 5
    ∷ 2
    ∷ 3
    ∷ 3
    ∷ 4
    ∷ 3
    ∷ 4
    ∷ 4
    ∷ 5
    ∷ 3
    ∷ 4
    ∷ 4
    ∷ 5
    ∷ 4
    ∷ 5
    ∷ 5
    ∷ 6
    ∷ (replicate 191 0 ++ (6 ∷ []))

unfoldable pub bits_at : List ℕ → ℕ → ℕ
bits_at [] dirs = 0
bits_at (b ∷ bs) zero = b
bits_at (b ∷ bs) (suc dirs) = bits_at bs dirs

-- The loop of `count_faces` that looks the masks up.
unfoldable pub count_faces_soft : List BlockFaces → ℕ
unfolding bits_at bitcount
count_faces_soft [] = 0
count_faces_soft (f ∷ s) = bits_at bitcount f.dirs + count_faces_soft s

-- A mask of the six directions.
abbrev pub IsMask : BlockFaces → Type 0
IsMask f = f.dirs < 64

-- A test that holds of all numbers below another.
abbrev holds_below : ℕ → (ℕ → Bool) → Bool
holds_below zero test = true
holds_below (suc n) test = test n && holds_below n test

holds_below_lem : (n k : ℕ) (test : ℕ → Bool) → holds_below n test ≡ true → k < n → test k ≡ true
holds_below_lem zero k test all lt = absurd (omega arith)
holds_below_lem (suc n) k test all lt = elim (Bool-cases (k == n)) [
  | inl here ↦ let same : k ≡ n = ground arith in rw same (ground arith)
  | inr away ↦ holds_below_lem n k test (ground arith) (ground arith)
]

masks_counted : holds_below 64 (λ n. popcount n == bits_at bitcount n) ≡ true
unfolding popcount bits_at bitcount
masks_counted = refl

popcount-bits_at : (n : ℕ) → n < 64 → popcount n ≡ bits_at bitcount n
popcount-bits_at n lt =
    let same = holds_below_lem 64 n (λ n. popcount n == bits_at bitcount n) masks_counted lt in
    ground (arith, same)

-- In a surface whose masks have only the six directions, the two ways to count the faces agree.
pub count_faces-count_faces_soft :
    (s : List BlockFaces) → All IsMask s → count_faces s ≡ count_faces_soft s
unfolding count_faces count_faces_soft
count_faces-count_faces_soft [] all = refl
count_faces-count_faces_soft (f ∷ s) (mask, all) =
    omega (arith, popcount-bits_at f.dirs mask, count_faces-count_faces_soft s all)
