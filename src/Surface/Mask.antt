-- ===== src/Surface/Mask.antt =====
-- The direction masks of hexa/server/extract_surface.cpp.
use hexahedra.Base.{
  ℕ, ◌+◌, ◌*◌, ◌/◌, ◌%◌, ◌^◌, ◌≤◌, ◌≡◌, ◌↔◌, refl, sym, ap, ◌∙◌, List, [], ◌∷◌, Option, none, some,
  Bool, true, false, if◌then◌else◌, Option-cases, inl, inr, All, arith,
}
use hexahedra.Base.Int.{pos, negsuc}
use hexahedra.Surface.{WorldVector, vec, translate, directions, collect}

abbrev pub Look : Type 0
Look = WorldVector → Option ℕ

-- Whether a face shows in a direction.
unfoldable pub is_seen : Look → (ℕ → ℕ → Bool) → WorldVector → ℕ × WorldVector → Bool
is_seen look shows i d = elim (look (translate i d.1)) [
  | none ↦ false
  | some other_type ↦ shows d.0 other_type
]

is_seen-some :
    (look : Look) (shows : ℕ → ℕ → Bool) (i : WorldVector) (d : ℕ × WorldVector) (t : ℕ)
    → look (translate i d.1) ≡ some t
    → is_seen look shows i d ≡ shows d.0 t
unfolding is_seen
is_seen-some look shows i d t there = rw (there, is_seen) refl

is_seen-eq :
    (look look' : Look) (shows : ℕ → ℕ → Bool) (i : WorldVector) (d : ℕ × WorldVector)
    → look (translate i d.1) ≡ look' (translate i d.1)
    → is_seen look shows i d ≡ is_seen look' shows i d
unfolding is_seen
is_seen-eq look look' shows i d same = rw (same, is_seen) refl

-- A bit for each direction in which a face shows.
abbrev pub mask : Look → (ℕ → ℕ → Bool) → WorldVector → List (ℕ × WorldVector) → ℕ
mask look shows i [] = 0
mask look shows i (d ∷ ds) = (if is_seen look shows i d then 2 ^ d.0 else 0) + mask look shows i ds

-- Every direction leads to a block.
abbrev pub AllSome : Look → WorldVector → List (ℕ × WorldVector) → Type 0
AllSome look i ds = All (λ (d : ℕ × WorldVector). (t : ℕ) × (look (translate i d.1) ≡ some t)) ds

abbrev pub AllSame : Look → Look → WorldVector → List (ℕ × WorldVector) → Type 0
AllSame look look' i ds =
    All (λ (d : ℕ × WorldVector). look (translate i d.1) ≡ look' (translate i d.1)) ds

-- The loop over the directions adds up the mask.
pub collect-mask :
    (look : Look) (shows : ℕ → ℕ → Bool) (i : WorldVector) (ds : List (ℕ × WorldVector)) (dirs : ℕ)
    → AllSome look i ds
    → collect look shows i ds dirs ≡ some (dirs + mask look shows i ds)
unfolding collect
collect-mask look shows i [] dirs all = ap some (omega arith)
collect-mask look shows i (d ∷ ds) dirs ((t, there), all) =
    let rest = mask look shows i ds in
    rw (there, collect)
      (collect-mask look shows i ds (if shows d.0 t then dirs + 2 ^ d.0 else dirs) all
        ∙ ap some (added (shows d.0 t) dirs (2 ^ d.0) rest)
        ∙ ap (λ b. some (dirs + ((if b then 2 ^ d.0 else 0) + rest)))
            (sym (is_seen-some look shows i d t there)))
  where
    added :
        (b : Bool) (n bit m : ℕ) → (if b then n + bit else n) + m ≡ n + ((if b then bit else 0) + m)
    added true n bit m = omega arith
    added false n bit m = omega arith

pub mask-AllSame :
    (look look' : Look) (shows : ℕ → ℕ → Bool) (i : WorldVector) (ds : List (ℕ × WorldVector))
    → AllSame look look' i ds
    → mask look shows i ds ≡ mask look' shows i ds
mask-AllSame look look' shows i [] all = refl
mask-AllSame look look' shows i (d ∷ ds) (same, all) =
    ap (λ b. (if b then 2 ^ d.0 else 0) + mask look shows i ds)
      (is_seen-eq look look' shows i d same)
    ∙ ap (λ n. (if is_seen look' shows i d then 2 ^ d.0 else 0) + n)
        (mask-AllSame look look' shows i ds all)

is_seen-shows :
    (look : Look) (shows shows' : ℕ → ℕ → Bool) (i : WorldVector) (d : ℕ × WorldVector)
    → ((dir t : ℕ) → shows dir t ≡ shows' dir t)
    → is_seen look shows i d ≡ is_seen look shows' i d
unfolding is_seen
is_seen-shows look shows shows' i d same = elim (Option-cases (look (translate i d.1))) [
  | inl away ↦ rw (away, is_seen) refl
  | inr (t, there) ↦ rw (there, is_seen) (same d.0 t)
]

-- Two tests that agree give the same mask.
pub mask-shows :
    (look : Look) (shows shows' : ℕ → ℕ → Bool) (i : WorldVector) (ds : List (ℕ × WorldVector))
    → ((dir t : ℕ) → shows dir t ≡ shows' dir t)
    → mask look shows i ds ≡ mask look shows' i ds
mask-shows look shows shows' i [] same = refl
mask-shows look shows shows' i (d ∷ ds) same =
    ap (λ b. (if b then 2 ^ d.0 else 0) + mask look shows i ds)
      (is_seen-shows look shows shows' i d same)
    ∙ ap (λ n. (if is_seen look shows' i d then 2 ^ d.0 else 0) + n)
        (mask-shows look shows shows' i ds same)

abbrev pub bit : Bool → ℕ
bit b = if b then 1 else 0

bit_lem : (b : Bool) (n : ℕ) → n ≡ bit b → (n ≡ 1) ↔ (b ≡ true)
bit_lem true n e = (λ h. refl, λ h. e)
bit_lem false n e = (λ h. absurd (omega arith), λ h. absurd (cc))

scaled : (b : Bool) (n : ℕ) → (if b then n else 0) ≡ n * bit b
scaled true n = omega arith
scaled false n = omega arith

bit-le : (b : Bool) → bit b ≤ 1
bit-le true = omega arith
bit-le false = omega arith

-- The six bits of a number that is put together from them.
six_bits :
    (a b c d e f m : ℕ)
    → (a ≤ 1) × (b ≤ 1) × (c ≤ 1) × (d ≤ 1) × (e ≤ 1) × (f ≤ 1)
    → m ≡ 1 * a + (2 * b + (4 * c + (8 * d + (16 * e + (32 * f + 0)))))
    → (m / 1 % 2 ≡ a)
      × (m / 2 % 2 ≡ b)
      × (m / 4 % 2 ≡ c)
      × (m / 8 % 2 ≡ d)
      × (m / 16 % 2 ≡ e)
      × (m / 32 % 2 ≡ f)
six_bits a b c d e f m small sum =
    (omega arith, omega arith, omega arith, omega arith, omega arith, omega arith)

-- In the mask of the six directions, the bit of a direction is set just when a face shows there.
pub mask_bits :
    (look : Look) (shows : ℕ → ℕ → Bool) (i : WorldVector)
    → All
        (λ (d : ℕ × WorldVector).
          (mask look shows i directions / 2 ^ d.0 % 2 ≡ 1) ↔ (is_seen look shows i d ≡ true))
        directions
unfolding directions
mask_bits look shows i =
    let s = λ (d : ℕ × WorldVector). is_seen look shows i d in
    let a = s (0, vec (pos 1) (pos 0) (pos 0)) in
    let b = s (1, vec (negsuc 0) (pos 0) (pos 0)) in
    let c = s (2, vec (pos 0) (pos 1) (pos 0)) in
    let d = s (3, vec (pos 0) (negsuc 0) (pos 0)) in
    let e = s (4, vec (pos 0) (pos 0) (pos 1)) in
    let f = s (5, vec (pos 0) (pos 0) (negsuc 0)) in
    let m = mask look shows i directions in
    let sum : m
        ≡ 1 * bit a + (2 * bit b + (4 * bit c + (8 * bit d + (16 * bit e + (32 * bit f + 0))))) =
      omega (arith, scaled a 1, scaled b 2, scaled c 4, scaled d 8, scaled e 16, scaled f 32) in
    let (na, nb, nc, nd, ne, nf) =
      six_bits (bit a) (bit b) (bit c) (bit d) (bit e) (bit f) m
        (bit-le a, bit-le b, bit-le c, bit-le d, bit-le e, bit-le f) sum in
    (
      bit_lem a _ na,
      (bit_lem b _ nb, (bit_lem c _ nc, (bit_lem d _ nd, (bit_lem e _ ne, (bit_lem f _ nf, tt))))),
    )
