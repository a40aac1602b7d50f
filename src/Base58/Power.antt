-- ===== src/Base58/Power.antt =====
-- The sizes of the buffers of hexa/base58.cpp, 733 / 1000 and 138 / 100 of the input and one more:
-- what they have room for.
use hexahedra.Base.{
  ℕ, zero, suc, ◌+◌, ◌*◌, ◌/◌, ◌%◌, ◌^◌, ◌≤◌, ◌<◌, ◌≡◌, refl, Bool, true, ◌&&◌, leb, arith,
}
use native.Mathlib.Nat.{mul_assoc, pow-zero, pow-suc}

pow-add : (b m n : ℕ) → b ^ (m + n) ≡ b ^ m * b ^ n
pow-add b m zero = let same : m + zero ≡ m = omega arith in rw (same, pow-zero b) (omega arith)
pow-add b m (suc n) =
    let shift : m + suc n ≡ suc (m + n) = omega arith in
    rw (shift, pow-suc b (m + n), pow-suc b n, pow-add b m n) (mul_assoc (b ^ m) (b ^ n) b)

mul_mono : (a b c d : ℕ) → a ≤ b → c ≤ d → a * c ≤ b * d
mul_mono a b c d h k = grind arith

pow_step : (a b p q n m : ℕ) → a ^ p ≤ b ^ q → a ^ n ≤ b ^ m → a ^ (n + p) ≤ b ^ (m + q)
pow_step a b p q n m h k =
    rw (pow-add a n p, pow-add b m q) (mul_mono (a ^ n) (b ^ m) (a ^ p) (b ^ q) k h)

unfoldable pub every : ℕ → (ℕ → Bool) → Bool
every zero p = true
every (suc n) p = p n && every n p

pub every_below : (n : ℕ) (p : ℕ → Bool) (x : ℕ) → every n p ≡ true → x < n → p x ≡ true
unfolding every
every_below zero p x h lt = absurd (omega arith)
every_below (suc n) p x h lt = ground (arith, every_below n p x)

decode_table : every 1000 (λ n. leb (58 ^ n) (256 ^ (n * 733 / 1000 + 1))) ≡ true
unfolding every
decode_table = refl

encode_table : every 100 (λ n. leb (256 ^ n) (58 ^ (n * 138 / 100 + 1))) ≡ true
unfolding every
encode_table = refl

leb-true : (a b : ℕ) → leb a b ≡ true → a ≤ b
leb-true a b h = ground arith

decode_big : 58 ^ 1000 ≤ 256 ^ 733
decode_big = leb-true _ _ refl

encode_big : 256 ^ 100 ≤ 58 ^ 138
encode_big = leb-true _ _ refl

decode_room_from :
    (k r : ℕ) → r < 1000 → 58 ^ (r + k * 1000) ≤ 256 ^ ((r + k * 1000) * 733 / 1000 + 1)
decode_room_from zero r lt =
    let same : r + zero * 1000 ≡ r = omega arith in
    rw same (
      leb-true _ _
        (every_below 1000 (λ n. leb (58 ^ n) (256 ^ (n * 733 / 1000 + 1))) r decode_table lt))
decode_room_from (suc k) r lt =
    let n = r + k * 1000 in
    let next : r + suc k * 1000 ≡ n + 1000 = omega arith in
    let size : (n + 1000) * 733 / 1000 + 1 ≡ n * 733 / 1000 + 1 + 733 = omega arith in
    rw (next, size)
      (pow_step 58 256 1000 733 n (n * 733 / 1000 + 1) decode_big (decode_room_from k r lt))

encode_room_from : (k r : ℕ) → r < 100 → 256 ^ (r + k * 100) ≤ 58 ^ ((r + k * 100) * 138 / 100 + 1)
encode_room_from zero r lt =
    let same : r + zero * 100 ≡ r = omega arith in
    rw same (
      leb-true _ _
        (every_below 100 (λ n. leb (256 ^ n) (58 ^ (n * 138 / 100 + 1))) r encode_table lt))
encode_room_from (suc k) r lt =
    let n = r + k * 100 in
    let next : r + suc k * 100 ≡ n + 100 = omega arith in
    let size : (n + 100) * 138 / 100 + 1 ≡ n * 138 / 100 + 1 + 138 = omega arith in
    rw (next, size)
      (pow_step 256 58 100 138 n (n * 138 / 100 + 1) encode_big (encode_room_from k r lt))

-- The buffer of the decoder has room for any number of n digits.
pub decode_room : (n : ℕ) → 58 ^ n ≤ 256 ^ (n * 733 / 1000 + 1)
decode_room n =
    let split : n % 1000 + n / 1000 * 1000 ≡ n = omega arith in
    rw split at (decode_room_from (n / 1000) (n % 1000) (omega arith))

-- The buffer of the encoder has room for any number of n bytes.
pub encode_room : (n : ℕ) → 256 ^ n ≤ 58 ^ (n * 138 / 100 + 1)
encode_room n =
    let split : n % 100 + n / 100 * 100 ≡ n = omega arith in
    rw split at (encode_room_from (n / 100) (n % 100) (omega arith))
