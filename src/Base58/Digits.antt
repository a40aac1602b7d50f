-- ===== src/Base58/Digits.antt =====
-- The numbers that the buffers of hexa/base58.cpp stand for, first digit highest.
use hexahedra.Base.{
  ℕ, suc, ◌+◌, ◌*◌, ◌/◌, ◌%◌, ◌^◌, ◌<◌, ◌≡◌, refl, sym, ap, ◌∙◌, List, [], ◌∷◌, length, All, arith,
}
use hexahedra.Base58.{multiply_add}
use native.Mathlib.Nat.{mul_comm, pow-zero, pow-suc}
use std.Path.{ap₂}

unfoldable pub value : ℕ → List ℕ → ℕ
value b [] = 0
value b (d ∷ ds) = d * b ^ length ds + value b ds

abbrev pub IsDigit : ℕ → ℕ → Type 0
IsDigit b d = d < b

div_mod : (n b : ℕ) → 0 < b → n ≡ n % b + n / b * b
div_mod n b h = grind arith

mod_lt : (n b : ℕ) → 0 < b → n % b < b
mod_lt n b h = grind arith

carry_step :
    (b f c d v v' c1 w q r : ℕ)
    → v' + c1 * w ≡ c + f * v
    → c1 + f * d ≡ r + q * b
    → r * w + v' + q * (w * b) ≡ c + f * (d * w + v)
carry_step b f c d v v' c1 w q r e1 e2 = grind (arith, ap (λ (t : ℕ). t * w) e2)

digit_room : (b d w v : ℕ) → d < b → v < w → d * w + v < w * b
digit_room b d w v lt room = grind arith

no_carry : (v c w s : ℕ) → v + c * w ≡ s → s < w → c ≡ 0
no_carry v c w s e lt = grind arith

same_digit :
    (w d d' v v' : ℕ)
    → d * w + v ≡ d' * w + v'
    → (d < d' → d * w + v < w * d')
    → (d' < d → d' * w + v' < w * d)
    → d ≡ d'
same_digit w d d' v v' e less more = grind (arith, mul_comm w d, mul_comm w d')

same_rest : (w d d' v v' : ℕ) → d ≡ d' → d * w + v ≡ d' * w + v' → v ≡ v'
same_rest w d d' v v' same e = omega (arith, ap (λ t. t * w) same)

digit_same : (w d d' v v' : ℕ) → v < w → v' < w → d * w + v ≡ d' * w + v' → (d ≡ d') × (v ≡ v')
digit_same w d d' v v' lt lt' e =
    let not_less = λ (h : d < d'). digit_room d' d w v h lt in
    let not_more = λ (h : d' < d). digit_room d d' w v' h lt' in
    let same : d ≡ d' = same_digit w d d' v v' e not_less not_more in
    (same, same_rest w d d' v v' same e)

module _ (b : ℕ) (positive : 0 < b) where
  pub value_lt : (ds : List ℕ) → All (IsDigit b) ds → value b ds < b ^ length ds
  unfolding value
  value_lt [] h = omega (arith, pow-zero b)
  value_lt (d ∷ ds) (lt, h) =
      rw (pow-suc b (length ds)) (digit_room b d (b ^ length ds) (value b ds) lt (value_lt ds h))

  -- Digits of the same number, as many, are the same.
  pub value-same :
      (xs ys : List ℕ)
      → All (IsDigit b) xs
      → All (IsDigit b) ys
      → length xs ≡ length ys
      → value b xs ≡ value b ys
      → xs ≡ ys
  unfolding value
  value-same [] [] hx hy l e = refl
  value-same [] (y ∷ ys) hx hy l e = absurd (omega arith)
  value-same (x ∷ xs) [] hx hy l e = absurd (omega arith)
  value-same (x ∷ xs) (y ∷ ys) (lx, hx) (ly, hy) l e =
      let same_length : length xs ≡ length ys = omega arith in
      let same_weight : b ^ length ys ≡ b ^ length xs = ap (λ n. b ^ n) (sym same_length) in
      let (d, v) =
        digit_same (b ^ length xs) x y (value b xs) (value b ys) (value_lt xs hx)
          (rw (sym same_weight) (value_lt ys hy)) (e ∙ ap (λ t. y * t + value b ys) same_weight) in
      ap₂ ◌∷◌ d (value-same xs ys hx hy same_length v)

  -- What a turn of the inner loop leaves: digits, and a carry for what does not fit.
  pub record Sums (f c : ℕ) (ds : List ℕ) (r : List ℕ × ℕ) : Type 0 where
    pub size : length r.0 ≡ length ds
    pub in_base : All (IsDigit b) r.0
    pub sum : value b r.0 + r.1 * b ^ length ds ≡ c + f * value b ds

  pub multiply_add-Sums : (f c : ℕ) (ds : List ℕ) → Sums f c ds (multiply_add b f c ds)
  unfolding multiply_add value
  multiply_add-Sums f c [] = record {
    size = refl;
    in_base = tt;
    sum = rw (pow-zero b) (omega arith);
  }
  multiply_add-Sums f c (d ∷ ds) =
      let rest = multiply_add-Sums f c ds in
      let r = multiply_add b f c ds in
      let t = r.1 + f * d in
      record {
        size = ap suc rest.size;
        in_base = (mod_lt t b positive, rest.in_base);
        sum =
            rw (rest.size, pow-suc b (length ds))
              (carry_step b f c d (value b ds) (value b r.0) r.1 (b ^ length ds) (t / b) (t % b)
                rest.sum (div_mod t b positive));
      }

  -- A turn with room for the sum leaves no carry.
  pub multiply_add_fits :
      (f c : ℕ) (ds : List ℕ)
      → c + f * value b ds < b ^ length ds
      → ((multiply_add b f c ds).1 ≡ 0) × (value b (multiply_add b f c ds).0 ≡ c + f * value b ds)
  multiply_add_fits f c ds lt =
      let s = multiply_add-Sums f c ds in
      let none_left : (multiply_add b f c ds).1 ≡ 0 =
        no_carry (value b (multiply_add b f c ds).0) (multiply_add b f c ds).1 (b ^ length ds)
          (c + f * value b ds) s.sum lt in
      (
        none_left,
        sym (
              ap (λ t. value b (multiply_add b f c ds).0 + t * b ^ length ds) none_left
              ∙ omega arith)
            ∙ s.sum,
      )
