-- ===== src/Base58/Leading.antt =====
-- Zeros at the front of a number's digits, which hexa/base58.cpp counts and skips.
use hexahedra.Base.{
  ℕ, zero, suc, ◌+◌, ◌*◌, ◌^◌, ◌≤◌, ◌<◌, ◌≡◌, ◌≢◌, refl, ap, ◌∙◌, List, [], ◌∷◌, ◌++◌, length,
  replicate, ◌==◌, All, arith, inl, inr, Bool-cases, true, false,
}
use hexahedra.Base58.{count_leading}
use hexahedra.Base58.Digits.{value, IsDigit, value_lt, value-same}
use native.Mathlib.Nat.{pow-le-pow_right}

-- The list does not begin with the given number.
abbrev pub NotLed : ℕ → List ℕ → Type 0
NotLed z [] = Unit
NotLed z (c ∷ cs) = c ≢ z

pub count_leading-NotLed : (z : ℕ) (cs : List ℕ) → NotLed z (count_leading z cs).1
unfolding count_leading
count_leading-NotLed z [] = tt
count_leading-NotLed z (c ∷ cs) = elim (Bool-cases (c == z)) [
  | inl here ↦ rw here (count_leading-NotLed z cs)
  | inr away ↦ rw away (let ne : c ≢ z = ground arith in ne)
]

pub count_leading-append :
    (z : ℕ) (cs : List ℕ) → replicate (count_leading z cs).0 z ++ (count_leading z cs).1 ≡ cs
unfolding count_leading
count_leading-append z [] = refl
count_leading-append z (c ∷ cs) = elim (Bool-cases (c == z)) [
  | inl here ↦
      let same : z ≡ c = ground arith in
      rw here (
        ap (λ d. d ∷ (replicate (count_leading z cs).0 z ++ (count_leading z cs).1)) same
        ∙ ap (◌∷◌ c) (count_leading-append z cs))
  | inr away ↦ rw away refl
]

pub count_leading-All :
    (P : ℕ → Type 0) (z : ℕ) (cs : List ℕ) → All P cs → All P (count_leading z cs).1
unfolding count_leading
count_leading-All P z [] h = tt
count_leading-All P z (c ∷ cs) (p, h) = elim (Bool-cases (c == z)) [
  | inl here ↦ rw here (count_leading-All P z cs h)
  | inr away ↦ rw away (p, h)
]

pub count_leading-value : (b : ℕ) (cs : List ℕ) → value b (count_leading 0 cs).1 ≡ value b cs
unfolding count_leading value
count_leading-value b [] = refl
count_leading-value b (c ∷ cs) = elim (Bool-cases (c == 0)) [
  | inl here ↦
      let c_is : c ≡ 0 = ground arith in rw (here, c_is) (count_leading-value b cs ∙ omega arith)
  | inr away ↦ rw away refl
]

-- What was put in front is counted, if the rest does not begin with it.
pub count_leading_front :
    (z n : ℕ) (cs : List ℕ) → NotLed z cs → count_leading z (replicate n z ++ cs) ≡ (n, cs)
unfolding count_leading
count_leading_front z zero [] h = refl
count_leading_front z zero (c ∷ cs) h = let away : (c == z) ≡ false = ground arith in rw away refl
count_leading_front z (suc n) cs h =
    let here : (z == z) ≡ true = ground arith in rw (here, count_leading_front z n cs h) refl

pub value-replicate : (b n : ℕ) → value b (replicate n 0) ≡ 0
unfolding value
value-replicate b zero = refl
value-replicate b (suc n) = omega (arith, value-replicate b n)

pub replicate-IsDigit : (b n : ℕ) → 0 < b → All (IsDigit b) (replicate n 0)
replicate-IsDigit b zero h = tt
replicate-IsDigit b (suc n) h = (h, replicate-IsDigit b n h)

pub length-replicate : (n c : ℕ) → length (replicate n c) ≡ n
length-replicate zero c = refl
length-replicate (suc n) c = ap suc (length-replicate n c)

less_step : (v w w' y n : ℕ) → v < w → w ≤ w' → 1 ≤ y → v < y * w' + n
less_step v w w' y n lt le pos = grind arith

same_of_less : (m n v w : ℕ) → v ≡ w → (m < n → v < w) → (n < m → w < v) → m ≡ n
same_of_less m n v w e less more = grind arith

module _ (b : ℕ) (positive : 0 < b) where
  shorter_less :
      (xs ys : List ℕ)
      → All (IsDigit b) xs
      → NotLed 0 ys
      → length xs < length ys
      → value b xs < value b ys
  unfolding value
  shorter_less xs [] hx ny lt = absurd (omega arith)
  shorter_less xs (y ∷ ys) hx ny lt =
      let bound = value_lt b positive xs hx in
      let grows : b ^ length xs ≤ b ^ length ys = pow-le-pow_right positive (omega arith) in
      less_step (value b xs) (b ^ length xs) (b ^ length ys) y (value b ys) bound grows
        (let y_pos : 1 ≤ y = ground arith in y_pos)

  -- Without zeros at the front, the digits of a number are determined by it.
  pub value-canonical :
      (xs ys : List ℕ)
      → All (IsDigit b) xs
      → All (IsDigit b) ys
      → NotLed 0 xs
      → NotLed 0 ys
      → value b xs ≡ value b ys
      → xs ≡ ys
  value-canonical xs ys hx hy nx ny e =
      value-same b positive xs ys hx hy
        (same_of_less (length xs) (length ys) (value b xs) (value b ys) e (shorter_less xs ys hx ny)
          (shorter_less ys xs hy nx))
        e
