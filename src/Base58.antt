-- ===== src/Base58.antt =====
-- The text form of binary data, hexa/base58.cpp.
pub mod Digits
pub mod Convert
pub mod Leading
pub mod Power
pub mod RoundTrip
mod Tests
use hexahedra.Base.{
  ℕ, zero, suc, ◌+◌, ◌*◌, ◌/◌, ◌%◌, ◌≡◌, refl, Bool, true, false, Option, none, some, List, [], ◌∷◌,
  ◌++◌, map, length, replicate, ◌==◌, if◌then◌else◌,
}
use hexahedra.Wire.Sequences.{Text}

-- `carry_left` is a failed `assert(carry == 0)`.
pub data Outcome (A : Type 0) : Type 0 where
  done : A → Outcome A
  base58_error : Outcome A
  carry_left : Outcome A

-- `pszBase58`, the characters of the digits.
unfoldable pub alphabet : Text
alphabet =
    49 ∷ 50 ∷ 51 ∷ 52 ∷ 53 ∷ 54 ∷ 55 ∷ 56 ∷ 57 ∷ 65 ∷ 66 ∷ 67 ∷ 68 ∷ 69 ∷ 70 ∷ 71 ∷ 72 ∷ 74 ∷ 75
    ∷ 76 ∷ 77 ∷ 78 ∷ 80 ∷ 81 ∷ 82 ∷ 83 ∷ 84 ∷ 85 ∷ 86 ∷ 87 ∷ 88 ∷ 89 ∷ 90 ∷ 97 ∷ 98 ∷ 99 ∷ 100 ∷ 101
    ∷ 102 ∷ 103 ∷ 104 ∷ 105 ∷ 106 ∷ 107 ∷ 109 ∷ 110 ∷ 111 ∷ 112 ∷ 113 ∷ 114 ∷ 115 ∷ 116 ∷ 117 ∷ 118
    ∷ 119 ∷ 120 ∷ 121 ∷ 122 ∷ []

-- One turn of the inner loops, "b = b * factor + carry": from the last digit of a buffer to its
-- first, with the carry that is left.
unfoldable pub multiply_add : ℕ → ℕ → ℕ → List ℕ → List ℕ × ℕ
multiply_add base factor carry [] = ([], carry)
multiply_add base factor carry (d ∷ ds) =
    let (ds', c) = multiply_add base factor carry ds in
    let sum = c + factor * d in (sum % base ∷ ds', sum / base)

-- The outer loops: a buffer takes up one digit after the other.
unfoldable pub convert : ℕ → ℕ → List ℕ → List ℕ → Outcome (List ℕ)
unfolding multiply_add
convert base factor [] buffer = done buffer
convert base factor (c ∷ cs) buffer =
    let (buffer', carry) = multiply_add base factor c buffer in
    let rest = convert base factor cs buffer' in if carry == 0 then rest else carry_left

-- The loops over zeros at the front: how many there are, and what follows them.
unfoldable pub count_leading : ℕ → List ℕ → ℕ × List ℕ
count_leading z [] = (0, [])
count_leading z (c ∷ cs) =
    let later = count_leading z cs in if c == z then (suc later.0, later.1) else (0, c ∷ cs)

-- `strchr(pszBase58, c) - pszBase58`
unfoldable pub position : ℕ → List ℕ → Option ℕ
position c [] = none
position c (a ∷ rest) =
    let later : Option ℕ = elim (position c rest) [ none ↦ none | some i ↦ some (suc i) ] in
    if a == c then some 0 else later

-- `pszBase58[i]`; past the end of the text stands its terminator.
unfoldable pub character : ℕ → Text → ℕ
character i [] = 0
character zero (a ∷ rest) = a
character (suc i) (a ∷ rest) = character i rest

-- The loop over the characters: one that is no digit throws.
unfoldable pub decode_chars : Text → List ℕ → Outcome (List ℕ)
unfolding position alphabet multiply_add
decode_chars [] b256 = done b256
decode_chars (c ∷ cs) b256 = elim (position c alphabet) [
  | none ↦ base58_error
  | some d ↦
      let (b256', carry) = multiply_add 256 58 d b256 in
      let rest = decode_chars cs b256' in if carry == 0 then rest else carry_left
]

-- The characters before the first terminator.
unfoldable pub c_str : Text → Text
c_str [] = []
c_str (c ∷ cs) = let rest = c_str cs in if c == 0 then [] else c ∷ rest

unfoldable pub base58_decode : Text → Outcome (List ℕ)
unfolding count_leading c_str decode_chars
base58_decode input =
    let (zeroes, psz) = count_leading 49 (c_str input) in
    elim (decode_chars psz (replicate (length psz * 733 / 1000 + 1) 0)) [
      | done b256 ↦ done (replicate zeroes 0 ++ (count_leading 0 b256).1)
      | base58_error ↦ base58_error
      | carry_left ↦ carry_left
    ]

unfoldable pub base58_encode : List ℕ → Outcome Text
unfolding count_leading convert character alphabet
base58_encode input =
    let (zeroes, bytes) = count_leading 0 input in
    elim (convert 58 256 bytes (replicate (length bytes * 138 / 100 + 1) 0)) [
      | done b58 ↦
          done (replicate zeroes 49 ++ map (λ i. character i alphabet) (count_leading 0 b58).1)
      | base58_error ↦ base58_error
      | carry_left ↦ carry_left
    ]
