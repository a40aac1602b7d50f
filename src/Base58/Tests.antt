-- ===== src/Base58/Tests.antt =====
-- hexa/base58.cpp on concrete bytes and texts.
use hexahedra.Base.{ℕ, ◌≡◌, refl, List, [], ◌∷◌, arith}
use hexahedra.Wire.Sequences.{Text}
use hexahedra.Base58.{done, base58_error, base58_encode, base58_decode}
use hexahedra.Base58.RoundTrip.{base58_decode-base58_encode}

abbrev sample : List ℕ
sample = 0 ∷ 0 ∷ 255 ∷ 1 ∷ []

base58_decode-base58_encode_example :
    (text : Text) × (base58_encode sample ≡ done text) × (base58_decode text ≡ done sample)
base58_decode-base58_encode_example = base58_decode-base58_encode sample (omega arith)

encoded : base58_encode sample ≡ done (49 ∷ 49 ∷ 76 ∷ 81 ∷ 89 ∷ [])
unfolding base58_encode
encoded = refl

-- The letter l is no digit.
refused : base58_decode (50 ∷ 108 ∷ []) ≡ base58_error
unfolding base58_decode
refused = refl
