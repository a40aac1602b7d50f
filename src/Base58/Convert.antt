-- ===== src/Base58/Convert.antt =====
-- The outer loops of hexa/base58.cpp, and the zeros at the front of what they make.
use hexahedra.Base.{
  ℕ, ◌+◌, ◌*◌, ◌^◌, ◌≤◌, ◌<◌, ◌≡◌, refl, sym, ◌∙◌, List, [], ◌∷◌, length, All, arith,
}
use hexahedra.Base58.{multiply_add, convert, done}
use hexahedra.Base58.Digits.{value, IsDigit, multiply_add-Sums, multiply_add_fits}
use native.Mathlib.Nat.{pow-zero, pow-suc, one-le-pow}

-- A sum with a further digit is no larger than what it stands for in the end.
room_step : (v f c w n s : ℕ) → 1 ≤ w → v * (w * f) + (c * w + n) < s → c + f * v < s
room_step v f c w n s positive lt = grind (arith, mul_le_self (c + f * v) w positive)
  where
    mul_le_self : (a w : ℕ) → 1 ≤ w → a ≤ a * w
    mul_le_self a w h = grind arith

regroup : (v f c w n : ℕ) → v * (w * f) + (c * w + n) ≡ (c + f * v) * w + n
regroup v f c w n = grind arith

module _ (b f : ℕ) (positive : 0 < b) (factor : 0 < f) where
  -- The buffer after the loop: as long as before, with the digits of the number that it stood for,
  -- moved up, and of the digits that it took up.
  pub record Takes (cs buffer : List ℕ) : Type 0 where
    pub out : List ℕ
    pub returns : convert b f cs buffer ≡ done out
    pub size : length out ≡ length buffer
    pub in_base : All (IsDigit b) out
    pub stands_for : value b out ≡ value b buffer * f ^ length cs + value f cs

  pub convert-Takes :
      (cs buffer : List ℕ)
      → All (IsDigit b) buffer
      → value b buffer * f ^ length cs + value f cs < b ^ length buffer
      → Takes cs buffer
  unfolding convert value
  convert-Takes [] buffer h room = record {
    out = buffer;
    returns = refl;
    size = refl;
    in_base = h;
    stands_for = rw (pow-zero f) (omega arith);
  }
  convert-Takes (c ∷ cs) buffer h room =
      let w = f ^ length cs in
      let room' : value b buffer * (w * f) + (c * w + value f cs) < b ^ length buffer =
        rw (sym (pow-suc f (length cs))) room in
      let (fits, sum) = multiply_add_fits b positive f c buffer (
        room_step (value b buffer) f c w (value f cs) (b ^ length buffer)
          (one-le-pow (length cs) f factor) room') in
      let s = multiply_add-Sums b positive f c buffer in
      let buffer' = (multiply_add b f c buffer).0 in
      let same = regroup (value b buffer) f c w (value f cs) in
      let rest = convert-Takes cs buffer' s.in_base (rw (sum, s.size) (rw (sym same) room')) in
      record {
        out = rest.out;
        returns = rw fits rest.returns;
        size = rest.size ∙ s.size;
        in_base = rest.in_base;
        stands_for = rest.stands_for ∙ rw (sum, pow-suc f (length cs)) (sym same);
      }
