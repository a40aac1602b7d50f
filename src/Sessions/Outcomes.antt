-- ===== src/Sessions/Outcomes.antt =====
-- What a login can end with: the branches of `network::login` of hexa/server/network.cpp.
use hexahedra.Base.{ℕ, ◌≡◌, refl, ◌⊎◌, inl, inr, Bool-cases, Option-cases, ◌==◌, length}
use hexahedra.Wire.Endian.{ByteOrder, load}
use hexahedra.Base58.{Outcome, done, base58_error, carry_left, base58_decode}
use hexahedra.Sessions.Identity.{
  EntitySystem, Ptree, KickReason, missing_uid, not_in_singleplayer_mode, not_in_multiplayer_mode,
  not_a_login_method, Identified, player, refused, assert_failed, singleplayer, ecdh, method_key,
  uid_key, public_key_key, is_same, get_or, find_or_add, identify_ecdh, identify,
}
use hexahedra.Wire.Sequences.{Text}

Outcome-cases :
    {A : Type 0} (o : Outcome A)
    → (((a : A) × (o ≡ done a)) ⊎ (o ≡ base58_error)) ⊎ (o ≡ carry_left)
Outcome-cases (done a) = inl (inl (a, refl))
Outcome-cases base58_error = inl (inr refl)
Outcome-cases carry_left = inr refl

module _ {E : Type 0} ⦃system : EntitySystem E⦄ ⦃host : ByteOrder⦄ where
  module _ (P : Identified E → Type 0) (es : E)
      (named : (uid : ℕ) → P (player (find_or_add uid es).0 (find_or_add uid es).1))
      (no : (why : KickReason) → P (refused why)) (stop : P assert_failed) where
    -- What holds of each way to end holds of a login with a uid.
    identify_ecdh-cases : (tree : Ptree) → P (identify_ecdh tree es)
    unfolding identify_ecdh
    identify_ecdh-cases tree = elim (Option-cases (tree uid_key)) [
      | inl h ↦ rw (identify_ecdh, h) (no missing_uid)
      | inr (text, h) ↦ elim (Outcome-cases (base58_decode text)) [
        | inl (inr g) ↦ rw (identify_ecdh, h) (rw g (no missing_uid))
        | inr g ↦ rw (identify_ecdh, h) (rw g stop)
        | inl (inl (uid, g)) ↦ elim (Option-cases (tree public_key_key)) [
          | inl k ↦ rw (identify_ecdh, h) (rw g (rw k (no missing_uid)))
          | inr (key, k) ↦ elim (Bool-cases (length uid == 8)) [
            | inl size ↦ rw (identify_ecdh, h) (rw g (rw k (rw size (named (load uid)))))
            | inr size ↦ rw (identify_ecdh, h) (rw g (rw k (rw size (no missing_uid))))
          ]
        ]
      ]
    ]

    pub identify-cases : (mode : Text) (tree : Ptree) → P (player 0 es) → P (identify mode tree es)
    unfolding identify
    identify-cases mode tree first =
        let login_method = get_or tree method_key singleplayer in
        elim (Bool-cases (is_same login_method singleplayer)) [
          | inl m ↦ elim (Bool-cases (is_same mode singleplayer)) [
            | inl w ↦ rw (identify, m) (rw w first)
            | inr w ↦ rw (identify, m) (rw w (no not_in_singleplayer_mode))
          ]
          | inr m ↦ elim (Bool-cases (is_same login_method ecdh)) [
            | inr n ↦ rw (identify, m) (rw n (no not_a_login_method))
            | inl n ↦ elim (Bool-cases (is_same mode singleplayer)) [
              | inl w ↦ rw (identify, m) (rw n (rw w (no not_in_multiplayer_mode)))
              | inr w ↦ rw (identify, m) (rw n (rw w (identify_ecdh-cases tree)))
            ]
          ]
        ]
