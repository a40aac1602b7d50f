-- ===== src/Sessions/Identity.antt =====
-- Which player a login is for: the checks in `network::login` of hexa/server/network.cpp.
use hexahedra.Base.{
  ℕ, ◌≡◌, ◌≢◌, ◌⊎◌, List, [], ◌∷◌, Option, none, some, Bool, true, false, ◌==◌, ◌&&◌, if◌then◌else◌,
  length,
}
use hexahedra.Wire.Endian.{ByteOrder, load}
use hexahedra.Wire.Sequences.{Text}
use hexahedra.Base58.{done, base58_error, carry_left, base58_decode}

-- What the logins use of the entity system, which is no part of the repository: the entities that
-- have a `c_player_uid`, each with its uid, in the order of `for_each`; a new entity; and
-- `set(e, c_player_uid, uid)`.
pub record EntitySystem (E : Type 0) : Type 0 where
  pub player_uids : E → List (ℕ × ℕ)
  pub new_entity : E → ℕ × E
  pub set_uid : ℕ → ℕ → E → E

-- An entity has a uid in such a list.
abbrev pub Has : ℕ → ℕ → List (ℕ × ℕ) → Type 0
Has e uid [] = ⊥
Has e uid (p ∷ ps) = ((p.0 ≡ e) × (p.1 ≡ uid)) ⊎ Has e uid ps

-- What the entity system promises: a new entity has no uid and no other entity is changed by it,
-- and setting the uid of an entity changes that one only.
pub record EntityLaws {E : Type 0} (system : EntitySystem E) : Type 0 where
  pub new_entity_uids :
      (es : E) → system.player_uids (system.new_entity es).1 ≡ system.player_uids es
  pub new_entity_unused :
      (es : E) (e uid : ℕ) → Has e uid (system.player_uids es) → e ≢ (system.new_entity es).0
  pub set_uid_self : (e uid : ℕ) (es : E) → Has e uid (system.player_uids (system.set_uid e uid es))
  pub set_uid_keeps :
      (e uid e' uid' : ℕ) (es : E)
      → e' ≢ e
      → Has e' uid' (system.player_uids es)
      → Has e' uid' (system.player_uids (system.set_uid e uid es))
  pub set_uid_cases :
      (e uid e' uid' : ℕ) (es : E)
      → Has e' uid' (system.player_uids (system.set_uid e uid es))
      → ((e' ≡ e) × (uid' ≡ uid)) ⊎ ((e' ≢ e) × Has e' uid' (system.player_uids es))

-- A property tree by its paths, as `get` finds them.
abbrev pub Ptree : Type 0
Ptree = Text → Option Text

-- The texts for which a player is kicked.
pub data KickReason : Type 0 where
  not_in_singleplayer_mode not_in_multiplayer_mode missing_uid not_a_login_method : KickReason

-- `assert_failed` is an assert in base58_decode.
pub data Identified (E : Type 0) : Type 0 where
  player : ℕ → E → Identified E
  refused : KickReason → Identified E
  assert_failed : Identified E

-- The keys and values that the logins use: "singleplayer", "ecdh", "method", "uid", "public_key".
abbrev pub singleplayer : Text
singleplayer = 115 ∷ 105 ∷ 110 ∷ 103 ∷ 108 ∷ 101 ∷ 112 ∷ 108 ∷ 97 ∷ 121 ∷ 101 ∷ 114 ∷ []

abbrev pub ecdh : Text
ecdh = 101 ∷ 99 ∷ 100 ∷ 104 ∷ []

abbrev pub method_key : Text
method_key = 109 ∷ 101 ∷ 116 ∷ 104 ∷ 111 ∷ 100 ∷ []

abbrev pub uid_key : Text
uid_key = 117 ∷ 105 ∷ 100 ∷ []

abbrev pub public_key_key : Text
public_key_key = 112 ∷ 117 ∷ 98 ∷ 108 ∷ 105 ∷ 99 ∷ 95 ∷ 107 ∷ 101 ∷ 121 ∷ []

-- `==` of strings
unfoldable pub is_same : Text → Text → Bool
is_same [] [] = true
is_same [] (b ∷ t) = false
is_same (a ∷ s) [] = false
is_same (a ∷ s) (b ∷ t) = (a == b) && is_same s t

-- `tree.get(path, otherwise)`
unfoldable pub get_or : Ptree → Text → Text → Text
get_or tree path otherwise = elim (tree path) [ none ↦ otherwise | some text ↦ text ]

-- The loop over the entities that have a uid: the last one with this uid.
unfoldable pub last_with : ℕ → List (ℕ × ℕ) → Option ℕ
last_with uid [] = none
last_with uid (p ∷ ps) = elim (last_with uid ps) [
  | some e ↦ some e
  | none ↦ if p.1 == uid then some p.0 else none
]

module _ {E : Type 0} ⦃system : EntitySystem E⦄ where
  -- The entity with the uid, or a new one that gets it.
  unfoldable pub find_or_add : ℕ → E → ℕ × E
  unfolding last_with
  find_or_add player_uid es = elim (last_with player_uid (system.player_uids es)) [
    | some e ↦ (e, es)
    | none ↦ let (e, es') = system.new_entity es in (e, system.set_uid e player_uid es')
  ]

module _ {E : Type 0} ⦃system : EntitySystem E⦄ ⦃host : ByteOrder⦄ where
  -- The uid is the memory of its eight bytes, taken as an integer.
  unfoldable pub identify_ecdh : Ptree → E → Identified E
  unfolding find_or_add base58_decode
  identify_ecdh tree es = elim (tree uid_key) [
    | none ↦ refused missing_uid
    | some text ↦ elim (base58_decode text) [
      | base58_error ↦ refused missing_uid
      | carry_left ↦ assert_failed
      | done uid ↦ elim (tree public_key_key) [
        | none ↦ refused missing_uid
        | some key ↦
            let (e, es') = find_or_add (load uid) es in
            if length uid == 8 then player e es' else refused missing_uid
      ]
    ]
  ]

  unfoldable pub identify : Text → Ptree → E → Identified E
  unfolding is_same get_or identify_ecdh
  identify mode tree es =
      let login_method = get_or tree method_key singleplayer in
      if is_same login_method singleplayer
      then (if is_same mode singleplayer then player 0 es else refused not_in_singleplayer_mode)
      else if is_same login_method ecdh
      then (if is_same mode singleplayer
          then refused not_in_multiplayer_mode
          else identify_ecdh tree es)
      else refused not_a_login_method
