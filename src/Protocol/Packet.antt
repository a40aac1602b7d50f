-- ===== src/Protocol/Packet.antt =====
-- Packets: `serialize_packet` of hexa/protocol.hpp, and `make` of hexa/server/network.cpp.
pub mod Laws
use hexahedra.Base.{ℕ, List, [], ◌∷◌}
use hexahedra.Wire.Defs.{Result, ok, ◌>>=◌, Serial}

-- `msg::reliability`
pub data Reliability : Type 0 where
  sequenced reliable unreliable : Reliability

-- The type of the message, and its fields behind it.
unfoldable pub serialize_packet : {A : Type 0} → ℕ → Serial A → A → Result (List ℕ)
serialize_packet id s m = s.write m (id ∷ [])

-- A new message, read from the body of a packet.
unfoldable pub make : {A : Type 0} → Serial A → List ℕ → Result A
make s body = do (m, _) ← s.read s.fresh body; ok m
