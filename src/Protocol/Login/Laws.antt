-- ===== src/Protocol/Login/Laws.antt =====
-- The contract of the client's session messages.
use hexahedra.Base.{refl}
use hexahedra.Wire.Endian.{ByteOrder}
use hexahedra.Wire.Scalars.{IsByte, IsU32}
use hexahedra.Wire.Laws.Defs.{Lawful}
use hexahedra.Wire.Laws.Combinators.{▸-Lawful, fields-Lawful}
use hexahedra.Wire.Laws.Scalars.{u8-Lawful, u32-Lawful}
use hexahedra.Wire.Laws.Elements.{IsText}
use hexahedra.Wire.Laws.Sequences.{string-Lawful}
use hexahedra.Protocol.Login.{Login, TimeSyncRequest, Console, login, time_sync_request, console}

abbrev pub LoginFits : Login → Type 0
LoginFits m = IsByte m.protocol_version × IsText m.credentials

abbrev pub TimeSyncRequestFits : TimeSyncRequest → Type 0
TimeSyncRequestFits m = IsU32 m.request

abbrev pub ConsoleFits : Console → Type 0
ConsoleFits m = IsText m.text

module _ ⦃host : ByteOrder⦄ where
  pub login-Lawful : Lawful login LoginFits
  unfolding login
  login-Lawful =
      fields-Lawful (▸-Lawful u8-Lawful string-Lawful)
        (λ t. record { protocol_version = t.0; credentials = t.1 })
        (λ m. (m.protocol_version, m.credentials)) refl (λ m h. (h.0, h.1)) (λ m h. refl)

  pub time_sync_request-Lawful : Lawful time_sync_request TimeSyncRequestFits
  unfolding time_sync_request
  time_sync_request-Lawful =
      fields-Lawful u32-Lawful (λ t. record { request = t }) (λ m. m.request) refl (λ m h. h)
        (λ m h. refl)

  pub console-Lawful : Lawful console ConsoleFits
  unfolding console
  console-Lawful =
      fields-Lawful string-Lawful (λ t. record { text = t }) (λ m. m.text) refl (λ m h. h)
        (λ m h. refl)
