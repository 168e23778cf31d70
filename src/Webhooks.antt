-- ===== src/Webhooks.antt =====
-- Webhooks: apps/api/src/webhooks/signing.ts and the same function in
-- apps/worker/src/handlers/webhook-events.ts. Verify is packages/sdk/src/webhooks.ts, with which a receiver
-- checks a delivery; Delivery is the worker's part.
pub mod Verify
pub mod Header
pub mod RoundTrip
pub mod Delivery
pub mod Sending
pub mod Retries
mod Tests
use proveria.Common.{ℕ, ◌<◌, ◌≡◌, Bool, List, [], ◌∷◌, ◌++◌, codes, length, All, Option}
use proveria.Bytes.{Bytes, Text, IsByte}
use proveria.Bytes.Hex.{to_hex}
use proveria.Bytes.Utf8.{utf8}
use proveria.Crypto.LeafHash.{includes}

-- `createHmac('sha256', secret).update(m).digest()`: 32 bytes, of which nothing else is assumed.
pub record Hmac : Type 0 where
  pub mac : Text → Bytes → Bytes
  pub length-mac : (k : Text) (m : Bytes) → length (mac k m) ≡ 32
  pub mac-IsByte : (k : Text) (m : Bytes) → All IsByte (mac k m)

-- `Date.parse`: milliseconds since 1970, if the text is a date from then on.
pub record Dates : Type 0 where
  pub parse : Text → Option ℕ

-- WEBHOOK_SUPPORTED_EVENTS
abbrev pub webhook_supported_events : List Text
webhook_supported_events =
    codes "attestation.confirmed" ∷ codes "attestation.failed" ∷ codes "receipt.issued" ∷ []

unfoldable pub is_webhook_event_type : Text → Bool
unfolding includes
is_webhook_event_type value = includes webhook_supported_events value

unfoldable pub sign_webhook_payload : ⦃M : Hmac⦄ → Text → Text → Text → Text
sign_webhook_payload ⦃M⦄ secret timestamp body =
    codes "t="
    ++ timestamp
    ++ codes ",v1="
    ++ to_hex (M.mac secret (utf8 (timestamp ++ codes "." ++ body)))
