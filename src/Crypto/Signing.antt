-- ===== src/Crypto/Signing.antt =====
-- packages/crypto-core/src/manifest-signing.ts and ed25519.ts: the digest that is signed, and the
-- signature scheme (WebCrypto's Ed25519, keys and signatures as base64url texts), which the model
-- takes as an instance argument.
use proveria.Common.{◌≡◌, refl, Bool, true, codes, Result, ok, ◌>>=◌}
use proveria.Bytes.{Bytes, Text}
use proveria.Json.{Json, object, array, nil, Fields}
use proveria.Json.Access.{set, set-set}
use proveria.Crypto.{Sha256}
use proveria.Crypto.Canonical.{CanonicalError, canonicalize}

-- Ed25519: what a private key signs its public key accepts. Nothing is assumed of forgeries.
pub record Ed25519 : Type 0 where
  pub sign : Bytes → Text → Text
  pub verify : Bytes → Text → Text → Bool
  pub public_key : Text → Text
  pub verify-sign : (m : Bytes) (k : Text) → verify m (sign m k) (public_key k) ≡ true

pub record SigningDigest : Type 0 where
  pub canonical_bytes : Bytes
  pub digest : Bytes

-- `{ ...manifest, signatures: [] }`
abbrev pub without_signatures : Fields → Json
without_signatures m = object (set (codes "signatures") (array nil) m)

unfoldable pub build_signing_digest : ⦃H : Sha256⦄ → Fields → Result CanonicalError SigningDigest
build_signing_digest ⦃H⦄ manifest = do
  bytes ← canonicalize (without_signatures manifest)
  ok (record { canonical_bytes = bytes; digest = H.digest bytes })

-- What is signed does not depend on the signatures that the document carries.
pub build_signing_digest-set :
    ⦃H : Sha256⦄
    → (m : Fields) (signatures : Json)
    → build_signing_digest (set (codes "signatures") signatures m) ≡ build_signing_digest m
unfolding build_signing_digest
build_signing_digest-set m signatures =
    rw (set-set (codes "signatures") (array nil) signatures m) refl
