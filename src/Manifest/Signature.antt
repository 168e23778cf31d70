-- ===== src/Manifest/Signature.antt =====
-- packages/manifest/src/validate.ts: `verifyManifestSignature`.
use proveria.Common.{
  Bool, true, false, Option, none, some, List, [], ◌∷◌, codes, if◌then◌else◌, Result, ok, ◌>>=◌,
}
use proveria.Bytes.{Text}
use proveria.Json.{Json, string, object, array, Fields, elements}
use proveria.Json.Access.{get}
use proveria.Crypto.{Sha256}
use proveria.Crypto.Canonical.{CanonicalError}
use proveria.Crypto.Signing.{Ed25519, build_signing_digest}
use proveria.Manifest.Checks.{is_text}

-- `signatures.find((s) => s.signer_kind === signerKind)`
unfoldable pub find_signer : Text → List Json → Option Fields
find_signer kind [] = none
find_signer kind (object s ∷ rest) =
    let later = find_signer kind rest in
    if is_text (get s (codes "signer_kind")) kind then some s else later
find_signer kind (_ ∷ rest) = find_signer kind rest

-- `expectedKeyId === undefined || entry.key_id === expectedKeyId`
abbrev pub has_key : Option Text → Json → Bool
has_key none key_id = true
has_key (some expected) key_id = is_text key_id expected

abbrev pub signature_list : Json → List Json
signature_list (array xs) = elements xs
signature_list _ = []

module _ ⦃H : Sha256⦄ ⦃E : Ed25519⦄ where
  -- In a manifest that validation has accepted the signature is a text.
  unfoldable pub verify_text : Fields → Json → Text → Result CanonicalError Bool
  verify_text manifest (string signature) public_key = do
    signing ← build_signing_digest manifest
    ok (E.verify signing.digest signature public_key)
  verify_text manifest _ public_key = do signing ← build_signing_digest manifest; ok false

  unfoldable pub verify_manifest_signature :
      Fields → Text → Text → Option Text → Result CanonicalError Bool
  verify_manifest_signature manifest kind public_key expected_key_id =
      elim (find_signer kind (signature_list (get manifest (codes "signatures")))) [
        | none ↦ ok false
        | some entry ↦
            if is_text (get entry (codes "algorithm")) (codes "ed25519")
            then if has_key expected_key_id (get entry (codes "key_id"))
              then verify_text manifest (get entry (codes "signature")) public_key
              else ok false
            else ok false
      ]
