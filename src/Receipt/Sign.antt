-- ===== src/Receipt/Sign.antt =====
-- packages/receipt/src/sign.ts: signing a receipt and verifying its signature.
use proveria.Common.{
  Bool, false, not, Option, none, some, List, [], ◌∷◌, codes, if◌then◌else◌, Result, ok, ◌>>=◌,
}
use proveria.Bytes.{Text, same_text}
use proveria.Crypto.{Sha256}
use proveria.Crypto.Canonical.{CanonicalError, canonicalize}
use proveria.Crypto.Signing.{Ed25519, SigningDigest, without_signatures}
use proveria.Manifest.{SignatureEntry}
use proveria.Receipt.{AttestationReceipt, receipt_fields}

-- `signatures.find((s) => s.signer_kind === 'proveria')`
unfoldable pub find_proveria : List SignatureEntry → Option SignatureEntry
find_proveria [] = none
find_proveria (s ∷ rest) =
    let later = find_proveria rest in
    if same_text s.signer_kind (codes "proveria") then some s else later

-- `expectedKeyId !== undefined && sig.key_id !== expectedKeyId`
abbrev pub other_key : Option Text → Text → Bool
other_key none key_id = false
other_key (some expected) key_id = not (same_text key_id expected)

-- The entry that the signing functions write.
abbrev pub proveria_signature : Text → Text → SignatureEntry
proveria_signature key_id signature = record {
  signer_kind = codes "proveria";
  key_id = key_id;
  algorithm = codes "ed25519";
  signature = signature;
}

-- `{ ...receipt, signatures }`
abbrev pub with_signatures : AttestationReceipt → List SignatureEntry → AttestationReceipt
with_signatures receipt signatures = record {
  receipt_version = receipt.receipt_version;
  receipt_type = receipt.receipt_type;
  package_id = receipt.package_id;
  tenant_id = receipt.tenant_id;
  project_id = receipt.project_id;
  attestation_id = receipt.attestation_id;
  attestation_label = receipt.attestation_label;
  confirmed_attempt_id = receipt.confirmed_attempt_id;
  manifest_object_key = receipt.manifest_object_key;
  manifest_canonical_sha256 = receipt.manifest_canonical_sha256;
  merkle_root = receipt.merkle_root;
  leaf_counts = receipt.leaf_counts;
  extraction_methods = receipt.extraction_methods;
  component_methods = receipt.component_methods;
  hash_algorithm = receipt.hash_algorithm;
  protocol_version = receipt.protocol_version;
  device_signature = receipt.device_signature;
  confirmed_at = receipt.confirmed_at;
  issued_at = receipt.issued_at;
  signatures = signatures;
}

module _ ⦃H : Sha256⦄ ⦃E : Ed25519⦄ where
  unfoldable pub build_receipt_signing_digest :
      AttestationReceipt → Result CanonicalError SigningDigest
  build_receipt_signing_digest receipt = do
    bytes ← canonicalize (without_signatures (receipt_fields receipt))
    ok (record { canonical_bytes = bytes; digest = H.digest bytes })

  -- The private key is well-formed: the source throws at the import of another, which is not modelled.
  unfoldable pub sign_receipt :
      AttestationReceipt → Text → Text → Result CanonicalError AttestationReceipt
  sign_receipt receipt key_id private_key = do
    signing ← build_receipt_signing_digest receipt
    ok (
        with_signatures receipt
          (proveria_signature key_id (E.sign signing.digest private_key) ∷ []))

  -- What is left to do once an entry is found.
  unfoldable pub verify_entry :
      Option SignatureEntry → AttestationReceipt → Text → Option Text → Result CanonicalError Bool
  verify_entry none receipt public_key expected_key_id = ok false
  verify_entry (some sig) receipt public_key expected_key_id =
      if same_text sig.algorithm (codes "ed25519")
      then if other_key expected_key_id sig.key_id
        then ok false
        else build_receipt_signing_digest receipt
          >>= (λ signing. ok (E.verify signing.digest sig.signature public_key))
      else ok false

  unfoldable pub verify_receipt :
      AttestationReceipt → Text → Option Text → Result CanonicalError Bool
  verify_receipt receipt public_key expected_key_id =
      verify_entry (find_proveria receipt.signatures) receipt public_key expected_key_id
