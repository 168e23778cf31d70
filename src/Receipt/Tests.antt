-- ===== src/Receipt/Tests.antt =====
-- A run of the receipt: built, signed, verified.
use proveria.Common.{◌≡◌, true, none, some, [], ◌∷◌, codes, ok, arith}
use proveria.Receipt.{AttestationReceipt, BuildAttestationReceiptInput, build_attestation_receipt}
use proveria.Receipt.Sign.{build_receipt_signing_digest, sign_receipt, verify_receipt}
use proveria.Receipt.RoundTrip.{AreSafe, verify_receipt-sign_receipt}
use proveria.Samples.{toy_hash, toy_ed25519}

abbrev input : BuildAttestationReceiptInput
input = record {
  package_id = codes "k";
  tenant_id = codes "t";
  project_id = codes "p";
  attestation_id = codes "a";
  attestation_label = codes "l";
  confirmed_attempt_id = codes "b";
  manifest_object_key = codes "o";
  manifest_canonical_sha256 = codes "00";
  merkle_root = codes "11";
  leaf_counts = record { file = 2; shingle = 0; component = 1 };
  extraction_methods = none;
  component_methods = some (codes "b" ∷ codes "a" ∷ []);
  hash_algorithm = codes "sha256";
  protocol_version = codes "1.0";
  device_signature = record { key_id = codes "d"; algorithm = codes "ed25519"; verified = true };
  confirmed_at = codes "c";
  issued_at = codes "i";
}

abbrev receipt : AttestationReceipt
receipt = build_attestation_receipt input

counts-AreSafe : AreSafe receipt.leaf_counts
unfolding build_attestation_receipt
counts-AreSafe = record { file = omega arith; shingle = omega arith; component = omega arith }

signed_receipt_example :
    (signed : AttestationReceipt) × (sign_receipt receipt (codes "key") (codes "secret")
      ≡ ok signed)
    × (verify_receipt signed (codes "secret") (some (codes "key")) ≡ ok true)
    × (build_receipt_signing_digest signed ≡ build_receipt_signing_digest receipt)
signed_receipt_example =
    verify_receipt-sign_receipt receipt (codes "key") (codes "secret") counts-AreSafe
