-- ===== src/Receipt.antt =====
-- packages/receipt/src/types.ts and build.ts: the receipt of a confirmed attestation.
pub mod Sign
pub mod RoundTrip
mod Tests
use proveria.Common.{ℕ, Bool, Option, none, some, List, [], ◌∷◌, map, codes}
use proveria.Common.Sort.{sort}
use proveria.Bytes.{Text, not_after}
use proveria.Json.{
  pos, whole, Json, boolean, number, string, array, object, Fields, end, field, items,
}
use proveria.Manifest.{SignatureEntry, LeafCounts, v1}

pub record DeviceSignatureStatus : Type 0 where
  pub key_id : Text
  pub algorithm : Text
  pub verified : Bool

pub record AttestationReceipt : Type 0 where
  pub receipt_version : Text
  pub receipt_type : Text
  pub package_id : Text
  pub tenant_id : Text
  pub project_id : Text
  pub attestation_id : Text
  pub attestation_label : Text
  pub confirmed_attempt_id : Text
  pub manifest_object_key : Text
  pub manifest_canonical_sha256 : Text
  pub merkle_root : Text
  pub leaf_counts : LeafCounts
  pub extraction_methods : List Text
  pub component_methods : List Text
  pub hash_algorithm : Text
  pub protocol_version : Text
  pub device_signature : DeviceSignatureStatus
  pub confirmed_at : Text
  pub issued_at : Text
  pub signatures : List SignatureEntry

pub record BuildAttestationReceiptInput : Type 0 where
  pub package_id : Text
  pub tenant_id : Text
  pub project_id : Text
  pub attestation_id : Text
  pub attestation_label : Text
  pub confirmed_attempt_id : Text
  pub manifest_object_key : Text
  pub manifest_canonical_sha256 : Text
  pub merkle_root : Text
  pub leaf_counts : LeafCounts
  pub extraction_methods : Option (List Text)
  pub component_methods : Option (List Text)
  pub hash_algorithm : Text
  pub protocol_version : Text
  pub device_signature : DeviceSignatureStatus
  pub confirmed_at : Text
  pub issued_at : Text

-- `[...(methods ?? [])].sort()`
abbrev sorted_methods : Option (List Text) → List Text
sorted_methods none = []
sorted_methods (some methods) = sort not_after methods

unfoldable pub build_attestation_receipt : BuildAttestationReceiptInput → AttestationReceipt
build_attestation_receipt input = record {
  receipt_version = v1;
  receipt_type = codes "attestation";
  package_id = input.package_id;
  tenant_id = input.tenant_id;
  project_id = input.project_id;
  attestation_id = input.attestation_id;
  attestation_label = input.attestation_label;
  confirmed_attempt_id = input.confirmed_attempt_id;
  manifest_object_key = input.manifest_object_key;
  manifest_canonical_sha256 = input.manifest_canonical_sha256;
  merkle_root = input.merkle_root;
  leaf_counts = input.leaf_counts;
  extraction_methods = sorted_methods input.extraction_methods;
  component_methods = sorted_methods input.component_methods;
  hash_algorithm = input.hash_algorithm;
  protocol_version = input.protocol_version;
  device_signature = input.device_signature;
  confirmed_at = input.confirmed_at;
  issued_at = input.issued_at;
  signatures = [];
}

-- The receipt as the JavaScript object that it is.
abbrev pub strings : List Text → List Json
strings [] = []
strings (t ∷ ts) = string t ∷ strings ts

abbrev pub counts_json : LeafCounts → Json
counts_json c = object (
    field (codes "file") (number (whole (pos c.file))) (
      field (codes "shingle") (number (whole (pos c.shingle)))
        (field (codes "component") (number (whole (pos c.component))) end)))

abbrev pub signature_json : SignatureEntry → Json
signature_json s = object (
    field (codes "signer_kind") (string s.signer_kind) (
      field (codes "key_id") (string s.key_id) (
        field (codes "algorithm") (string s.algorithm)
          (field (codes "signature") (string s.signature) end))))

abbrev pub device_json : DeviceSignatureStatus → Json
device_json d = object (
    field (codes "key_id") (string d.key_id) (
      field (codes "algorithm") (string d.algorithm)
        (field (codes "verified") (boolean d.verified) end)))

abbrev pub text_fields : List (Text × Text) → Fields → Fields
text_fields [] rest = rest
text_fields ((k, v) ∷ kvs) rest = field k (string v) (text_fields kvs rest)

unfoldable pub receipt_fields : AttestationReceipt → Fields
receipt_fields r =
    text_fields
      ((codes "receipt_version", r.receipt_version)
        ∷ (codes "receipt_type", r.receipt_type)
        ∷ (codes "package_id", r.package_id)
        ∷ (codes "tenant_id", r.tenant_id)
        ∷ (codes "project_id", r.project_id)
        ∷ (codes "attestation_id", r.attestation_id)
        ∷ (codes "attestation_label", r.attestation_label)
        ∷ (codes "confirmed_attempt_id", r.confirmed_attempt_id)
        ∷ (codes "manifest_object_key", r.manifest_object_key)
        ∷ (codes "manifest_canonical_sha256", r.manifest_canonical_sha256)
        ∷ (codes "merkle_root", r.merkle_root)
        ∷ [])
      (field (codes "leaf_counts") (counts_json r.leaf_counts) (
        field (codes "extraction_methods") (array (items (strings r.extraction_methods))) (
          field (codes "component_methods") (array (items (strings r.component_methods))) (
            text_fields
              ((codes "hash_algorithm", r.hash_algorithm)
                ∷ (codes "protocol_version", r.protocol_version)
                ∷ [])
              (field (codes "device_signature") (device_json r.device_signature) (
                text_fields
                  ((codes "confirmed_at", r.confirmed_at) ∷ (codes "issued_at", r.issued_at) ∷ [])
                  (field (codes "signatures") (array (items (map signature_json r.signatures)))
                    end)))))))
