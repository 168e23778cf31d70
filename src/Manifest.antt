-- ===== src/Manifest.antt =====
-- packages/manifest: the manifest that a producer uploads, how it is built and how it is validated.
pub mod Build
pub mod Checks
pub mod Validate
pub mod Entries
pub mod Sound
pub mod Signed
pub mod Signature
use proveria.Common.{ℕ, Option, none, some, List, codes}
use proveria.Bytes.{Text}
use proveria.Json.{Json, Fields}

-- types.ts. Objects that the code passes on unread are kept as their fields.
pub record LeafEntry : Type 0 where
  pub leaf_type : Text
  pub leaf_hash : Text
  pub canonical_payload_hash : Text
  pub metadata : Fields

pub record SignatureEntry : Type 0 where
  pub signer_kind : Text
  pub key_id : Text
  pub algorithm : Text
  pub signature : Text

pub record LeafCounts : Type 0 where
  pub file : ℕ
  pub shingle : ℕ
  pub component : ℕ

pub record Manifest : Type 0 where
  pub schema_version : Text
  pub protocol_version : Text
  pub canonicalization_version : Text
  pub merkle_version : Text
  pub hash_algorithm : Text
  pub hash_algorithm_version : Text
  pub shingling_version : Option Text
  pub ocr_extraction_version : Option Text
  pub tenant_id : Text
  pub project_id : Text
  pub attestation_id : Text
  pub attempt_id : Text
  pub created_by_user_id : Text
  pub created_by_device_id : Text
  pub created_by_profile_id : Text
  pub template_id : Option Text
  pub policy_context : Fields
  pub source_summary : Fields
  pub extraction_metadata : Fields
  pub leaf_set : List LeafEntry
  pub leaf_counts : LeafCounts
  pub merkle_root : Text
  pub signatures : List SignatureEntry
  pub created_at : Text

-- MANIFEST_V1_VERSIONS
abbrev pub v1 : Text
v1 = codes "1.0"

abbrev pub sha256_name : Text
sha256_name = codes "sha256"
