-- ===== src/Proofs.antt =====
-- packages/proofs: the result package of a lookup, and its self-verification.
pub mod Verify
pub mod EndToEnd
mod Tests
use proveria.Common.{ℕ, Bool, Option, none, some, List, [], codes}
use proveria.Bytes.{Text}
use proveria.Crypto.Merkle.{Position}
use proveria.Manifest.{SignatureEntry, v1, sha256_name}

-- types.ts
pub data ResultType : Type 0 where
  match_result no_match_result : ResultType

pub record LookupScope : Type 0 where
  pub tenant_id : Text
  pub project_id : Text
  pub attestation_id : Text

pub record ResultAttestation : Type 0 where
  pub label : Text
  pub confirmed_at : Text
  pub merkle_root : Text
  pub protocol_version : Text

pub record PathStep : Type 0 where
  pub sibling : Text
  pub position : Position

pub record MatchPayload : Type 0 where
  pub leaf_id : Text
  pub leaf_type : Text
  pub source_extraction_method : Option Text
  pub preset : Option Text
  pub source_index : Option ℕ
  pub component_method : Option Text
  pub media_type : Option Text
  pub proof_path : List PathStep

pub record ResultPackage : Type 0 where
  pub schema_version : Text
  pub protocol_version : Text
  pub canonicalization_version : Text
  pub merkle_version : Text
  pub verifier_version : Text
  pub hash_algorithm : Text
  pub hash_algorithm_version : Text
  pub package_id : Text
  pub result_type : ResultType
  pub submitted_hash : Text
  pub lookup_scope : LookupScope
  pub attestation : ResultAttestation
  pub match : Option MatchPayload
  pub no_match_statement : Option Text
  pub signatures : List SignatureEntry
  pub created_at : Text

-- NO_MATCH_STATEMENT
abbrev pub no_match_text : Text
no_match_text = codes "This hash was not present in this specific attestation's committed hash set."

pub record BaseInput : Type 0 where
  pub package_id : Text
  pub submitted_hash : Text
  pub lookup_scope : LookupScope
  pub attestation : ResultAttestation
  pub created_at : Option Text

abbrev or_now : Option Text → Text → Text
or_now none now = now
or_now (some t) now = t

-- build.ts; `now` is the clock's text
unfoldable pub build_match_result_package : Text → BaseInput → MatchPayload → ResultPackage
build_match_result_package now input found = record {
  schema_version = v1;
  protocol_version = v1;
  canonicalization_version = v1;
  merkle_version = v1;
  verifier_version = v1;
  hash_algorithm = sha256_name;
  hash_algorithm_version = v1;
  package_id = input.package_id;
  result_type = match_result;
  submitted_hash = input.submitted_hash;
  lookup_scope = input.lookup_scope;
  attestation = input.attestation;
  match = some found;
  no_match_statement = none;
  signatures = [];
  created_at = or_now input.created_at now;
}

unfoldable pub build_no_match_result_package : Text → BaseInput → ResultPackage
build_no_match_result_package now input = record {
  schema_version = v1;
  protocol_version = v1;
  canonicalization_version = v1;
  merkle_version = v1;
  verifier_version = v1;
  hash_algorithm = sha256_name;
  hash_algorithm_version = v1;
  package_id = input.package_id;
  result_type = no_match_result;
  submitted_hash = input.submitted_hash;
  lookup_scope = input.lookup_scope;
  attestation = input.attestation;
  match = none;
  no_match_statement = some no_match_text;
  signatures = [];
  created_at = or_now input.created_at now;
}
