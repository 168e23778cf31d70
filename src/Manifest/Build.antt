-- ===== src/Manifest/Build.antt =====
-- packages/manifest/src/build.ts: an unsigned manifest from leaf descriptors.
use proveria.Common.{
  ℕ, ◌+◌, Bool, Option, none, some, List, [], ◌∷◌, map, length, ◌==◌, if◌then◌else◌, Result, ok,
  err, ◌>>=◌,
}
use proveria.Common.Sort.{sort}
use proveria.Bytes.{Bytes, Text, not_after, same_text}
use proveria.Bytes.Hex.{to_hex, from_hex}
use proveria.Json.{Fields, end}
use proveria.Crypto.{Error, Sha256}
use proveria.Crypto.LeafHash.{
  LeafInput, compute_leaf_hash, file_sha256_v1, shingle_sha256_v1, component_sha256_v1,
}
use proveria.Crypto.Merkle.{compute_merkle_root}
use proveria.Manifest.{LeafEntry, LeafCounts, Manifest, v1, sha256_name}

pub record LeafDescriptor : Type 0 where
  pub leaf_type : Text
  pub canonical_payload_hash : Bytes
  pub metadata : Option Fields

-- `created_at` is the given time, or the text of the clock where the input names none.
pub record BuildManifestInput : Type 0 where
  pub tenant_id : Text
  pub project_id : Text
  pub attestation_id : Text
  pub attempt_id : Text
  pub created_by_user_id : Text
  pub created_by_device_id : Text
  pub created_by_profile_id : Text
  pub template_id : Option Text
  pub leaves : List LeafDescriptor
  pub policy_context : Option Fields
  pub source_summary : Fields
  pub extraction_metadata : Option Fields
  pub shingling_version : Option Text
  pub ocr_extraction_version : Option Text
  pub created_at : Option Text

pub data BuildError : Type 0 where
  zero_leaves : BuildError
  thrown : Error → BuildError

abbrev pub or_else {ℓ} : {A : Type ℓ} → Option A → A → A
or_else none d = d
or_else (some a) d = a

lift_error {ℓ} : {A : Type ℓ} → Result Error A → Result BuildError A
lift_error (ok a) = ok a
lift_error (err e) = err (thrown e)

count_type : Text → List LeafEntry → ℕ
count_type t [] = 0
count_type t (e ∷ rest) = (if same_text e.leaf_type t then 1 else 0) + count_type t rest

unfoldable pub tally_leaf_counts : List LeafEntry → LeafCounts
unfolding count_type
tally_leaf_counts entries = record {
  file = count_type file_sha256_v1 entries;
  shingle = count_type shingle_sha256_v1 entries;
  component = count_type component_sha256_v1 entries;
}

-- The order of `leafEntries.sort`.
abbrev pub entry_le : LeafEntry → LeafEntry → Bool
entry_le a b = not_after a.leaf_hash b.leaf_hash

abbrev pub leaf_hash_of : LeafEntry → Text
leaf_hash_of e = e.leaf_hash

module _ ⦃H : Sha256⦄ where
  abbrev pub descriptor_input : LeafDescriptor → LeafInput
  descriptor_input l = record {
    protocol_version = v1;
    leaf_type = l.leaf_type;
    hash_algorithm = sha256_name;
    canonical_payload_hash = l.canonical_payload_hash;
  }

  unfoldable pub leaf_entry : LeafDescriptor → Result Error LeafEntry
  leaf_entry l = do
    leaf_hash ← compute_leaf_hash (descriptor_input l)
    ok (record {
      leaf_type = l.leaf_type;
      leaf_hash = to_hex leaf_hash;
      canonical_payload_hash = to_hex l.canonical_payload_hash;
      metadata = or_else l.metadata end;
    })

  unfoldable pub leaf_entries : List LeafDescriptor → Result Error (List LeafEntry)
  leaf_entries [] = ok []
  leaf_entries (l ∷ rest) = do
    entry ← leaf_entry l
    entries ← leaf_entries rest
    ok (entry ∷ entries)

  unfoldable pub build_manifest : (now : Text) → BuildManifestInput → Result BuildError Manifest
  unfolding lift_error
  build_manifest now input = if length input.leaves == 0 then err zero_leaves else (do
    entries ← lift_error (leaf_entries input.leaves)
    let sorted = sort entry_le entries
    root ← lift_error (compute_merkle_root (map from_hex (map leaf_hash_of sorted)))
    ok (record {
      schema_version = v1;
      protocol_version = v1;
      canonicalization_version = v1;
      merkle_version = v1;
      hash_algorithm = sha256_name;
      hash_algorithm_version = v1;
      shingling_version = input.shingling_version;
      ocr_extraction_version = input.ocr_extraction_version;
      tenant_id = input.tenant_id;
      project_id = input.project_id;
      attestation_id = input.attestation_id;
      attempt_id = input.attempt_id;
      created_by_user_id = input.created_by_user_id;
      created_by_device_id = input.created_by_device_id;
      created_by_profile_id = input.created_by_profile_id;
      template_id = input.template_id;
      policy_context = or_else input.policy_context end;
      source_summary = input.source_summary;
      extraction_metadata = or_else input.extraction_metadata end;
      leaf_set = sorted;
      leaf_counts = tally_leaf_counts sorted;
      merkle_root = to_hex root;
      signatures = [];
      created_at = or_else input.created_at now;
    }))
