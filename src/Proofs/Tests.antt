-- ===== src/Proofs/Tests.antt =====
-- Runs of the manifest validator and of the package verifier on a manifest with two leaves.
use proveria.Common.{◌≡◌, ◌⊎◌, refl, true, none, some, [], ◌∷◌, codes, ok}
use proveria.Bytes.{uint32be, bytes_equal, same_text, not_after, before}
use proveria.Bytes.Hex.{to_hex, from_hex, is_hex64}
use proveria.Json.{object, Fields}
use proveria.Json.Access.{get}
use proveria.Crypto.{Collision}
use proveria.Crypto.LeafHash.{
  file_sha256_v1, compute_leaf_hash, is_leaf_type, includes, build_leaf_hash_input,
}
use proveria.Crypto.Merkle.{
  left, sort_and_validate_leaves, compute_merkle_root, hash_internal_node, build_next_level, climb,
  verify_merkle_proof, verify_steps,
}
use proveria.Manifest.{v1}
use proveria.Manifest.Validate.{
  leaf_list, validate_manifest, hex_text, known_leaf_type, entry_hash, recompute_issues,
  entry_issues, leaf_issues, check_leaves, tally, is_number, counts_issues, entry_hashes,
  root_issues, signatures_issues, body_issues,
}
use proveria.Manifest.Sound.{IsValidManifest, validate_manifest_sound}
use proveria.Proofs.{MatchPayload, ResultPackage, BaseInput, build_match_result_package}
use proveria.Proofs.Verify.{verify_match_proof, verify_payload, verify_for}
use proveria.Proofs.EndToEnd.{
  IsCommitted, package_messages, manifest_messages, verify_match_proof_sound,
}
use proveria.Bytes.Utf8.{utf8}
use proveria.Common.Sort.{sort}
use proveria.Manifest.Checks.{
  head_issues, is_text, is_plain_object, is_non_empty_string, is_signer_kind, is_iso_8601,
  created_at_issues, required_issues, version_issues,
}
use proveria.Samples.{toy_hash}
use proveria.Samples.TwoLeaves.{payload, leaf_of, root, two_leaves}

opened : Unit {0}
unfolding uint32be bytes_equal same_text not_after before to_hex from_hex is_hex64 utf8 sort get
    is_leaf_type includes build_leaf_hash_input compute_leaf_hash sort_and_validate_leaves
    compute_merkle_root hash_internal_node build_next_level climb verify_merkle_proof verify_steps
    head_issues is_text is_plain_object is_non_empty_string is_signer_kind is_iso_8601
    created_at_issues required_issues version_issues hex_text known_leaf_type entry_hash
    recompute_issues entry_issues leaf_issues check_leaves tally is_number counts_issues
    entry_hashes root_issues signatures_issues body_issues validate_manifest
    build_match_result_package verify_payload verify_for verify_match_proof
opened = tt

abbrev found : MatchPayload
found = record {
  leaf_id = to_hex (leaf_of 2);
  leaf_type = file_sha256_v1;
  source_extraction_method = none;
  preset = none;
  source_index = none;
  component_method = none;
  media_type = none;
  proof_path = record { sibling = to_hex (leaf_of 1); position = left } ∷ [];
}

abbrev base : BaseInput
base = record {
  package_id = codes "k";
  submitted_hash = payload 2;
  lookup_scope = record {
    tenant_id = codes "t";
    project_id = codes "p";
    attestation_id = codes "a";
  };
  attestation = record {
    label = codes "l";
    confirmed_at = codes "c";
    merkle_root = to_hex root;
    protocol_version = v1;
  };
  created_at = none;
}

abbrev sample_package : ResultPackage
sample_package = build_match_result_package (codes "now") base found

accepts : validate_manifest (λ t. true) (object two_leaves) ≡ ok []
unfolding opened
accepts = refl

verifies : verify_match_proof sample_package ≡ ok true
unfolding opened
verifies = refl

sound_package_example :
    (shown : MatchPayload) × (sample_package.match ≡ some shown)
    × (IsCommitted
          (leaf_list (get two_leaves (codes "leaf_set")))
          shown.leaf_type
          (from_hex sample_package.submitted_hash)
        ⊎ Collision
            (package_messages sample_package shown)
            (manifest_messages (leaf_list (get two_leaves (codes "leaf_set")))))
unfolding opened
sound_package_example =
    verify_match_proof_sound (λ t. true) two_leaves sample_package accepts refl verifies

accepted_manifest_example : (m : Fields) × (object two_leaves ≡ object m) × IsValidManifest m
accepted_manifest_example = validate_manifest_sound (λ t. true) (object two_leaves) accepts
