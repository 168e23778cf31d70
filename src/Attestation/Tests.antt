-- ===== src/Attestation/Tests.antt =====
-- Runs of the lifecycle: a create and an upload, requests against a confirmed attestation, and a
-- validation that confirms.
use proveria.Common.{ℕ, err, ◌∷◌, ◌≡◌, refl, true, none, some, [], codes, ok}
use proveria.Bytes.{uint32be, bytes_equal, same_text, not_after, before}
use proveria.Bytes.Hex.{to_hex, from_hex, is_hex64}
use proveria.Json.Access.{get, set}
use proveria.Crypto.LeafHash.{compute_leaf_hash, is_leaf_type, includes, build_leaf_hash_input}
use proveria.Crypto.Merkle.{
  sort_and_validate_leaves, compute_merkle_root, hash_internal_node, build_next_level, climb,
  verify_merkle_proof, verify_steps,
}
use proveria.Manifest.Validate.{
  validate_manifest, hex_text, known_leaf_type, entry_hash, recompute_issues, entry_issues,
  leaf_issues, check_leaves, tally, is_number, counts_issues, entry_hashes, root_issues,
  signatures_issues, body_issues,
}
use proveria.Bytes.Utf8.{utf8}
use proveria.Common.Sort.{sort}
use proveria.Manifest.Checks.{
  head_issues, is_text, is_plain_object, is_non_empty_string, is_signer_kind, is_iso_8601,
  created_at_issues, required_issues, version_issues,
}
use proveria.Bytes.{Bytes, Text}
use proveria.Json.{string, object, array, items, Fields, end}
use proveria.Samples.{toy_hash, toy_ed25519}
use proveria.Samples.TwoLeaves.{two_leaves, texts}
use proveria.Manifest.Signature.{find_signer, verify_text, verify_manifest_signature}
use proveria.Crypto.Canonical.{
  canonicalize, canonicalize_to_string, canonical_items, canonical_fields, object_text,
}
use proveria.Crypto.Signing.{build_signing_digest}
use proveria.Json.Printing.{quote, integer_text}
use proveria.Attestation.{
  confirmed, validating, attempt_uploaded, Attestation, Attempt, World, insert_row,
}
use proveria.Attestation.Handlers.{
  NewAttestation, new_row, insert_attestation, upload_manifest, finalize, cancel,
  load_attestation_attempt, manifest_key,
}
use proveria.Attestation.Validation.{
  Services, validated, validate_attempt, conclude, checks, row_checks, id_checks, confirm,
  sibling_key,
}
use proveria.Attestation.Invariant.{IsConsistent}
use proveria.Attestation.Steps.{IsSound, created, uploads, cancels, finalizes, issues_receipt}
use proveria.Attestation.OtherWrites.{touched, issue_receipt}
use proveria.Attestation.Preserved.{Steps, none_taken, and_then, Steps-IsSound, Steps-confirmed}
use proveria.Attestation.Diagram.{Moves, Steps-Moves}
use proveria.Attestation.Validated.{IsAccepted, validate_attempt_sound}

opened : Unit {0}
unfolding uint32be bytes_equal same_text not_after before to_hex from_hex is_hex64 utf8 sort get
    is_leaf_type includes build_leaf_hash_input compute_leaf_hash sort_and_validate_leaves
    compute_merkle_root hash_internal_node build_next_level climb verify_merkle_proof verify_steps
    head_issues is_text is_plain_object is_non_empty_string is_signer_kind is_iso_8601
    created_at_issues required_issues version_issues hex_text known_leaf_type entry_hash
    recompute_issues entry_issues leaf_issues check_leaves tally is_number counts_issues
    entry_hashes root_issues signatures_issues body_issues validate_manifest insert_attestation
    upload_manifest finalize cancel load_attestation_attempt manifest_key validate_attempt conclude
    checks row_checks id_checks sibling_key verify_manifest_signature verify_text find_signer
    build_signing_digest canonicalize canonicalize_to_string canonical_items canonical_fields
    object_text quote set integer_text
opened = tt

abbrev new : NewAttestation
new = record {
  tenant_id = codes "t";
  project_id = codes "p";
  label = codes "l";
  description = none;
  user_id = codes "u";
  device_id = codes "d";
  source_metadata = end;
}

abbrev empty : World
empty = record {
  attestations = λ k. none;
  attempts = λ k. none;
  objects = [];
  jobs = [];
  audit = [];
  webhooks = [];
}

empty-IsSound : IsSound empty
empty-IsSound = record {
  linked = λ t a e live. absurd (cc e);
  single = λ s t a b e f live live' same. absurd (cc e);
}

abbrev begun : World
begun = insert_attestation (codes "a") (codes "b") new 1 empty

abbrev sent : World
sent = (upload_manifest (codes "d") (codes "a") (codes "b") two_leaves true 2 begun).1

create_then_upload : Steps empty sent
create_then_upload =
    and_then (and_then none_taken (created (codes "a") (codes "b") new 1 refl refl))
      (uploads (codes "d") (codes "a") (codes "b") two_leaves true 2)

sound_steps_example : IsConsistent sent.attestations sent.attempts
sound_steps_example = Steps-IsSound empty sent empty-IsSound create_then_upload

along_diagram_example :
    (next : Attestation) × (sent.attestations (codes "a") ≡ some next)
    × Moves (new_row new 1).state next.state
unfolding opened
along_diagram_example =
    Steps-Moves begun sent (codes "a") (new_row new 1)
      (Steps-IsSound empty begun empty-IsSound
        (and_then none_taken (created (codes "a") (codes "b") new 1 refl refl)))
      (and_then none_taken (uploads (codes "d") (codes "a") (codes "b") two_leaves true 2)) refl

abbrev row : Attestation
row = record {
  tenant_id = codes "t";
  project_id = codes "p";
  label = codes "l";
  description = none;
  created_by_user_id = codes "u";
  created_by_device_id = none;
  state = confirmed;
  confirmed_attempt_id = some (codes "b");
  merkle_root = some (string (codes "00"));
  manifest_object_key = some (codes "x/manifest.json");
  leaves_object_key = some (codes "x/leaves.jsonl");
  created_at = 1;
  updated_at = 4;
  confirmed_at = some 4;
  failed_at = none;
}

abbrev sealed : World
sealed = record {
  attestations = insert_row (codes "a") row (λ k. none);
  attempts = λ k. none;
  objects = [];
  jobs = [];
  audit = [];
  webhooks = [];
}

sealed-IsSound : IsSound sealed
sealed-IsSound = record {
  linked = λ t a e live. absurd (cc e);
  single = λ s t a b e f live live' same. absurd (cc e);
}

abbrev after_requests : World
after_requests =
    issue_receipt (codes "a") row 7
      (finalize (codes "d") (codes "a") (codes "b") (codes "r") 6
        (cancel (codes "d") (codes "a") 5 sealed).1).1

kept_example :
    (updated_at : ℕ) × (after_requests.attestations (codes "a") ≡ some (touched updated_at row))
unfolding opened
kept_example =
    Steps-confirmed sealed after_requests (codes "a") row sealed-IsSound
      (and_then
        (and_then (and_then none_taken (cancels (codes "d") (codes "a") 5))
          (finalizes (codes "d") (codes "a") (codes "b") (codes "r") 6))
        (issues_receipt (codes "a") row 7 refl))
      refl refl

abbrev device_row : Attestation
device_row = record {
  tenant_id = codes "t";
  project_id = codes "p";
  label = codes "l";
  description = none;
  created_by_user_id = codes "u";
  created_by_device_id = some (codes "d");
  state = validating;
  confirmed_attempt_id = none;
  merkle_root = none;
  manifest_object_key = none;
  leaves_object_key = none;
  created_at = 1;
  updated_at = 3;
  confirmed_at = none;
  failed_at = none;
}

abbrev attempt : Attempt
attempt = record {
  attestation_id = codes "a";
  state = attempt_uploaded;
  manifest_object_key = some (codes "x/manifest.json");
  leaves_object_key = none;
  validation_result_object_key = none;
  source_metadata = end;
  validation_error = none;
  created_at = 1;
  updated_at = 2;
  uploaded_at = some 2;
  validated_at = none;
  failed_at = none;
}

abbrev queued : World
queued = record {
  attestations = insert_row (codes "a") device_row (λ k. none);
  attempts = insert_row (codes "b") attempt (λ k. none);
  objects = [];
  jobs = [];
  audit = [];
  webhooks = [];
}

-- The canonical bytes of the manifest before it is signed.
abbrev unsigned_bytes : Bytes
unsigned_bytes = elim (canonicalize (object two_leaves)) [ ok bytes ↦ bytes | err x ↦ [] ]

abbrev signature_entry : Fields
signature_entry =
    texts
      ((codes "signer_kind", codes "device")
        ∷ (codes "key_id", codes "d")
        ∷ (codes "algorithm", codes "ed25519")
        ∷ (codes "signature", toy_ed25519.sign (toy_hash.digest unsigned_bytes) (codes "key"))
        ∷ [])
      end

abbrev signed_leaves : Fields
signed_leaves = set (codes "signatures") (array (items (object signature_entry ∷ []))) two_leaves

abbrev services : Services
services = record {
  fetch_manifest = λ key. ok key;
  parse_json = λ text. ok (object signed_leaves);
  parses_date = λ t. true;
  can_put = λ key. true;
  plan_of = λ t. none;
  devices = λ d. some (record { public_key = codes "key"; revoked_at = none });
}

abbrev result : World
result = confirm (codes "x/manifest.json") (codes "a") (codes "b") device_row signed_leaves 9 queued

confirms : validate_attempt services (codes "b") 9 queued ≡ ok (validated, result)
unfolding opened
confirms = refl

confirmed_example :
    (key : Text) × (m : Fields) × (end_row : Attestation) × (attempt.manifest_object_key ≡ some key)
    × IsAccepted services key (codes "a") (codes "b") device_row m
    × (result.attestations (codes "a") ≡ some end_row)
    × (end_row.state ≡ confirmed)
    × (end_row.confirmed_attempt_id ≡ some (codes "b"))
    × (end_row.merkle_root ≡ some (get m (codes "merkle_root")))
unfolding opened
confirmed_example =
    validate_attempt_sound services (codes "a") (codes "b") device_row attempt 9 queued result refl
      refl refl refl refl confirms
