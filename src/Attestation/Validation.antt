-- ===== src/Attestation/Validation.antt =====
-- apps/worker/src/handlers/attestation-validation.ts: the validation of an uploaded attempt.
use proveria.Common.{
  ℕ, Bool, true, false, Option, none, some, List, [], ◌∷◌, ◌++◌, length, ◌==◌, if◌then◌else◌, codes,
  Result, ok, err, ◌>>=◌, ◌>>◌,
}
use proveria.Bytes.{Text, same_text}
use proveria.Json.{Json, object, Fields}
use proveria.Json.Access.{get}
use proveria.Crypto.{Error, Sha256}
use proveria.Crypto.Canonical.{CanonicalError}
use proveria.Crypto.Signing.{Ed25519}
use proveria.Crypto.LeafHash.{shingle_sha256_v1}
use proveria.Manifest.Checks.{is_text}
use proveria.Manifest.Validate.{leaf_list, validate_manifest}
use proveria.Manifest.Signature.{verify_manifest_signature}
use proveria.Attestation.{
  confirmed, failed_needs_review, AttemptState, attempt_validated, attempt_failed, ValidationError,
  manifest_fetch_failed, manifest_json_invalid, manifest_invalid, manifest_id_mismatch,
  shingling_not_in_plan, device_id_mismatch, device_not_found, device_revoked,
  device_signature_invalid, Attestation, Attempt, leaves_jsonl, validation_result_json, AuditCall,
  WebhookCall, World, update, is_attempt_uploaded, is_unconfirmed,
}

pub record Device : Type 0 where
  pub public_key : Text
  pub revoked_at : Option ℕ

-- What the job reads from the storage, the runtime and the tables that it does not write.
pub record Services : Type 0 where
  pub fetch_manifest : Text → Result Text Text
  pub parse_json : Text → Result Text Json
  pub parses_date : Text → Bool
  pub can_put : Text → Bool
  pub plan_of : Text → Option Text
  pub devices : Text → Option Device

-- What ends the job without an outcome.
pub data Thrown : Type 0 where
  put_failed : Text → Thrown
  hashing_failed : Error → Thrown
  canonical_failed : CanonicalError → Thrown

-- Why the checks stop.
pub data Stop : Type 0 where
  rejected : ValidationError → Stop
  thrown : Thrown → Stop

pub data ValidationResult : Type 0 where
  validated : ValidationResult
  failed : ValidationError → ValidationResult
  attempt_not_found attempt_missing_manifest_key attestation_not_found : ValidationResult
  attempt_not_in_uploaded_state : AttemptState → ValidationResult

-- `manifestObjectKey.replace(/[^/]+$/, filename)`: what stands up to the last slash.
up_to_slash : Text → Text
up_to_slash [] = []
up_to_slash (c ∷ rest) =
    let later = up_to_slash rest in
    if length later == 0 then if c == b'/' then c ∷ [] else [] else c ∷ later

unfoldable pub sibling_key : Text → Text → Text
unfolding up_to_slash
sibling_key key filename =
    if length (up_to_slash key) == length key then key else up_to_slash key ++ filename

-- Is a leaf of the set a shingle leaf?
abbrev pub has_shingle_leaves : List Json → Bool
has_shingle_leaves [] = false
has_shingle_leaves (object leaf ∷ rest) =
    let later = has_shingle_leaves rest in
    if is_text (get leaf (codes "leaf_type")) shingle_sha256_v1 then true else later
has_shingle_leaves (_ ∷ rest) = has_shingle_leaves rest

-- The first claimed id that is not the row's.
unfoldable pub id_checks : Fields → List (Text × Text) → Result Stop (Unit {0})
id_checks m [] = ok tt
id_checks m ((name, actual) ∷ rest) =
    let later = id_checks m rest in
    if is_text (get m name) actual
    then later
    else err (rejected (manifest_id_mismatch name (get m name) actual))

-- The ids that the manifest must claim.
abbrev pub row_ids : Text → Text → Attestation → List (Text × Text)
row_ids attestation_id attempt_id att =
    (codes "attestation_id", attestation_id)
    ∷ (codes "attempt_id", attempt_id)
    ∷ (codes "tenant_id", att.tenant_id)
    ∷ (codes "project_id", att.project_id)
    ∷ (codes "created_by_user_id", att.created_by_user_id)
    ∷ []

-- A value without issues is an object.
abbrev pub object_of : Json → Result Stop Fields
object_of (object m) = ok m
object_of _ = err (rejected (manifest_invalid []))

abbrev reject : ValidationError → Result Stop (Unit {0})
reject e = err (rejected e)

module _ ⦃H : Sha256⦄ ⦃E : Ed25519⦄ (S : Services) where
  abbrev pub fetched : Text → Result Stop Json
  fetched key = elim (S.fetch_manifest key) [
    | err e ↦ err (rejected (manifest_fetch_failed e))
    | ok text ↦ elim (S.parse_json text) [
      | err e ↦ err (rejected (manifest_json_invalid e))
      | ok v ↦ ok v
    ]
  ]

  -- The manifest that is left when there is no issue.
  abbrev pub structural : Json → Result Stop Fields
  structural v = elim (validate_manifest S.parses_date v) [
    | err e ↦ err (thrown (hashing_failed e))
    | ok (i ∷ issues) ↦ err (rejected (manifest_invalid (i ∷ issues)))
    | ok [] ↦ object_of v
  ]

  abbrev pub plan_gate : Fields → Text → Result Stop (Unit {0})
  plan_gate m tenant_id =
      if has_shingle_leaves (leaf_list (get m (codes "leaf_set")))
      then elim (S.plan_of tenant_id) [
        | none ↦ ok tt
        | some plan ↦ if same_text plan (codes "free") then reject shingling_not_in_plan else ok tt
      ]
      else ok tt

  abbrev pub device_checks : Fields → Text → Result Stop (Unit {0})
  device_checks m d =
      if is_text (get m (codes "created_by_device_id")) d
      then elim (S.devices d) [
        | none ↦ reject device_not_found
        | some device ↦ elim device.revoked_at [
          | some t ↦ reject device_revoked
          | none ↦ elim (verify_manifest_signature m (codes "device") device.public_key (some d)) [
            | err e ↦ err (thrown (canonical_failed e))
            | ok true ↦ ok tt
            | ok false ↦ reject device_signature_invalid
          ]
        ]
      ]
      else reject (device_id_mismatch (get m (codes "created_by_device_id")) d)

  -- An attestation of the public API has no device.
  abbrev pub signer_checks : Fields → Option Text → Result Stop (Unit {0})
  signer_checks m none = ok tt
  signer_checks m (some []) = ok tt
  signer_checks m (some (c ∷ d)) = device_checks m (c ∷ d)

  -- The checks of a manifest against the rows.
  unfoldable pub row_checks : Fields → Text → Text → Attestation → Result Stop (Unit {0})
  row_checks m attestation_id attempt_id att = do
    id_checks m (row_ids attestation_id attempt_id att)
    plan_gate m att.tenant_id
    signer_checks m att.created_by_device_id

  unfoldable pub checks : Text → Text → Text → Attestation → Result Stop Fields
  checks key attestation_id attempt_id att = do
    v ← fetched key
    m ← structural v
    row_checks m attestation_id attempt_id att
    ok m

abbrev pub validated_attempt : Text → Text → ℕ → Attempt → Attempt
validated_attempt leaves_key result_key now a = record {
  attestation_id = a.attestation_id;
  state = attempt_validated;
  manifest_object_key = a.manifest_object_key;
  leaves_object_key = some leaves_key;
  validation_result_object_key = some result_key;
  source_metadata = a.source_metadata;
  validation_error = a.validation_error;
  created_at = a.created_at;
  updated_at = now;
  uploaded_at = a.uploaded_at;
  validated_at = some now;
  failed_at = a.failed_at;
}

abbrev pub failed_attempt : ValidationError → Option Text → ℕ → Attempt → Attempt
failed_attempt error result_key now a = record {
  attestation_id = a.attestation_id;
  state = attempt_failed;
  manifest_object_key = a.manifest_object_key;
  leaves_object_key = a.leaves_object_key;
  validation_result_object_key = result_key;
  source_metadata = a.source_metadata;
  validation_error = some error;
  created_at = a.created_at;
  updated_at = now;
  uploaded_at = a.uploaded_at;
  validated_at = a.validated_at;
  failed_at = some now;
}

-- The confirmation, where `confirmedAt` is null.
abbrev pub confirmed_row : Text → Text → Text → Json → ℕ → Attestation → Attestation
confirmed_row attempt_id manifest_key leaves_key root now a =
    if is_unconfirmed a.confirmed_at
    then record {
      tenant_id = a.tenant_id;
      project_id = a.project_id;
      label = a.label;
      description = a.description;
      created_by_user_id = a.created_by_user_id;
      created_by_device_id = a.created_by_device_id;
      state = confirmed;
      confirmed_attempt_id = some attempt_id;
      merkle_root = some root;
      manifest_object_key = some manifest_key;
      leaves_object_key = some leaves_key;
      created_at = a.created_at;
      updated_at = now;
      confirmed_at = some now;
      failed_at = a.failed_at;
    }
    else a

-- The failure, whatever `confirmedAt` is.
abbrev pub failed_row : ℕ → Attestation → Attestation
failed_row now a = record {
  tenant_id = a.tenant_id;
  project_id = a.project_id;
  label = a.label;
  description = a.description;
  created_by_user_id = a.created_by_user_id;
  created_by_device_id = a.created_by_device_id;
  state = failed_needs_review;
  confirmed_attempt_id = a.confirmed_attempt_id;
  merkle_root = a.merkle_root;
  manifest_object_key = a.manifest_object_key;
  leaves_object_key = a.leaves_object_key;
  created_at = a.created_at;
  updated_at = now;
  confirmed_at = a.confirmed_at;
  failed_at = some now;
}

abbrev job_event : Attestation → Option Text → (action target_type target_id : Text) → AuditCall
job_event a device action target_type target_id = record {
  tenant_id = a.tenant_id;
  actor_user_id = none;
  actor_device_id = device;
  action = action;
  target_type = target_type;
  target_id = target_id;
}

abbrev webhook : Attestation → Text → Text → Text → ℕ → WebhookCall
webhook att event attestation_id attempt_id now = record {
  tenant_id = att.tenant_id;
  event_type = event;
  occurred_at = now;
  attestation_id = attestation_id;
  attempt_id = attempt_id;
}

-- What the job writes of a manifest that has passed all checks.
abbrev pub confirm : Text → Text → Text → Attestation → Fields → ℕ → World → World
confirm key attestation_id attempt_id att m now w =
    let root = get m (codes "merkle_root") in
    let leaves_key = sibling_key key (codes "leaves.jsonl") in
    let result_key = sibling_key key (codes "validation-result.json") in
    record {
      attestations =
          update attestation_id (confirmed_row attempt_id key leaves_key root now) w.attestations;
      attempts = update attempt_id (validated_attempt leaves_key result_key now) w.attempts;
      objects =
          (result_key, validation_result_json attestation_id attempt_id key (some root) none now)
          ∷ (leaves_key, leaves_jsonl (leaf_list (get m (codes "leaf_set"))))
          ∷ w.objects;
      jobs = w.jobs;
      audit =
          job_event att att.created_by_device_id (codes "attestation.confirmed")
            (codes "attestation") attestation_id
          ∷ job_event att att.created_by_device_id (codes "attestation.validated")
              (codes "submission_attempt") attempt_id
          ∷ w.audit;
      webhooks =
          webhook att (codes "attestation.confirmed") attestation_id attempt_id now ∷ w.webhooks;
    }

-- `fail`: the result document is written if the storage takes it.
abbrev pub fail : Bool → Text → Text → Text → Attestation → ValidationError → ℕ → World → World
fail written key attestation_id attempt_id att error now w =
    let result_key = sibling_key key (codes "validation-result.json") in
    let document = validation_result_json attestation_id attempt_id key none (some error) now in
    record {
      attestations = update attestation_id (failed_row now) w.attestations;
      attempts =
          update attempt_id (failed_attempt error (if written then some result_key else none) now)
            w.attempts;
      objects = if written then (result_key, document) ∷ w.objects else w.objects;
      jobs = w.jobs;
      audit =
          job_event att none (codes "attestation.validation_failed") (codes "submission_attempt")
            attempt_id
          ∷ w.audit;
      webhooks =
          webhook att (codes "attestation.failed") attestation_id attempt_id now ∷ w.webhooks;
    }

module _ ⦃H : Sha256⦄ ⦃E : Ed25519⦄ (S : Services) where
  -- Both objects are put before the tables are written.
  abbrev pub put_then : Text → World → Result Thrown (ValidationResult × World)
  put_then key after =
      let leaves_key = sibling_key key (codes "leaves.jsonl") in
      let result_key = sibling_key key (codes "validation-result.json") in
      if S.can_put leaves_key
      then if S.can_put result_key then ok (validated, after) else err (put_failed result_key)
      else err (put_failed leaves_key)

  unfoldable pub conclude :
      Result Stop Fields
      → Text
      → Text
      → Text
      → Attestation
      → ℕ
      → World
      → Result Thrown (ValidationResult × World)
  conclude (ok m) key attestation_id attempt_id att now w =
      put_then key (confirm key attestation_id attempt_id att m now w)
  conclude (err (rejected e)) key attestation_id attempt_id att now w =
      let written = S.can_put (sibling_key key (codes "validation-result.json")) in
      ok (failed e, fail written key attestation_id attempt_id att e now w)
  conclude (err (thrown t)) key attestation_id attempt_id att now w = err t

  unfoldable pub validate_attempt :
      (attempt_id : Text) → ℕ → World → Result Thrown (ValidationResult × World)
  validate_attempt attempt_id now w = elim (w.attempts attempt_id) [
    | none ↦ ok (attempt_not_found, w)
    | some attempt ↦
        if is_attempt_uploaded attempt.state
        then elim attempt.manifest_object_key [
          | none ↦ ok (attempt_missing_manifest_key, w)
          | some key ↦ elim (w.attestations attempt.attestation_id) [
            | none ↦ ok (attestation_not_found, w)
            | some att ↦
                conclude (checks S key attempt.attestation_id attempt_id att) key
                  attempt.attestation_id attempt_id att now w
          ]
        ]
        else ok (attempt_not_in_uploaded_state attempt.state, w)
  ]
