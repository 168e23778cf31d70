-- ===== src/Attestation/Handlers.antt =====
-- apps/api/src/attestations/routes.ts: the transaction of a create, upload-manifest, finalize, cancel
-- and repair. `device` is the id of the device that signed the request; `now` is the clock.
use proveria.Common.{
  ℕ, Bool, false, ◌&&◌, ◌||◌, Option, none, some, ◌∷◌, ◌++◌, if◌then◌else◌, codes, take,
}
use proveria.Bytes.{Text, same_text}
use proveria.Json.{Fields, end}
use proveria.Attestation.{
  AttestationState, pending, uploaded, validating, canceled, AttemptState, attempt_pending,
  attempt_uploaded, attempt_canceled, Attestation, Attempt, manifest_json, AuditCall, World, update,
  insert_row, move_to, is_attempt_pending, is_attempt_uploaded, is_cancellable, is_failed,
}

-- What a handler answers: success, or the status and the error.
pub data Reply : Type 0 where
  done : ℕ → Reply
  not_found wrong_device project_missing : Reply
  attempt_not_pending attempt_not_uploaded : AttemptState → Reply
  attestation_not_cancellable attestation_not_repairable : AttestationState → Reply
  storage_limit_exceeded : Reply

-- `attestation.createdByDeviceId !== device.id`
abbrev pub is_device : Option Text → Text → Bool
is_device none device = false
is_device (some d) device = same_text d device

-- What a create knows of the new attestation.
pub record NewAttestation : Type 0 where
  pub tenant_id : Text
  pub project_id : Text
  pub label : Text
  pub description : Option Text
  pub user_id : Text
  pub device_id : Text
  pub source_metadata : Fields

abbrev pub new_row : NewAttestation → ℕ → Attestation
new_row n now = record {
  tenant_id = n.tenant_id;
  project_id = n.project_id;
  label = n.label;
  description = n.description;
  created_by_user_id = n.user_id;
  created_by_device_id = some n.device_id;
  state = pending;
  confirmed_attempt_id = none;
  merkle_root = none;
  manifest_object_key = none;
  leaves_object_key = none;
  created_at = now;
  updated_at = now;
  confirmed_at = none;
  failed_at = none;
}

abbrev pub new_attempt : Text → Fields → ℕ → Attempt
new_attempt attestation_id source_metadata now = record {
  attestation_id = attestation_id;
  state = attempt_pending;
  manifest_object_key = none;
  leaves_object_key = none;
  validation_result_object_key = none;
  source_metadata = source_metadata;
  validation_error = none;
  created_at = now;
  updated_at = now;
  uploaded_at = none;
  validated_at = none;
  failed_at = none;
}

-- The rows that a create inserts in one transaction, under the ids that the database has drawn.
unfoldable pub insert_attestation :
    (attestation_id attempt_id : Text) → NewAttestation → ℕ → World → World
insert_attestation attestation_id attempt_id n now w = record {
  attestations = insert_row attestation_id (new_row n now) w.attestations;
  attempts = insert_row attempt_id (new_attempt attestation_id n.source_metadata now) w.attempts;
  objects = w.objects;
  jobs = w.jobs;
  audit = w.audit;
  webhooks = w.webhooks;
}

-- The attestation, and its attempt under that id.
unfoldable pub load_attestation_attempt : World → Text → Text → Option (Attestation × Attempt)
load_attestation_attempt w attestation_id attempt_id = elim (w.attestations attestation_id) [
  | none ↦ none
  | some attestation ↦ elim (w.attempts attempt_id) [
    | none ↦ none
    | some attempt ↦
        if same_text attempt.attestation_id attestation_id
        then some (attestation, attempt)
        else none
  ]
]

unfoldable pub manifest_key : (tenant project attestation attempt : Text) → Text
manifest_key tenant project attestation attempt =
    codes "tenants/"
    ++ tenant
    ++ codes "/projects/"
    ++ project
    ++ codes "/attestations/"
    ++ attestation
    ++ codes "/attempts/"
    ++ attempt
    ++ codes "/manifest.json"

abbrev pub uploaded_attempt : Text → ℕ → Attempt → Attempt
uploaded_attempt key now a = record {
  attestation_id = a.attestation_id;
  state = attempt_uploaded;
  manifest_object_key = some key;
  leaves_object_key = a.leaves_object_key;
  validation_result_object_key = a.validation_result_object_key;
  source_metadata = a.source_metadata;
  validation_error = a.validation_error;
  created_at = a.created_at;
  updated_at = now;
  uploaded_at = some now;
  validated_at = a.validated_at;
  failed_at = a.failed_at;
}

abbrev pub canceled_attempt : ℕ → Attempt → Attempt
canceled_attempt now a = record {
  attestation_id = a.attestation_id;
  state = attempt_canceled;
  manifest_object_key = a.manifest_object_key;
  leaves_object_key = a.leaves_object_key;
  validation_result_object_key = a.validation_result_object_key;
  source_metadata = a.source_metadata;
  validation_error = a.validation_error;
  created_at = a.created_at;
  updated_at = now;
  uploaded_at = a.uploaded_at;
  validated_at = a.validated_at;
  failed_at = a.failed_at;
}

abbrev device_event : Attestation → Text → (action target_type target_id : Text) → AuditCall
device_event a device action target_type target_id = record {
  tenant_id = a.tenant_id;
  actor_user_id = some a.created_by_user_id;
  actor_device_id = some device;
  action = action;
  target_type = target_type;
  target_id = target_id;
}

-- Writes behind the guards of upload-manifest. The source updates the two tables one after the other,
-- outside a transaction; here they change at once.
abbrev pub store_manifest : Text → Text → Text → Attestation → Fields → ℕ → World → World
store_manifest device attestation_id attempt_id att body now w =
    let key = manifest_key att.tenant_id att.project_id attestation_id attempt_id in
    record {
      attestations = update attestation_id (move_to uploaded now) w.attestations;
      attempts = update attempt_id (uploaded_attempt key now) w.attempts;
      objects = (key, manifest_json body) ∷ w.objects;
      jobs = w.jobs;
      audit =
          device_event att device (codes "attestation.manifest_uploaded")
            (codes "submission_attempt") attempt_id
          ∷ w.audit;
      webhooks = w.webhooks;
    }

-- `storage_ok` is the answer of `checkStorageLimit`.
unfoldable pub upload_manifest :
    (device attestation_id attempt_id : Text) (body : Fields) (storage_ok : Bool)
    → ℕ
    → World
    → Reply × World
upload_manifest device attestation_id attempt_id body storage_ok now w =
    elim (load_attestation_attempt w attestation_id attempt_id) [
      | none ↦ (not_found, w)
      | some (att, attempt) ↦
          if is_device att.created_by_device_id device
          then if is_attempt_pending attempt.state
            then if storage_ok
              then (done 200, store_manifest device attestation_id attempt_id att body now w)
              else (storage_limit_exceeded, w)
            else (attempt_not_pending attempt.state, w)
          else (wrong_device, w)
    ]

abbrev pub enqueue_validation : Text → Text → Text → Text → Attestation → ℕ → World → World
enqueue_validation device attestation_id attempt_id request_id att now w = record {
  attestations = update attestation_id (move_to validating now) w.attestations;
  attempts = w.attempts;
  objects = w.objects;
  jobs =
      record { attestation_id = attestation_id; attempt_id = attempt_id; request_id = request_id }
      ∷ w.jobs;
  audit =
      device_event att device (codes "attestation.finalized") (codes "submission_attempt")
        attempt_id
      ∷ w.audit;
  webhooks = w.webhooks;
}

unfoldable pub finalize :
    (device attestation_id attempt_id request_id : Text) → ℕ → World → Reply × World
finalize device attestation_id attempt_id request_id now w =
    elim (load_attestation_attempt w attestation_id attempt_id) [
      | none ↦ (not_found, w)
      | some (att, attempt) ↦
          if is_device att.created_by_device_id device
          then if is_attempt_uploaded attempt.state
            then (
              done 202,
              enqueue_validation device attestation_id attempt_id request_id att now w,
            )
            else (attempt_not_uploaded attempt.state, w)
          else (wrong_device, w)
    ]

-- The label that a canceled attestation keeps.
abbrev pub canceled_label : Text → Text → Text
canceled_label label id = label ++ codes "__canceled-" ++ take 8 id

abbrev pub canceled_row : Text → ℕ → Attestation → Attestation
canceled_row id now a = record {
  tenant_id = a.tenant_id;
  project_id = a.project_id;
  label = canceled_label a.label id;
  description = a.description;
  created_by_user_id = a.created_by_user_id;
  created_by_device_id = a.created_by_device_id;
  state = canceled;
  confirmed_attempt_id = a.confirmed_attempt_id;
  merkle_root = a.merkle_root;
  manifest_object_key = a.manifest_object_key;
  leaves_object_key = a.leaves_object_key;
  created_at = a.created_at;
  updated_at = now;
  confirmed_at = a.confirmed_at;
  failed_at = a.failed_at;
}

-- The attempts of an attestation that are 'pending' or 'uploaded' are canceled.
abbrev pub cancel_attempts : Text → ℕ → (Text → Option Attempt) → Text → Option Attempt
cancel_attempts attestation_id now attempts k = elim (attempts k) [
  | none ↦ none
  | some a ↦
      if same_text a.attestation_id attestation_id
        && (is_attempt_pending a.state || is_attempt_uploaded a.state)
      then some (canceled_attempt now a)
      else some a
]

abbrev pub cancel_rows : Text → Text → Attestation → ℕ → World → World
cancel_rows device attestation_id att now w = record {
  attestations = update attestation_id (canceled_row attestation_id now) w.attestations;
  attempts = cancel_attempts attestation_id now w.attempts;
  objects = w.objects;
  jobs = w.jobs;
  audit =
      device_event att device (codes "attestation.canceled") (codes "attestation") attestation_id
      ∷ w.audit;
  webhooks = w.webhooks;
}

unfoldable pub cancel : (device attestation_id : Text) → ℕ → World → Reply × World
cancel device attestation_id now w = elim (w.attestations attestation_id) [
  | none ↦ (not_found, w)
  | some att ↦
      if is_device att.created_by_device_id device
      then if is_cancellable att.state
        then (done 200, cancel_rows device attestation_id att now w)
        else (attestation_not_cancellable att.state, w)
      else (wrong_device, w)
]

-- Writes behind the guards of repair: an insert and an update, outside a transaction; here at once.
abbrev pub add_attempt : Text → Text → Text → Attestation → ℕ → World → World
add_attempt device attestation_id attempt_id att now w = record {
  attestations = update attestation_id (move_to pending now) w.attestations;
  attempts = insert_row attempt_id (new_attempt attestation_id end now) w.attempts;
  objects = w.objects;
  jobs = w.jobs;
  audit =
      device_event att device (codes "attestation.created") (codes "submission_attempt") attempt_id
      ∷ w.audit;
  webhooks = w.webhooks;
}

-- `attempt_id` is the id that the database has drawn; `project_exists` is the lookup of the project.
unfoldable pub repair :
    (device attestation_id attempt_id : Text) (project_exists : Bool) → ℕ → World → Reply × World
repair device attestation_id attempt_id project_exists now w =
    elim (w.attestations attestation_id) [
      | none ↦ (not_found, w)
      | some att ↦
          if is_device att.created_by_device_id device
          then if is_failed att.state
            then if project_exists
              then (done 201, add_attempt device attestation_id attempt_id att now w)
              else (project_missing, w)
            else (attestation_not_repairable att.state, w)
          else (wrong_device, w)
    ]
