-- ===== src/Attestation/OtherWrites.antt =====
-- What writes the rows of attestations and attempts besides the handlers of a device's requests and the
-- validation: a submission by API key (POST of an attestation in apps/api/src/public-v1/routes.ts), the
-- sample of a new workspace (apps/api/src/onboarding/seed-sample.ts), and the issue of a receipt
-- (apps/worker/src/handlers/receipt-generation.ts; of its writes only those on the modelled columns and
-- the audit log). Rendering a PDF writes none of the modelled columns.
use proveria.Common.{ℕ, Option, none, some, ◌∷◌, codes}
use proveria.Bytes.{Text}
use proveria.Json.{Json, Fields}
use proveria.Attestation.{
  pending, validating, confirmed, attempt_validated, Attestation, Attempt, AuditCall, World,
  manifest_json, update, insert_row, move_to,
}
use proveria.Attestation.Handlers.{new_attempt, uploaded_attempt, manifest_key}

-- What a submission by API key knows of the new attestation; `user_id` is who made the key.
pub record NewSubmission : Type 0 where
  pub tenant_id : Text
  pub project_id : Text
  pub label : Text
  pub description : Option Text
  pub user_id : Text
  pub source_metadata : Fields

-- It names no device, so that the handlers of devices refuse it.
abbrev pub submitted_row : NewSubmission → ℕ → Attestation
submitted_row n now = record {
  tenant_id = n.tenant_id;
  project_id = n.project_id;
  label = n.label;
  description = n.description;
  created_by_user_id = n.user_id;
  created_by_device_id = none;
  state = pending;
  confirmed_attempt_id = none;
  merkle_root = none;
  manifest_object_key = none;
  leaves_object_key = none;
  created_at = now;
  updated_at = now;
  confirmed_at = none;
  failed_at = none;
}

-- The first transaction of a submission.
abbrev pub insert_submission : Text → Text → NewSubmission → ℕ → World → World
insert_submission attestation_id attempt_id n now w = record {
  attestations = insert_row attestation_id (submitted_row n now) w.attestations;
  attempts = insert_row attempt_id (new_attempt attestation_id n.source_metadata now) w.attempts;
  objects = w.objects;
  jobs = w.jobs;
  audit = w.audit;
  webhooks = w.webhooks;
}

-- The actor of an event is the user who made the API key.
abbrev submission_event : Attestation → Text → AuditCall
submission_event att attestation_id = record {
  tenant_id = att.tenant_id;
  actor_user_id = some att.created_by_user_id;
  actor_device_id = none;
  action = codes "attestation.created";
  target_type = codes "attestation";
  target_id = attestation_id;
}

-- The rest of it: the manifest goes to the storage, the rows move on in one transaction, and the
-- validation is enqueued.
abbrev pub submit_manifest :
    (attestation_id attempt_id request_id : Text) → Attestation → Fields → ℕ → World → World
submit_manifest attestation_id attempt_id request_id att body now w =
    let key = manifest_key att.tenant_id att.project_id attestation_id attempt_id in
    record {
      attestations = update attestation_id (move_to validating now) w.attestations;
      attempts = update attempt_id (uploaded_attempt key now) w.attempts;
      objects = (key, manifest_json body) ∷ w.objects;
      jobs =
          record {
            attestation_id = attestation_id;
            attempt_id = attempt_id;
            request_id = request_id;
          }
          ∷ w.jobs;
      audit = submission_event att attestation_id ∷ w.audit;
      webhooks = w.webhooks;
    }

abbrev pub seeded_attempt : Text → ℕ → Attempt → Attempt
seeded_attempt key now a = record {
  attestation_id = a.attestation_id;
  state = attempt_validated;
  manifest_object_key = some key;
  leaves_object_key = a.leaves_object_key;
  validation_result_object_key = a.validation_result_object_key;
  source_metadata = a.source_metadata;
  validation_error = a.validation_error;
  created_at = a.created_at;
  updated_at = now;
  uploaded_at = some now;
  validated_at = some now;
  failed_at = a.failed_at;
}

abbrev pub seeded_row : Text → Text → Json → ℕ → Attestation → Attestation
seeded_row attempt_id key root now a = record {
  tenant_id = a.tenant_id;
  project_id = a.project_id;
  label = a.label;
  description = a.description;
  created_by_user_id = a.created_by_user_id;
  created_by_device_id = a.created_by_device_id;
  state = confirmed;
  confirmed_attempt_id = some attempt_id;
  merkle_root = some root;
  manifest_object_key = some key;
  leaves_object_key = a.leaves_object_key;
  created_at = a.created_at;
  updated_at = now;
  confirmed_at = some now;
  failed_at = a.failed_at;
}

-- The sample is confirmed without a validation.
abbrev pub seed_confirmed :
    (attestation_id attempt_id : Text) → Attestation → Fields → Json → ℕ → World → World
seed_confirmed attestation_id attempt_id att body root now w =
    let key = manifest_key att.tenant_id att.project_id attestation_id attempt_id in
    record {
      attestations = update attestation_id (seeded_row attempt_id key root now) w.attestations;
      attempts = update attempt_id (seeded_attempt key now) w.attempts;
      objects = (key, manifest_json body) ∷ w.objects;
      jobs = w.jobs;
      audit =
          record {
            tenant_id = att.tenant_id;
            actor_user_id = some att.created_by_user_id;
            actor_device_id = att.created_by_device_id;
            action = codes "attestation.confirmed";
            target_type = codes "attestation";
            target_id = attestation_id;
          }
          ∷ w.audit;
      webhooks = w.webhooks;
    }

-- `set({ ..., updatedAt: now })` on columns that are not modelled.
abbrev pub touched : ℕ → Attestation → Attestation
touched now a = record {
  tenant_id = a.tenant_id;
  project_id = a.project_id;
  label = a.label;
  description = a.description;
  created_by_user_id = a.created_by_user_id;
  created_by_device_id = a.created_by_device_id;
  state = a.state;
  confirmed_attempt_id = a.confirmed_attempt_id;
  merkle_root = a.merkle_root;
  manifest_object_key = a.manifest_object_key;
  leaves_object_key = a.leaves_object_key;
  created_at = a.created_at;
  updated_at = now;
  confirmed_at = a.confirmed_at;
  failed_at = a.failed_at;
}

abbrev pub issue_receipt : Text → Attestation → ℕ → World → World
issue_receipt attestation_id att now w = record {
  attestations = update attestation_id (touched now) w.attestations;
  attempts = w.attempts;
  objects = w.objects;
  jobs = w.jobs;
  audit =
      record {
        tenant_id = att.tenant_id;
        actor_user_id = none;
        actor_device_id = none;
        action = codes "receipt.issued";
        target_type = codes "attestation";
        target_id = attestation_id;
      }
      ∷ w.audit;
  webhooks = w.webhooks;
}
