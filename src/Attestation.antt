-- ===== src/Attestation.antt =====
-- The lifecycle of an attestation: the rows of packages/db/src/schema/index.ts, the handlers of
-- apps/api/src/attestations/routes.ts (Handlers) and the validation job of
-- apps/worker/src/handlers/attestation-validation.ts (Validation).
pub mod Handlers
pub mod Validation
pub mod OtherWrites
pub mod Invariant
pub mod Steps
pub mod Confirmed
pub mod Preserved
pub mod Diagram
pub mod Validated
mod Tests
use mathlib.Core.Option
use proveria.Common.{
  ℕ, Bool, true, false, ◌||◌, Option, none, some, List, [], ◌∷◌, ◌++◌, if◌then◌else◌, codes,
}
use proveria.Bytes.{Text, same_text}
use proveria.Json.{Json, Fields, end, field, string}
use proveria.Manifest.Checks.{Issue}

pub data AttestationState : Type 0 where
  pending uploaded validating confirmed failed_needs_review canceled : AttestationState

pub data AttemptState : Type 0 where
  attempt_pending attempt_uploaded attempt_validated attempt_failed attempt_canceled : AttemptState

-- Why a validation failed, with the values that the error text shows.
pub data ValidationError : Type 0 where
  manifest_fetch_failed manifest_json_invalid : Text → ValidationError
  manifest_invalid : List Issue → ValidationError
  manifest_id_mismatch : Text → Json → Text → ValidationError
  shingling_not_in_plan : ValidationError
  device_id_mismatch : Json → Text → ValidationError
  device_not_found device_revoked device_signature_invalid : ValidationError

-- A row without its id, which is its key in the table, and without the columns that the lifecycle does
-- not touch.
pub record Attestation : Type 0 where
  pub tenant_id : Text
  pub project_id : Text
  pub label : Text
  pub description : Option Text
  pub created_by_user_id : Text
  pub created_by_device_id : Option Text
  pub state : AttestationState
  pub confirmed_attempt_id : Option Text
  pub merkle_root : Option Json
  pub manifest_object_key : Option Text
  pub leaves_object_key : Option Text
  pub created_at : ℕ
  pub updated_at : ℕ
  pub confirmed_at : Option ℕ
  pub failed_at : Option ℕ

pub record Attempt : Type 0 where
  pub attestation_id : Text
  pub state : AttemptState
  pub manifest_object_key : Option Text
  pub leaves_object_key : Option Text
  pub validation_result_object_key : Option Text
  pub source_metadata : Fields
  pub validation_error : Option ValidationError
  pub created_at : ℕ
  pub updated_at : ℕ
  pub uploaded_at : Option ℕ
  pub validated_at : Option ℕ
  pub failed_at : Option ℕ

-- What an object of the storage holds: the uploaded manifest, one leaf per line, the outcome.
pub data Artifact : Type 0 where
  manifest_json : Fields → Artifact
  leaves_jsonl : List Json → Artifact
  validation_result_json :
      (attestation_id attempt_id manifest_object_key : Text) (merkle_root : Option Json)
      (error : Option ValidationError) (completed_at : ℕ)
      → Artifact

pub record ValidationJob : Type 0 where
  pub attestation_id : Text
  pub attempt_id : Text
  pub request_id : Text

-- The argument of `writeAuditEvent`, without the category, which is always attestation_lifecycle, and
-- without the payload.
pub record AuditCall : Type 0 where
  pub tenant_id : Text
  pub actor_user_id : Option Text
  pub actor_device_id : Option Text
  pub action : Text
  pub target_type : Text
  pub target_id : Text

-- The argument of `createWebhookDeliveries`; of its data, the two ids.
pub record WebhookCall : Type 0 where
  pub tenant_id : Text
  pub event_type : Text
  pub occurred_at : ℕ
  pub attestation_id : Text
  pub attempt_id : Text

-- The tables that the lifecycle writes, and what it has sent out, the latest first.
pub record World : Type 0 where
  pub attestations : Text → Option Attestation
  pub attempts : Text → Option Attempt
  pub objects : List (Text × Artifact)
  pub jobs : List ValidationJob
  pub audit : List AuditCall
  pub webhooks : List WebhookCall

-- `update(table).set(change).where(eq(table.id, key))`
abbrev pub update {ℓ} : {A : Type ℓ} → Text → (A → A) → (Text → Option A) → Text → Option A
update key change table k = if same_text k key then Option.map change (table k) else table k

-- `insert(table).values(row)` with the id `key`
abbrev pub insert_row {ℓ} : {A : Type ℓ} → Text → A → (Text → Option A) → Text → Option A
insert_row key row table k = if same_text k key then some row else table k

-- `set({ state, updatedAt: now })`
abbrev pub move_to : AttestationState → ℕ → Attestation → Attestation
move_to next now a = record {
  tenant_id = a.tenant_id;
  project_id = a.project_id;
  label = a.label;
  description = a.description;
  created_by_user_id = a.created_by_user_id;
  created_by_device_id = a.created_by_device_id;
  state = next;
  confirmed_attempt_id = a.confirmed_attempt_id;
  merkle_root = a.merkle_root;
  manifest_object_key = a.manifest_object_key;
  leaves_object_key = a.leaves_object_key;
  created_at = a.created_at;
  updated_at = now;
  confirmed_at = a.confirmed_at;
  failed_at = a.failed_at;
}

abbrev pub is_attempt_pending : AttemptState → Bool
is_attempt_pending attempt_pending = true
is_attempt_pending _ = false

abbrev pub is_attempt_uploaded : AttemptState → Bool
is_attempt_uploaded attempt_uploaded = true
is_attempt_uploaded _ = false

abbrev pub is_cancellable : AttestationState → Bool
is_cancellable pending = true
is_cancellable uploaded = true
is_cancellable _ = false

abbrev pub is_failed : AttestationState → Bool
is_failed failed_needs_review = true
is_failed _ = false

abbrev pub is_unconfirmed : Option ℕ → Bool
is_unconfirmed none = true
is_unconfirmed (some t) = false
