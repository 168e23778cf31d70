-- ===== src/Entitlements/Creation.antt =====
-- POST /tenants/:slug/projects/:projectSlug/attestations in apps/api/src/attestations/routes.ts, behind the
-- check of the device's signature: the guards in their order, and the writes.
use proveria.Common.{
  ℕ, Bool, false, not, ◌&&◌, ◌||◌, Option, none, some, List, [], ◌∷◌, ◌++◌, codes, length, all, leb,
  ◌==◌, if◌then◌else◌, Result, ok, err, ◌>>◌,
}
use proveria.Bytes.{Text, same_text}
use proveria.Json.{Fields}
use proveria.Attestation.{Attestation, Attempt, AuditCall}
use proveria.Attestation.Handlers.{NewAttestation, new_row, new_attempt}
use proveria.Entitlements.{
  ProjectRow, LimitResult, Calendar, check_attestations_per_project_limit,
  check_monthly_attestation_limit,
}

-- The device's tenant, user and id come from the signature; the rest from the request.
pub record CreateRequest : Type 0 where
  pub tenant_id : Text
  pub tenant_slug : Text
  pub plan : Text
  pub user_id : Text
  pub device_id : Text
  pub slug : Text
  pub project_slug : Text
  pub label : Text
  pub description : Option Text
  pub source_metadata : Fields
  pub from_google_drive : Bool

pub record Tables : Type 0 where
  pub projects : List ProjectRow
  pub attestations : List (Text × Attestation)
  pub attempts : List (Text × Attempt)
  pub audit : List AuditCall

pub data Refusal : Type 0 where
  not_found : Refusal
  project_archived : Refusal
  invalid_label : Refusal
  label_taken : Refusal
  limit_reached : (error : Text) (limit current : ℕ) → Refusal

pub data CreateReply : Type 0 where
  refused : Refusal → CreateReply
  created : (attestation_id attempt_id : Text) → CreateReply

is_alphanumeric : ℕ → Bool
is_alphanumeric c =
    (leb b'a' c && leb c b'z') || (leb b'A' c && leb c b'Z') || (leb b'0' c && leb c b'9')

is_label_unit : ℕ → Bool
unfolding is_alphanumeric
is_label_unit c = is_alphanumeric c || c == 32 || c == b'_' || c == b'.' || c == b'-'

-- LABEL_RE: `/^[a-zA-Z0-9][a-zA-Z0-9 _.\-]{0,127}$/`
unfoldable pub is_label : Text → Bool
unfolding is_alphanumeric is_label_unit
is_label [] = false
is_label (c ∷ rest) = is_alphanumeric c && leb (length rest) 127 && all is_label_unit rest

-- The project of a tenant under a slug.
unfoldable pub find_project : List ProjectRow → (tenant_id slug : Text) → Option ProjectRow
find_project [] tenant_id slug = none
find_project (row ∷ rest) tenant_id slug =
    let later = find_project rest tenant_id slug in
    if same_text row.tenant_id tenant_id && same_text row.slug slug then some row else later

-- Whether a label of the project is taken.
unfoldable pub has_label : List (Text × Attestation) → (project_id label : Text) → Bool
has_label [] project_id label = false
has_label (row ∷ rest) project_id label =
    same_text (row.1).project_id project_id && same_text (row.1).label label
    || has_label rest project_id label

unfoldable pub open_project : Tables → CreateRequest → Result Refusal ProjectRow
unfolding find_project
open_project t r =
    if same_text r.tenant_slug r.slug
    then elim (find_project t.projects r.tenant_id r.project_slug) [
      | none ↦ err Refusal.not_found
      | some project ↦ elim project.archived_at [
        | some at ↦ err Refusal.project_archived
        | none ↦ ok project
      ]
    ]
    else err Refusal.not_found

unfoldable pub within : LimitResult → Result Refusal (Unit {0})
within LimitResult.allow = ok tt
within (LimitResult.deny error limit current) = err (Refusal.limit_reached error limit current)

-- The guards behind the project, in the order of the handler.
unfoldable pub label_and_caps :
    ⦃C : Calendar⦄ → Tables → CreateRequest → ProjectRow → ℕ → Result Refusal (Unit {0})
unfolding is_label has_label within check_attestations_per_project_limit
    check_monthly_attestation_limit
label_and_caps t r project now =
    if not (is_label r.label)
    then err Refusal.invalid_label
    else if has_label t.attestations project.id r.label
    then err Refusal.label_taken
    else within (check_attestations_per_project_limit t.attestations project.id r.plan)
      >> within (check_monthly_attestation_limit t.attestations r.tenant_id r.plan now)

abbrev pub new_attestation : CreateRequest → ProjectRow → NewAttestation
new_attestation r project = record {
  tenant_id = r.tenant_id;
  project_id = project.id;
  label = r.label;
  description = r.description;
  user_id = r.user_id;
  device_id = r.device_id;
  source_metadata = r.source_metadata;
}

abbrev pub creation_audit : CreateRequest → Text → Text → AuditCall
creation_audit r action attestation_id = record {
  tenant_id = r.tenant_id;
  actor_user_id = some r.user_id;
  actor_device_id = some r.device_id;
  action = action;
  target_type = codes "attestation";
  target_id = attestation_id;
}

-- The transaction and the audit events, the latest row first. The source leaves created_at to the
-- database's now(); here that is the time of the checks.
unfoldable pub insert_created :
    Tables → CreateRequest → ProjectRow → (attestation_id attempt_id : Text) → ℕ → Tables
insert_created t r project attestation_id attempt_id now = record {
  projects = t.projects;
  attestations = (attestation_id, new_row (new_attestation r project) now) ∷ t.attestations;
  attempts = (attempt_id, new_attempt attestation_id r.source_metadata now) ∷ t.attempts;
  audit =
      (if r.from_google_drive
        then creation_audit r (codes "attestation.source_google_drive_submitted") attestation_id
          ∷ []
        else [])
      ++ creation_audit r (codes "attestation.created") attestation_id ∷ t.audit;
}

unfoldable pub create :
    ⦃C : Calendar⦄
    → Tables
    → CreateRequest
    → (attestation_id attempt_id : Text) → ℕ
    → CreateReply × Tables
unfolding open_project label_and_caps insert_created
create t r attestation_id attempt_id now = elim (open_project t r) [
  | err refusal ↦ (CreateReply.refused refusal, t)
  | ok project ↦ elim (label_and_caps t r project now) [
    | err refusal ↦ (CreateReply.refused refusal, t)
    | ok _ ↦ (
      CreateReply.created attestation_id attempt_id,
      insert_created t r project attestation_id attempt_id now,
    )
  ]
]
