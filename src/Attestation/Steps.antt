-- ===== src/Attestation/Steps.antt =====
-- The lifecycle as a step relation, and what each handler can do to the tables.
use proveria.Common.{
  ℕ, ◌≡◌, ◌⊎◌, refl, Bool, true, ◌&&◌, none, some, arith, inl, inr, Bool-cases, Option-cases, codes,
  Result, ok, err,
}
use proveria.Bytes.{Text}
use proveria.Bytes.Order.{same_text_iff}
use proveria.Json.{Json, Fields}
use proveria.Crypto.{Sha256}
use proveria.Crypto.Signing.{Ed25519}
use proveria.Attestation.{
  ValidationError, AttemptState, Attestation, Attempt, World, is_attempt_pending,
  is_attempt_uploaded, is_cancellable, is_failed,
}
use proveria.Attestation.Handlers.{
  NewAttestation, insert_attestation, load_attestation_attempt, is_device, upload_manifest,
  finalize, cancel, repair, store_manifest, enqueue_validation, cancel_rows, add_attempt,
}
use proveria.Attestation.Validation.{
  Services, ValidationResult, validated, failed, confirm, fail, Stop, rejected, thrown,
  validate_attempt, conclude, checks, sibling_key,
}
use proveria.Attestation.OtherWrites.{
  NewSubmission, insert_submission, submit_manifest, seed_confirmed, issue_receipt,
}
use proveria.Attestation.Invariant.{is_live, IsConsistent}

abbrev pub IsSound : World → Type 0
IsSound w = IsConsistent w.attestations w.attempts

-- One request that a handler serves, or one job that ends; what another request or job writes comes
-- before or after, and the separate writes of one handler are one step, but for a submission by API key
-- and the sample, whose rows another step can meet in between. The database draws ids that are in no row.
-- A submission and the sample move on the rows that they have inserted, which no other handler takes
-- meanwhile: a submission names no device, and nobody else has the key of the sample's. A job may be for
-- any attempt, enqueued or not.
module _ ⦃H : Sha256⦄ ⦃E : Ed25519⦄ where
  pub data Step (w : World) : World → Type 1 where
    created :
        (attestation_id attempt_id : Text) (n : NewAttestation) (now : ℕ)
        → w.attestations attestation_id ≡ none
        → w.attempts attempt_id ≡ none
        → Step w (insert_attestation attestation_id attempt_id n now w)
    uploads :
        (device attestation_id attempt_id : Text) (body : Fields) (storage_ok : Bool) (now : ℕ)
        → Step w (upload_manifest device attestation_id attempt_id body storage_ok now w).1
    finalizes :
        (device attestation_id attempt_id request_id : Text) (now : ℕ)
        → Step w (finalize device attestation_id attempt_id request_id now w).1
    cancels :
        (device attestation_id : Text) (now : ℕ) → Step w (cancel device attestation_id now w).1
    repairs :
        (device attestation_id attempt_id : Text) (project_exists : Bool) (now : ℕ)
        → w.attempts attempt_id ≡ none
        → Step w (repair device attestation_id attempt_id project_exists now w).1
    validates :
        (S : Services) (attempt_id : Text) (now : ℕ) (result : ValidationResult) (w' : World)
        → validate_attempt S attempt_id now w ≡ ok (result, w')
        → Step w w'
    inserts_submission :
        (attestation_id attempt_id : Text) (n : NewSubmission) (now : ℕ)
        → w.attestations attestation_id ≡ none
        → w.attempts attempt_id ≡ none
        → Step w (insert_submission attestation_id attempt_id n now w)
    submits :
        (attestation_id attempt_id request_id : Text) (att : Attestation) (attempt : Attempt)
        (body : Fields) (now : ℕ)
        → load_attestation_attempt w attestation_id attempt_id ≡ some (att, attempt)
        → is_attempt_pending attempt.state ≡ true
        → Step w (submit_manifest attestation_id attempt_id request_id att body now w)
    seeds :
        (attestation_id attempt_id : Text) (att : Attestation) (attempt : Attempt) (body : Fields)
        (root : Json) (now : ℕ)
        → load_attestation_attempt w attestation_id attempt_id ≡ some (att, attempt)
        → is_attempt_pending attempt.state ≡ true
        → Step w (seed_confirmed attestation_id attempt_id att body root now w)
    issues_receipt :
        (attestation_id : Text) (att : Attestation) (now : ℕ)
        → w.attestations attestation_id ≡ some att
        → Step w (issue_receipt attestation_id att now w)

-- What a load has found.
pub load_lem :
    (w : World) (k t : Text) {att : Attestation} {attempt : Attempt}
    → load_attestation_attempt w k t ≡ some (att, attempt)
    → (w.attestations k ≡ some att) × (w.attempts t ≡ some attempt) × (attempt.attestation_id ≡ k)
unfolding load_attestation_attempt
load_lem w k t e = elim (Option-cases (w.attestations k)) [
  | inl missing ↦ absurd (ground arith)
  | inr (x, row) ↦ elim (Option-cases (w.attempts t)) [
    | inl missing ↦ absurd (ground arith)
    | inr (y, found) ↦
        (ground arith, ground arith, ground (arith, same_text_iff y.attestation_id k))
  ]
]

pub live_of_pending : (s : AttemptState) → is_attempt_pending s ≡ true → is_live s ≡ true
live_of_pending s e = ground arith

pub live_of_uploaded : (s : AttemptState) → is_attempt_uploaded s ≡ true → is_live s ≡ true
live_of_uploaded s e = ground arith

-- A request changes nothing, or its guards have held.
pub upload_manifest-cases :
    (device k t : Text) (body : Fields) (storage_ok : Bool) (now : ℕ) (w : World)
    → ((upload_manifest device k t body storage_ok now w).1 ≡ w)
      ⊎ ((att : Attestation) × (attempt : Attempt) × (load_attestation_attempt w k t
            ≡ some (att, attempt))
          × (is_attempt_pending attempt.state ≡ true)
          × ((upload_manifest device k t body storage_ok now w).1
              ≡ store_manifest device k t att body now w))
unfolding upload_manifest
upload_manifest-cases device k t body storage_ok now w =
    elim (Option-cases (load_attestation_attempt w k t)) [
      | inl missing ↦ inl (rw (missing, upload_manifest) refl)
      | inr ((att, attempt), loaded) ↦
          elim (Bool-cases (
            is_device att.created_by_device_id device
            && is_attempt_pending attempt.state
            && storage_ok)) [
              | inl passed ↦ inr (att, attempt, loaded, ground arith, ground arith)
              | inr stopped ↦ inl (ground arith)
            ]
    ]

pub finalize-cases :
    (device k t request_id : Text) (now : ℕ) (w : World)
    → ((finalize device k t request_id now w).1 ≡ w)
      ⊎ ((att : Attestation) × (attempt : Attempt) × (load_attestation_attempt w k t
            ≡ some (att, attempt))
          × (is_attempt_uploaded attempt.state ≡ true)
          × ((finalize device k t request_id now w).1
              ≡ enqueue_validation device k t request_id att now w))
unfolding finalize
finalize-cases device k t request_id now w = elim (Option-cases (load_attestation_attempt w k t)) [
  | inl missing ↦ inl (rw (missing, finalize) refl)
  | inr ((att, attempt), loaded) ↦
      elim (Bool-cases
        (is_device att.created_by_device_id device && is_attempt_uploaded attempt.state)) [
          | inl passed ↦ inr (att, attempt, loaded, ground arith, ground arith)
          | inr stopped ↦ inl (ground arith)
        ]
]

pub cancel-cases :
    (device k : Text) (now : ℕ) (w : World)
    → ((cancel device k now w).1 ≡ w)
      ⊎ ((att : Attestation) × (w.attestations k ≡ some att)
          × (is_cancellable att.state ≡ true)
          × ((cancel device k now w).1 ≡ cancel_rows device k att now w))
unfolding cancel
cancel-cases device k now w = elim (Option-cases (w.attestations k)) [
  | inl missing ↦ inl (rw (missing, cancel) refl)
  | inr (att, row) ↦
      elim (Bool-cases (is_device att.created_by_device_id device && is_cancellable att.state)) [
        | inl passed ↦ inr (att, row, ground arith, ground arith)
        | inr stopped ↦ inl (ground arith)
      ]
]

pub repair-cases :
    (device k t : Text) (project_exists : Bool) (now : ℕ) (w : World)
    → ((repair device k t project_exists now w).1 ≡ w)
      ⊎ ((att : Attestation) × (w.attestations k ≡ some att)
          × (is_failed att.state ≡ true)
          × ((repair device k t project_exists now w).1 ≡ add_attempt device k t att now w))
unfolding repair
repair-cases device k t project_exists now w = elim (Option-cases (w.attestations k)) [
  | inl missing ↦ inl (rw (missing, repair) refl)
  | inr (att, row) ↦
      elim (Bool-cases
        (is_device att.created_by_device_id device && is_failed att.state && project_exists)) [
          | inl passed ↦ inr (att, row, ground arith, ground arith)
          | inr stopped ↦ inl (ground arith)
        ]
]

-- An attestation that has a live attempt.
pub record HasLive (w : World) (k t : Text) (att : Attestation) (attempt : Attempt) : Type 0 where
  pub row : w.attestations k ≡ some att
  pub found : w.attempts t ≡ some attempt
  pub mine : attempt.attestation_id ≡ k
  pub live : is_live attempt.state ≡ true

module _ ⦃H : Sha256⦄ ⦃E : Ed25519⦄ where
  -- A job that ends has changed nothing, or concludes for an uploaded attempt.
  pub validate_attempt-cases :
      (S : Services) (t : Text) (now : ℕ) (w w' : World) (result : ValidationResult)
      → validate_attempt S t now w ≡ ok (result, w')
      → (w' ≡ w)
        ⊎ ((k key : Text) × (att : Attestation) × (attempt : Attempt) × HasLive w k t att attempt
            × (conclude S (checks S key k t att) key k t att now w ≡ ok (result, w'))
            × (is_attempt_uploaded attempt.state ≡ true))
  unfolding validate_attempt
  validate_attempt-cases S t now w w' result e = elim (Option-cases (w.attempts t)) [
    | inl missing ↦ inl (ground arith)
    | inr (attempt, found) ↦ elim (Bool-cases (is_attempt_uploaded attempt.state)) [
      | inr other ↦ inl (ground arith)
      | inl up ↦ elim (Option-cases attempt.manifest_object_key) [
        | inl no_key ↦ inl (ground arith)
        | inr (key, has_key) ↦ elim (Option-cases (w.attestations attempt.attestation_id)) [
          | inl no_row ↦ inl (ground arith)
          | inr (att, row) ↦ inr (
            attempt.attestation_id,
            key,
            att,
            attempt,
            record { row = row; found = found; mine = refl; live = ground arith },
            ground arith,
            up,
          )
        ]
      ]
    ]
  ]

  -- The two ways to conclude.
  pub conclude-cases :
      (S : Services) (r : Result Stop Fields) (key k t : Text) (att : Attestation) (now : ℕ)
      (w w' : World) (result : ValidationResult)
      → conclude S r key k t att now w ≡ ok (result, w')
      → ((m : Fields) × (r ≡ ok m) × (result ≡ validated) × (w' ≡ confirm key k t att m now w))
        ⊎ ((error : ValidationError) × (r ≡ err (rejected error))
            × (result ≡ failed error)
            × (written : Bool) × (w' ≡ fail written key k t att error now w))
  unfolding conclude
  conclude-cases S (ok m) key k t att now w w' result e = inl (m, refl, ground arith, ground arith)
  conclude-cases S (err (rejected error)) key k t att now w w' result e = inr (
    error,
    refl,
    ground arith,
    S.can_put (sibling_key key (codes "validation-result.json")),
    ground arith,
  )
  conclude-cases S (err (thrown x)) key k t att now w w' result e = cc
