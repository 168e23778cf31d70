-- ===== src/Attestation/Diagram.antt =====
-- The lifecycle against the diagram of an attestation's states (apps/api/src/attestations/routes.ts and
-- apps/worker/src/handlers/attestation-validation.ts): rows stay, and their states move along it.
use proveria.Common.{
  ℕ, ◌≡◌, ◌∙◌, ◌⊎◌, sym, ap, subst, true, Option, some, arith, inl, inr, Bool-cases,
}
use proveria.Bytes.{Text, same_text}
use proveria.Bytes.Order.{same_text_iff}
use proveria.Json.{Json}
use proveria.Crypto.{Sha256}
use proveria.Crypto.Signing.{Ed25519}
use proveria.Attestation.{
  AttestationState, pending, uploaded, validating, confirmed, failed_needs_review, canceled,
  AttemptState, Attestation, World, update, move_to, is_cancellable, is_failed, is_unconfirmed,
  is_attempt_pending, is_attempt_uploaded,
}
use proveria.Attestation.Handlers.{insert_attestation, canceled_row}
use proveria.Attestation.Validation.{checks, confirmed_row, failed_row}
use proveria.Attestation.OtherWrites.{touched}
use proveria.Attestation.Invariant.{agrees, update-hit, update-miss}
use proveria.Attestation.Steps.{
  IsSound, Step, created, uploads, finalizes, cancels, repairs, validates, inserts_submission,
  submits, seeds, issues_receipt, HasLive, load_lem, live_of_pending, live_of_uploaded,
  upload_manifest-cases, finalize-cases, cancel-cases, repair-cases, validate_attempt-cases,
  conclude-cases,
}
use proveria.Attestation.Preserved.{live_agrees, Steps, none_taken, and_then, Steps-IsSound}

-- The diagram. The early edges stand for a job for an attempt that has been uploaded but not finalized,
-- which no request enqueues; Step does not rule it out.
pub data Move : AttestationState → AttestationState → Type 0 where
  stays : {s : AttestationState} → Move s s
  uploading : Move pending uploaded
  submitting : Move pending validating
  seeding : Move pending confirmed
  starting : Move uploaded validating
  confirming_early : Move uploaded confirmed
  confirming : Move validating confirmed
  failing_early : Move uploaded failed_needs_review
  failing : Move validating failed_needs_review
  canceling_pending : Move pending canceled
  canceling_uploaded : Move uploaded canceled
  reopening : Move failed_needs_review pending

pub data Moves (s : AttestationState) : AttestationState → Type 0 where
  at_start : Moves s s
  move_on : {t u : AttestationState} → Moves s t → Move t u → Moves s u

pending_of :
    (a : AttemptState) (s : AttestationState)
    → agrees a s ≡ true
    → is_attempt_pending a ≡ true
    → s ≡ pending
pending_of a s e p = ground arith

uploaded_of :
    (a : AttemptState) (s : AttestationState)
    → agrees a s ≡ true
    → is_attempt_uploaded a ≡ true
    → (s ≡ uploaded) ⊎ (s ≡ validating)
uploaded_of a s e p = ground arith

start-Move : (s : AttestationState) → (s ≡ uploaded) ⊎ (s ≡ validating) → Move s validating
start-Move s (inl e) = rw e starting
start-Move s (inr e) = rw e stays

confirm-Move : (s : AttestationState) → (s ≡ uploaded) ⊎ (s ≡ validating) → Move s confirmed
confirm-Move s (inl e) = rw e confirming_early
confirm-Move s (inr e) = rw e confirming

fail-Move : (s : AttestationState) → (s ≡ uploaded) ⊎ (s ≡ validating) → Move s failed_needs_review
fail-Move s (inl e) = rw e failing_early
fail-Move s (inr e) = rw e failing

cancel-Move : (s : AttestationState) → is_cancellable s ≡ true → Move s canceled
cancel-Move pending e = canceling_pending
cancel-Move uploaded e = canceling_uploaded
cancel-Move validating e = absurd (cc e)
cancel-Move confirmed e = absurd (cc e)
cancel-Move failed_needs_review e = absurd (cc e)
cancel-Move canceled e = absurd (cc e)

repair-Move : (s : AttestationState) → is_failed s ≡ true → Move s pending
repair-Move pending e = absurd (cc e)
repair-Move uploaded e = absurd (cc e)
repair-Move validating e = absurd (cc e)
repair-Move confirmed e = absurd (cc e)
repair-Move failed_needs_review e = reopening
repair-Move canceled e = absurd (cc e)

confirmed_row-Move :
    (t key leaves : Text) (root : Json) (now : ℕ) (a : Attestation)
    → Move a.state confirmed
    → Move a.state (confirmed_row t key leaves root now a).state
confirmed_row-Move t key leaves root now a m = elim (Bool-cases (is_unconfirmed a.confirmed_at)) [
  | inl e ↦ rw e m
  | inr e ↦ rw e stays
]

-- A row is still there, and its state has moved along the diagram.
IsRowMoved : (Text → Option Attestation) → Text → Attestation → Type 0
IsRowMoved T k att = (next : Attestation) × (T k ≡ some next) × Move att.state next.state

-- An update of a row, seen at any row.
update-IsRowMoved :
    (T : Text → Option Attestation) (k j : Text) (f : Attestation → Attestation)
    (att row : Attestation)
    → T k ≡ some att
    → T j ≡ some row
    → Move row.state (f row).state
    → IsRowMoved (update j f T) k att
unfolding IsRowMoved
update-IsRowMoved T k j f att row here there move = elim (Bool-cases (same_text k j)) [
  | inl same ↦
      let at_j = (same_text_iff k j).0 same in
      let one : row ≡ att = cc (here, there, at_j) in
      (
        f row,
        ap (update j f T) at_j ∙ update-hit j f T there,
        subst (λ x. Move (Attestation.state x) (f row).state) one move,
      )
  | inr other ↦ (att, update-miss j f T k (λ p. cc (other, (same_text_iff k j).1 p)) ∙ here, stays)
]

unchanged :
    (w w' : World) (k : Text) (att : Attestation)
    → w' ≡ w
    → w.attestations k ≡ some att
    → IsRowMoved w'.attestations k att
unfolding IsRowMoved
unchanged w w' k att same row = (att, ap (λ x. World.attestations x k) same ∙ row, stays)

changed :
    (w w' : World) (k j : Text) (f : Attestation → Attestation) (att row : Attestation)
    → w'.attestations ≡ update j f w.attestations
    → w.attestations k ≡ some att
    → w.attestations j ≡ some row
    → Move row.state (f row).state
    → IsRowMoved w'.attestations k att
changed w w' k j f att row same here there move =
    subst (λ T. IsRowMoved T k att) (sym same)
      (update-IsRowMoved w.attestations k j f att row here there move)

submit-Move : (s : AttestationState) → s ≡ pending → Move s validating
submit-Move s e = rw e submitting

seed-Move : (s : AttestationState) → s ≡ pending → Move s confirmed
seed-Move s e = rw e seeding

upload-Move : (s : AttestationState) → s ≡ pending → Move s uploaded
upload-Move s e = rw e uploading

module _ ⦃H : Sha256⦄ ⦃E : Ed25519⦄ where
  Step-IsMoved :
      (w w' : World) (k : Text) (att : Attestation)
      → IsSound w
      → Step w w'
      → w.attestations k ≡ some att
      → IsRowMoved w'.attestations k att
  unfolding IsRowMoved insert_attestation
  Step-IsMoved w w' k att c (created id t n now fresh fresh_attempt) row =
      elim (Bool-cases (same_text k id)) [
        | inl same ↦ absurd (ground (arith, (same_text_iff k id).0 same))
        | inr other ↦ (att, rw other row, stays)
      ]
  Step-IsMoved w w' k att c (uploads device j t body ok_size now) row =
      elim (upload_manifest-cases device j t body ok_size now w) [
        | inl same ↦ unchanged w w' k att same row
        | inr (x, attempt, loaded, state, same) ↦
            let (there, found, mine) = load_lem w j t loaded in
            let live : HasLive w j t x attempt = record {
              row = there;
              found = found;
              mine = mine;
              live = live_of_pending _ state;
            } in
            changed w w' k j (move_to uploaded now) att x (ap (λ y. World.attestations y) same) row
              there
              (upload-Move x.state (pending_of _ _ (live_agrees w j t x attempt c live) state))
      ]
  Step-IsMoved w w' k att c (finalizes device j t request_id now) row =
      elim (finalize-cases device j t request_id now w) [
        | inl same ↦ unchanged w w' k att same row
        | inr (x, attempt, loaded, state, same) ↦
            let (there, found, mine) = load_lem w j t loaded in
            let live : HasLive w j t x attempt = record {
              row = there;
              found = found;
              mine = mine;
              live = live_of_uploaded _ state;
            } in
            changed w w' k j (move_to validating now) att x (ap (λ y. World.attestations y) same)
              row there
              (start-Move x.state (uploaded_of _ _ (live_agrees w j t x attempt c live) state))
      ]
  Step-IsMoved w w' k att c (cancels device j now) row = elim (cancel-cases device j now w) [
    | inl same ↦ unchanged w w' k att same row
    | inr (x, there, state, same) ↦
        changed w w' k j (canceled_row j now) att x (ap (λ y. World.attestations y) same) row there
          (cancel-Move x.state state)
  ]
  Step-IsMoved w w' k att c (repairs device j t project_exists now fresh) row =
      elim (repair-cases device j t project_exists now w) [
        | inl same ↦ unchanged w w' k att same row
        | inr (x, there, state, same) ↦
            changed w w' k j (move_to pending now) att x (ap (λ y. World.attestations y) same) row
              there (repair-Move x.state state)
      ]
  Step-IsMoved w w' k att c (validates S t now result after e) row =
      elim (validate_attempt-cases S t now w w' result e) [
        | inl same ↦ unchanged w w' k att same row
        | inr (j, key, x, attempt, live, concluded, state) ↦
            let ready = uploaded_of _ _ (live_agrees w j t x attempt c live) state in
            elim (conclude-cases S (checks S key j t x) key j t x now w w' result concluded) [
              | inl (m, checked, is_valid, same) ↦
                  changed w w' k j _ att x (ap (λ y. World.attestations y) same) row live.row
                    (confirmed_row-Move t key _ _ now x (confirm-Move x.state ready))
              | inr (error, stopped, is_failure, written, same) ↦
                  changed w w' k j (failed_row now) att x (ap (λ y. World.attestations y) same) row
                    live.row (fail-Move x.state ready)
            ]
      ]
  Step-IsMoved w w' k att c (inserts_submission id t n now fresh fresh_attempt) row =
      elim (Bool-cases (same_text k id)) [
        | inl same ↦ absurd (ground (arith, (same_text_iff k id).0 same))
        | inr other ↦ (att, rw other row, stays)
      ]
  Step-IsMoved w w' k att c (submits j t request_id x attempt body now loaded state) row =
      let (there, found, mine) = load_lem w j t loaded in
      let live : HasLive w j t x attempt = record {
        row = there;
        found = found;
        mine = mine;
        live = live_of_pending _ state;
      } in
      update-IsRowMoved w.attestations k j (move_to validating now) att x row there
        (submit-Move x.state (pending_of _ _ (live_agrees w j t x attempt c live) state))
  Step-IsMoved w w' k att c (seeds j t x attempt body root now loaded state) row =
      let (there, found, mine) = load_lem w j t loaded in
      let live : HasLive w j t x attempt = record {
        row = there;
        found = found;
        mine = mine;
        live = live_of_pending _ state;
      } in
      update-IsRowMoved w.attestations k j _ att x row there
        (seed-Move x.state (pending_of _ _ (live_agrees w j t x attempt c live) state))
  Step-IsMoved w w' k att c (issues_receipt j x now there) row =
      update-IsRowMoved w.attestations k j (touched now) att x row there stays

  -- From a world in which attempts and attestations agree, no number of requests and jobs removes an
  -- attestation, and its state only moves along the edges of the diagram: pending to uploaded, to
  -- validating (by API key) and to confirmed (a new workspace's sample); uploaded to validating; uploaded
  -- or validating to confirmed or failed_needs_review; pending or uploaded to canceled;
  -- failed_needs_review to pending. A job may be for any uploaded attempt, enqueued or not: the edges from
  -- uploaded to confirmed and to failed_needs_review are for those that are not.
  pub Steps-Moves :
      (w w' : World) (k : Text) (att : Attestation)
      → IsSound w
      → Steps w w'
      → w.attestations k ≡ some att
      → (next : Attestation) × (w'.attestations k ≡ some next) × Moves att.state next.state
  unfolding IsRowMoved
  Steps-Moves w w' k att c none_taken row = (att, row, at_start)
  Steps-Moves w w' k att c (and_then {w' = v} steps step) row =
      let (mid, there, moves) = Steps-Moves w v k att c steps row in
      let (next, row', move) = Step-IsMoved v w' k mid (Steps-IsSound w v c steps) step there in
      (next, row', move_on moves move)
