-- ===== src/Attestation/Confirmed.antt =====
-- Every step of the lifecycle keeps attempts and attestations in agreement, and a confirmed
-- attestation as it is.
use proveria.Common.{ℕ, ◌≡◌, ◌≢◌, ◌∙◌, sym, ap, true, Option, some, arith, inl, inr, Bool-cases}
use proveria.Bytes.{Text, same_text}
use proveria.Bytes.Order.{same_text_iff}
use proveria.Crypto.{Sha256}
use proveria.Crypto.Signing.{Ed25519}
use proveria.Attestation.{
  AttestationState, pending, uploaded, validating, confirmed, Attestation, Attempt, World, update,
  move_to, is_cancellable, is_failed,
}
use proveria.Attestation.Handlers.{insert_attestation, canceled_row}
use proveria.Attestation.Validation.{checks, failed_row}
use proveria.Attestation.OtherWrites.{touched}
use proveria.Attestation.Invariant.{agrees, update-hit, update-miss}
use proveria.Attestation.Steps.{
  IsSound, Step, created, uploads, finalizes, cancels, repairs, validates, inserts_submission,
  submits, seeds, issues_receipt, HasLive, load_lem, live_of_pending, live_of_uploaded,
  upload_manifest-cases, finalize-cases, cancel-cases, repair-cases, validate_attempt-cases,
  conclude-cases,
}

-- An attestation with a live attempt is not confirmed.
not_confirmed :
    (w : World) (k t : Text) (att : Attestation) (attempt : Attempt)
    → IsSound w
    → HasLive w k t att attempt
    → att.state ≢ confirmed
not_confirmed w k t att attempt c h is_confirmed =
    let (x, row, agree) = c.linked t attempt h.found h.live in
    let same : x ≡ att = cc (row, ap w.attestations h.mine, h.row) in
    let wrong : agrees attempt.state confirmed ≡ true =
      ap (agrees attempt.state) (sym (ap (λ y. y.state) same ∙ is_confirmed)) ∙ agree in
    absurd (ground arith)

-- An update of a row that is not confirmed leaves a confirmed one alone.
update-confirmed :
    (T : Text → Option Attestation) (k j : Text) (f : Attestation → Attestation)
    (att row : Attestation)
    → T k ≡ some att
    → att.state ≡ confirmed
    → T j ≡ some row
    → row.state ≢ confirmed
    → update j f T k ≡ some att
update-confirmed T k j f att row here is_confirmed there other =
    update-miss j f T k (λ same. other (ap (λ x. x.state) (same_row same) ∙ is_confirmed)) ∙ here
  where
    same_row : k ≡ j → row ≡ att
    same_row same = cc (here, there, same)

-- A row is kept, but for the time of its last update.
abbrev pub IsKept : (Text → Option Attestation) → Text → Attestation → Type 0
IsKept T k att = (updated_at : ℕ) × (T k ≡ some (touched updated_at att))

update-hit-at :
    (k j : Text) (now : ℕ) (T : Text → Option Attestation) {att : Attestation}
    → k ≡ j
    → T k ≡ some att
    → update j (touched now) T k ≡ some (touched now att)
update-hit-at k j now T same row =
    ap (update j (touched now) T) same ∙ update-hit j (touched now) T (sym (ap T same) ∙ row)

cancellable-not_confirmed : (s : AttestationState) → is_cancellable s ≡ true → s ≢ confirmed
cancellable-not_confirmed s e same = ground arith

failed-not_confirmed : (s : AttestationState) → is_failed s ≡ true → s ≢ confirmed
failed-not_confirmed s e same = ground arith

module _ ⦃H : Sha256⦄ ⦃E : Ed25519⦄ where
  -- In a world where attempts and attestations agree, no step changes a confirmed attestation, but for
  -- the time of its last update.
  pub Step-confirmed :
      (w w' : World) (k : Text) (att : Attestation)
      → IsSound w
      → Step w w'
      → w.attestations k ≡ some att
      → att.state ≡ confirmed
      → IsKept w'.attestations k att
  unfolding insert_attestation
  Step-confirmed w w' k att c (created id t n now fresh fresh_attempt) row is_confirmed =
      elim (Bool-cases (same_text k id)) [
        | inl same ↦ absurd (ground (arith, (same_text_iff k id).0 same))
        | inr other ↦ (att.updated_at, rw other row)
      ]
  Step-confirmed w w' k att c (uploads device j t body ok_size now) row is_confirmed =
      elim (upload_manifest-cases device j t body ok_size now w) [
        | inl same ↦ (att.updated_at, ap (λ x. x.attestations k) same ∙ row)
        | inr (x, attempt, loaded, state, same) ↦
            let (there, found, mine) = load_lem w j t loaded in
            let live : HasLive w j t x attempt = record {
              row = there;
              found = found;
              mine = mine;
              live = live_of_pending _ state;
            } in
            (
              att.updated_at,
              ap (λ x. x.attestations k) same
                  ∙ update-confirmed w.attestations k j (move_to uploaded now) att x row
                      is_confirmed there (not_confirmed w j t x attempt c live),
            )
      ]
  Step-confirmed w w' k att c (finalizes device j t request_id now) row is_confirmed =
      elim (finalize-cases device j t request_id now w) [
        | inl same ↦ (att.updated_at, ap (λ x. x.attestations k) same ∙ row)
        | inr (x, attempt, loaded, state, same) ↦
            let (there, found, mine) = load_lem w j t loaded in
            let live : HasLive w j t x attempt = record {
              row = there;
              found = found;
              mine = mine;
              live = live_of_uploaded _ state;
            } in
            (
              att.updated_at,
              ap (λ x. x.attestations k) same
                  ∙ update-confirmed w.attestations k j (move_to validating now) att x row
                      is_confirmed there (not_confirmed w j t x attempt c live),
            )
      ]
  Step-confirmed w w' k att c (cancels device j now) row is_confirmed =
      elim (cancel-cases device j now w) [
        | inl same ↦ (att.updated_at, ap (λ x. x.attestations k) same ∙ row)
        | inr (x, there, state, same) ↦ (
          att.updated_at,
          ap (λ x. x.attestations k) same
              ∙ update-confirmed w.attestations k j (canceled_row j now) att x row is_confirmed
                  there (cancellable-not_confirmed x.state state),
        )
      ]
  Step-confirmed w w' k att c (repairs device j t project_exists now fresh) row is_confirmed =
      elim (repair-cases device j t project_exists now w) [
        | inl same ↦ (att.updated_at, ap (λ x. x.attestations k) same ∙ row)
        | inr (x, there, state, same) ↦ (
          att.updated_at,
          ap (λ x. x.attestations k) same
              ∙ update-confirmed w.attestations k j (move_to pending now) att x row is_confirmed
                  there (failed-not_confirmed x.state state),
        )
      ]
  Step-confirmed w w' k att c (validates S t now result after e) row is_confirmed =
      elim (validate_attempt-cases S t now w w' result e) [
        | inl same ↦ (att.updated_at, ap (λ x. x.attestations k) same ∙ row)
        | inr (j, key, x, attempt, live, concluded, _) ↦
            let other = not_confirmed w j t x attempt c live in
            elim (conclude-cases S (checks S key j t x) key j t x now w w' result concluded) [
              | inl (m, checked, is_valid, same) ↦ (
                att.updated_at,
                ap (λ x. x.attestations k) same
                    ∙ update-confirmed w.attestations k j _ att x row is_confirmed live.row other,
              )
              | inr (error, stopped, is_failure, written, same) ↦ (
                att.updated_at,
                ap (λ x. x.attestations k) same
                    ∙ update-confirmed w.attestations k j (failed_row now) att x row is_confirmed
                        live.row other,
              )
            ]
      ]
  Step-confirmed w w' k att c (inserts_submission id t n now fresh fresh_attempt) row is_confirmed =
      elim (Bool-cases (same_text k id)) [
        | inl same ↦ absurd (ground (arith, (same_text_iff k id).0 same))
        | inr other ↦ (att.updated_at, rw other row)
      ]
  Step-confirmed w w' k att c (submits j t request_id x attempt body now loaded state) row
        is_confirmed =
      let (there, found, mine) = load_lem w j t loaded in
      let live : HasLive w j t x attempt = record {
        row = there;
        found = found;
        mine = mine;
        live = live_of_pending _ state;
      } in
      (
        att.updated_at,
        update-confirmed w.attestations k j (move_to validating now) att x row is_confirmed there
            (not_confirmed w j t x attempt c live),
      )
  Step-confirmed w w' k att c (seeds j t x attempt body root now loaded state) row is_confirmed =
      let (there, found, mine) = load_lem w j t loaded in
      let live : HasLive w j t x attempt = record {
        row = there;
        found = found;
        mine = mine;
        live = live_of_pending _ state;
      } in
      (
        att.updated_at,
        update-confirmed w.attestations k j _ att x row is_confirmed there
            (not_confirmed w j t x attempt c live),
      )
  Step-confirmed w w' k att c (issues_receipt j x now there) row is_confirmed =
      elim (Bool-cases (same_text k j)) [
        | inl same ↦ (now, update-hit-at k j now w.attestations ((same_text_iff k j).0 same) row)
        | inr other ↦ (
          att.updated_at,
          update-miss j (touched now) w.attestations k (λ p. cc (other, (same_text_iff k j).1 p))
              ∙ row,
        )
      ]
