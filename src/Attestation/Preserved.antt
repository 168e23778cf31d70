-- ===== src/Attestation/Preserved.antt =====
-- The agreement of attempts and attestations holds in every world that the lifecycle reaches.
use proveria.Common.{
  ℕ, ◌≡◌, ◌≢◌, ◌∙◌, refl, sym, ap, subst, true, false, Option, none, some, arith, if◌then◌else◌,
  inl, inr, Bool-cases,
}
use proveria.Bytes.{Text, same_text}
use proveria.Bytes.Order.{same_text_iff}
use proveria.Crypto.{Sha256}
use proveria.Crypto.Signing.{Ed25519}
use proveria.Json.{end}
use proveria.Json.Access.{get}
use proveria.Common.{codes}
use proveria.Attestation.{
  pending, uploaded, validating, confirmed, Attestation, Attempt, World, update, insert_row,
  move_to, is_attempt_uploaded, is_failed,
}
use proveria.Attestation.Handlers.{
  new_row, new_attempt, insert_attestation, uploaded_attempt, manifest_key, canceled_row,
}
use proveria.Attestation.Validation.{
  checks, confirmed_row, failed_row, validated_attempt, failed_attempt, sibling_key,
}
use proveria.Attestation.OtherWrites.{submitted_row, seeded_attempt, seeded_row, touched}
use proveria.Attestation.Invariant.{
  is_live, agrees, IsConsistent, update-hit, update-miss, step-IsConsistent, move-IsConsistent,
  start-IsConsistent, cancel-IsConsistent,
}
use proveria.Attestation.Steps.{
  IsSound, Step, created, uploads, finalizes, cancels, repairs, validates, inserts_submission,
  submits, seeds, issues_receipt, HasLive, load_lem, live_of_pending, live_of_uploaded,
  upload_manifest-cases, finalize-cases, cancel-cases, repair-cases, validate_attempt-cases,
  conclude-cases,
}
use proveria.Attestation.Confirmed.{Step-confirmed}

-- A live attempt under an attestation is in agreement with its row.
pub live_agrees :
    (w : World) (k t : Text) (att : Attestation) (attempt : Attempt)
    → IsSound w
    → HasLive w k t att attempt
    → agrees attempt.state att.state ≡ true
live_agrees w k t att attempt c h =
    let (x, row, agree) = c.linked t attempt h.found h.live in
    let same : x ≡ att = cc (row, ap w.attestations h.mine, h.row) in
    sym (ap (λ y. agrees attempt.state y.state) same) ∙ agree

-- The job of a finalize finds the attempt where it was.
finalize-IsSound :
    (w : World) (k t : Text) (att : Attestation) (attempt : Attempt) (now : ℕ)
    → HasLive w k t att attempt
    → is_attempt_uploaded attempt.state ≡ true
    → IsSound w
    → IsConsistent (update k (move_to validating now) w.attestations) w.attempts
finalize-IsSound w k t att attempt now h state c =
    step-IsConsistent w.attestations (update k (move_to validating now) w.attestations) w.attempts
      w.attempts k t (move_to validating now att)
      (update-hit k (move_to validating now) w.attestations h.row)
      (update-miss k (move_to validating now) w.attestations)
      (λ s a e alive. elim (Bool-cases (same_text s t)) [
        | inl same ↦
            let at_t = (same_text_iff s t).0 same in
            let one : attempt ≡ a = cc (h.found, ap w.attempts at_t, e) in
            inr (
              at_t,
              sym (ap (λ x. x.attestation_id) one) ∙ h.mine,
              subst (λ x. agrees x.state validating ≡ true) one
                  (validating_agrees attempt.state state),
            )
        | inr differ ↦ inl (
          e,
          λ owner.
              not_same s differ
                (c.single s t a attempt e h.found alive h.live (owner ∙ sym h.mine)),
        )
      ])
      c
  where
    validating_agrees : (s : _) → is_attempt_uploaded s ≡ true → agrees s validating ≡ true
    validating_agrees s e = ground arith

    not_same : (s : Text) → same_text s t ≡ false → s ≢ t
    not_same s differ same = ground (arith, (same_text_iff s t).1 same)

-- A failed attestation has no live attempt.
failed_alone :
    (w : World) (k : Text) (att : Attestation)
    → IsSound w
    → w.attestations k ≡ some att
    → is_failed att.state ≡ true
    → (s : Text) (a : Attempt) → w.attempts s ≡ some a
    → is_live a.state ≡ true
    → a.attestation_id ≢ k
failed_alone w k att c row is_failed_row s a e live owner =
    let agree =
      live_agrees w k s att a c (record { row = row; found = e; mine = owner; live = live }) in
    absurd (ground arith)

-- What the issue of a receipt writes is no matter of agreement.
touched-IsConsistent :
    (w : World) (k : Text) (now : ℕ)
    → IsSound w
    → IsConsistent (update k (touched now) w.attestations) w.attempts
touched-IsConsistent w k now c = record {
  linked = λ t a e live.
      let (att, row, agree) = c.linked t a e live in
      elim (Bool-cases (same_text a.attestation_id k)) [
        | inl same ↦
            let at_k = (same_text_iff a.attestation_id k).0 same in
            (
              touched now att,
              ap (update k (touched now) w.attestations) at_k
                  ∙ update-hit k (touched now) w.attestations (sym (ap w.attestations at_k) ∙ row),
              agree,
            )
        | inr other ↦ (
          att,
          update-miss k (touched now) w.attestations a.attestation_id
                (λ p. cc (other, (same_text_iff a.attestation_id k).1 p))
              ∙ row,
          agree,
        )
      ];
  single = c.single;
}

-- No attempt names an attestation that does not exist.
fresh_alone :
    (w : World) (k : Text)
    → IsSound w
    → w.attestations k ≡ none
    → (s : Text) (a : Attempt) → w.attempts s ≡ some a
    → is_live a.state ≡ true
    → a.attestation_id ≢ k
fresh_alone w k c missing s a e live owner =
    let (att, row, agree) = c.linked s a e live in absurd (ground (arith, ap w.attestations owner))

insert_row-hit {ℓ} :
    {A : Type ℓ} (k : Text) (row : A) (T : Text → Option A) → insert_row k row T k ≡ some row
insert_row-hit k row T = rw ((same_text_iff k k).1 refl) refl

insert_row-miss {ℓ} :
    {A : Type ℓ} (k : Text) (row : A) (T : Text → Option A) (j : Text)
    → j ≢ k
    → insert_row k row T j ≡ T j
insert_row-miss k row T j other = elim (Bool-cases (same_text j k)) [
  | inl same ↦ absurd (other ((same_text_iff j k).0 same))
  | inr differ ↦ rw differ refl
]

module _ ⦃H : Sha256⦄ ⦃E : Ed25519⦄ where
  Step-IsSound : (w w' : World) → IsSound w → Step w w' → IsSound w'
  unfolding insert_attestation
  Step-IsSound w w' c (created id t n now fresh fresh_attempt) =
      start-IsConsistent w.attestations (insert_row id (new_row n now) w.attestations) w.attempts id
        t (new_row n now) (new_attempt id n.source_metadata now)
        (insert_row-hit id (new_row n now) w.attestations)
        (insert_row-miss id (new_row n now) w.attestations) refl refl (fresh_alone w id c fresh) c
  Step-IsSound w w' c (uploads device k t body ok_size now) =
      elim (upload_manifest-cases device k t body ok_size now w) [
        | inl same ↦ subst IsSound (sym same) c
        | inr (x, attempt, loaded, state, same) ↦
            let (row, found, mine) = load_lem w k t loaded in
            subst IsSound (sym same) (
              move-IsConsistent w.attestations w.attempts k t
                (uploaded_attempt (manifest_key x.tenant_id x.project_id k t) now)
                (move_to uploaded now) x attempt row found (live_of_pending _ state) mine
                (λ a. refl) (λ l. refl) c)
      ]
  Step-IsSound w w' c (finalizes device k t request_id now) =
      elim (finalize-cases device k t request_id now w) [
        | inl same ↦ subst IsSound (sym same) c
        | inr (x, attempt, loaded, state, same) ↦
            let (row, found, mine) = load_lem w k t loaded in
            let live : HasLive w k t x attempt = record {
              row = row;
              found = found;
              mine = mine;
              live = live_of_uploaded _ state;
            } in
            subst IsSound (sym same) (finalize-IsSound w k t x attempt now live state c)
      ]
  Step-IsSound w w' c (cancels device k now) = elim (cancel-cases device k now w) [
    | inl same ↦ subst IsSound (sym same) c
    | inr (x, row, state, same) ↦
        subst IsSound (sym same)
          (cancel-IsConsistent w.attestations w.attempts k (canceled_row k now) x now row c)
  ]
  Step-IsSound w w' c (repairs device k t project_exists now fresh) =
      elim (repair-cases device k t project_exists now w) [
        | inl same ↦ subst IsSound (sym same) c
        | inr (x, row, state, same) ↦ subst IsSound (sym same) (
            start-IsConsistent w.attestations (update k (move_to pending now) w.attestations)
              w.attempts k t (move_to pending now x) (new_attempt k end now)
              (update-hit k (move_to pending now) w.attestations row)
              (update-miss k (move_to pending now) w.attestations) refl refl
              (failed_alone w k x c row state) c)
      ]
  Step-IsSound w w' c (validates S t now result after e) =
      elim (validate_attempt-cases S t now w w' result e) [
        | inl same ↦ subst IsSound (sym same) c
        | inr (k, key, x, attempt, h, concluded, _) ↦
            elim (conclude-cases S (checks S key k t x) key k t x now w w' result concluded) [
              | inl (m, checked, is_valid, same) ↦ subst IsSound (sym same) (
                  move-IsConsistent w.attestations w.attempts k t
                    (validated_attempt (sibling_key key (codes "leaves.jsonl"))
                      (sibling_key key (codes "validation-result.json")) now)
                    (confirmed_row t key (sibling_key key (codes "leaves.jsonl"))
                      (get m (codes "merkle_root")) now)
                    x attempt h.row h.found h.live h.mine (λ a. refl) (λ l. cc l) c)
              | inr (error, stopped, is_failure, written, same) ↦ subst IsSound (sym same) (
                  move-IsConsistent w.attestations w.attempts k t
                    (failed_attempt error
                      (if written
                        then some (sibling_key key (codes "validation-result.json"))
                        else none)
                      now)
                    (failed_row now) x attempt h.row h.found h.live h.mine (λ a. refl) (λ l. cc l)
                    c)
            ]
      ]
  Step-IsSound w w' c (inserts_submission id t n now fresh fresh_attempt) =
      start-IsConsistent w.attestations (insert_row id (submitted_row n now) w.attestations)
        w.attempts id t (submitted_row n now) (new_attempt id n.source_metadata now)
        (insert_row-hit id (submitted_row n now) w.attestations)
        (insert_row-miss id (submitted_row n now) w.attestations) refl refl
        (fresh_alone w id c fresh) c
  Step-IsSound w w' c (submits k t request_id x attempt body now loaded state) =
      let (row, found, mine) = load_lem w k t loaded in
      move-IsConsistent w.attestations w.attempts k t
        (uploaded_attempt (manifest_key x.tenant_id x.project_id k t) now) (move_to validating now)
        x attempt row found (live_of_pending _ state) mine (λ a. refl) (λ l. refl) c
  Step-IsSound w w' c (seeds k t x attempt body root now loaded state) =
      let (row, found, mine) = load_lem w k t loaded in
      let key = manifest_key x.tenant_id x.project_id k t in
      move-IsConsistent w.attestations w.attempts k t (seeded_attempt key now)
        (seeded_row t key root now) x attempt row found (live_of_pending _ state) mine (λ a. refl)
        (λ l. cc l) c
  Step-IsSound w w' c (issues_receipt k x now row) = touched-IsConsistent w k now c

  -- What any number of requests and jobs lead to.
  pub data Steps (w : World) : World → Type 1 where
    none_taken : Steps w w
    and_then : {w' w'' : World} → Steps w w' → Step w' w'' → Steps w w''

  -- From a world in which they do, requests and jobs lead only to worlds in which every attempt that is
  -- pending or uploaded belongs to an existing attestation in the matching state, and no attestation
  -- has two such attempts.
  pub Steps-IsSound : (w w' : World) → IsSound w → Steps w w' → IsSound w'
  Steps-IsSound w w' c none_taken = c
  Steps-IsSound w w' c (and_then {w' = v} steps step) =
      Step-IsSound v w' (Steps-IsSound w v c steps) step

  -- From a world in which attempts and attestations agree, no number of requests and jobs changes the
  -- row of a confirmed attestation, but for the time of its last update: its state, its root, its
  -- confirmed attempt and its label stay.
  pub Steps-confirmed :
      (w w' : World) (k : Text) (att : Attestation)
      → IsSound w
      → Steps w w'
      → w.attestations k ≡ some att
      → att.state ≡ confirmed
      → (updated_at : ℕ) × (w'.attestations k ≡ some (touched updated_at att))
  Steps-confirmed w w' k att c none_taken row is_confirmed = (att.updated_at, row)
  Steps-confirmed w w' k att c (and_then {w' = v} steps step) row is_confirmed =
      let (at, there) = Steps-confirmed w v k att c steps row is_confirmed in
      Step-confirmed v w' k (touched at att) (Steps-IsSound w v c steps) step there is_confirmed
