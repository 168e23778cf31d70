-- ===== src/Attestation/Invariant.antt =====
-- Attempts and attestations agree: an attempt that can still move belongs to an attestation in the
-- matching state, and no attestation has two of them.
use proveria.Common.{
  ◌≡◌, ◌≢◌, ◌⊎◌, ◌∙◌, refl, sym, ap, subst, Bool, true, false, ◌||◌, ◌&&◌, Option, some, arith, inl,
  inr, Bool-cases, Option-cases, ℕ,
}
use proveria.Bytes.{Text, same_text}
use proveria.Bytes.Order.{same_text_iff}
use proveria.Attestation.Handlers.{cancel_attempts}
use proveria.Attestation.{
  AttestationState, pending, uploaded, validating, AttemptState, attempt_pending, attempt_uploaded,
  Attestation, Attempt, update, insert_row, is_attempt_pending, is_attempt_uploaded,
}

abbrev pub is_live : AttemptState → Bool
is_live s = is_attempt_pending s || is_attempt_uploaded s

abbrev pub agrees : AttemptState → AttestationState → Bool
agrees attempt_pending pending = true
agrees attempt_uploaded uploaded = true
agrees attempt_uploaded validating = true
agrees _ _ = false

pub record IsConsistent (T : Text → Option Attestation) (A : Text → Option Attempt) : Type 0 where
  pub linked :
      (t : Text) (a : Attempt)
      → A t ≡ some a
      → is_live a.state ≡ true
      → (att : Attestation) × (T a.attestation_id ≡ some att) × (agrees a.state att.state ≡ true)
  pub single :
      (s t : Text) (a b : Attempt)
      → A s ≡ some a
      → A t ≡ some b
      → is_live a.state ≡ true
      → is_live b.state ≡ true
      → a.attestation_id ≡ b.attestation_id
      → s ≡ t

module _ {A : Type 0} (key : Text) (change : A → A) (table : Text → Option A) where
  pub update-hit :
      {row : A} → table key ≡ some row → update key change table key ≡ some (change row)
  update-hit found = rw ((same_text_iff key key).1 refl) (rw found refl)

  pub update-miss : (k : Text) → k ≢ key → update key change table k ≡ table k
  update-miss k other = elim (Bool-cases (same_text k key)) [
    | inl same ↦ absurd (other ((same_text_iff k key).0 same))
    | inr differ ↦ rw differ refl
  ]

  -- Where a row of the new table comes from.
  pub update-cases :
      (k : Text) {row : A}
      → update key change table k ≡ some row
      → ((k ≡ key) × (old : A) × (table k ≡ some old) × (change old ≡ row))
        ⊎ ((k ≢ key) × (table k ≡ some row))
  update-cases k e = elim (Bool-cases (same_text k key)) [
    | inl same ↦ elim (Option-cases (table k)) [
      | inl missing ↦ absurd (ground arith)
      | inr (old, found) ↦ inl ((same_text_iff k key).0 same, old, found, ground arith)
    ]
    | inr differ ↦ inr ((λ same. ground (arith, (same_text_iff k key).1 same)), ground arith)
  ]

-- A step on the attestation `k`: its row becomes `new`, and the live attempts that are left are those of
-- other attestations, and `t` if it agrees with the new row.
module _ (T T' : Text → Option Attestation) (A A' : Text → Option Attempt) (k t : Text)
    (new : Attestation) (here : T' k ≡ some new) (others : (j : Text) → j ≢ k → T' j ≡ T j)
    (kept : (s : Text) (a : Attempt)
      → A' s ≡ some a
      → is_live a.state ≡ true
      → ((A s ≡ some a) × (a.attestation_id ≢ k))
        ⊎ ((s ≡ t) × (a.attestation_id ≡ k) × (agrees a.state new.state ≡ true))) where
  pub step-IsConsistent : IsConsistent T A → IsConsistent T' A'
  step-IsConsistent c = record {
    linked = λ s a e live. elim (kept s a e live) [
      | inl (old, other) ↦
          let (att, found, agree) = c.linked s a old live in
          (att, others a.attestation_id other ∙ found, agree)
      | inr (same, mine, agree) ↦ (new, ap T' mine ∙ here, agree)
    ];
    single = λ s u a b e f live live' same. elim (kept s a e live) [
      | inl (old, other) ↦ elim (kept u b f live') [
        | inl (old', other') ↦ c.single s u a b old old' live live' same
        | inr (at_t, mine, agree) ↦ absurd (other (same ∙ mine))
      ]
      | inr (at_t, mine, agree) ↦ elim (kept u b f live') [
        | inl (old', other') ↦ absurd (other' (sym same ∙ mine))
        | inr (at_t', mine', agree') ↦ at_t ∙ sym at_t'
      ]
    ];
  }

-- The attempt `t` moves on, or ends.
module _ (T : Text → Option Attestation) (A : Text → Option Attempt) (k t : Text)
    (change : Attempt → Attempt) (f : Attestation → Attestation) (att : Attestation)
    (attempt : Attempt) (row : T k ≡ some att) (found : A t ≡ some attempt)
    (live : is_live attempt.state ≡ true) (mine : attempt.attestation_id ≡ k)
    (same_owner : (a : Attempt) → (change a).attestation_id ≡ a.attestation_id)
    (agree : is_live (change attempt).state ≡ true
      → agrees (change attempt).state (f att).state ≡ true) where
  pub move-IsConsistent : IsConsistent T A → IsConsistent (update k f T) (update t change A)
  move-IsConsistent c =
      step-IsConsistent T (update k f T) A (update t change A) k t (f att) (update-hit k f T row)
        (update-miss k f T)
        (λ s a e alive. elim (update-cases t change A s e) [
          | inl (same, old, was, now) ↦
              let one : attempt ≡ old = cc (found, was, same) in
              let after : change attempt ≡ a = ap change one ∙ now in
              inr (
                same,
                sym (ap (λ x. x.attestation_id) after) ∙ same_owner attempt ∙ mine,
                subst (λ x. is_live x.state ≡ true → agrees x.state (f att).state ≡ true) after
                    agree alive,
              )
          | inr (differ, was) ↦ inl (
            was,
            λ owner. differ (c.single s t a attempt was found alive live (owner ∙ sym mine)),
          )
        ])
        c

-- A new attempt of an attestation without live ones.
module _ (T T' : Text → Option Attestation) (A : Text → Option Attempt) (k t : Text)
    (new : Attestation) (first : Attempt) (here : T' k ≡ some new)
    (others : (j : Text) → j ≢ k → T' j ≡ T j) (mine : first.attestation_id ≡ k)
    (agree : agrees first.state new.state ≡ true)
    (alone : (s : Text) (a : Attempt)
      → A s ≡ some a
      → is_live a.state ≡ true
      → a.attestation_id ≢ k) where
  pub start-IsConsistent : IsConsistent T A → IsConsistent T' (insert_row t first A)
  start-IsConsistent =
      step-IsConsistent T T' A (insert_row t first A) k t new here others (λ s a e alive.
        elim (Bool-cases (same_text s t)) [
          | inl same ↦
              let is_first : first ≡ a = ground arith in
              inr (
                (same_text_iff s t).0 same,
                sym (ap (λ x. x.attestation_id) is_first) ∙ mine,
                subst (λ x. agrees x.state new.state ≡ true) is_first agree,
              )
          | inr differ ↦ let was : A s ≡ some a = ground arith in inl (was, alone s a was alive)
        ])

-- The live attempts of an attestation are canceled.
module _ (T : Text → Option Attestation) (A : Text → Option Attempt) (k : Text)
    (f : Attestation → Attestation) (att : Attestation) (now : ℕ) (row : T k ≡ some att) where
  cancel_attempts-live :
      (s : Text) (a : Attempt)
      → cancel_attempts k now A s ≡ some a
      → is_live a.state ≡ true
      → (A s ≡ some a) × (a.attestation_id ≢ k)
  cancel_attempts-live s a e live = elim (Option-cases (A s)) [
    | inl missing ↦ absurd (ground arith)
    | inr (old, was) ↦ elim (Bool-cases (same_text old.attestation_id k && is_live old.state)) [
      | inl hit ↦ absurd (ground arith)
      | inr other ↦
          let one : old ≡ a = ground arith in
          (
            was ∙ ap some one,
            λ owner. absurd (
                ground (
                  arith,
                  (same_text_iff old.attestation_id k).1 (ap (λ x. x.attestation_id) one ∙ owner),
                )),
          )
    ]
  ]

  pub cancel-IsConsistent : IsConsistent T A → IsConsistent (update k f T) (cancel_attempts k now A)
  cancel-IsConsistent =
      step-IsConsistent T (update k f T) A (cancel_attempts k now A) k k (f att)
        (update-hit k f T row) (update-miss k f T)
        (λ s a e live. inl (cancel_attempts-live s a e live))
