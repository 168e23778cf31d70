-- ===== src/Idempotency/Stored.antt =====
-- What is found again of a reply that was stored (apps/api/src/public-v1/idempotency.ts).
use proveria.Common.{
  arith, ℕ, ◌≡◌, ◌≢◌, ◌∙◌, refl, sym, Bool, true, false, none, some, List, ◌∷◌, if◌then◌else◌, ok,
  Option-cases, Bool-cases, inl, inr,
}
use proveria.Bytes.{Text, same_text}
use proveria.Bytes.Order.{same_text_iff}
use proveria.Json.{Json}
use proveria.Idempotency.{
  Encodings, Identity, IdempotencyRow, Replay, same_identity, find_row, find_replay, store_replay,
}

same_identity_refl : (a : Identity) → same_identity a a ≡ true
unfolding same_identity
same_identity_refl a = rw ((same_text_iff a.tenant_id a.tenant_id).1 refl) (
    rw ((same_text_iff a.api_key_id a.api_key_id).1 refl) (
      rw ((same_text_iff a.method a.method).1 refl)
        (rw ((same_text_iff a.path a.path).1 refl) ((same_text_iff a.key a.key).1 refl))))

-- Two identities are the same where all five parts are.
same_identity_eq : (a b : Identity) → same_identity a b ≡ true → a ≡ b
unfolding same_identity
same_identity_eq a b e =
    let tenant : a.tenant_id ≡ b.tenant_id =
      ground (arith, same_text_iff a.tenant_id b.tenant_id) in
    let api_key : a.api_key_id ≡ b.api_key_id =
      ground (arith, same_text_iff a.api_key_id b.api_key_id) in
    let method : a.method ≡ b.method = ground (arith, same_text_iff a.method b.method) in
    let path : a.path ≡ b.path = ground (arith, same_text_iff a.path b.path) in
    let key : a.key ≡ b.key = ground (arith, same_text_iff a.key b.key) in
    rw tenant (rw api_key (rw method (rw path (rw key refl))))

same_identity_ne : (a b : Identity) → a ≢ b → same_identity a b ≡ false
same_identity_ne a b apart = elim (Bool-cases (same_identity a b)) [
  | inl same ↦ absurd (apart (same_identity_eq a b same))
  | inr other ↦ other
]

find_replay-shape :
    (rows : List IdempotencyRow) (identity : Identity) (hash : Text)
    → find_replay rows identity hash ≡ (elim (find_row rows identity) [
      | none ↦ Replay.absent
      | some row ↦
          if same_text row.request_hash hash
          then Replay.replay row.status_code row.response_body
          else Replay.conflict
    ])
unfolding find_replay
find_replay-shape rows identity hash = refl

find_row-head :
    (row : IdempotencyRow) (rows : List IdempotencyRow) (other : Identity)
    → (same_identity row.identity other ≡ true → find_row (row ∷ rows) other ≡ some row)
      × (same_identity row.identity other ≡ false
          → find_row (row ∷ rows) other ≡ find_row rows other)
unfolding find_row
find_row-head row rows other = (λ e. rw e refl, λ e. rw e refl)

module _ ⦃C : Encodings⦄ (rows : List IdempotencyRow) (identity : Identity) (hash : Text)
    (status_code : ℕ) (body : Json) where
  stored_row : IdempotencyRow
  stored_row = record {
    identity = identity;
    request_hash = hash;
    status_code = status_code;
    response_body = C.jsonb body;
  }

  store_replay-free :
      find_row rows identity ≡ none
      → store_replay rows identity hash status_code body ≡ ok (stored_row ∷ rows)
  unfolding store_replay stored_row
  store_replay-free e = rw (e, store_replay) refl

  find_row-free : find_replay rows identity hash ≡ Replay.absent → find_row rows identity ≡ none
  find_row-free h = elim (Option-cases (find_row rows identity)) [
    | inl e ↦ e
    | inr (row, e) ↦
        let shown = rw e at (sym (find_replay-shape rows identity hash) ∙ h) in
        absurd (kept (same_text row.request_hash hash) row shown)
  ]
    where
      kept :
          (same : Bool) (row : IdempotencyRow)
          → ¬ (
              (if same then Replay.replay row.status_code row.response_body else Replay.conflict)
              ≡ Replay.absent)
      kept true row k = cc k
      kept false row k = cc k

  -- A reply can be stored where none is found. It is then found under its identity: with its hash as
  -- the reply, with any other hash as a conflict; and what is found under an identity that
  -- differs in any of its five parts stays.
  pub find_replay-store_replay :
      find_replay rows identity hash ≡ Replay.absent
      → (rows' : List IdempotencyRow) × (store_replay rows identity hash status_code body
          ≡ ok rows')
        × (find_replay rows' identity hash ≡ Replay.replay status_code (C.jsonb body))
        × ((hash' : Text) → hash ≢ hash' → find_replay rows' identity hash' ≡ Replay.conflict)
        × ((other : Identity) (hash' : Text)
            → identity ≢ other
            → find_replay rows' other hash' ≡ find_replay rows other hash')
  unfolding stored_row
  find_replay-store_replay h =
      let found = (find_row-head stored_row rows identity).0 (same_identity_refl identity) in
      (
        stored_row ∷ rows,
        store_replay-free (find_row-free h),
        find_replay-shape (stored_row ∷ rows) identity hash
            ∙ rw found (rw ((same_text_iff hash hash).1 refl) refl),
        λ hash' differ.
            find_replay-shape (stored_row ∷ rows) identity hash'
            ∙ rw found (elim (Bool-cases (same_text hash hash')) [
              | inl same ↦ absurd (differ ((same_text_iff hash hash').0 same))
              | inr apart ↦ rw apart refl
            ]),
        λ other hash' apart.
            find_replay-shape (stored_row ∷ rows) other hash'
            ∙ rw ((find_row-head stored_row rows other).1 (same_identity_ne identity other apart))
                (sym (find_replay-shape rows other hash')),
      )
