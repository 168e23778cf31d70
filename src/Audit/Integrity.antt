-- ===== src/Audit/Integrity.antt =====
-- What an accepted walk over the chain shows, and what it does not see.
use mathlib.Core.List.{Memᴰ}
use proveria.Common.{
  ◌≡◌, ◌⊎◌, ◌∙◌, refl, sym, ap, subst, Option, none, some, List, [], ◌∷◌, ◌++◌, arith, All,
  All-append, All-left, All-right, All-mem, inl, inr, Option-cases, Result-cases, ok, err,
  >>=-eq-ok,
}
use proveria.Bytes.{Bytes, Text}
use proveria.Bytes.Order.{same_text_iff}
use proveria.Bytes.Hex.{to_hex, from_hex, from_hex-to_hex}
use proveria.Bytes.Prefix.{append_injective}
use proveria.Crypto.{Sha256, Collision}
use proveria.Crypto.LeafHash.Binding.{digest_binding}
use proveria.Audit.{
  AuditEvent, ChainRow, canonical_audit_event_bytes, compute_chain_hash, latest_hash, next_row,
  append_chain_entry, walk_chain,
}

module _ ⦃H : Sha256⦄ where
  -- A row that carries the hash of its event behind its own prev_hash.
  abbrev pub IsHashed : (Text → Option AuditEvent) → ChainRow → Type 0
  IsHashed events row =
      (event : AuditEvent) × (events row.event_id ≡ some event)
      × (compute_chain_hash row.prev_hash event ≡ ok row.this_hash)

  walk_head :
      (events : Text → Option AuditEvent) (row : ChainRow) (rest : List ChainRow)
      → walk_chain events (row ∷ rest) ≡ ok none
      → IsHashed events row × (walk_chain events rest ≡ ok none)
  unfolding walk_chain
  walk_head events row rest e = elim (Option-cases (events row.event_id)) [
    | inl missing ↦ absurd (ground arith)
    | inr (event, found) ↦ elim (Result-cases (compute_chain_hash row.prev_hash event)) [
      | err (x, failed) ↦ absurd (ground arith)
      | ok (hash, computed) ↦
          ((event, found, ground (arith, same_text_iff hash row.this_hash)), ground arith)
    ]
  ]

  walk_cons :
      (events : Text → Option AuditEvent) (row : ChainRow) (rest : List ChainRow)
      → IsHashed events row
      → walk_chain events rest ≡ ok none
      → walk_chain events (row ∷ rest) ≡ ok none
  unfolding walk_chain
  walk_cons events row rest (event, found, computed) e =
      ground (arith, found, computed, (same_text_iff row.this_hash row.this_hash).1 refl, e)

  walk_all :
      (events : Text → Option AuditEvent) (rows : List ChainRow)
      → walk_chain events rows ≡ ok none
      → All (IsHashed events) rows
  walk_all events [] e = tt
  walk_all events (row ∷ rest) e =
      let (here, later) = walk_head events row rest e in (here, walk_all events rest later)

  all_walk :
      (events : Text → Option AuditEvent) (rows : List ChainRow)
      → All (IsHashed events) rows
      → walk_chain events rows ≡ ok none
  unfolding walk_chain
  all_walk events [] h = refl
  all_walk events (row ∷ rest) (here, later) =
      walk_cons events row rest here (all_walk events rest later)

  -- If the walk accepts a chain, then it accepts the chain after an append, as long as the appended
  -- event is stored under its id.
  pub walk_chain-append_chain_entry :
      (events : Text → Option AuditEvent) (chain longer : List ChainRow) (tenant_id : Text)
      (event : AuditEvent)
      → walk_chain events chain ≡ ok none
      → events event.id ≡ some event
      → append_chain_entry chain tenant_id event ≡ ok longer
      → walk_chain events longer ≡ ok none
  unfolding append_chain_entry
  walk_chain-append_chain_entry events chain longer tenant_id event accepted stored e =
      let (hash, computed, done) = >>=-eq-ok (compute_chain_hash (latest_hash chain) event) _ e in
      let same : chain ++ next_row chain tenant_id event hash ∷ [] ≡ longer = ground arith in
      subst (λ rows. walk_chain events rows ≡ ok none) same
        (all_walk events (chain ++ next_row chain tenant_id event hash ∷ []) (
          All-append (IsHashed events) chain (next_row chain tenant_id event hash ∷ [])
            (walk_all events chain accepted) ((event, stored, computed), tt)))

  compute_chain_hash-eq-ok :
      (prev : Text) (event : AuditEvent) (hash : Text)
      → compute_chain_hash prev event ≡ ok hash
      → (bytes : Bytes) × (canonical_audit_event_bytes event ≡ ok bytes)
        × (hash ≡ to_hex (H.digest (from_hex prev ++ bytes)))
  unfolding compute_chain_hash
  compute_chain_hash-eq-ok prev event hash e =
      let (bytes, found, done) = >>=-eq-ok (canonical_audit_event_bytes event) _ e in
      (bytes, found, ground arith)

  -- If the walk accepts a chain, a row of which was written for an event, then the event that is now
  -- stored under the row's id has the canonical bytes of that event, or SHA-256 has collided on the two
  -- events' bytes behind the row's prev_hash.
  pub walk_chain_binding :
      (events : Text → Option AuditEvent) (chain : List ChainRow) (row : ChainRow)
      (written : AuditEvent)
      → walk_chain events chain ≡ ok none
      → Memᴰ row chain
      → compute_chain_hash row.prev_hash written ≡ ok row.this_hash
      → (event : AuditEvent) × (x y : Bytes) × (events row.event_id ≡ some event)
        × (canonical_audit_event_bytes event ≡ ok x)
        × (canonical_audit_event_bytes written ≡ ok y)
        × ((x ≡ y)
            ⊎ Collision ((from_hex row.prev_hash ++ x) ∷ []) ((from_hex row.prev_hash ++ y) ∷ []))
  walk_chain_binding events chain row written accepted member e =
      let (event, stored, computed) =
        All-mem (IsHashed events) member (walk_all events chain accepted) in
      let (x, bx, hx) = compute_chain_hash-eq-ok row.prev_hash event row.this_hash computed in
      let (y, by, hy) = compute_chain_hash-eq-ok row.prev_hash written row.this_hash e in
      let p = from_hex row.prev_hash in
      let digests : H.digest (p ++ x) ≡ H.digest (p ++ y) =
        sym (from_hex-to_hex (H.digest (p ++ x)) (H.digest-IsByte (p ++ x)))
        ∙ ap from_hex (sym hx ∙ hy)
        ∙ from_hex-to_hex (H.digest (p ++ y)) (H.digest-IsByte (p ++ y)) in
      (
        event,
        x,
        y,
        stored,
        bx,
        by,
        elim (digest_binding (p ++ x) (p ++ y) digests) [
          | inr c ↦ inr c
          | inl same ↦ inl (append_injective p p x y refl same).1
        ],
      )

  -- If the walk accepts a chain, it accepts the chain without any one of its rows: the walk compares
  -- neither a row's prev_hash with the row before it nor the numbers.
  pub walk_chain-without :
      (events : Text → Option AuditEvent) (before after : List ChainRow) (row : ChainRow)
      → walk_chain events (before ++ row ∷ after) ≡ ok none
      → walk_chain events (before ++ after) ≡ ok none
  walk_chain-without events before after row accepted =
      let all = walk_all events (before ++ row ∷ after) accepted in
      all_walk events (before ++ after) (
        All-append (IsHashed events) before after
          (All-left (IsHashed events) before (row ∷ after) all)
          (All-right (IsHashed events) before (row ∷ after) all).1)
