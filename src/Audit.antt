-- ===== src/Audit.antt =====
-- packages/audit/src/chain.ts: the hash chain over the audit events of a tenant, and the walk over it in
-- apps/api/src/tenants/routes.ts (audit/integrity).
pub mod Integrity
mod Tests
use proveria.Common.{
  ℕ, ◌+◌, Option, none, some, List, [], ◌∷◌, ◌++◌, codes, replicate, if◌then◌else◌, Result, ok, err,
  ◌>>=◌,
}
use proveria.Bytes.{Bytes, Text, same_text}
use proveria.Bytes.Hex.{to_hex, from_hex}
use proveria.Json.{Json, null, string, object, Fields, end, field}
use proveria.Crypto.{Sha256}
use proveria.Crypto.Canonical.{CanonicalError, canonicalize}

-- A row of audit_events; `created_at` is its ISO text.
pub record AuditEvent : Type 0 where
  pub id : Text
  pub tenant_id : Option Text
  pub actor_user_id : Option Text
  pub actor_device_id : Option Text
  pub category : Text
  pub action : Text
  pub target_type : Option Text
  pub target_id : Option Text
  pub payload : Fields
  pub created_at : Text

pub record ChainRow : Type 0 where
  pub tenant_id : Text
  pub event_id : Text
  pub sequence_num : ℕ
  pub prev_hash : Text
  pub this_hash : Text

-- 32 zero bytes
abbrev pub chain_genesis_hex : Text
chain_genesis_hex = replicate 64 b'0'

abbrev nullable : Option Text → Json
nullable none = null
nullable (some t) = string t

abbrev pub event_json : AuditEvent → Json
event_json e = object (
    field (codes "id") (string e.id) (
      field (codes "tenant_id") (nullable e.tenant_id) (
        field (codes "actor_user_id") (nullable e.actor_user_id) (
          field (codes "actor_device_id") (nullable e.actor_device_id) (
            field (codes "category") (string e.category) (
              field (codes "action") (string e.action) (
                field (codes "target_type") (nullable e.target_type) (
                  field (codes "target_id") (nullable e.target_id) (
                    field (codes "payload") (object e.payload)
                      (field (codes "created_at") (string e.created_at) end))))))))))

unfoldable pub canonical_audit_event_bytes : AuditEvent → Result CanonicalError Bytes
canonical_audit_event_bytes e = canonicalize (event_json e)

-- What the latest row hands on: its hash and its number.
abbrev pub latest_hash : List ChainRow → Text
latest_hash [] = chain_genesis_hex
latest_hash (row ∷ []) = row.this_hash
latest_hash (row ∷ next ∷ rest) = latest_hash (next ∷ rest)

abbrev pub latest_num : List ChainRow → ℕ
latest_num [] = 0
latest_num (row ∷ []) = row.sequence_num
latest_num (row ∷ next ∷ rest) = latest_num (next ∷ rest)

module _ ⦃H : Sha256⦄ where
  unfoldable pub compute_chain_hash : Text → AuditEvent → Result CanonicalError Text
  compute_chain_hash prev_hash_hex event = do
    bytes ← canonical_audit_event_bytes event
    ok (to_hex (H.digest (from_hex prev_hash_hex ++ bytes)))

  -- The row that an append writes.
  abbrev pub next_row : List ChainRow → Text → AuditEvent → Text → ChainRow
  next_row chain tenant_id event this_hash = record {
    tenant_id = tenant_id;
    event_id = event.id;
    sequence_num = latest_num chain + 1;
    prev_hash = latest_hash chain;
    this_hash = this_hash;
  }

  -- The transaction on the tenant's rows, in the order of their numbers.
  unfoldable pub append_chain_entry :
      List ChainRow → Text → AuditEvent → Result CanonicalError (List ChainRow)
  append_chain_entry chain tenant_id event = do
    this_hash ← compute_chain_hash (latest_hash chain) event
    ok (chain ++ next_row chain tenant_id event this_hash ∷ [])

  -- An event without a tenant, or of a tenant on another plan, is not chained.
  unfoldable pub append_chain_entry_if_enterprise :
      (plan : Option Text) → List ChainRow → AuditEvent → Result CanonicalError (List ChainRow)
  append_chain_entry_if_enterprise plan chain event = elim event.tenant_id [
    | none ↦ ok chain
    | some tenant_id ↦ elim plan [
      | none ↦ ok chain
      | some p ↦
          if same_text p (codes "enterprise")
          then append_chain_entry chain tenant_id event
          else ok chain
    ]
  ]

  -- The walk: the number of the first row that diverges, if one does.
  unfoldable pub walk_chain :
      (Text → Option AuditEvent) → List ChainRow → Result CanonicalError (Option ℕ)
  walk_chain events [] = ok none
  walk_chain events (row ∷ rest) =
      let later = walk_chain events rest in
      elim (events row.event_id) [
        | none ↦ ok (some row.sequence_num)
        | some event ↦ compute_chain_hash row.prev_hash event >>= λ expected.
            if same_text expected row.this_hash then later else ok (some row.sequence_num)
      ]
