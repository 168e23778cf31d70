-- ===== src/Audit/Tests.antt =====
-- A chain of two events, and the walk over it.
use mathlib.Core.List.{Memᴰ}
use proveria.Common.{
  ◌++◌, ℕ, zero, suc, ◌≡◌, ◌⊎◌, refl, arith, All, replicate, Option, none, some, List, [], ◌∷◌,
  codes, ok,
}
use proveria.Bytes.{IsByte, Bytes, Text}
use proveria.Bytes.Hex.{to_hex, from_hex}
use proveria.Json.{end}
use proveria.Crypto.{Sha256, Collision}
use proveria.Crypto.Canonical.Total.{serializable, canonicalize-serializable}
use proveria.Audit.{
  AuditEvent, ChainRow, chain_genesis_hex, event_json, canonical_audit_event_bytes,
  compute_chain_hash, next_row, append_chain_entry, walk_chain,
}
use proveria.Audit.Integrity.{walk_chain-append_chain_entry, walk_chain_binding, walk_chain-without}

-- A hash function with one digest, so that the chain below does not depend on the serialization.
abbrev flat : Bytes
flat = replicate 32 7

flat-IsByte : All IsByte flat
flat-IsByte = replicate-IsByte 32
  where
    replicate-IsByte : (n : ℕ) → All IsByte (replicate n 7)
    replicate-IsByte zero = tt
    replicate-IsByte (suc n) = (omega arith, replicate-IsByte n)

instance abbrev flat_hash : Sha256
flat_hash = record {
  digest = λ m. flat;
  length-digest = λ m. refl;
  digest-IsByte = λ m. flat-IsByte;
}

abbrev event : Text → AuditEvent
event name = record {
  id = name;
  tenant_id = some (codes "t");
  actor_user_id = none;
  actor_device_id = none;
  category = codes "c";
  action = codes "a";
  target_type = none;
  target_id = none;
  payload = end;
  created_at = codes "2026-05-13T01:02:03.000Z";
}

abbrev stored : Text → Option AuditEvent
stored name = some (event name)

hashes : (prev name : Text) → compute_chain_hash prev (event name) ≡ ok (to_hex flat)
unfolding compute_chain_hash canonical_audit_event_bytes serializable
hashes prev name =
    let (bytes, e) = canonicalize-serializable (event_json (event name)) refl in rw e refl

grow :
    (chain longer : List ChainRow) (name : Text)
    → walk_chain stored chain ≡ ok none
    → append_chain_entry chain (codes "t") (event name) ≡ ok longer
    → walk_chain stored longer ≡ ok none
grow chain longer name accepted e =
    walk_chain-append_chain_entry stored chain longer (codes "t") (event name) accepted refl e

abbrev first : ChainRow
first = next_row [] (codes "t") (event (codes "1")) (to_hex flat)

abbrev second : ChainRow
second = next_row (first ∷ []) (codes "t") (event (codes "2")) (to_hex flat)

begins : append_chain_entry [] (codes "t") (event (codes "1")) ≡ ok (first ∷ [])
unfolding append_chain_entry
begins = rw (hashes chain_genesis_hex (codes "1")) refl

appends : append_chain_entry (first ∷ []) (codes "t") (event (codes "2")) ≡ ok (first ∷ second ∷ [])
unfolding append_chain_entry
appends = rw (hashes first.this_hash (codes "2")) refl

nothing_to_walk : walk_chain stored [] ≡ ok none
unfolding walk_chain
nothing_to_walk = refl

one_accepted : walk_chain stored (first ∷ []) ≡ ok none
one_accepted = grow [] (first ∷ []) (codes "1") nothing_to_walk begins

two_accepted : walk_chain stored (first ∷ second ∷ []) ≡ ok none
two_accepted = grow (first ∷ []) (first ∷ second ∷ []) (codes "2") one_accepted appends

appended_example : walk_chain stored (first ∷ second ∷ []) ≡ ok none
appended_example =
    walk_chain-append_chain_entry stored (first ∷ []) (first ∷ second ∷ []) (codes "t")
      (event (codes "2")) one_accepted refl appends

unchanged_event_example :
    (e : AuditEvent) × (x y : Bytes) × (stored second.event_id ≡ some e)
    × (canonical_audit_event_bytes e ≡ ok x)
    × (canonical_audit_event_bytes (event (codes "2")) ≡ ok y)
    × ((x ≡ y)
        ⊎ Collision ((from_hex second.prev_hash ++ x) ∷ []) ((from_hex second.prev_hash ++ y) ∷ []))
unchanged_event_example =
    walk_chain_binding stored (first ∷ second ∷ []) second (event (codes "2")) two_accepted
      (Memᴰ.tail (Memᴰ.head refl)) (hashes second.prev_hash (codes "2"))

removed_row_example : walk_chain stored (second ∷ []) ≡ ok none
removed_row_example = walk_chain-without stored [] (second ∷ []) first two_accepted
