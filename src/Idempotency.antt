-- ===== src/Idempotency.antt =====
-- apps/api/src/public-v1/idempotency.ts: replies that are kept under an idempotency key, on the table
-- idempotency_keys of packages/db/src/schema/index.ts.
pub mod Stored
mod Tests
use proveria.Common.{
  ℕ, Bool, true, false, ◌&&◌, ◌||◌, not, Option, none, some, List, [], ◌∷◌, length, ◌==◌,
  if◌then◌else◌, Result, ok, err,
}
use proveria.Bytes.{Bytes, Text, same_text}
use proveria.Bytes.Split.{trim}
use proveria.Bytes.Utf8.{utf8}
use proveria.Json.{Json, null}
use proveria.Crypto.{Sha256}

-- `JSON.stringify`, the encoding base64url, and what a jsonb column gives back. Nothing is assumed of them.
pub record Encodings : Type 0 where
  pub stringify : Json → Text
  pub base64url : Bytes → Text
  pub jsonb : Json → Json

-- What the unique index is over.
pub record Identity : Type 0 where
  pub tenant_id : Text
  pub api_key_id : Text
  pub method : Text
  pub path : Text
  pub key : Text

pub record IdempotencyRow : Type 0 where
  pub identity : Identity
  pub request_hash : Text
  pub status_code : ℕ
  pub response_body : Json

pub data Replay : Type 0 where
  absent : Replay
  conflict : Replay
  replay : (status_code : ℕ) (response_body : Json) → Replay

-- An insert that the unique index refuses throws.
pub data InsertError : Type 0 where
  duplicate_identity : InsertError

unfoldable pub request_hash : ⦃H : Sha256⦄ ⦃C : Encodings⦄ → Option Json → Text
request_hash ⦃H⦄ ⦃C⦄ none = C.base64url (H.digest (utf8 (C.stringify null)))
request_hash ⦃H⦄ ⦃C⦄ (some body) = C.base64url (H.digest (utf8 (C.stringify body)))

-- The header, where it is given once.
unfoldable pub idempotency_header : Option Text → Option Text
unfolding trim
idempotency_header none = none
idempotency_header (some value) = if length (trim value) == 0 then none else some (trim value)

unfoldable pub same_identity : Identity → Identity → Bool
unfolding same_text
same_identity a b =
    same_text a.tenant_id b.tenant_id
    && same_text a.api_key_id b.api_key_id
    && same_text a.method b.method
    && same_text a.path b.path
    && same_text a.key b.key

unfoldable pub find_row : List IdempotencyRow → Identity → Option IdempotencyRow
unfolding same_identity
find_row [] identity = none
find_row (row ∷ rest) identity =
    let later = find_row rest identity in
    if same_identity row.identity identity then some row else later

unfoldable pub find_replay : List IdempotencyRow → Identity → Text → Replay
unfolding find_row
find_replay rows identity hash = elim (find_row rows identity) [
  | none ↦ Replay.absent
  | some row ↦
      if same_text row.request_hash hash
      then Replay.replay row.status_code row.response_body
      else Replay.conflict
]

unfoldable pub store_replay :
    ⦃C : Encodings⦄
    → List IdempotencyRow
    → Identity
    → Text
    → ℕ
    → Json
    → Result InsertError (List IdempotencyRow)
unfolding find_row
store_replay ⦃C⦄ rows identity hash status_code response_body = elim (find_row rows identity) [
  | some row ↦ err InsertError.duplicate_identity
  | none ↦ ok (
      record {
        identity = identity;
        request_hash = hash;
        status_code = status_code;
        response_body = C.jsonb response_body;
      }
      ∷ rows)
]
