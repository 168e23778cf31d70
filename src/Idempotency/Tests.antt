-- ===== src/Idempotency/Tests.antt =====
-- A reply that is stored and found again, with a constant encoding of hashes.
use proveria.Common.{◌≡◌, ◌≢◌, refl, none, some, List, [], codes, ok}
use proveria.Bytes.{Text, same_text}
use proveria.Json.{string}
use proveria.Idempotency.{
  Encodings, Identity, IdempotencyRow, Replay, same_identity, find_replay, store_replay,
  idempotency_header,
}
use proveria.Idempotency.Stored.{find_replay-store_replay}

instance abbrev toy_encodings : Encodings
toy_encodings = record { stringify = λ j. codes "null"; base64url = λ b. b; jsonb = λ j. j }

abbrev identity : Identity
identity = record {
  tenant_id = codes "t";
  api_key_id = codes "k";
  method = codes "POST";
  path = codes "/v1/attestations";
  key = codes "key-1";
}

opened : Unit {0}
unfolding same_text same_identity find_replay store_replay idempotency_header
opened = tt

headers :
    (idempotency_header (some (codes "  ")) ≡ none)
    × (idempotency_header (some (codes " key-1 ")) ≡ some (codes "key-1"))
unfolding opened
headers = (refl, refl)

stored_example :
    (rows' : List IdempotencyRow) × (store_replay [] identity
        (codes "hash")
        201
        (string (codes "done"))
      ≡ ok rows')
    × (find_replay rows' identity (codes "hash") ≡ Replay.replay 201 (string (codes "done")))
    × ((hash' : Text) → codes "hash" ≢ hash' → find_replay rows' identity hash' ≡ Replay.conflict)
    × ((other : Identity) (hash' : Text)
        → identity ≢ other
        → find_replay rows' other hash' ≡ find_replay [] other hash')
unfolding opened
stored_example =
    find_replay-store_replay [] identity (codes "hash") 201 (string (codes "done")) refl
