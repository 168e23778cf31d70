-- ===== src/Webhooks/Tests.antt =====
-- Runs of the webhooks, with a checksum in the place of the MAC and one known date.
use proveria.Common.{
  ℕ, ◌≤◌, ◌≡◌, refl, true, none, some, [], ◌∷◌, ◌++◌, codes, length, arith, if◌then◌else◌, ltb,
}
use proveria.Bytes.{Text, same_text}
use proveria.Bytes.Hex.{to_hex}
use proveria.Bytes.Utf8.{utf8}
use proveria.Bytes.Split.{is_space}
use proveria.Json.{null}
use proveria.Samples.{toy_hash}
use proveria.Webhooks.{Hmac, Dates, sign_webhook_payload}
use proveria.Webhooks.Verify.{verify_webhook_signature_detailed}
use proveria.Webhooks.Header.{header_of}
use proveria.Webhooks.RoundTrip.{
  verify_webhook_signature_detailed-sign_webhook_payload, verify_webhook_signature_detailed_shifted,
}
use proveria.Webhooks.Delivery.{
  WebhookEndpoint, DeliveryStatus, WebhookDelivery, Store, Platform, Request, Outcome,
  header_timestamp,
}
use proveria.Webhooks.Sending.{run_job}
use proveria.Webhooks.Retries.{IsFinal, run_job_ends}

instance abbrev toy_hmac : Hmac
toy_hmac = record {
  mac = λ k m. toy_hash.digest (k ++ m);
  length-mac = λ k m. toy_hash.length-digest (k ++ m);
  mac-IsByte = λ k m. toy_hash.digest-IsByte (k ++ m);
}

-- Every text of 19 units or more is the date 1000 s after 1970.
instance abbrev toy_dates : Dates
toy_dates = record { parse = λ t. if ltb (length t) 19 then none else some 1000000 }

instance abbrev toy_platform : Platform
toy_platform = record {
  stringify = λ j. codes "{}";
  iso = λ n. codes "1970-01-01T00:16:40.000Z";
  jsonb = λ j. j;
  event_id = λ n. codes "e";
  row_id = λ n. codes "r";
}

abbrev time : Text
time = codes "1970-01-01T00:16:40.000Z"

opened : Unit {0}
unfolding is_space sign_webhook_payload utf8 verify_webhook_signature_detailed run_job
    header_timestamp
opened = tt

signed_webhook_example :
    verify_webhook_signature_detailed (record {
      signing_secret = codes "whsec_1";
      signature_header = sign_webhook_payload (codes "whsec_1") time (codes "{}");
      body = utf8 (codes "{}");
      tolerance_seconds = none;
      now = 1200000;
    })
    ≡ record { valid = true; reason = none; timestamp = some time; age = some 200000 }
unfolding opened
signed_webhook_example =
    verify_webhook_signature_detailed-sign_webhook_payload (codes "whsec_1") time (codes "{}")
      1000000 1200000 none (ground arith, omega arith) refl (omega arith)

abbrev signature : Text
signature = to_hex (toy_hmac.mac (codes "k") (utf8 (time ++ codes "." ++ codes "{}")))

-- The body `000Z.{}` was never signed.
shifted_example :
    (verify_webhook_signature_detailed (record {
      signing_secret = codes "k";
      signature_header = header_of (codes "1970-01-01T00:16:40") signature;
      body = utf8 (codes "000Z.{}");
      tolerance_seconds = none;
      now = 1000000;
    })).valid
    ≡ true
unfolding opened
shifted_example =
    verify_webhook_signature_detailed_shifted (codes "k") (codes "1970-01-01T00:16:40")
      (codes "000Z") (codes "{}") signature 1000000 1000000 none refl (ground arith, omega arith)
      refl (omega arith)

abbrev endpoint : WebhookEndpoint
endpoint = record {
  id = codes "ep";
  tenant_id = codes "t";
  url = codes "https://example.org";
  events = codes "receipt.issued" ∷ [];
  signing_secret = codes "k";
  disabled_at = none;
}

abbrev delivery : WebhookDelivery
delivery = record {
  id = codes "r";
  tenant_id = codes "t";
  endpoint_id = codes "ep";
  event_type = codes "receipt.issued";
  payload = null;
  signature = header_of time signature;
  status = DeliveryStatus.pending;
  attempts = 0;
  next_attempt_at = some 0;
  last_attempt_at = none;
  response_status = none;
  response_body = none;
}

abbrev store : Store
store = record {
  endpoints = endpoint ∷ [];
  deliveries = λ id. if same_text id (codes "r") then some delivery else none;
}

-- Two errors, then an answer.
abbrev network : ℕ → Request → Outcome
network attempt request =
    if ltb attempt 3 then Outcome.threw (codes "ECONNRESET") else Outcome.answered 204 none

third_attempt : length (run_job network (λ n. n) (codes "r") 5 5 1 store).1 ≡ 3
unfolding opened same_text
third_attempt = refl

job_example :
    (row : WebhookDelivery) × ((run_job network (λ n. n) (codes "r") 5 5 1 store).0.deliveries
        (codes "r")
      ≡ some row)
    × IsFinal row
    × (length (run_job network (λ n. n) (codes "r") 5 5 1 store).1 ≤ 5)
unfolding same_text
job_example = run_job_ends network (λ n. n) 4 store delivery endpoint refl refl
