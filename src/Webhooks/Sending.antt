-- ===== src/Webhooks/Sending.antt =====
-- sendWebhookDelivery (apps/worker/src/handlers/webhook-delivery.ts) and the job that calls it until it is
-- done or has no attempts left (webhookDeliveryWorker in apps/worker/src/index.ts).
use proveria.Common.{
  ℕ, zero, suc, ◌+◌, Bool, true, false, Option, none, some, List, [], ◌∷◌, ◌++◌, codes,
}
use proveria.Bytes.{Text}
use proveria.Webhooks.Delivery.{
  WebhookEndpoint, DeliveryStatus, WebhookDelivery, Store, Platform, put_delivery, Request, Outcome,
  SendOptions, SendStatus, SendResult, find_endpoint, delivery_request, after_outcome,
  outcome_result,
}

-- What a call returns, the tables behind it, and the requests it has sent.
pub record Sent : Type 0 where
  pub result : SendResult
  pub store : Store
  pub requests : List Request

abbrev not_sent : Bool → SendStatus → Option Text → SendResult
not_sent ok status error = record {
  ok = ok;
  status = status;
  response_status = none;
  error = error;
}

-- The row of a delivery to a disabled endpoint.
abbrev pub disabled_row : SendOptions → ℕ → WebhookDelivery → WebhookDelivery
disabled_row options now delivery = record delivery {
  status = DeliveryStatus.failed;
  attempts = options.attempt_number;
  last_attempt_at = some now;
  response_body = some (codes "endpoint_disabled");
}

module _ ⦃P : Platform⦄ where
  -- A delivery with its endpoint, from the test of its status on.
  unfoldable pub send_joined :
      (Request → Outcome) → Store → WebhookDelivery → WebhookEndpoint → SendOptions → ℕ → Sent
  unfolding put_delivery delivery_request after_outcome outcome_result
  send_joined fetch store delivery endpoint options now = elim delivery.status [
    | DeliveryStatus.delivered ↦ record {
      result = not_sent true SendStatus.delivered none;
      store = store;
      requests = [];
    }
    | _ ↦ elim endpoint.disabled_at [
      | some at ↦ record {
        result = not_sent false SendStatus.failed (some (codes "endpoint_disabled"));
        store = put_delivery store (disabled_row options now delivery);
        requests = [];
      }
      | none ↦
          let request = delivery_request delivery endpoint in
          let outcome = fetch request in
          record {
            result = outcome_result options outcome;
            store = put_delivery store (after_outcome options now outcome delivery);
            requests = request ∷ [];
          }
    ]
  ]

  unfoldable pub send_webhook_delivery : (Request → Outcome) → Store → Text → SendOptions → ℕ → Sent
  unfolding send_joined
  send_webhook_delivery fetch store delivery_id options now =
      let skipped : Sent = record {
        result = not_sent false SendStatus.skipped (some (codes "delivery_not_found"));
        store = store;
        requests = [];
      } in
      elim (store.deliveries delivery_id) [
        | none ↦ skipped
        | some delivery ↦ elim (find_endpoint delivery.endpoint_id store.endpoints) [
          | none ↦ skipped
          | some endpoint ↦ send_joined fetch store delivery endpoint options now
        ]
      ]

  -- The job: `network` and `clock` give each attempt its outcome and its time. A call that ends in
  -- `retrying` throws, and the queue runs the job again while it has attempts left.
  unfoldable pub run_job :
      (ℕ → Request → Outcome) → (ℕ → ℕ) → Text → ℕ → ℕ → ℕ → Store → Store × List Request
  unfolding send_webhook_delivery
  run_job network clock delivery_id max_attempts zero attempt store = (store, [])
  run_job network clock delivery_id max_attempts (suc left) attempt store =
      let options : SendOptions = record {
        attempt_number = attempt;
        max_attempts = max_attempts;
      } in
      let sent =
        send_webhook_delivery (network attempt) store delivery_id options (clock attempt) in
      elim sent.result.status [
        | SendStatus.retrying ↦
            let later =
              run_job network clock delivery_id max_attempts left (attempt + 1) sent.store in
            (later.0, sent.requests ++ later.1)
        | _ ↦ (sent.store, sent.requests)
      ]
