-- ===== src/Webhooks/Delivery.antt =====
-- apps/worker/src/handlers/webhook-events.ts (createWebhookDeliveries) and
-- apps/worker/src/handlers/webhook-delivery.ts (sendWebhookDelivery), on the tables webhook_endpoints and
-- webhook_deliveries of packages/db/src/schema/index.ts.
use proveria.Common.{
  ℕ, ◌+◌, Bool, true, false, ◌&&◌, Option, none, some, List, [], ◌∷◌, ◌++◌, map, codes, length,
  take, ltb, leb, ◌==◌, if◌then◌else◌,
}
use proveria.Bytes.{Text, same_text}
use proveria.Json.{Json, string, object, Fields, end, field}
use proveria.Json.Printing.{decimal}
use proveria.Crypto.LeafHash.{includes}
use proveria.Webhooks.{Hmac, sign_webhook_payload}

pub record WebhookEndpoint : Type 0 where
  pub id : Text
  pub tenant_id : Text
  pub url : Text
  pub events : List Text
  pub signing_secret : Text
  pub disabled_at : Option ℕ

pub data DeliveryStatus : Type 0 where
  pending : DeliveryStatus
  retrying : DeliveryStatus
  delivered : DeliveryStatus
  failed : DeliveryStatus

pub record WebhookDelivery : Type 0 where
  pub id : Text
  pub tenant_id : Text
  pub endpoint_id : Text
  pub event_type : Text
  pub payload : Json
  pub signature : Text
  pub status : DeliveryStatus
  pub attempts : ℕ
  pub next_attempt_at : Option ℕ
  pub last_attempt_at : Option ℕ
  pub response_status : Option ℕ
  pub response_body : Option Text

-- The two tables; a delivery is found by its primary key.
pub record Store : Type 0 where
  pub endpoints : List WebhookEndpoint
  pub deliveries : Text → Option WebhookDelivery

-- The runtime and the database: `JSON.stringify`, `toISOString`, what a jsonb column gives back for a value
-- that is written to it, and the random ids of events and rows. Nothing is assumed of them.
pub record Platform : Type 0 where
  pub stringify : Json → Text
  pub iso : ℕ → Text
  pub jsonb : Json → Json
  pub event_id : ℕ → Text
  pub row_id : ℕ → Text

pub record CreateWebhookDeliveriesInput : Type 0 where
  pub tenant_id : Text
  pub event_type : Text
  pub event_data : Fields
  pub occurred_at : ℕ

-- The filter of the query and the one behind it.
unfoldable pub is_interested : CreateWebhookDeliveriesInput → WebhookEndpoint → Bool
unfolding same_text includes
is_interested input endpoint = elim endpoint.disabled_at [
  | some at ↦ false
  | none ↦ same_text endpoint.tenant_id input.tenant_id && includes endpoint.events input.event_type
]

unfoldable pub put_delivery : Store → WebhookDelivery → Store
unfolding same_text
put_delivery store row = record {
  endpoints = store.endpoints;
  deliveries = λ id. if same_text id row.id then some row else store.deliveries id;
}

pub record Request : Type 0 where
  pub url : Text
  pub headers : List (Text × Text)
  pub body : Text

-- What the fetch comes to: a response, whose text may fail to be read, or an error.
pub data Outcome : Type 0 where
  answered : ℕ → Option Text → Outcome
  threw : Text → Outcome

pub record SendOptions : Type 0 where
  pub attempt_number : ℕ
  pub max_attempts : ℕ

pub data SendStatus : Type 0 where
  delivered : SendStatus
  retrying : SendStatus
  failed : SendStatus
  skipped : SendStatus

pub record SendResult : Type 0 where
  pub ok : Bool
  pub status : SendStatus
  pub response_status : Option ℕ
  pub error : Option Text

module _ ⦃M : Hmac⦄ ⦃P : Platform⦄ where
  abbrev pub event_payload : CreateWebhookDeliveriesInput → ℕ → Json
  event_payload input n = object (
      field (codes "id") (string (codes "evt_" ++ P.event_id n)) (
        field (codes "type") (string input.event_type) (
          field (codes "tenantId") (string input.tenant_id) (
            field (codes "createdAt") (string (P.iso input.occurred_at))
              (field (codes "data") (object input.event_data) end)))))

  -- The row for one endpoint, as the database holds it.
  abbrev pub delivery_row : CreateWebhookDeliveriesInput → ℕ → WebhookEndpoint → WebhookDelivery
  delivery_row input n endpoint = record {
    id = P.row_id n;
    tenant_id = input.tenant_id;
    endpoint_id = endpoint.id;
    event_type = input.event_type;
    payload = P.jsonb (event_payload input n);
    signature =
        sign_webhook_payload endpoint.signing_secret (P.iso input.occurred_at)
          (P.stringify (event_payload input n));
    status = DeliveryStatus.pending;
    attempts = 0;
    next_attempt_at = some input.occurred_at;
    last_attempt_at = none;
    response_status = none;
    response_body = none;
  }

  -- The rows of the interested endpoints, where n counts the ids that were drawn.
  unfoldable pub create_rows :
      CreateWebhookDeliveriesInput → ℕ → List WebhookEndpoint → List WebhookDelivery
  unfolding is_interested
  create_rows input n [] = []
  create_rows input n (endpoint ∷ rest) = elim (is_interested input endpoint) [
    | true ↦ delivery_row input n endpoint ∷ create_rows input (n + 1) rest
    | false ↦ create_rows input n rest
  ]

  unfoldable pub insert_rows : Store → List WebhookDelivery → Store
  unfolding put_delivery
  insert_rows store [] = store
  insert_rows store (row ∷ rest) = insert_rows (put_delivery store row) rest

  unfoldable pub create_webhook_deliveries :
      Store → CreateWebhookDeliveriesInput → ℕ → List (Text × Text) × Store
  unfolding create_rows insert_rows
  create_webhook_deliveries store input n =
      let rows = create_rows input n store.endpoints in
      (
        map (λ r. (WebhookDelivery.id r, WebhookDelivery.endpoint_id r)) rows,
        insert_rows store rows,
      )

-- `text.slice(0, 4000) || null`
unfoldable pub response_preview : Option Text → Option Text
response_preview none = none
response_preview (some text) = if length (take 4000 text) == 0 then none else some (take 4000 text)

up_to_comma : Text → Text
up_to_comma [] = []
up_to_comma (c ∷ rest) = let later = up_to_comma rest in if c == b',' then [] else c ∷ later

-- `/^t=([^,]+)/.exec(signature)?.[1] ?? ''`
unfoldable pub header_timestamp : Text → Text
unfolding up_to_comma
header_timestamp (c ∷ d ∷ rest) = if c == b't' && d == b'=' then up_to_comma rest else []
header_timestamp _ = []

abbrev pub find_endpoint : Text → List WebhookEndpoint → Option WebhookEndpoint
find_endpoint id [] = none
find_endpoint id (endpoint ∷ rest) =
    let later = find_endpoint id rest in if same_text endpoint.id id then some endpoint else later

module _ ⦃P : Platform⦄ where
  unfoldable pub delivery_request : WebhookDelivery → WebhookEndpoint → Request
  unfolding header_timestamp
  delivery_request delivery endpoint = record {
    url = endpoint.url;
    headers =
        (codes "content-type", codes "application/json")
        ∷ (codes "user-agent", codes "Proveria-Webhooks/1.0")
        ∷ (codes "proveria-webhook-id", delivery.id)
        ∷ (codes "proveria-webhook-event", delivery.event_type)
        ∷ (codes "proveria-webhook-timestamp", header_timestamp delivery.signature)
        ∷ (codes "proveria-webhook-signature", delivery.signature)
        ∷ [];
    body = P.stringify delivery.payload;
  }

abbrev pub retry_status : SendOptions → DeliveryStatus
retry_status options =
    if ltb options.attempt_number options.max_attempts
    then DeliveryStatus.retrying
    else DeliveryStatus.failed

abbrev pub retry_result : SendOptions → SendStatus
retry_result options =
    if ltb options.attempt_number options.max_attempts
    then SendStatus.retrying
    else SendStatus.failed

-- The row after a response or an error.
unfoldable pub after_outcome : SendOptions → ℕ → Outcome → WebhookDelivery → WebhookDelivery
unfolding response_preview
after_outcome options now (Outcome.threw message) row = record row {
  status = retry_status options;
  attempts = options.attempt_number;
  last_attempt_at = some now;
  response_body = some message;
}
after_outcome options now (Outcome.answered status text) row =
    if leb 200 status && ltb status 300
    then record row {
      status = DeliveryStatus.delivered;
      attempts = options.attempt_number;
      last_attempt_at = some now;
      next_attempt_at = none;
      response_status = some status;
      response_body = response_preview text;
    }
    else record row {
      status = retry_status options;
      attempts = options.attempt_number;
      last_attempt_at = some now;
      response_status = some status;
      response_body = response_preview text;
    }

unfoldable pub outcome_result : SendOptions → Outcome → SendResult
outcome_result options (Outcome.threw message) = record {
  ok = false;
  status = retry_result options;
  response_status = none;
  error = some message;
}
outcome_result options (Outcome.answered status text) =
    if leb 200 status && ltb status 300
    then record {
      ok = true;
      status = SendStatus.delivered;
      response_status = some status;
      error = none;
    }
    else record {
      ok = false;
      status = retry_result options;
      response_status = some status;
      error = some (codes "webhook_http_" ++ decimal status);
    }
