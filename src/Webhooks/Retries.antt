-- ===== src/Webhooks/Retries.antt =====
-- What the job of a delivery comes to (apps/worker/src/index.ts, webhookDeliveryWorker).
use proveria.Common.{
  ℕ, zero, suc, ◌+◌, ◌≤◌, ◌<◌, ◌≡◌, ◌≢◌, ◌⊎◌, ◌∙◌, refl, sym, ap, subst, inl, inr, Option, none,
  some, List, ◌++◌, ◌&&◌, length, length-append, arith, ltb, leb, Bool-cases,
}
use proveria.Bytes.{Text}
use proveria.Bytes.Order.{same_text_iff}
use proveria.Webhooks.Delivery.{
  WebhookEndpoint, DeliveryStatus, WebhookDelivery, Store, Platform, put_delivery, Request, Outcome,
  SendOptions, SendStatus, find_endpoint, delivery_request, after_outcome, outcome_result,
}
use proveria.Webhooks.Sending.{Sent, disabled_row, send_joined, send_webhook_delivery, run_job}

-- A delivery that no attempt is to come for.
abbrev pub IsFinal : WebhookDelivery → Type 0
IsFinal row = (row.status ≡ DeliveryStatus.delivered) ⊎ (row.status ≡ DeliveryStatus.failed)

-- What one attempt leaves: the row is there, and either it is final and the job stops, or the job is to
-- run again and has attempts left.
IsStep : Store → WebhookDelivery → SendOptions → Sent → Type 0
IsStep store delivery options sent =
    (row : WebhookDelivery) × (sent.store.deliveries delivery.id ≡ some row)
    × (row.id ≡ delivery.id)
    × (row.endpoint_id ≡ delivery.endpoint_id)
    × (sent.store.endpoints ≡ store.endpoints)
    × (length sent.requests ≤ 1)
    × ((IsFinal row × (sent.result.status ≢ SendStatus.retrying))
        ⊎ ((sent.result.status ≡ SendStatus.retrying)
            × (options.attempt_number < options.max_attempts)))

put_delivery-found :
    (store : Store) (row : WebhookDelivery) → (put_delivery store row).deliveries row.id ≡ some row
unfolding put_delivery
put_delivery-found store row = rw ((same_text_iff row.id row.id).1 refl) refl

put_delivery-endpoints :
    (store : Store) (row : WebhookDelivery) → (put_delivery store row).endpoints ≡ store.endpoints
unfolding put_delivery
put_delivery-endpoints store row = refl

dispatch :
    (P : Sent → Type 0) (status : DeliveryStatus) (disabled : Option ℕ) (done off sent : Sent)
    → (status ≡ DeliveryStatus.delivered → P done)
    → P off
    → P sent
    → P (elim status [
      | DeliveryStatus.delivered ↦ done
      | _ ↦ elim disabled [ some at ↦ off | none ↦ sent ]
    ])
dispatch P DeliveryStatus.delivered disabled done off sent p q r = p refl
dispatch P DeliveryStatus.pending (some at) done off sent p q r = q
dispatch P DeliveryStatus.pending none done off sent p q r = r
dispatch P DeliveryStatus.retrying (some at) done off sent p q r = q
dispatch P DeliveryStatus.retrying none done off sent p q r = r
dispatch P DeliveryStatus.failed (some at) done off sent p q r = q
dispatch P DeliveryStatus.failed none done off sent p q r = r

-- A response or an error: the row and the result agree.
outcome_step :
    (options : SendOptions) (now : ℕ) (outcome : Outcome) (row : WebhookDelivery)
    → ((after_outcome options now outcome row).id ≡ row.id)
      × ((after_outcome options now outcome row).endpoint_id ≡ row.endpoint_id)
      × ((IsFinal (after_outcome options now outcome row)
            × ((outcome_result options outcome).status ≢ SendStatus.retrying))
          ⊎ (((outcome_result options outcome).status ≡ SendStatus.retrying)
              × (options.attempt_number < options.max_attempts)))
unfolding after_outcome outcome_result
outcome_step options now (Outcome.threw message) row =
    elim (Bool-cases (ltb options.attempt_number options.max_attempts)) [
      | inl e ↦ (refl, refl, inr (rw e refl, ground arith))
      | inr e ↦ (refl, refl, inl (inr (rw e refl), rw e (λ p. cc p)))
    ]
outcome_step options now (Outcome.answered status text) row =
    elim (Bool-cases (leb 200 status && ltb status 300)) [
      | inl two_hundred ↦ (
        rw two_hundred refl,
        rw two_hundred refl,
        inl (inl (rw two_hundred refl), rw two_hundred (λ p. cc p)),
      )
      | inr other ↦ elim (Bool-cases (ltb options.attempt_number options.max_attempts)) [
        | inl e ↦ (rw other refl, rw other refl, inr (rw other (rw e refl), ground arith))
        | inr e ↦ (
          rw other refl,
          rw other refl,
          inl (inr (rw other (rw e refl)), rw other (rw e (λ p. cc p))),
        )
      ]
    ]

module _ ⦃P : Platform⦄ (fetch : Request → Outcome) (store : Store) (delivery : WebhookDelivery)
    (endpoint : WebhookEndpoint) (options : SendOptions) (now : ℕ) where
  send_joined-IsStep :
      store.deliveries delivery.id ≡ some delivery
      → IsStep store delivery options (send_joined fetch store delivery endpoint options now)
  unfolding send_joined IsStep
  send_joined-IsStep there =
      dispatch (IsStep store delivery options) delivery.status endpoint.disabled_at _ _ _
        (λ e. (delivery, there, refl, refl, refl, omega arith, inl (inl e, λ p. cc p)))
        (
          disabled_row options now delivery,
          rw ((same_text_iff delivery.id delivery.id).1 refl) refl,
          refl,
          refl,
          refl,
          omega arith,
          inl (inr refl, λ p. cc p),
        )
        (let outcome = fetch (delivery_request delivery endpoint) in
          let (same, joined, ends) = outcome_step options now outcome delivery in
          (
            after_outcome options now outcome delivery,
            rw
                ((same_text_iff delivery.id (after_outcome options now outcome delivery).id).1
                  (sym same))
                refl,
            same,
            joined,
            refl,
            omega arith,
            ends,
          ))

  send_webhook_delivery-joined :
      store.deliveries delivery.id ≡ some delivery
      → find_endpoint delivery.endpoint_id store.endpoints ≡ some endpoint
      → send_webhook_delivery fetch store delivery.id options now
        ≡ send_joined fetch store delivery endpoint options now
  unfolding send_webhook_delivery
  send_webhook_delivery-joined there joined =
      rw (there, send_webhook_delivery) (rw (joined, send_webhook_delivery) refl)

  send_webhook_delivery-IsStep :
      store.deliveries delivery.id ≡ some delivery
      → find_endpoint delivery.endpoint_id store.endpoints ≡ some endpoint
      → IsStep store delivery options (send_webhook_delivery fetch store delivery.id options now)
  send_webhook_delivery-IsStep there joined =
      subst (IsStep store delivery options) (sym (send_webhook_delivery-joined there joined))
        (send_joined-IsStep there)

-- Where a job with attempts left ends: at a final row, after as many requests as attempts at most.
IsEnd : Text → ℕ → Store × List Request → Type 0
IsEnd delivery_id left out =
    (row : WebhookDelivery) × (out.0.deliveries delivery_id ≡ some row)
    × IsFinal row
    × (length out.1 ≤ left)

stops :
    (status : SendStatus) (again done : Store × List Request)
    → status ≢ SendStatus.retrying
    → (elim status [ SendStatus.retrying ↦ again | _ ↦ done ]) ≡ done
stops SendStatus.retrying again done h = absurd (h refl)
stops SendStatus.delivered again done h = refl
stops SendStatus.failed again done h = refl
stops SendStatus.skipped again done h = refl

module _ ⦃P : Platform⦄ (network : ℕ → Request → Outcome) (clock : ℕ → ℕ) (max_attempts : ℕ) where
  options_at : ℕ → SendOptions
  options_at attempt = record { attempt_number = attempt; max_attempts = max_attempts }

  sent_at : ℕ → Store → Text → Sent
  sent_at attempt store id =
      send_webhook_delivery (network attempt) store id (options_at attempt) (clock attempt)

  run_job-shape :
      (id : Text) (left attempt : ℕ) (store : Store)
      → run_job network clock id max_attempts (suc left) attempt store
        ≡ (elim (sent_at attempt store id).result.status [
          | SendStatus.retrying ↦ (
            (run_job network clock id max_attempts left
                (attempt + 1)
                (sent_at attempt store id).store).0,
            (sent_at attempt store id).requests
                ++ (run_job network clock id max_attempts left
                    (attempt + 1)
                    (sent_at attempt store id).store).1,
          )
          | _ ↦ ((sent_at attempt store id).store, (sent_at attempt store id).requests)
        ])
  unfolding run_job options_at sent_at
  run_job-shape id left attempt store = refl

  final-IsEnd :
      (id : Text) (left attempt : ℕ) (store : Store) (row : WebhookDelivery)
      → (sent_at attempt store id).store.deliveries id ≡ some row
      → IsFinal row
      → length (sent_at attempt store id).requests ≤ 1
      → (sent_at attempt store id).result.status ≢ SendStatus.retrying
      → IsEnd id (suc left) (run_job network clock id max_attempts (suc left) attempt store)
  unfolding IsEnd
  final-IsEnd id left attempt store row there final few other =
      subst (IsEnd id (suc left)) (sym (run_job-shape id left attempt store ∙ stops _ _ _ other))
        (row, there, final, omega (arith, few))

  run_job-again :
      (id : Text) (left attempt : ℕ) (store : Store)
      → (sent_at attempt store id).result.status ≡ SendStatus.retrying
      → run_job network clock id max_attempts (suc left) attempt store ≡ (
        (run_job network clock id max_attempts left
            (attempt + 1)
            (sent_at attempt store id).store).0,
        (sent_at attempt store id).requests
            ++ (run_job network clock id max_attempts left
                (attempt + 1)
                (sent_at attempt store id).store).1,
      )
  run_job-again id left attempt store again = run_job-shape id left attempt store ∙ rw again refl

  next-IsEnd :
      (id : Text) (left attempt : ℕ) (store : Store)
      → (sent_at attempt store id).result.status ≡ SendStatus.retrying
      → length (sent_at attempt store id).requests ≤ 1
      → IsEnd id left (
          run_job network clock id max_attempts left (attempt + 1) (sent_at attempt store id).store)
      → IsEnd id (suc left) (run_job network clock id max_attempts (suc left) attempt store)
  unfolding IsEnd
  next-IsEnd id left attempt store again few (row, there, final, many) =
      let sent = sent_at attempt store id in
      let later = run_job network clock id max_attempts left (attempt + 1) sent.store in
      subst (IsEnd id (suc left)) (sym (run_job-again id left attempt store again))
        (row, there, final, omega (arith, length-append sent.requests later.1, few, many))

  run_job-IsEnd :
      (left attempt : ℕ) (store : Store) (delivery : WebhookDelivery) (endpoint : WebhookEndpoint)
      → attempt + left ≡ max_attempts
      → store.deliveries delivery.id ≡ some delivery
      → find_endpoint delivery.endpoint_id store.endpoints ≡ some endpoint
      → IsEnd delivery.id
          (suc left)
          (run_job network clock delivery.id max_attempts (suc left) attempt store)
  unfolding IsStep sent_at options_at
  run_job-IsEnd zero attempt store delivery endpoint count there joined =
      let (row, found, same, kept, ends, few, outcome) =
        send_webhook_delivery-IsStep (network attempt) store delivery endpoint (options_at attempt)
          (clock attempt) there joined in
      elim outcome [
        | inl (final, other) ↦ final-IsEnd delivery.id zero attempt store row found final few other
        | inr (again, more) ↦ absurd (omega (arith, more, count))
      ]
  run_job-IsEnd (suc left) attempt store delivery endpoint count there joined =
      let (row, found, same, kept, ends, few, outcome) =
        send_webhook_delivery-IsStep (network attempt) store delivery endpoint (options_at attempt)
          (clock attempt) there joined in
      let sent = sent_at attempt store delivery.id in
      elim outcome [
        | inl (final, other) ↦
            final-IsEnd delivery.id (suc left) attempt store row found final few other
        | inr (again, more) ↦ next-IsEnd delivery.id (suc left) attempt store again few (
            subst
              (λ id.
                IsEnd id (suc left)
                  (run_job network clock id max_attempts (suc left) (attempt + 1) sent.store))
              same
              (run_job-IsEnd left (attempt + 1) sent.store row endpoint (omega (arith, count))
                (ap sent.store.deliveries same ∙ found) (cc (kept, ends, joined))))
      ]

-- A job of at least one attempt that starts on a stored delivery to an existing endpoint ends with the
-- delivery delivered or failed, whatever the network does, and has sent as many requests as it has
-- attempts at most.
pub run_job_ends :
    ⦃P : Platform⦄ (network : ℕ → Request → Outcome) (clock : ℕ → ℕ) (retries : ℕ) (store : Store)
    (delivery : WebhookDelivery) (endpoint : WebhookEndpoint)
    → store.deliveries delivery.id ≡ some delivery
    → find_endpoint delivery.endpoint_id store.endpoints ≡ some endpoint
    → (row : WebhookDelivery) × ((run_job network clock delivery.id
            (suc retries)
            (suc retries)
            1
            store).0.deliveries
          delivery.id
        ≡ some row)
      × IsFinal row
      × (length (run_job network clock delivery.id (suc retries) (suc retries) 1 store).1
          ≤ suc retries)
unfolding IsEnd
run_job_ends network clock retries store delivery endpoint there joined =
    run_job-IsEnd network clock (suc retries) retries 1 store delivery endpoint (omega arith) there
      joined
