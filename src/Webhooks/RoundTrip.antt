-- ===== src/Webhooks/RoundTrip.antt =====
-- apps/api/src/webhooks/signing.ts against packages/sdk/src/webhooks.ts: what the receiver accepts.
use mathlib.Core.List.{append_assoc}
use proveria.Common.{
  ℕ, ◌*◌, ◌≤◌, ◌≡◌, ◌∙◌, refl, sym, ap, true, false, Option, none, some, ◌++◌, codes, ltb,
  if◌then◌else◌, arith, ok,
}
use proveria.Bytes.{Text}
use proveria.Bytes.Hex.{to_hex}
use proveria.Bytes.Utf8.{utf8, utf8-append, is_high, is_low}
use proveria.Bytes.Prefix.{append_injective}
use proveria.Webhooks.{Hmac, Dates, sign_webhook_payload}
use proveria.Webhooks.Verify.{
  FailureReason, WebhookVerificationInput, WebhookVerificationResult, parse_signature_header,
  verify_at, refused, safe_equal_hex, verify_parts, distance, tolerance_of,
  verify_webhook_signature_detailed,
}
use proveria.Webhooks.Header.{
  IsPlain, header_of, to_hex-IsPlain, parse_signature_header-plain, safe_equal_hex_refl,
}

module _ ⦃M : Hmac⦄ ⦃D : Dates⦄ where
  verify_at-shape :
      (input : WebhookVerificationInput) (timestamp signature : Text) (ms : ℕ)
      → verify_at input timestamp signature ms ≡ (
          if ltb (tolerance_of input.tolerance_seconds * 1000) (distance input.now ms)
          then refused FailureReason.timestamp_out_of_tolerance
              (some timestamp)
              (some (distance input.now ms))
          else if safe_equal_hex
              (to_hex (M.mac input.signing_secret (utf8 (timestamp ++ codes ".") ++ input.body)))
              signature
          then record {
            valid = true;
            reason = none;
            timestamp = some timestamp;
            age = some (distance input.now ms);
          }
          else refused FailureReason.invalid_signature
              (some timestamp)
              (some (distance input.now ms)))
  unfolding verify_at
  verify_at-shape input timestamp signature ms = refl

  verify_parts-date :
      (input : WebhookVerificationInput) (timestamp signature : Text) (ms : ℕ)
      → D.parse timestamp ≡ some ms
      → verify_parts input timestamp signature ≡ verify_at input timestamp signature ms
  unfolding verify_parts
  verify_parts-date input timestamp signature ms date = rw (date, verify_parts) refl

  verify_parts-shape :
      (input : WebhookVerificationInput) (timestamp signature : Text) (ms : ℕ)
      → D.parse timestamp ≡ some ms
      → safe_equal_hex
          (to_hex (M.mac input.signing_secret (utf8 (timestamp ++ codes ".") ++ input.body)))
          signature
        ≡ true
      → distance input.now ms ≤ tolerance_of input.tolerance_seconds * 1000
      → verify_parts input timestamp signature ≡ record {
        valid = true;
        reason = none;
        timestamp = some timestamp;
        age = some (distance input.now ms);
      }
  verify_parts-shape input timestamp signature ms date same near =
      let inside : ltb (tolerance_of input.tolerance_seconds * 1000) (distance input.now ms)
          ≡ false =
        ground (arith, near) in
      verify_parts-date input timestamp signature ms date
      ∙ verify_at-shape input timestamp signature ms
      ∙ rw inside (rw same refl)

  verify-shape :
      (input : WebhookVerificationInput) (timestamp signature : Text)
      → parse_signature_header input.signature_header
        ≡ ok (record { timestamp = some timestamp; signature = some signature })
      → verify_webhook_signature_detailed input ≡ verify_parts input timestamp signature
  unfolding verify_webhook_signature_detailed
  verify-shape input timestamp signature parsed =
      rw (parsed, verify_webhook_signature_detailed) refl

  -- A header with the MAC of its timestamp, a dot and the bytes of the body.
  header_accepted :
      (input : WebhookVerificationInput) (timestamp : Text) (ms : ℕ)
      → IsPlain timestamp
      → D.parse timestamp ≡ some ms
      → distance input.now ms ≤ tolerance_of input.tolerance_seconds * 1000
      → input.signature_header
        ≡ header_of timestamp
            (to_hex (M.mac input.signing_secret (utf8 (timestamp ++ codes ".") ++ input.body)))
      → verify_webhook_signature_detailed input ≡ record {
        valid = true;
        reason = none;
        timestamp = some timestamp;
        age = some (distance input.now ms);
      }
  header_accepted input timestamp ms plain date near header =
      let message = utf8 (timestamp ++ codes ".") ++ input.body in
      let mac = M.mac input.signing_secret message in
      let size = M.length-mac input.signing_secret message in
      let range = M.mac-IsByte input.signing_secret message in
      let hex = to_hex-IsPlain mac size range in
      verify-shape input timestamp (to_hex mac) (
        ap parse_signature_header header
        ∙ parse_signature_header-plain timestamp (to_hex mac) plain hex)
      ∙ verify_parts-shape input timestamp (to_hex mac) ms date (safe_equal_hex_refl mac size range)
          near

  -- The text that is signed, cut behind the dot.
  signed_bytes :
      (timestamp body : Text)
      → utf8 (timestamp ++ codes "." ++ body) ≡ utf8 (timestamp ++ codes ".") ++ utf8 body
  signed_bytes timestamp body =
      ap utf8 (append_assoc timestamp (codes ".") body)
      ∙ utf8-append timestamp b'.' body (unfold is_high in refl) (unfold is_low in refl)

  -- What the signer signs at a time, the receiver accepts within the tolerance of that time: for every
  -- secret, every body and every timestamp that is a date without spaces, commas and equals signs.
  pub verify_webhook_signature_detailed-sign_webhook_payload :
      (secret timestamp body : Text) (ms now : ℕ) (tolerance_seconds : Option ℕ)
      → IsPlain timestamp
      → D.parse timestamp ≡ some ms
      → distance now ms ≤ tolerance_of tolerance_seconds * 1000
      → verify_webhook_signature_detailed (record {
        signing_secret = secret;
        signature_header = sign_webhook_payload secret timestamp body;
        body = utf8 body;
        tolerance_seconds = tolerance_seconds;
        now = now;
      })
        ≡ record {
          valid = true;
          reason = none;
          timestamp = some timestamp;
          age = some (distance now ms);
        }
  unfolding sign_webhook_payload
  verify_webhook_signature_detailed-sign_webhook_payload secret timestamp body ms now tol plain date
        near =
      header_accepted _ timestamp ms plain date near
        (ap (λ m. header_of timestamp (to_hex (M.mac secret m))) (signed_bytes timestamp body))

  -- The message does not say where the timestamp ends. The signature of a body at a timestamp with a
  -- dot in it is accepted with the part of the timestamp in front of the dot, for another body: the
  -- part behind the dot, a dot and the body, if the front part is a date within the tolerance.
  pub verify_webhook_signature_detailed_shifted :
      (secret front back body signature : Text) (ms now : ℕ) (tolerance_seconds : Option ℕ)
      → sign_webhook_payload secret (front ++ codes "." ++ back) body
        ≡ header_of (front ++ codes "." ++ back) signature
      → IsPlain front
      → D.parse front ≡ some ms
      → distance now ms ≤ tolerance_of tolerance_seconds * 1000
      → (verify_webhook_signature_detailed (record {
        signing_secret = secret;
        signature_header = header_of front signature;
        body = utf8 (back ++ codes "." ++ body);
        tolerance_seconds = tolerance_seconds;
        now = now;
      })).valid
        ≡ true
  unfolding sign_webhook_payload
  verify_webhook_signature_detailed_shifted secret front back body signature ms now tol signed plain
        date near =
      let dotted = front ++ codes "." ++ back in
      let (_, tail) =
        append_injective (codes "t=" ++ dotted ++ codes ",v1=")
          (codes "t=" ++ dotted ++ codes ",v1=") _ _ refl signed in
      let moved : dotted ++ codes "." ++ body ≡ front ++ codes "." ++ (back ++ codes "." ++ body) =
        cc (
          append_assoc (front ++ codes ".") back (codes "."),
          append_assoc (front ++ codes ".") (back ++ codes ".") body,
        ) in
      let message = ap utf8 moved ∙ signed_bytes front (back ++ codes "." ++ body) in
      ap (λ r. WebhookVerificationResult.valid r)
        (header_accepted _ front ms plain date near
          (ap (header_of front) (sym tail ∙ ap (λ m. to_hex (M.mac secret m)) message)))
