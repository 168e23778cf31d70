-- ===== src/Webhooks/Verify.antt =====
-- packages/sdk/src/webhooks.ts: the verification of a delivery's signature header.
use proveria.Common.{
  ℕ, ◌+◌, ◌-◌, ◌*◌, Bool, true, false, not, ◌&&◌, ◌||◌, Option, none, some, List, [], ◌∷◌, ◌++◌,
  codes, length, all, ltb, leb, ◌==◌, if◌then◌else◌, Result, ok, err,
}
use proveria.Bytes.{Bytes, Text, same_text, bytes_equal}
use proveria.Bytes.Hex.{to_hex, from_hex}
use proveria.Bytes.Utf8.{utf8}
use proveria.Bytes.Split.{trim, split_on}
use proveria.Webhooks.{Hmac, Dates}

pub data FailureReason : Type 0 where
  missing_signature_header : FailureReason
  malformed_signature_header : FailureReason
  missing_timestamp : FailureReason
  missing_signature : FailureReason
  invalid_timestamp : FailureReason
  timestamp_out_of_tolerance : FailureReason
  invalid_signature : FailureReason

-- `body` holds the bytes that are given to the MAC; `now` is in milliseconds.
pub record WebhookVerificationInput : Type 0 where
  pub signing_secret : Text
  pub signature_header : Text
  pub body : Bytes
  pub tolerance_seconds : Option ℕ
  pub now : ℕ

-- The age is in milliseconds, where the source divides by 1000.
pub record WebhookVerificationResult : Type 0 where
  pub valid : Bool
  pub reason : Option FailureReason
  pub timestamp : Option Text
  pub age : Option ℕ

pub record ParsedSignatureHeader : Type 0 where
  pub timestamp : Option Text
  pub signature : Option Text

-- `part.split('=', 2)`: what stands behind a second `=` is dropped.
unfoldable pub key_and_value : Text → Text × Option Text
unfolding split_on
key_and_value part = elim (split_on b'=' part) [
  | [] ↦ ([], none)
  | key ∷ [] ↦ (key, none)
  | key ∷ value ∷ rest ↦ (key, some value)
]

-- One part of the header on what has been read so far.
unfoldable pub read_part : Text → ParsedSignatureHeader → Result FailureReason ParsedSignatureHeader
unfolding key_and_value trim same_text
read_part part parsed = elim (key_and_value part).1 [
  | none ↦ err FailureReason.malformed_signature_header
  | some raw_value ↦
      let key = trim (key_and_value part).0 in
      let value = trim raw_value in
      if length key == 0 || length value == 0
      then err FailureReason.malformed_signature_header
      else ok (record {
        timestamp = if same_text key (codes "t") then some value else parsed.timestamp;
        signature = if same_text key (codes "v1") then some value else parsed.signature;
      })
]

unfoldable pub read_parts :
    List Text → ParsedSignatureHeader → Result FailureReason ParsedSignatureHeader
unfolding read_part
read_parts [] parsed = ok parsed
read_parts (part ∷ rest) parsed = elim (read_part part parsed) [
  | err reason ↦ err reason
  | ok next ↦ read_parts rest next
]

unfoldable pub parse_signature_header : Text → Result FailureReason ParsedSignatureHeader
unfolding read_parts trim split_on
parse_signature_header header =
    if length (trim header) == 0
    then err FailureReason.missing_signature_header
    else read_parts (split_on b',' header) (record { timestamp = none; signature = none })

-- `/[0-9a-f]/i`
unfoldable pub is_hex_digit : ℕ → Bool
is_hex_digit c =
    (leb b'0' c && leb c b'9') || (leb b'a' c && leb c b'f') || (leb b'A' c && leb c b'F')

-- `/^[0-9a-f]+$/i`
unfoldable pub is_hex_text : Text → Bool
unfolding is_hex_digit
is_hex_text t = not (length t == 0) && all is_hex_digit t

unfoldable pub safe_equal_hex : Text → Text → Bool
unfolding is_hex_text from_hex bytes_equal
safe_equal_hex a b =
    if not (is_hex_text a) || not (is_hex_text b)
    then false
    else length (from_hex a) == length (from_hex b) && bytes_equal (from_hex a) (from_hex b)

abbrev pub refused : FailureReason → Option Text → Option ℕ → WebhookVerificationResult
refused reason timestamp age = record {
  valid = false;
  reason = some reason;
  timestamp = timestamp;
  age = age;
}

abbrev pub distance : ℕ → ℕ → ℕ
distance a b = (a - b) + (b - a)

abbrev pub tolerance_of : Option ℕ → ℕ
tolerance_of none = 300
tolerance_of (some seconds) = seconds

module _ ⦃M : Hmac⦄ ⦃D : Dates⦄ where
  -- The checks of the time and of the MAC.
  unfoldable pub verify_at : WebhookVerificationInput → Text → Text → ℕ → WebhookVerificationResult
  unfolding safe_equal_hex
  verify_at input timestamp signature timestamp_ms =
      let age = distance input.now timestamp_ms in
      let expected =
        to_hex (M.mac input.signing_secret (utf8 (timestamp ++ codes ".") ++ input.body)) in
      if ltb (tolerance_of input.tolerance_seconds * 1000) age
      then refused FailureReason.timestamp_out_of_tolerance (some timestamp) (some age)
      else if safe_equal_hex expected signature
      then record { valid = true; reason = none; timestamp = some timestamp; age = some age }
      else refused FailureReason.invalid_signature (some timestamp) (some age)

  -- From the timestamp and the signature of the header on.
  unfoldable pub verify_parts : WebhookVerificationInput → Text → Text → WebhookVerificationResult
  unfolding verify_at
  verify_parts input timestamp signature = elim (D.parse timestamp) [
    | none ↦ refused FailureReason.invalid_timestamp (some timestamp) none
    | some timestamp_ms ↦ verify_at input timestamp signature timestamp_ms
  ]

  unfoldable pub verify_webhook_signature_detailed :
      WebhookVerificationInput → WebhookVerificationResult
  unfolding parse_signature_header verify_parts
  verify_webhook_signature_detailed input = elim (parse_signature_header input.signature_header) [
    | err reason ↦ refused reason none none
    | ok parts ↦ elim parts.timestamp [
      | none ↦ refused FailureReason.missing_timestamp none none
      | some timestamp ↦ elim parts.signature [
        | none ↦ refused FailureReason.missing_signature none none
        | some signature ↦ verify_parts input timestamp signature
      ]
    ]
  ]

  unfoldable pub verify_webhook_signature : WebhookVerificationInput → Bool
  unfolding verify_webhook_signature_detailed
  verify_webhook_signature input = (verify_webhook_signature_detailed input).valid
