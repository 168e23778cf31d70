-- ===== src/Auth/DeviceSignature.antt =====
-- apps/api/src/auth/device-signature.ts: requests that a paired device has signed.
use proveria.Common.{
  ℕ, ◌+◌, ◌-◌, ◌*◌, Bool, true, false, ◌||◌, Option, none, some, [], ◌∷◌, codes, length, ltb, ◌==◌,
  if◌then◌else◌, Result, ok, err, ◌>>=◌,
}
use proveria.Bytes.{Bytes, Text, same_text}
use proveria.Bytes.Hex.{to_hex}
use proveria.Bytes.Utf8.{utf8}
use proveria.Json.{Json}
use proveria.Json.Printing.{decimal}
use proveria.Crypto.{Sha256}
use proveria.Crypto.Signing.{Ed25519}
use proveria.Shingling.{join_with}
use proveria.Auth.{Device, Tenant, User, Database, first_where}
use proveria.Auth.Resolver.{is_set, resolve_tenant_context}

-- The runtime: `toUpperCase`, `JSON.stringify`, `decodeURIComponent`, and `Number`, which reads the
-- milliseconds that `String` has printed; a timestamp that is no natural number is `none`, where the source
-- also takes fractions. Ids are compared as texts.
pub record Runtime : Type 0 where
  pub upper_case : Text → Text
  pub stringify : Json → Text
  pub decode_uri_component : Text → Text
  pub parse_number : Text → Option ℕ

pub data Body : Type 0 where
  absent : Body
  string_body : Text → Body
  buffer : Bytes → Body
  parsed : Json → Body

-- A header that is missing or given more than once is `none`.
pub record SignedRequest : Type 0 where
  pub method : Text
  pub url : Text
  pub body : Body
  pub device_id : Option Text
  pub timestamp : Option Text
  pub signature : Option Text

pub record Principal : Type 0 where
  pub device : Device
  pub tenant : Tenant
  pub user : User

-- The reason that is logged with a 401.
pub data Rejection : Type 0 where
  missing_headers : Rejection
  bad_timestamp : Rejection
  timestamp_out_of_window : Rejection
  device_missing_or_revoked : Rejection
  signature_invalid : Rejection
  tenant_or_user_disabled : Rejection
  workspace_not_available : Rejection

abbrev pub signature_protocol : Text
signature_protocol = codes "proveria-device-v1"

abbrev pub signature_window_ms : ℕ
signature_window_ms = 60 * 1000

abbrev pub present {ℓ} : {A : Type ℓ} → Rejection → Option A → Result Rejection A
present reason none = err reason
present reason (some value) = ok value

abbrev pub check : Rejection → Bool → Result Rejection (Unit {0})
check reason true = ok tt
check reason false = err reason

segment : Text → Text
segment [] = []
segment (c ∷ rest) = let later = segment rest in if c == b'/' || c == b'?' then [] else c ∷ later

strip_prefix : Text → Text → Option Text
strip_prefix [] t = some t
strip_prefix (p ∷ prefix) [] = none
strip_prefix (p ∷ prefix) (c ∷ t) =
    let later = strip_prefix prefix t in if p == c then later else none

-- `/^\/tenants\/([^/?]+)/`
unfoldable pub tenant_segment : Text → Option Text
unfolding segment strip_prefix
tenant_segment url = elim (strip_prefix (codes "/tenants/") url) [
  | none ↦ none
  | some rest ↦ if length (segment rest) == 0 then none else some (segment rest)
]

module _ ⦃R : Runtime⦄ where
  unfoldable pub body_bytes : Body → Bytes
  body_bytes Body.absent = []
  body_bytes (Body.string_body t) = utf8 t
  body_bytes (Body.buffer b) = b
  body_bytes (Body.parsed j) = utf8 (R.stringify j)

  unfoldable pub canonical_signed_bytes : ⦃H : Sha256⦄ → ℕ → Text → Text → Bytes → Bytes
  unfolding join_with
  canonical_signed_bytes ⦃H⦄ timestamp_ms method path_with_query bytes = utf8 (
      join_with (10 ∷ []) (
        signature_protocol
        ∷ decimal timestamp_ms
        ∷ R.upper_case method
        ∷ path_with_query
        ∷ to_hex (H.digest bytes)
        ∷ []))

  -- The workspace of the request: that of the path, where the path names one.
  unfoldable pub request_tenant : Database → Tenant → User → Text → Result Rejection Tenant
  unfolding tenant_segment resolve_tenant_context
  request_tenant db device_tenant user url = elim (tenant_segment url) [
    | none ↦ ok device_tenant
    | some slug ↦ elim (resolve_tenant_context db user (R.decode_uri_component slug)) [
      | none ↦ err Rejection.workspace_not_available
      | some context ↦ ok context.tenant
    ]
  ]

  abbrev pub is_in_window : ℕ → ℕ → Bool
  is_in_window now timestamp_ms =
      if ltb signature_window_ms ((now - timestamp_ms) + (timestamp_ms - now)) then false else true

  unfoldable pub require_device_signature :
      ⦃H : Sha256⦄ ⦃E : Ed25519⦄ → Database → SignedRequest → ℕ → Result Rejection Principal
  unfolding canonical_signed_bytes body_bytes request_tenant first_where same_text
  require_device_signature ⦃H⦄ ⦃E⦄ db req now = do
    device_id ← present Rejection.missing_headers req.device_id
    timestamp_header ← present Rejection.missing_headers req.timestamp
    signature ← present Rejection.missing_headers req.signature
    timestamp_ms ← present Rejection.bad_timestamp (R.parse_number timestamp_header)
    _ ← check Rejection.timestamp_out_of_window (is_in_window now timestamp_ms)
    device ←
        present Rejection.device_missing_or_revoked
          (first_where (λ d. same_text (Device.id d) device_id) db.devices)
    _ ← check Rejection.device_missing_or_revoked (if is_set device.revoked_at then false else true)
    _ ← check Rejection.signature_invalid (
        E.verify (canonical_signed_bytes timestamp_ms req.method req.url (body_bytes req.body))
          signature device.public_key)
    device_tenant ←
        present Rejection.tenant_or_user_disabled
          (first_where (λ t. same_text (Tenant.id t) device.tenant_id) db.tenants)
    user ←
        present Rejection.tenant_or_user_disabled
          (first_where (λ u. same_text (User.id u) device.user_id) db.users)
    _ ←
        check Rejection.tenant_or_user_disabled
          (if is_set device_tenant.archived_at || is_set user.deactivated_at then false else true)
    tenant ← request_tenant db device_tenant user req.url
    ok (record { device = device; tenant = tenant; user = user })

  -- The headers that a client sends, on a signer with a private key.
  unfoldable pub build_device_signature_headers :
      ⦃H : Sha256⦄ ⦃E : Ed25519⦄
      → (private_key device_id method path_with_query : Text) → Body
      → ℕ
      → SignedRequest
  unfolding canonical_signed_bytes body_bytes
  build_device_signature_headers ⦃H⦄ ⦃E⦄ private_key device_id method path_with_query body
        timestamp_ms =
      record {
        method = method;
        url = path_with_query;
        body = body;
        device_id = some device_id;
        timestamp = some (decimal timestamp_ms);
        signature = some (
            E.sign (canonical_signed_bytes timestamp_ms method path_with_query (body_bytes body))
              private_key);
      }
