-- ===== src/Auth/Accepted.antt =====
-- Which requests a device's signature lets in (requireDeviceSignatureFactory in
-- apps/api/src/auth/device-signature.ts).
use proveria.Common.{ℕ, ◌+◌, ◌≤◌, ◌≡◌, ◌⊎◌, true, none, some}
use proveria.Bytes.{Text, same_text}
use proveria.Crypto.{Sha256}
use proveria.Crypto.Signing.{Ed25519}
use proveria.Auth.{Device, Tenant, User, Database, first_where}
use proveria.Auth.Resolver.{TenantContext, resolve_tenant_context}
use proveria.Auth.DeviceSignature.{
  Runtime, SignedRequest, Principal, tenant_segment, body_bytes, canonical_signed_bytes,
  signature_window_ms,
}

module _ ⦃H : Sha256⦄ ⦃E : Ed25519⦄ ⦃R : Runtime⦄ where
  -- The workspace of a request: the device's, or the one that the path names.
  abbrev pub IsWorkspace : Database → Device → User → Text → Tenant → Type 0
  IsWorkspace db device user url tenant =
      ((tenant_segment url ≡ none)
        × (first_where (λ t. same_text (Tenant.id t) device.tenant_id) db.tenants ≡ some tenant))
      ⊎ ((slug : Text) × (tenant_segment url ≡ some slug)
          × (context : TenantContext) × (resolve_tenant_context db user
                (R.decode_uri_component slug)
              ≡ some context)
          × (tenant ≡ context.tenant))

  -- What is known of a request that is let in.
  pub record IsAccepted (db : Database) (req : SignedRequest) (now : ℕ) (p : Principal)
      : Type 0 where
    pub device_id : Text
    pub timestamp_header : Text
    pub timestamp_ms : ℕ
    pub signature : Text
    pub names_device : req.device_id ≡ some device_id
    pub timestamped : req.timestamp ≡ some timestamp_header
    pub reads_timestamp : R.parse_number timestamp_header ≡ some timestamp_ms
    pub carries_signature : req.signature ≡ some signature
    pub device_found :
        first_where (λ d. same_text (Device.id d) device_id) db.devices ≡ some p.device
    pub not_revoked : p.device.revoked_at ≡ none
    pub in_window :
        (now ≤ timestamp_ms + signature_window_ms) × (timestamp_ms ≤ now + signature_window_ms)
    pub signed :
        E.verify
          (canonical_signed_bytes timestamp_ms req.method req.url (body_bytes req.body))
          signature
          p.device.public_key
        ≡ true
    pub user_found :
        first_where (λ u. same_text (User.id u) p.device.user_id) db.users ≡ some p.user
    pub active : p.user.deactivated_at ≡ none
    pub workspace : IsWorkspace db p.device p.user req.url p.tenant
