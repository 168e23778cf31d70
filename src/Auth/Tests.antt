-- ===== src/Auth/Tests.antt =====
-- Runs of the authentication, with toy hash and signature, and a runtime for ASCII digits.
use proveria.Common.{List, ℕ, ◌+◌, ◌-◌, ◌*◌, ◌≡◌, ◌⊎◌, refl, none, some, [], ◌∷◌, codes, arith, err}
use proveria.Bytes.{Text, same_text}
use proveria.Bytes.Utf8.{utf8}
use proveria.Bytes.Hex.{to_hex}
use proveria.Json.Printing.{decimal}
use proveria.Crypto.{Collision}
use proveria.Samples.{toy_hash, toy_ed25519}
use proveria.Auth.{Device, Tenant, User, Database}
use proveria.Auth.DeviceSignature.{
  Runtime, SignedRequest, Rejection, Body, body_bytes, require_device_signature,
  build_device_signature_headers,
}
use proveria.Auth.Binding.{canonical_signed_bytes_binding}
use proveria.Auth.Sessions.{
  Session, CreateSessionInput, new_session, create_session, get_active_session, revoke_session,
  touch_session, has_id, none_made, and_call, creates, touches, Calls-revoked,
}

abbrev read_digits : ℕ → Text → ℕ
read_digits acc [] = acc
read_digits acc (c ∷ rest) = read_digits (acc * 10 + (c - 48)) rest

instance abbrev toy_runtime : Runtime
toy_runtime = record {
  upper_case = λ t. t;
  stringify = λ j. codes "{}";
  decode_uri_component = λ t. t;
  parse_number = λ t. some (read_digits 0 t);
}

abbrev device : Device
device = record {
  id = codes "d1";
  tenant_id = codes "t1";
  user_id = codes "u1";
  public_key = codes "key";
  revoked_at = none;
}

abbrev tenant : Tenant
tenant = record { id = codes "t1"; slug = codes "acme"; organization_id = none; archived_at = none }

abbrev other_tenant : Tenant
other_tenant = record {
  id = codes "t2";
  slug = codes "beta";
  organization_id = none;
  archived_at = none;
}

abbrev user : User
user = record { id = codes "u1"; deactivated_at = none }

abbrev db : Database
db = record {
  devices = device ∷ [];
  tenants = tenant ∷ other_tenant ∷ [];
  users = user ∷ [];
  organization_memberships = [];
  tenant_memberships =
      record {
        tenant_id = codes "t2";
        user_id = codes "u1";
        role = codes "producer";
        created_at = 0;
      }
      ∷ [];
}

abbrev request : Text → SignedRequest
request path =
    build_device_signature_headers (codes "key") (codes "d1") (codes "POST") path Body.absent 500

opened : Unit {0}
unfolding require_device_signature build_device_signature_headers same_text utf8 decimal to_hex
opened = tt

-- Late, forged, and for a workspace that the user is no member of.
rejections :
    (require_device_signature db (request (codes "/x")) 60501
      ≡ err Rejection.timestamp_out_of_window)
    × (require_device_signature db (record (request (codes "/x")) { url = codes "/y" }) 500
        ≡ err Rejection.signature_invalid)
    × (require_device_signature db (request (codes "/tenants/acme/x")) 500
        ≡ err Rejection.workspace_not_available)
unfolding opened
rejections = (refl, refl, refl)

bound_example :
    (◌≡◌ {A = ℕ} 500 500)
    × (utf8 (codes "POST") ≡ utf8 (codes "POST"))
    × (utf8 (codes "/x") ≡ utf8 (codes "/x"))
    × ((body_bytes Body.absent ≡ body_bytes Body.absent)
        ⊎ Collision (body_bytes Body.absent ∷ []) (body_bytes Body.absent ∷ []))
bound_example =
    canonical_signed_bytes_binding 500 500 (codes "POST") (codes "POST") (codes "/x") (codes "/x")
      (body_bytes Body.absent) (body_bytes Body.absent) (ground arith) (ground arith) (ground arith)
      (ground arith) refl

abbrev user_input : CreateSessionInput
user_input = record { user_id = codes "u1"; ip = none; user_agent = none }

abbrev signed_in : List Session
signed_in = (create_session 7 (codes "s1") user_input 1 []).1

abbrev signed_out_and_in : List Session
signed_out_and_in =
    (create_session 7 (codes "s2") user_input 4
      (touch_session (codes "s1") 3 (revoke_session (codes "s1") 2 signed_in))).1

opened_sessions : Unit {0}
unfolding same_text create_session get_active_session revoke_session touch_session has_id
opened_sessions = tt

was_active :
    get_active_session (codes "s1") 2 signed_in ≡ some (new_session 7 (codes "s1") user_input 1)
unfolding opened_sessions
was_active = refl

revoked_example : get_active_session (codes "s1") 5 signed_out_and_in ≡ none
unfolding opened_sessions
revoked_example = Calls-revoked (codes "s1") 2 5 signed_in signed_out_and_in refl (
    and_call (and_call none_made (touches (codes "s1") 3))
      (creates 7 (codes "s2") user_input 4 refl))
