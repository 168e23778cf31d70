-- ===== src/Auth.antt =====
-- Authentication of requests: the rows that it reads (packages/db/src/schema/index.ts), the device signature
-- (apps/api/src/auth/device-signature.ts), sessions (apps/api/src/auth/sessions.ts), the workspace of a
-- request (apps/api/src/tenants/resolver.ts).
pub mod Resolver
pub mod DeviceSignature
pub mod Binding
pub mod Accepted
pub mod Sessions
mod Tests
use proveria.Common.{
  ℕ, ◌≡◌, Bool, true, false, ◌&&◌, Option, none, some, List, [], ◌∷◌, if◌then◌else◌,
}
use proveria.Bytes.{Text, same_text}

-- A time column is in milliseconds.
pub record Device : Type 0 where
  pub id : Text
  pub tenant_id : Text
  pub user_id : Text
  pub public_key : Text
  pub revoked_at : Option ℕ

pub record Tenant : Type 0 where
  pub id : Text
  pub slug : Text
  pub organization_id : Option Text
  pub archived_at : Option ℕ

pub record User : Type 0 where
  pub id : Text
  pub deactivated_at : Option ℕ

pub data WorkspaceAccessMode : Type 0 where
  no_workspaces : WorkspaceAccessMode
  selected_workspaces : WorkspaceAccessMode
  all_workspaces : WorkspaceAccessMode

pub record OrganizationMembership : Type 0 where
  pub organization_id : Text
  pub user_id : Text
  pub is_organization_admin : Bool
  pub workspace_access_mode : WorkspaceAccessMode
  pub created_at : ℕ
  pub revoked_at : Option ℕ

pub record TenantMembership : Type 0 where
  pub tenant_id : Text
  pub user_id : Text
  pub role : Text
  pub created_at : ℕ

pub record Database : Type 0 where
  pub devices : List Device
  pub tenants : List Tenant
  pub users : List User
  pub organization_memberships : List OrganizationMembership
  pub tenant_memberships : List TenantMembership

-- `select().from(table).where(p).limit(1)`
unfoldable pub first_where {ℓ} : {A : Type ℓ} → (A → Bool) → List A → Option A
first_where p [] = none
first_where p (row ∷ rest) = let later = first_where p rest in if p row then some row else later
