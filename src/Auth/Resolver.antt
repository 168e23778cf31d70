-- ===== src/Auth/Resolver.antt =====
-- apps/api/src/tenants/resolver.ts: a workspace by its slug, and the caller's access to it.
use proveria.Common.{ℕ, Bool, true, false, ◌&&◌, ◌||◌, Option, none, some, codes, if◌then◌else◌}
use proveria.Bytes.{Text, same_text}
use proveria.Auth.{
  Tenant, User, WorkspaceAccessMode, OrganizationMembership, TenantMembership, Database,
  first_where,
}

pub record TenantContext : Type 0 where
  pub tenant : Tenant
  pub membership : TenantMembership

unfoldable pub find_membership : Database → Text → Text → Option TenantMembership
unfolding first_where same_text
find_membership db tenant_id user_id =
    first_where
      (λ m.
        same_text (TenantMembership.tenant_id m) tenant_id
        && same_text (TenantMembership.user_id m) user_id)
      db.tenant_memberships

unfoldable pub find_organization_membership : Database → Text → Text → Option OrganizationMembership
unfolding first_where same_text
find_organization_membership db organization_id user_id =
    first_where
      (λ m.
        same_text (OrganizationMembership.organization_id m) organization_id
        && same_text (OrganizationMembership.user_id m) user_id)
      db.organization_memberships

abbrev pub is_no_workspaces : WorkspaceAccessMode → Bool
is_no_workspaces WorkspaceAccessMode.no_workspaces = true
is_no_workspaces _ = false

abbrev pub is_all_workspaces : WorkspaceAccessMode → Bool
is_all_workspaces WorkspaceAccessMode.all_workspaces = true
is_all_workspaces _ = false

abbrev pub is_set : Option ℕ → Bool
is_set none = false
is_set (some at) = true

-- The membership that an organization's administrator or a member of all its workspaces has.
abbrev pub implied_membership : Tenant → User → OrganizationMembership → TenantMembership
implied_membership tenant user m = record {
  tenant_id = tenant.id;
  user_id = user.id;
  role = if m.is_organization_admin then codes "tenant_admin" else codes "producer";
  created_at = m.created_at;
}

-- The end of the function: a membership of the workspace itself.
unfoldable pub selected_context : Database → Tenant → User → Option TenantContext
unfolding find_membership
selected_context db tenant user = elim (find_membership db tenant.id user.id) [
  | none ↦ none
  | some membership ↦ some (record { tenant = tenant; membership = membership })
]

-- A workspace of an organization.
unfoldable pub organization_context :
    Database → Tenant → User → Option OrganizationMembership → Option TenantContext
unfolding find_membership selected_context
organization_context db tenant user none = none
organization_context db tenant user (some m) =
    if is_set m.revoked_at || is_no_workspaces m.workspace_access_mode
    then none
    else if is_all_workspaces m.workspace_access_mode || m.is_organization_admin
    then elim (find_membership db tenant.id user.id) [
      | some membership ↦ some (record { tenant = tenant; membership = membership })
      | none ↦ some (record { tenant = tenant; membership = implied_membership tenant user m })
    ]
    else selected_context db tenant user

unfoldable pub resolve_tenant_context : Database → User → Text → Option TenantContext
unfolding first_where same_text find_organization_membership organization_context selected_context
resolve_tenant_context db user slug =
    elim (first_where (λ t. same_text (Tenant.slug t) slug) db.tenants) [
      | none ↦ none
      | some tenant ↦ elim tenant.organization_id [
        | some organization_id ↦
            organization_context db tenant user
              (find_organization_membership db organization_id user.id)
        | none ↦ selected_context db tenant user
      ]
    ]
