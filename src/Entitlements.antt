-- ===== src/Entitlements.antt =====
-- The plans and their limits: PLAN_LIMITS in packages/shared-types/src/plans.ts and the checks of
-- apps/api/src/entitlements/limits.ts. A count query is a count over the rows of its table.
pub mod Creation
pub mod Caps
mod Tests
use proveria.Common.{
  ℕ, ◌+◌, ◌*◌, ◌^◌, ◌≡◌, Bool, true, false, ◌&&◌, Option, none, some, List, [], ◌∷◌, codes, ltb,
  leb, if◌then◌else◌,
}
use proveria.Bytes.{Text, same_text}
use proveria.Attestation.{Attestation}

-- `none` is `null`: no cap.
pub record PlanLimits : Type 0 where
  pub projects : Option ℕ
  pub attestations_per_project : Option ℕ
  pub attestations_per_month : Option ℕ
  pub users : Option ℕ
  pub storage_bytes : Option ℕ
  pub verifications_per_minute : Option ℕ

abbrev gb : ℕ
gb = 1024 ^ 3

abbrev mb : ℕ
mb = 1024 ^ 2

abbrev pub free_limits : PlanLimits
free_limits = record {
  projects = some 5;
  attestations_per_project = some 1;
  attestations_per_month = none;
  users = some 1;
  storage_bytes = some (100 * mb);
  verifications_per_minute = some 6;
}

abbrev pub team_starter_limits : PlanLimits
team_starter_limits = record {
  projects = none;
  attestations_per_project = none;
  attestations_per_month = some 50;
  users = some 3;
  storage_bytes = some (25 * gb);
  verifications_per_minute = some 60;
}

abbrev pub team_pro_limits : PlanLimits
team_pro_limits = record {
  projects = none;
  attestations_per_project = none;
  attestations_per_month = some 500;
  users = some 10;
  storage_bytes = some (250 * gb);
  verifications_per_minute = some 120;
}

abbrev pub enterprise_limits : PlanLimits
enterprise_limits = record {
  projects = none;
  attestations_per_project = none;
  attestations_per_month = none;
  users = none;
  storage_bytes = none;
  verifications_per_minute = none;
}

-- PLAN_LIMITS[slug], and the free limits for a slug that is no plan.
unfoldable pub limits_for : Text → PlanLimits
limits_for plan =
    if same_text plan (codes "team_starter")
    then team_starter_limits
    else if same_text plan (codes "team_pro")
    then team_pro_limits
    else if same_text plan (codes "enterprise")
    then enterprise_limits
    else free_limits

pub data LimitResult : Type 0 where
  allow : LimitResult
  deny : (error : Text) (limit current : ℕ) → LimitResult

-- `select count(*) from table where p`
unfoldable pub count_where {ℓ} : {A : Type ℓ} → (A → Bool) → List A → ℕ
count_where p [] = 0
count_where p (row ∷ rest) = let later = count_where p rest in if p row then later + 1 else later

-- What the counting checks share: a cap, or none, against a count.
unfoldable pub check_cap : Text → Option ℕ → ℕ → LimitResult
check_cap error none current = LimitResult.allow
check_cap error (some limit) current =
    if leb limit current then LimitResult.deny error limit current else LimitResult.allow

-- The rows that the checks count, of the columns that they read.
pub record ProjectRow : Type 0 where
  pub id : Text
  pub tenant_id : Text
  pub slug : Text
  pub archived_at : Option ℕ

pub record MembershipRow : Type 0 where
  pub tenant_id : Text
  pub user_id : Text

abbrev pub is_project_of : Text → ProjectRow → Bool
is_project_of tenant_id row = same_text row.tenant_id tenant_id

abbrev pub is_in_project : Text → Text × Attestation → Bool
is_in_project project_id row = same_text (row.1).project_id project_id

abbrev pub is_since : Text → ℕ → Text × Attestation → Bool
is_since tenant_id start row = same_text (row.1).tenant_id tenant_id && leb start (row.1).created_at

unfoldable pub check_project_count_limit : List ProjectRow → (tenant_id plan : Text) → LimitResult
unfolding check_cap limits_for count_where
check_project_count_limit rows tenant_id plan =
    check_cap (codes "project_count_limit_reached") (limits_for plan).projects
      (count_where (is_project_of tenant_id) rows)

unfoldable pub check_attestations_per_project_limit :
    List (Text × Attestation) → (project_id plan : Text) → LimitResult
unfolding check_cap limits_for count_where
check_attestations_per_project_limit rows project_id plan =
    check_cap (codes "attestations_per_project_limit_reached")
      (limits_for plan).attestations_per_project (count_where (is_in_project project_id) rows)

-- The start of the UTC month of a time (`Date.UTC`), which is the runtime's; it is not after the time.
pub record Calendar : Type 0 where
  pub month_start : ℕ → ℕ
  pub month_start_before : (now : ℕ) → leb (month_start now) now ≡ true

unfoldable pub check_monthly_attestation_limit :
    ⦃C : Calendar⦄ → List (Text × Attestation) → (tenant_id plan : Text) → ℕ → LimitResult
unfolding check_cap limits_for count_where
check_monthly_attestation_limit ⦃C⦄ rows tenant_id plan now =
    check_cap (codes "monthly_attestation_limit_reached") (limits_for plan).attestations_per_month
      (count_where (is_since tenant_id (C.month_start now)) rows)

-- The current storage is taken to be 0: only the size of this submission is held against the cap.
unfoldable pub check_storage_limit : Text → ℕ → LimitResult
unfolding limits_for
check_storage_limit plan incoming_bytes = elim (limits_for plan).storage_bytes [
  | none ↦ LimitResult.allow
  | some limit ↦
      if ltb limit incoming_bytes
      then LimitResult.deny (codes "storage_limit_exceeded") limit incoming_bytes
      else LimitResult.allow
]

unfoldable pub check_user_count_limit : List MembershipRow → (tenant_id plan : Text) → LimitResult
unfolding check_cap limits_for count_where
check_user_count_limit rows tenant_id plan =
    check_cap (codes "user_count_limit_reached") (limits_for plan).users
      (count_where (λ row. same_text (MembershipRow.tenant_id row) tenant_id) rows)
