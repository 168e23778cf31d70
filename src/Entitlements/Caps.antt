-- ===== src/Entitlements/Caps.antt =====
-- What the guards of a create keep (apps/api/src/attestations/routes.ts and
-- apps/api/src/entitlements/limits.ts): the caps of the plans, and labels that are unique in a project.
use proveria.Common.{
  ℕ, ◌+◌, ◌≤◌, ◌<◌, ◌≡◌, ◌⊎◌, ◌∙◌, inl, inr, refl, sym, subst, Bool, true, false, not, some, List,
  [], ◌∷◌, codes, arith, All, if◌then◌else◌, Bool-cases, Result, ok, err, ◌>>◌, >>-eq-ok,
  Result-cases,
}
use proveria.Bytes.{Text, same_text}
use proveria.Bytes.Order.{same_text_iff}
use proveria.Attestation.{Attestation}
use proveria.Attestation.Handlers.{new_row}
use proveria.Entitlements.{
  limits_for, LimitResult, count_where, check_cap, ProjectRow, is_in_project, is_since, Calendar,
  check_attestations_per_project_limit, check_monthly_attestation_limit,
}
use proveria.Entitlements.Creation.{
  CreateRequest, Tables, Refusal, CreateReply, is_label, has_label, open_project, within,
  label_and_caps, new_attestation, insert_created, create,
}

check_cap-allow :
    (error : Text) (limit current : ℕ)
    → check_cap error (some limit) current ≡ LimitResult.allow
    → current < limit
unfolding check_cap
check_cap-allow error limit current h = ground arith

within-ok : (r : LimitResult) {u : Unit {0}} → within r ≡ ok u → r ≡ LimitResult.allow
unfolding within
within-ok LimitResult.allow h = refl
within-ok (LimitResult.deny error limit current) h = cc

-- Early returns that were not taken.
guard_ok :
    (b : Bool) (rest : Result Refusal (Unit {0})) (refusal : Refusal) {u : Unit {0}}
    → (if not b then err refusal else rest) ≡ ok u
    → (b ≡ true) × (rest ≡ ok u)
guard_ok true rest refusal h = (refl, h)
guard_ok false rest refusal h = cc

test_ok :
    (b : Bool) (rest : Result Refusal (Unit {0})) (refusal : Refusal) {u : Unit {0}}
    → (if b then err refusal else rest) ≡ ok u
    → (b ≡ false) × (rest ≡ ok u)
test_ok false rest refusal h = (refl, h)
test_ok true rest refusal h = cc

-- What the guards of a create that succeeds have established.
record IsOpen ⦃C : Calendar⦄ (t : Tables) (r : CreateRequest) (project : ProjectRow) (now : ℕ)
    : Type 0 where
  label : is_label r.label ≡ true
  fresh : has_label t.attestations project.id r.label ≡ false
  per_project :
      check_attestations_per_project_limit t.attestations project.id r.plan ≡ LimitResult.allow
  monthly :
      check_monthly_attestation_limit t.attestations r.tenant_id r.plan now ≡ LimitResult.allow

module _ ⦃C : Calendar⦄ (t : Tables) (r : CreateRequest) (now : ℕ) where
  label_and_caps-shape :
      (project : ProjectRow)
      → label_and_caps t r project now ≡ (
          if not (is_label r.label)
          then err Refusal.invalid_label
          else if has_label t.attestations project.id r.label
          then err Refusal.label_taken
          else within (check_attestations_per_project_limit t.attestations project.id r.plan)
            >> within (check_monthly_attestation_limit t.attestations r.tenant_id r.plan now))
  unfolding label_and_caps
  label_and_caps-shape project = refl

  label_and_caps-IsOpen :
      (project : ProjectRow) {u : Unit {0}}
      → label_and_caps t r project now ≡ ok u
      → IsOpen t r project now
  label_and_caps-IsOpen project {u} h =
      let both = sym (label_and_caps-shape project) ∙ h in
      let (label, rest) = guard_ok (is_label r.label) _ _ both in
      let (fresh, caps) = test_ok (has_label t.attestations project.id r.label) _ _ rest in
      let (value, first, second) =
        >>-eq-ok (within (check_attestations_per_project_limit t.attestations project.id r.plan))
          (within (check_monthly_attestation_limit t.attestations r.tenant_id r.plan now)) caps in
      record {
        label = label;
        fresh = fresh;
        per_project = within-ok _ first;
        monthly = within-ok _ second;
      }

  -- A create refuses and changes nothing, or all its guards have passed and the rows are inserted.
  create-cases :
      (attestation_id attempt_id : Text)
      → ((refusal : Refusal) × (create t r attestation_id attempt_id now
            ≡ (CreateReply.refused refusal, t)))
        ⊎ ((project : ProjectRow) × (open_project t r ≡ ok project)
            × IsOpen t r project now
            × (create t r attestation_id attempt_id now ≡ (
              CreateReply.created attestation_id attempt_id,
              insert_created t r project attestation_id attempt_id now,
            )))
  unfolding create
  create-cases attestation_id attempt_id = elim (Result-cases (open_project t r)) [
    | err (refusal, e) ↦ inl (refusal, rw (e, create) refl)
    | ok (project, e) ↦ elim (Result-cases (label_and_caps t r project now)) [
      | err (refusal, k) ↦ inl (refusal, rw (e, create) (rw (k, create) refl))
      | ok (u, k) ↦
          inr (project, e, label_and_caps-IsOpen project k, rw (e, create) (rw (k, create) refl))
    ]
  ]

-- Counting.
count_where-created :
    {A : Type 0} (p : A → Bool) (row : A) (rows : List A)
    → (p row ≡ true → count_where p (row ∷ rows) ≡ count_where p rows + 1)
      × (p row ≡ false → count_where p (row ∷ rows) ≡ count_where p rows)
unfolding count_where
count_where-created p row rows = (λ e. rw e refl, λ e. rw e refl)

per_project-shape :
    (rows : List (Text × Attestation)) (project_id plan : Text)
    → check_attestations_per_project_limit rows project_id plan
      ≡ check_cap
          (codes "attestations_per_project_limit_reached")
          (limits_for plan).attestations_per_project
          (count_where (is_in_project project_id) rows)
unfolding check_attestations_per_project_limit
per_project-shape rows project_id plan = refl

per_project-below :
    (rows : List (Text × Attestation)) (project_id plan : Text) (limit : ℕ)
    → (limits_for plan).attestations_per_project ≡ some limit
    → check_attestations_per_project_limit rows project_id plan ≡ LimitResult.allow
    → count_where (is_in_project project_id) rows < limit
per_project-below rows project_id plan limit e h =
    check_cap-allow (codes "attestations_per_project_limit_reached") limit
      (count_where (is_in_project project_id) rows)
      (cc (per_project-shape rows project_id plan, e, h))

module _ ⦃C : Calendar⦄ where
  monthly-shape :
      (rows : List (Text × Attestation)) (tenant_id plan : Text) (now : ℕ)
      → check_monthly_attestation_limit rows tenant_id plan now
        ≡ check_cap
            (codes "monthly_attestation_limit_reached")
            (limits_for plan).attestations_per_month
            (count_where (is_since tenant_id (C.month_start now)) rows)
  unfolding check_monthly_attestation_limit
  monthly-shape rows tenant_id plan now = refl

  monthly-below :
      (rows : List (Text × Attestation)) (tenant_id plan : Text) (now limit : ℕ)
      → (limits_for plan).attestations_per_month ≡ some limit
      → check_monthly_attestation_limit rows tenant_id plan now ≡ LimitResult.allow
      → count_where (is_since tenant_id (C.month_start now)) rows < limit
  monthly-below rows tenant_id plan now limit e h =
      check_cap-allow (codes "monthly_attestation_limit_reached") limit
        (count_where (is_since tenant_id (C.month_start now)) rows)
        (cc (monthly-shape rows tenant_id plan now, e, h))

  -- The rows behind a create that has passed the guards.
  inserted_count :
      (t : Tables) (r : CreateRequest) (project : ProjectRow) (attestation_id attempt_id : Text)
      (now : ℕ) (p : Text × Attestation → Bool)
      → (p (attestation_id, new_row (new_attestation r project) now) ≡ true
          → count_where p (insert_created t r project attestation_id attempt_id now).attestations
            ≡ count_where p t.attestations + 1)
        × (p (attestation_id, new_row (new_attestation r project) now) ≡ false
            → count_where p (insert_created t r project attestation_id attempt_id now).attestations
              ≡ count_where p t.attestations)
  unfolding insert_created
  inserted_count t r project attestation_id attempt_id now p =
      count_where-created p (attestation_id, new_row (new_attestation r project) now) t.attestations

  -- One create, for any project.
  create_within :
      (t : Tables) (r : CreateRequest) (attestation_id attempt_id : Text) (now : ℕ)
      (project_id : Text) (limit : ℕ)
      → (limits_for r.plan).attestations_per_project ≡ some limit
      → count_where (is_in_project project_id) t.attestations ≤ limit
      → count_where
          (is_in_project project_id)
          (create t r attestation_id attempt_id now).1.attestations
        ≤ limit
  create_within t r attestation_id attempt_id now project_id limit cap before =
      elim (create-cases t r now attestation_id attempt_id) [
        | inl (refusal, e) ↦ rw e before
        | inr (project, _, opened, e) ↦
            let below =
              per_project-below t.attestations project.id r.plan limit cap opened.per_project in
            let (one, same) =
              inserted_count t r project attestation_id attempt_id now (is_in_project project_id) in
            elim (Bool-cases (same_text project.id project_id)) [
              | inl here ↦
                  let room : count_where (is_in_project project_id) t.attestations < limit =
                    subst (λ i. count_where (is_in_project i) t.attestations < limit)
                      ((same_text_iff project.id project_id).0 here) below in
                  rw e (rw (one here) (omega (arith, room)))
              | inr other ↦ rw e (rw (same other) before)
            ]
      ]

  -- A create that succeeds under a plan with a monthly cap leaves the tenant with at most that many
  -- attestations since the start of the month, the new one among them.
  pub create_monthly :
      (t : Tables) (r : CreateRequest) (attestation_id attempt_id : Text) (now limit : ℕ)
      → (limits_for r.plan).attestations_per_month ≡ some limit
      → (create t r attestation_id attempt_id now).0 ≡ CreateReply.created attestation_id attempt_id
      → (count_where
            (is_since r.tenant_id (C.month_start now))
            (create t r attestation_id attempt_id now).1.attestations
          ≡ count_where (is_since r.tenant_id (C.month_start now)) t.attestations + 1)
        × (count_where
              (is_since r.tenant_id (C.month_start now))
              (create t r attestation_id attempt_id now).1.attestations
            ≤ limit)
  create_monthly t r attestation_id attempt_id now limit cap done =
      elim (create-cases t r now attestation_id attempt_id) [
        | inl (refusal, e) ↦ absurd (cc (e, done))
        | inr (project, _, opened, e) ↦
            let below =
              monthly-below t.attestations r.tenant_id r.plan now limit cap opened.monthly in
            let (one, _) =
              inserted_count t r project attestation_id attempt_id now
                (is_since r.tenant_id (C.month_start now)) in
            let counted = one (
              ground (
                arith,
                (same_text_iff r.tenant_id r.tenant_id).1 refl,
                C.month_start_before now,
              )) in
            (rw e counted, rw e (rw counted (omega (arith, below))))
      ]

  -- Creates one after the other, each with the ids and the time that it gets.
  unfoldable pub creates : List (CreateRequest × Text × Text × ℕ) → Tables → Tables
  unfolding create
  creates [] t = t
  creates ((r, attestation_id, attempt_id, now) ∷ rest) t =
      creates rest (create t r attestation_id attempt_id now).1

  -- As long as the plan of each request has the cap, no sequence of creates takes a project that is
  -- within the cap above it.
  pub creates_within :
      (calls : List (CreateRequest × Text × Text × ℕ)) (t : Tables) (project_id : Text) (limit : ℕ)
      → All
          (λ call. (limits_for (CreateRequest.plan call.0)).attestations_per_project ≡ some limit)
          calls
      → count_where (is_in_project project_id) t.attestations ≤ limit
      → count_where (is_in_project project_id) (creates calls t).attestations ≤ limit
  unfolding creates
  creates_within [] t project_id limit caps before = before
  creates_within ((r, attestation_id, attempt_id, now) ∷ rest) t project_id limit caps before =
      creates_within rest (create t r attestation_id attempt_id now).1 project_id limit caps.1
        (create_within t r attestation_id attempt_id now project_id limit caps.0 before)

-- A row of another project, or with another label.
abbrev pub IsApart : Text → Text → Text × Attestation → Type 0
IsApart project_id label row = ¬ (((row.1).project_id ≡ project_id) × ((row.1).label ≡ label))

-- No two attestations of a project have one label.
abbrev pub UniqueLabels : List (Text × Attestation) → Type 0
UniqueLabels [] = Unit
UniqueLabels (row ∷ rest) = All (IsApart (row.1).project_id (row.1).label) rest × UniqueLabels rest

has_label-IsApart :
    (rows : List (Text × Attestation)) (project_id label : Text)
    → has_label rows project_id label ≡ false
    → All (IsApart project_id label) rows
unfolding has_label
has_label-IsApart [] project_id label e = tt
has_label-IsApart (row ∷ rest) project_id label e = (
  λ (same_project, same_label). ground (
    arith,
    (same_text_iff (row.1).project_id project_id).1 same_project,
    (same_text_iff (row.1).label label).1 same_label,
  ),
  has_label-IsApart rest project_id label (ground arith),
)

inserted-UniqueLabels :
    (t : Tables) (r : CreateRequest) (project : ProjectRow) (attestation_id attempt_id : Text)
    (now : ℕ)
    → has_label t.attestations project.id r.label ≡ false
    → UniqueLabels t.attestations
    → UniqueLabels (insert_created t r project attestation_id attempt_id now).attestations
unfolding insert_created
inserted-UniqueLabels t r project attestation_id attempt_id now fresh unique =
    (has_label-IsApart t.attestations project.id r.label fresh, unique)

-- Creates keep the labels of each project apart: no two attestations have the same project and the same
-- label.
pub creates-UniqueLabels :
    ⦃C : Calendar⦄ (calls : List (CreateRequest × Text × Text × ℕ)) (t : Tables)
    → UniqueLabels t.attestations
    → UniqueLabels (creates calls t).attestations
unfolding creates
creates-UniqueLabels [] t unique = unique
creates-UniqueLabels ((r, attestation_id, attempt_id, now) ∷ rest) t unique =
    creates-UniqueLabels rest (create t r attestation_id attempt_id now).1
      (elim (create-cases t r now attestation_id attempt_id) [
        | inl (refusal, e) ↦ rw e unique
        | inr (project, _, opened, e) ↦
            rw e (
              inserted-UniqueLabels t r project attestation_id attempt_id now (opened.fresh) unique)
      ])
