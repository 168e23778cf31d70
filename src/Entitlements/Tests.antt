-- ===== src/Entitlements/Tests.antt =====
-- Runs of the plan limits, in a calendar whose months are of 1000 units.
use proveria.Common.{
  length, ℕ, ◌+◌, ◌*◌, ◌/◌, ◌≤◌, ◌≡◌, refl, true, false, none, List, [], ◌∷◌, codes, arith, leb,
}
use proveria.Bytes.{Text, same_text}
use proveria.Json.{end}
use proveria.Entitlements.{
  LimitResult, Calendar, limits_for, count_where, is_in_project, is_since, check_storage_limit,
}
use proveria.Entitlements.Creation.{CreateRequest, Tables, Refusal, CreateReply, create}
use proveria.Entitlements.Caps.{
  create_monthly, creates, creates_within, UniqueLabels, creates-UniqueLabels,
}

month_before : (now : ℕ) → leb (now / 1000 * 1000) now ≡ true
month_before now = ground arith

instance abbrev months : Calendar
months = record { month_start = λ now. now / 1000 * 1000; month_start_before = month_before }

opened : Unit {0}
unfolding same_text limits_for count_where check_storage_limit create creates
opened = tt

abbrev request : Text → Text → CreateRequest
request plan label = record {
  tenant_id = codes "t";
  tenant_slug = codes "acme";
  plan = plan;
  user_id = codes "u";
  device_id = codes "d";
  slug = codes "acme";
  project_slug = codes "p";
  label = label;
  description = none;
  source_metadata = end;
  from_google_drive = false;
}

abbrev tables : Tables
tables = record {
  projects =
      record { id = codes "p1"; tenant_id = codes "t"; slug = codes "p"; archived_at = none } ∷ [];
  attestations = [];
  attempts = [];
  audit = [];
}

abbrev free : Text
free = codes "free"

abbrev starter : Text
starter = codes "team_starter"

-- The second create of a free tenant is over the cap; a label is taken once only.
refusals :
    ((create
        (creates ((request free (codes "v1"), codes "a", codes "b", 5) ∷ []) tables)
        (request free (codes "v2"))
        (codes "c")
        (codes "d")
        6).0
      ≡ CreateReply.refused
          (Refusal.limit_reached (codes "attestations_per_project_limit_reached") 1 1))
    × ((create
          (creates ((request starter (codes "v1"), codes "a", codes "b", 5) ∷ []) tables)
          (request starter (codes "v1"))
          (codes "c")
          (codes "d")
          6).0
        ≡ CreateReply.refused Refusal.label_taken)
    × ((create tables (request starter (codes "-v1")) (codes "c") (codes "d") 6).0
        ≡ CreateReply.refused Refusal.invalid_label)
    × (check_storage_limit free 104857601
        ≡ LimitResult.deny (codes "storage_limit_exceeded") 104857600 104857601)
unfolding opened
refusals = (refl, refl, refl, refl)

abbrev two_calls : List (CreateRequest × Text × Text × ℕ)
two_calls =
    (request free (codes "v1"), codes "a", codes "b", 5)
    ∷ (request free (codes "v2"), codes "c", codes "d", 6)
    ∷ []

caps_example : count_where (is_in_project (codes "p1")) (creates two_calls tables).attestations ≤ 1
unfolding opened
caps_example = creates_within two_calls tables (codes "p1") 1 (refl, (refl, tt)) (omega arith)

abbrev repeated_calls : List (CreateRequest × Text × Text × ℕ)
repeated_calls =
    (request starter (codes "v1"), codes "a", codes "b", 5)
    ∷ (request starter (codes "v1"), codes "c", codes "d", 6)
    ∷ (request starter (codes "v2"), codes "e", codes "f", 7)
    ∷ []

-- The second of the calls is refused.
two_kept : length (creates repeated_calls tables).attestations ≡ 2
unfolding opened
two_kept = refl

labels_example : UniqueLabels (creates repeated_calls tables).attestations
labels_example = creates-UniqueLabels repeated_calls tables tt

monthly_example :
    (count_where
        (is_since (codes "t") 2000)
        (create tables (request starter (codes "v1")) (codes "a") (codes "b") 2345).1.attestations
      ≡ count_where (is_since (codes "t") 2000) tables.attestations + 1)
    × (count_where
          (is_since (codes "t") 2000)
          (create tables (request starter (codes "v1")) (codes "a") (codes "b") 2345).1.attestations
        ≤ 50)
unfolding opened
monthly_example =
    create_monthly tables (request starter (codes "v1")) (codes "a") (codes "b") 2345 50 refl refl
