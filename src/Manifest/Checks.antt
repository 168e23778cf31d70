-- ===== src/Manifest/Checks.antt =====
-- packages/manifest/src/validate.ts: the issues, and the checks that need no hashing. A message is
-- a constructor with the values that its text shows.
use proveria.Common.{
  ℕ, zero, suc, Bool, true, false, ◌&&◌, ◌||◌, Option, none, some, List, [], ◌∷◌, ◌++◌, length, leb,
  ◌==◌, if◌then◌else◌, codes,
}
use proveria.Bytes.{Text, same_text}
use proveria.Json.{Json, number, string, object, whole, pos, Fields}
use proveria.Json.Access.{get}
use proveria.Crypto.{Error}
use proveria.Manifest.{v1, sha256_name}

pub data Message : Type 0 where
  not_an_object missing_string missing_object missing_count missing_or_empty missing_array : Message
  not_iso_8601 not_hex64 duplicate not_sorted wrong_algorithm : Message
  wrong_version : Text → Json → Message
  unknown_leaf_type unknown_signer : Json → Message
  hash_mismatch : Text → Text → Message
  count_mismatch : Json → ℕ → Message
  recompute_failed : Error → Message

pub record Issue : Type 0 where
  pub at_field : Text
  pub message : Message

abbrev pub issue : Text → Message → List Issue
issue f m = record { at_field = f; message = m } ∷ []

abbrev pub unless : Bool → List Issue → List Issue
unless b found = if b then [] else found

unfoldable pub is_plain_object : Json → Bool
is_plain_object (object fs) = true
is_plain_object _ = false

unfoldable pub is_non_empty_string : Json → Bool
is_non_empty_string (string []) = false
is_non_empty_string (string (c ∷ s)) = true
is_non_empty_string _ = false

unfoldable pub is_text : Json → Text → Bool
is_text (string s) t = same_text s t
is_text _ t = false

unfoldable pub is_signer_kind : Json → Bool
unfolding is_text
is_signer_kind v =
    is_text v (codes "device") || is_text v (codes "proveria") || is_text v (codes "customer")

abbrev pub required_string_fields : List Text
required_string_fields =
    codes "schema_version"
    ∷ codes "protocol_version"
    ∷ codes "canonicalization_version"
    ∷ codes "merkle_version"
    ∷ codes "hash_algorithm"
    ∷ codes "hash_algorithm_version"
    ∷ codes "tenant_id"
    ∷ codes "project_id"
    ∷ codes "attestation_id"
    ∷ codes "attempt_id"
    ∷ codes "created_by_user_id"
    ∷ codes "created_by_device_id"
    ∷ codes "created_by_profile_id"
    ∷ codes "merkle_root"
    ∷ codes "created_at"
    ∷ []

unfoldable pub required_issues : Fields → List Text → List Issue
required_issues m [] = []
required_issues m (f ∷ rest) =
    unless (is_non_empty_string (get m f)) (issue f missing_string) ++ required_issues m rest

abbrev pub versions : List (Text × Text)
versions =
    (codes "schema_version", v1)
    ∷ (codes "protocol_version", v1)
    ∷ (codes "canonicalization_version", v1)
    ∷ (codes "merkle_version", v1)
    ∷ (codes "hash_algorithm", sha256_name)
    ∷ (codes "hash_algorithm_version", v1)
    ∷ []

unfoldable pub version_issues : Fields → List (Text × Text) → List Issue
version_issues m [] = []
version_issues m ((f, expected) ∷ rest) =
    unless (is_text (get m f) expected) (issue f (wrong_version expected (get m f)))
    ++ version_issues m rest

-- The parts of ISO_8601, each on the text that is left.
is_digit : ℕ → Bool
is_digit c = leb b'0' c && leb c b'9'

-- `\d{n}`
digits : ℕ → Text → Option Text
unfolding is_digit
digits zero s = some s
digits (suc n) [] = none
digits (suc n) (c ∷ s) = let rest = digits n s in if is_digit c then rest else none

one : ℕ → Option Text → Option Text
one c none = none
one c (some []) = none
one c (some (d ∷ s)) = if c == d then some s else none

then_digits : ℕ → Option Text → Option Text
unfolding digits
then_digits n none = none
then_digits n (some s) = digits n s

-- `\d{1,9}`, greedily: what follows is no digit.
up_to_digits : ℕ → Text → Text
unfolding is_digit
up_to_digits zero s = s
up_to_digits (suc n) [] = []
up_to_digits (suc n) (c ∷ s) = let rest = up_to_digits n s in if is_digit c then rest else c ∷ s

-- `(\.\d{1,9})?`
fraction : Text → Option Text
unfolding digits up_to_digits
fraction [] = some []
fraction (c ∷ s) =
    if c == b'.'
    then elim (digits 1 s) [ none ↦ none | some rest ↦ some (up_to_digits 8 rest) ]
    else some (c ∷ s)

-- `(Z|[+-]\d{2}:\d{2})$`
zone : Text → Bool
unfolding then_digits one
zone [] = false
zone (c ∷ s) =
    if c == b'Z'
    then length s == 0
    else if c == b'+' || c == b'-'
    then elim (then_digits 2 (one b':' (digits 2 s))) [
      | some [] ↦ true
      | some (d ∷ rest) ↦ false
      | none ↦ false
    ]
    else false

unfoldable pub is_iso_8601 : Text → Bool
unfolding zone fraction then_digits one
is_iso_8601 s =
    let date = then_digits 2 (one b'-' (then_digits 2 (one b'-' (digits 4 s)))) in
    let time =
      then_digits 2 (one b':' (then_digits 2 (one b':' (then_digits 2 (one b'T' date))))) in
    elim time [ none ↦ false | some rest ↦ elim (fraction rest) [ none ↦ false | some z ↦ zone z ] ]

abbrev is_count : Json → Bool
is_count (number (whole (pos n))) = true
is_count _ = false

count_issues : Fields → List Text → List Issue
count_issues summary [] = []
count_issues summary (key ∷ rest) =
    unless (is_count (get summary key)) (issue (codes "source_summary." ++ key) missing_count)
    ++ count_issues summary rest

summary_issues : Json → List Issue
unfolding count_issues
summary_issues (object summary) =
    count_issues summary (codes "file_count" ∷ codes "shingle_count" ∷ codes "ocr_page_count" ∷ [])
summary_issues _ = issue (codes "source_summary") missing_object

-- `parses` is `!Number.isNaN(Date.parse(s))`, whose reading of a text is the runtime's.
unfoldable pub created_at_issues : (Text → Bool) → Json → List Issue
unfolding is_iso_8601
created_at_issues parses (string (c ∷ s)) =
    if is_iso_8601 (c ∷ s) && parses (c ∷ s) then [] else issue (codes "created_at") not_iso_8601
created_at_issues parses _ = []

-- The checks above the leaf set.
unfoldable pub head_issues : (Text → Bool) → Fields → List Issue
unfolding summary_issues
head_issues parses m =
    required_issues m required_string_fields
    ++ (version_issues m versions
        ++ (created_at_issues parses (get m (codes "created_at"))
            ++ (summary_issues (get m (codes "source_summary"))
                ++ (unless (is_plain_object (get m (codes "policy_context")))
                      (issue (codes "policy_context") missing_object)
                    ++ unless (is_plain_object (get m (codes "extraction_metadata")))
                        (issue (codes "extraction_metadata") missing_object)))))
