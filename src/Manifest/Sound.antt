-- ===== src/Manifest/Sound.antt =====
-- What a manifest without issues is.
use proveria.Common.{
  ℕ, ◌≡◌, ◌⊎◌, ◌∙◌, refl, sym, ap, ◌<◌, Bool, true, some, List, [], ◌∷◌, ◌++◌, map, arith, length,
  All, codes, Option-cases, inl, inr, ok, err, >>=-eq-ok, Result-cases,
}
use proveria.Bytes.{Bytes, Text}
use proveria.Bytes.Order.{same_text_iff}
use proveria.Bytes.Hex.{to_hex, from_hex}
use proveria.Json.{
  Json, string, object, array, null, undefined, boolean, number, foreign, whole, pos, negsuc,
  fractional, nan, infinity, Fields,
}
use proveria.Json.Access.{get}
use proveria.Crypto.{Sha256}
use proveria.Crypto.Merkle.{compute_merkle_root}
use proveria.Manifest.{LeafCounts}
use proveria.Manifest.Checks.{
  issue, unless, not_sorted, head_issues, required_issues, version_issues, required_string_fields,
  versions, is_non_empty_string, is_text,
}
use proveria.Manifest.Entries.{
  append-eq-nil, unless-eq-nil, ok_injective, hex_text-eq-some, AreEntries, check_leaves_sound,
}
use proveria.Manifest.Validate.{
  hex_text, is_undefined, check_leaves, tally, counts_issues, is_number, entry_hashes, root_issues,
  signatures_issues, body_issues, leaf_list, validate_manifest,
}

module _ ⦃H : Sha256⦄ where
  is_undefined-eq : (v : Json) → is_undefined v ≡ true → v ≡ undefined
  is_undefined-eq undefined e = refl
  is_undefined-eq null e = cc
  is_undefined-eq (boolean b) e = cc
  is_undefined-eq (number n) e = cc
  is_undefined-eq (array xs) e = cc
  is_undefined-eq (object fs) e = cc
  is_undefined-eq (string s) e = cc
  is_undefined-eq (foreign t) e = cc

  root_issues_sound :
      (declared : Json) (leaves : List Json) (hashes : List Text)
      → entry_hashes leaves ≡ some hashes
      → root_issues declared leaves ≡ []
      → (declared ≡ undefined)
        ⊎ ((root : Bytes) × (compute_merkle_root (map from_hex hashes) ≡ ok root)
            × (declared ≡ string (to_hex root)))
  unfolding root_issues
  root_issues_sound declared leaves hashes e none_found = elim (Option-cases (hex_text declared)) [
    | inl missing ↦ inl (is_undefined-eq declared (ground arith))
    | inr (root, found) ↦ elim (Result-cases (compute_merkle_root (map from_hex hashes))) [
      | err (x, failed) ↦ absurd (ground arith)
      | ok (r, computed) ↦
          let same : to_hex r ≡ root = ground (arith, same_text_iff (to_hex r) root) in
          inr (r, computed, (hex_text-eq-some declared found).0 ∙ ap string (sym same))
    ]
  ]

append_four-eq-nil :
    {A : Type 0} (a b c d e : List A)
    → a ++ (b ++ (c ++ (d ++ e))) ≡ []
    → (a ≡ []) × (b ≡ []) × (c ≡ []) × (d ≡ [])
append_four-eq-nil [] [] [] [] e h = (refl, refl, refl, refl)
append_four-eq-nil (x ∷ a) b c d e h = cc
append_four-eq-nil [] (x ∷ b) c d e h = cc
append_four-eq-nil [] [] (x ∷ c) d e h = cc
append_four-eq-nil [] [] [] (x ∷ d) e h = cc

-- `n` as a JSON number
abbrev pub count : ℕ → Json
count n = number (whole (pos n))

is_number-eq : (v : Json) (n : ℕ) → is_number v n ≡ true → v ≡ count n
unfolding is_number
is_number-eq (number (whole (pos m))) n e = ground arith
is_number-eq (number (whole (negsuc m))) n e = cc
is_number-eq (number (fractional t)) n e = cc
is_number-eq (number nan) n e = cc
is_number-eq (number infinity) n e = cc
is_number-eq undefined n e = cc
is_number-eq null n e = cc
is_number-eq (boolean b) n e = cc
is_number-eq (array xs) n e = cc
is_number-eq (object fs) n e = cc
is_number-eq (string s) n e = cc
is_number-eq (foreign t) n e = cc

-- The counts that a manifest declares.
pub record HasCounts (v : Json) (actual : LeafCounts) : Type 0 where
  pub fields : Fields
  pub is_object : v ≡ object fields
  pub files : get fields (codes "file") ≡ count actual.file
  pub shingles : get fields (codes "shingle") ≡ count actual.shingle
  pub components : get fields (codes "component") ≡ count actual.component

counts_issues-sound :
    (v : Json) (actual : LeafCounts) → counts_issues v actual ≡ [] → HasCounts v actual
unfolding counts_issues
counts_issues-sound (object c) actual e =
    let (f, rest) = append-eq-nil _ _ e in
    let (s, k) = append-eq-nil _ _ rest in
    record {
      fields = c;
      is_object = refl;
      files = is_number-eq _ _ (unless-eq-nil _ _ _ f);
      shingles = is_number-eq _ _ (unless-eq-nil _ _ _ s);
      components = is_number-eq _ _ (unless-eq-nil _ _ _ k);
    }
counts_issues-sound undefined actual e = cc
counts_issues-sound null actual e = cc
counts_issues-sound (boolean b) actual e = cc
counts_issues-sound (number n) actual e = cc
counts_issues-sound (array xs) actual e = cc
counts_issues-sound (string s) actual e = cc
counts_issues-sound (foreign t) actual e = cc

required_issues_sound :
    (m : Fields) (fs : List Text)
    → required_issues m fs ≡ []
    → All (λ f. is_non_empty_string (get m f) ≡ true) fs
unfolding required_issues
required_issues_sound m [] e = tt
required_issues_sound m (f ∷ fs) e =
    let (here, later) = append-eq-nil _ _ e in
    (unless-eq-nil _ _ _ here, required_issues_sound m fs later)

version_issues_sound :
    (m : Fields) (vs : List (Text × Text))
    → version_issues m vs ≡ []
    → All (λ v. is_text (get m v.0) v.1 ≡ true) vs
unfolding version_issues
version_issues_sound m [] e = tt
version_issues_sound m (v ∷ vs) e =
    let (here, later) = append-eq-nil _ _ e in
    (unless-eq-nil _ _ _ here, version_issues_sound m vs later)

module _ ⦃H : Sha256⦄ where
  -- What `validateManifest` accepts: the leaf set is not empty, every entry carries the leaf hash of
  -- its declared type and payload, the hashes stand in order, the counts are right, and the
  -- declared root is the Merkle root of the hashes.
  pub record IsValidManifest (m : Fields) : Type 0 where
    pub leaves : List Json
    pub leaf_set : leaf_list (get m (codes "leaf_set")) ≡ leaves
    pub inhabited : 0 < length leaves
    pub checked : AreEntries leaves []
    pub root : Bytes
    pub computed : compute_merkle_root (map from_hex checked.hashes) ≡ ok root
    pub declared : get m (codes "merkle_root") ≡ string (to_hex root)
    pub counts : HasCounts (get m (codes "leaf_counts")) (tally leaves)
    pub required : All (λ f. is_non_empty_string (get m f) ≡ true) required_string_fields
    pub version_fields : All (λ v. is_text (get m v.0) v.1 ≡ true) versions

  head_issues_sound :
      (parses : Text → Bool) (m : Fields)
      → head_issues parses m ≡ []
      → All (λ f. is_non_empty_string (get m f) ≡ true) required_string_fields
        × All (λ v. is_text (get m v.0) v.1 ≡ true) versions
  unfolding head_issues
  head_issues_sound parses m e =
      let (r, rest) = append-eq-nil _ _ e in
      let (v, _) = append-eq-nil _ _ rest in
      (required_issues_sound m _ r, version_issues_sound m _ v)

  not_undefined : (v : Json) → is_non_empty_string v ≡ true → v ≡ undefined → ⊥
  unfolding is_non_empty_string
  not_undefined v h e = ground arith

  body_issues_sound :
      (m : Fields) (leaves : List Json)
      → leaf_list (get m (codes "leaf_set")) ≡ leaves
      → body_issues m leaves ≡ ok []
      → All (λ f. is_non_empty_string (get m f) ≡ true) required_string_fields
      → All (λ v. is_text (get m v.0) v.1 ≡ true) versions
      → IsValidManifest m
  unfolding body_issues
  body_issues_sound m [] from e required fixed = cc
  body_issues_sound m (leaf ∷ rest) from e required fixed =
      let leaves = leaf ∷ rest in
      let (found, looped, e₁) = >>=-eq-ok (check_leaves 0 leaves [] [] true) _ e in
      let (no_leaf, order_issues, no_count, no_root) =
        append_four-eq-nil found.0 (unless found.1 (issue (codes "leaf_set") not_sorted))
          (counts_issues (get m (codes "leaf_counts")) (tally leaves))
          (root_issues (get m (codes "merkle_root")) leaves)
          (signatures_issues (get m (codes "signatures"))) (ok_injective e₁) in
      let sorted = unless-eq-nil found.1 (codes "leaf_set") not_sorted order_issues in
      let same : found ≡ ([], true) = cc (no_leaf, sorted) in
      let (checked, _) = check_leaves_sound 0 leaves [] [] true (looped ∙ ap ok same) in
      let has_root = required.1.1.1.1.1.1.1.1.1.1.1.1.1.0 in
      elim (root_issues_sound (get m (codes "merkle_root")) leaves checked.hashes checked.found
        no_root) [
          | inl missing ↦ absurd (not_undefined _ has_root missing)
          | inr (root, computed, declared) ↦ record {
            leaves = leaves;
            leaf_set = from;
            inhabited = omega arith;
            checked = checked;
            root = root;
            computed = computed;
            declared = declared;
            counts = counts_issues-sound _ _ no_count;
            required = required;
            version_fields = fixed;
          }
        ]

  -- A value without issues is an object that is a valid manifest.
  pub validate_manifest_sound :
      (parses : Text → Bool) (v : Json)
      → validate_manifest parses v ≡ ok []
      → (m : Fields) × (v ≡ object m) × IsValidManifest m
  unfolding validate_manifest
  validate_manifest_sound parses (object m) e =
      let (body, checked, e₁) = >>=-eq-ok (body_issues m _) _ e in
      let (no_head, no_body) = append-eq-nil _ _ (ok_injective e₁) in
      let (required, fixed) = head_issues_sound parses m no_head in
      (m, refl, body_issues_sound m _ refl (checked ∙ ap ok no_body) required fixed)
  validate_manifest_sound parses undefined e = cc
  validate_manifest_sound parses null e = cc
  validate_manifest_sound parses (boolean b) e = cc
  validate_manifest_sound parses (number n) e = cc
  validate_manifest_sound parses (array xs) e = cc
  validate_manifest_sound parses (string s) e = cc
  validate_manifest_sound parses (foreign t) e = cc
