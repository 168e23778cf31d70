-- ===== src/Manifest/Validate.antt =====
-- packages/manifest/src/validate.ts: the leaf set, the counts, the Merkle root, the signature
-- entries, and `validateManifest` itself.
use proveria.Common.{
  ℕ, ◌+◌, Bool, true, false, not, ◌&&◌, Option, none, some, List, [], ◌∷◌, ◌++◌, map, length, ◌==◌,
  if◌then◌else◌, codes, Result, ok, err, ◌>>=◌,
}
use proveria.Bytes.{Text, same_text, before}
use proveria.Bytes.Hex.{is_hex64, to_hex, from_hex}
use proveria.Json.{Json, undefined, number, string, array, object, whole, pos, Fields, elements}
use proveria.Json.Access.{get}
use proveria.Json.Printing.{decimal}
use proveria.Crypto.{Error, Sha256}
use proveria.Crypto.LeafHash.{
  LeafInput, is_leaf_type, includes, file_sha256_v1, shingle_sha256_v1, component_sha256_v1,
  compute_leaf_hash,
}
use proveria.Crypto.Merkle.{compute_merkle_root}
use proveria.Manifest.{LeafCounts, v1, sha256_name}
use proveria.Manifest.Checks.{
  Issue, issue, unless, not_an_object, missing_object, missing_or_empty, missing_array,
  missing_string, not_hex64, duplicate, not_sorted, wrong_algorithm, unknown_leaf_type,
  unknown_signer, hash_mismatch, count_mismatch, recompute_failed, is_non_empty_string, is_text,
  is_signer_kind, head_issues,
}

-- `typeof v === 'string' && HEX64.test(v)`, and the string
unfoldable pub hex_text : Json → Option Text
hex_text (string s) = if is_hex64 s then some s else none
hex_text _ = none

-- `typeof v === 'string' && isLeafType(v)`, and the string
unfoldable pub known_leaf_type : Json → Option Text
known_leaf_type (string s) = if is_leaf_type s then some s else none
known_leaf_type _ = none

abbrev pub is_none {ℓ} : {A : Type ℓ} → Option A → Bool
is_none none = true
is_none (some a) = false

-- The input whose hash a leaf entry must carry.
abbrev pub entry_input : Text → Text → LeafInput
entry_input leaf_type payload = record {
  protocol_version = v1;
  leaf_type = leaf_type;
  hash_algorithm = sha256_name;
  canonical_payload_hash = from_hex payload;
}

-- `leaf_set[i]`
pub leaf_path : ℕ → Text
leaf_path i = codes "leaf_set[" ++ (decimal i ++ codes "]")

-- A leaf entry with a well-formed hash, which the loop remembers.
unfoldable pub entry_hash : Json → Option Text
entry_hash (object leaf) = hex_text (get leaf (codes "leaf_hash"))
entry_hash _ = none

-- What the loop remembers after an entry.
abbrev pub seen_after : Option Text → List Text → List Text
seen_after none seen = seen
seen_after (some h) seen = h ∷ seen

abbrev pub prev_after : Option Text → Text → Text
prev_after none prev = prev
prev_after (some h) prev = h

abbrev pub sorted_after : Option Text → Text → Bool → Bool
sorted_after none prev sorted_ok = sorted_ok
sorted_after (some h) prev sorted_ok = sorted_ok && not (not (length prev == 0) && before h prev)

module _ ⦃H : Sha256⦄ where
  -- The recomputation of a leaf hash, where type and payload hash are well-formed.
  unfoldable pub recompute_issues :
      Text → Option Text → Option Text → Text → Result Error (List Issue)
  recompute_issues path (some leaf_type) (some payload) leaf_hash = do
    recomputed ← compute_leaf_hash (entry_input leaf_type payload)
    ok (
        unless (same_text (to_hex recomputed) leaf_hash)
          (issue (path ++ codes ".leaf_hash") (hash_mismatch leaf_hash (to_hex recomputed))))
  recompute_issues path _ _ leaf_hash = ok []

  -- The checks of an entry by what its three texts have shown: the form of the leaf type and the
  -- payload hash, the form of the leaf hash, the recomputation, the duplicate.
  unfoldable pub entry_issues :
      Text → Json → Option Text → Option Text → Option Text → List Text → Result Error (List Issue)
  entry_issues path type_value leaf_type payload none seen = ok (
      unless (not (is_none leaf_type))
        (issue (path ++ codes ".leaf_type") (unknown_leaf_type type_value))
      ++ (unless (not (is_none payload)) (issue (path ++ codes ".canonical_payload_hash") not_hex64)
          ++ issue (path ++ codes ".leaf_hash") not_hex64))
  entry_issues path type_value leaf_type payload (some leaf_hash) seen = do
    mismatch ← recompute_issues path leaf_type payload leaf_hash
    ok (
        unless (not (is_none leaf_type))
          (issue (path ++ codes ".leaf_type") (unknown_leaf_type type_value))
        ++ (unless (not (is_none payload))
              (issue (path ++ codes ".canonical_payload_hash") not_hex64)
            ++ (mismatch
                ++ unless (not (includes seen leaf_hash))
                    (issue (path ++ codes ".leaf_hash") duplicate))))

  -- One round of the loop over the leaf set: what it adds to the issues.
  unfoldable pub leaf_issues : ℕ → Json → List Text → Result Error (List Issue)
  leaf_issues i (object leaf) seen =
      entry_issues (leaf_path i) (get leaf (codes "leaf_type"))
        (known_leaf_type (get leaf (codes "leaf_type")))
        (hex_text (get leaf (codes "canonical_payload_hash")))
        (hex_text (get leaf (codes "leaf_hash"))) seen
  leaf_issues i _ seen = ok (issue (leaf_path i) not_an_object)

  -- The loop: the issues, and whether the hashes stood in order. `prev` is '' at first.
  unfoldable pub check_leaves :
      ℕ → List Json → List Text → Text → Bool → Result Error (List Issue × Bool)
  check_leaves i [] seen prev sorted_ok = ok ([], sorted_ok)
  check_leaves i (leaf ∷ rest) seen prev sorted_ok = do
    here ← leaf_issues i leaf seen
    let next = entry_hash leaf
    later ←
        check_leaves (i + 1) rest (seen_after next seen) (prev_after next prev)
          (sorted_after next prev sorted_ok)
    ok (here ++ later.0, later.1)

-- The tally over the entries that are objects with a text for their type.
count_leaves : Text → List Json → ℕ
unfolding is_text
count_leaves t [] = 0
count_leaves t (object leaf ∷ rest) =
    (if is_text (get leaf (codes "leaf_type")) t then 1 else 0) + count_leaves t rest
count_leaves t (_ ∷ rest) = count_leaves t rest

unfoldable pub tally : List Json → LeafCounts
unfolding count_leaves
tally leaves = record {
  file = count_leaves file_sha256_v1 leaves;
  shingle = count_leaves shingle_sha256_v1 leaves;
  component = count_leaves component_sha256_v1 leaves;
}

-- `v === n`
unfoldable pub is_number : Json → ℕ → Bool
is_number (number (whole (pos m))) n = m == n
is_number _ n = false

unfoldable pub counts_issues : Json → LeafCounts → List Issue
unfolding is_number
counts_issues (object counts) actual =
    unless (is_number (get counts (codes "file")) actual.file)
      (issue (codes "leaf_counts.file") (count_mismatch (get counts (codes "file")) actual.file))
    ++ (unless (is_number (get counts (codes "shingle")) actual.shingle) (
          issue (codes "leaf_counts.shingle")
            (count_mismatch (get counts (codes "shingle")) actual.shingle))
        ++ unless (is_number (get counts (codes "component")) actual.component) (
            issue (codes "leaf_counts.component")
              (count_mismatch (get counts (codes "component")) actual.component)))
counts_issues _ actual = issue (codes "leaf_counts") missing_object

-- The leaf hashes, if all entries have a well-formed one.
unfoldable pub entry_hashes : List Json → Option (List Text)
entry_hashes [] = some []
entry_hashes (leaf ∷ rest) =
    let later = entry_hashes rest in
    elim (entry_hash leaf) [
      | none ↦ none
      | some h ↦ elim later [ none ↦ none | some hs ↦ some (h ∷ hs) ]
    ]

abbrev pub is_undefined : Json → Bool
is_undefined undefined = true
is_undefined _ = false

module _ ⦃H : Sha256⦄ where
  unfoldable pub root_issues : Json → List Json → List Issue
  root_issues declared leaves = elim (hex_text declared) [
    | none ↦ unless (is_undefined declared) (issue (codes "merkle_root") not_hex64)
    | some root ↦ elim (entry_hashes leaves) [
      | none ↦ []
      | some hashes ↦ elim (compute_merkle_root (map from_hex hashes)) [
        | ok recomputed ↦
            unless (same_text (to_hex recomputed) root)
              (issue (codes "merkle_root") (hash_mismatch root (to_hex recomputed)))
        | err e ↦ issue (codes "merkle_root") (recompute_failed e)
      ]
    ]
  ]

signature_path : ℕ → Text
signature_path i = codes "signatures[" ++ (decimal i ++ codes "]")

signature_issues : ℕ → List Json → List Issue
unfolding signature_path is_signer_kind is_non_empty_string is_text
signature_issues i [] = []
signature_issues i (object sig ∷ rest) =
    unless (is_signer_kind (get sig (codes "signer_kind"))) (
      issue (signature_path i ++ codes ".signer_kind")
        (unknown_signer (get sig (codes "signer_kind"))))
    ++ (unless (is_non_empty_string (get sig (codes "key_id")))
          (issue (signature_path i ++ codes ".key_id") missing_string)
        ++ (unless (is_text (get sig (codes "algorithm")) (codes "ed25519"))
              (issue (signature_path i ++ codes ".algorithm") wrong_algorithm)
            ++ (unless (is_non_empty_string (get sig (codes "signature")))
                  (issue (signature_path i ++ codes ".signature") missing_string)
                ++ signature_issues (i + 1) rest)))
signature_issues i (_ ∷ rest) =
    issue (signature_path i) not_an_object ++ signature_issues (i + 1) rest

unfoldable pub signatures_issues : Json → List Issue
unfolding signature_issues
signatures_issues (array sigs) = signature_issues 0 (elements sigs)
signatures_issues _ = issue (codes "signatures") missing_array

module _ ⦃H : Sha256⦄ where
  -- The checks from the leaf set on, for an array with an element; without one they end there.
  unfoldable pub body_issues : Fields → List Json → Result Error (List Issue)
  body_issues m [] = ok (issue (codes "leaf_set") missing_or_empty)
  body_issues m (leaf ∷ rest) = do
    let leaves = leaf ∷ rest
    found ← check_leaves 0 leaves [] [] true
    ok (
        found.0
        ++ (unless found.1 (issue (codes "leaf_set") not_sorted)
            ++ (counts_issues (get m (codes "leaf_counts")) (tally leaves)
                ++ (root_issues (get m (codes "merkle_root")) leaves
                    ++ signatures_issues (get m (codes "signatures"))))))

abbrev pub leaf_list : Json → List Json
leaf_list (array xs) = elements xs
leaf_list _ = []

module _ ⦃H : Sha256⦄ (parses : Text → Bool) where
  -- The issues; `valid` is that there are none.
  unfoldable pub validate_manifest : Json → Result Error (List Issue)
  validate_manifest (object m) = do
    body ← body_issues m (leaf_list (get m (codes "leaf_set")))
    ok (head_issues parses m ++ body)
  validate_manifest _ = ok (issue (codes "(root)") not_an_object)
