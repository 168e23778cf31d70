-- ===== src/Samples/TwoLeaves.antt =====
-- A manifest with two file leaves, for the runs in the modules of tests.
use proveria.Common.{ℕ, List, [], ◌∷◌, ◌++◌, codes, replicate}
use proveria.Bytes.{Bytes, Text}
use proveria.Bytes.Hex.{to_hex}
use proveria.Json.{pos, whole, Json, string, number, object, array, Fields, end, field, items}
use proveria.Crypto.LeafHash.{file_sha256_v1}
use proveria.Crypto.LeafHash.Binding.{layout}
use proveria.Manifest.{v1, sha256_name}
use proveria.Manifest.Validate.{entry_input}
use proveria.Samples.{toy_hash}

abbrev pub payload : ℕ → Text
payload n = to_hex (replicate 32 n)

abbrev pub leaf_of : ℕ → Bytes
leaf_of n = toy_hash.digest (layout (entry_input file_sha256_v1 (payload n)))

abbrev pub root : Bytes
root = toy_hash.digest (0x01 ∷ leaf_of 1 ++ leaf_of 2)

abbrev pub entry : ℕ → Json
entry n = object (
    field (codes "leaf_type") (string file_sha256_v1) (
      field (codes "leaf_hash") (string (to_hex (leaf_of n))) (
        field (codes "canonical_payload_hash") (string (payload n))
          (field (codes "metadata") (object end) end))))

abbrev pub texts : List (Text × Text) → Fields → Fields
texts [] rest = rest
texts ((k, v) ∷ kvs) rest = field k (string v) (texts kvs rest)

abbrev pub counts : ℕ → ℕ → ℕ → List Text → Fields
counts a b c (x ∷ y ∷ z ∷ _) =
    field x (number (whole (pos a)))
      (field y (number (whole (pos b))) (field z (number (whole (pos c))) end))
counts a b c _ = end

abbrev pub two_leaves : Fields
two_leaves =
    texts
      ((codes "schema_version", v1)
        ∷ (codes "protocol_version", v1)
        ∷ (codes "canonicalization_version", v1)
        ∷ (codes "merkle_version", v1)
        ∷ (codes "hash_algorithm", sha256_name)
        ∷ (codes "hash_algorithm_version", v1)
        ∷ (codes "tenant_id", codes "t")
        ∷ (codes "project_id", codes "p")
        ∷ (codes "attestation_id", codes "a")
        ∷ (codes "attempt_id", codes "b")
        ∷ (codes "created_by_user_id", codes "u")
        ∷ (codes "created_by_device_id", codes "d")
        ∷ (codes "created_by_profile_id", codes "f")
        ∷ (codes "merkle_root", to_hex root)
        ∷ (codes "created_at", codes "2026-05-13T01:02:03Z")
        ∷ [])
      (field (codes "source_summary")
        (object
          (counts 2 0 0 (codes "file_count" ∷ codes "shingle_count" ∷ codes "ocr_page_count" ∷ [])))
        (field (codes "policy_context") (object end) (
          field (codes "extraction_metadata") (object end) (
            field (codes "leaf_set") (array (items (entry 1 ∷ entry 2 ∷ []))) (
              field (codes "leaf_counts")
                (object (counts 2 0 0 (codes "file" ∷ codes "shingle" ∷ codes "component" ∷ [])))
                (field (codes "signatures") (array (items [])) end))))))
