-- ===== src/Crypto/LeafHash.antt =====
-- packages/crypto-core/src/leaf-hash.ts: the leaf types and the leaf hash.
pub mod Binding
use proveria.Common.{
  ℕ, ◌+◌, ◌<◌, ◌^◌, ◌≡◌, refl, Bool, true, false, ◌&&◌, ◌||◌, List, [], ◌∷◌, ◌++◌, arith, length,
  codes, ltb, leb, ◌==◌, if◌then◌else◌, Result, ok, err, ◌>>=◌,
}
use proveria.Bytes.{Bytes, Text, uint32be, same_text}
use proveria.Bytes.Utf8.{utf8}
use proveria.Crypto.{Error, length_out_of_range, payload_hash_length, unknown_leaf_type, Sha256}

-- LEAF_TYPES
abbrev pub file_sha256_v1 : Text
file_sha256_v1 = codes "file/sha256/v1"

abbrev pub shingle_sha256_v1 : Text
shingle_sha256_v1 = codes "shingle/sha256/v1"

abbrev pub component_sha256_v1 : Text
component_sha256_v1 = codes "component/sha256/v1"

abbrev pub leaf_type_values : List Text
leaf_type_values = file_sha256_v1 ∷ shingle_sha256_v1 ∷ component_sha256_v1 ∷ []

-- `values.includes(s)`
unfoldable pub includes : List Text → Text → Bool
includes [] s = false
includes (t ∷ rest) s = same_text t s || includes rest s

unfoldable pub is_leaf_type : Text → Bool
unfolding includes
is_leaf_type s = includes leaf_type_values s

pub record LeafInput : Type 0 where
  pub protocol_version : Text
  pub leaf_type : Text
  pub hash_algorithm : Text
  pub canonical_payload_hash : Bytes

unfoldable pub length_prefix : ℕ → Result Error Bytes
length_prefix n = if ltb 0xffffffff n then err (length_out_of_range n) else ok (uint32be n)

unfoldable pub concat : List Bytes → Bytes
concat [] = []
concat (p ∷ parts) = p ++ concat parts

unfoldable pub build_leaf_hash_input : LeafInput → Result Error Bytes
unfolding length_prefix concat
build_leaf_hash_input input =
    if length input.canonical_payload_hash == 32
    then if is_leaf_type input.leaf_type
      then (do
        let protocol = utf8 input.protocol_version
        let leaf_type = utf8 input.leaf_type
        let algo = utf8 input.hash_algorithm
        protocol_length ← length_prefix (length protocol)
        leaf_type_length ← length_prefix (length leaf_type)
        algo_length ← length_prefix (length algo)
        payload_length ← length_prefix (length input.canonical_payload_hash)
        ok (
            concat (
              (0x00 ∷ [])
              ∷ protocol_length
              ∷ protocol
              ∷ leaf_type_length
              ∷ leaf_type
              ∷ algo_length
              ∷ algo
              ∷ payload_length
              ∷ input.canonical_payload_hash
              ∷ [])))
      else err (unknown_leaf_type input.leaf_type)
    else err (payload_hash_length (length input.canonical_payload_hash))

unfoldable pub compute_leaf_hash : ⦃H : Sha256⦄ → LeafInput → Result Error Bytes
compute_leaf_hash ⦃H⦄ input = do bytes ← build_leaf_hash_input input; ok (H.digest bytes)
