-- ===== src/Crypto/Merkle.antt =====
-- packages/crypto-core/src/merkle.ts: the tree over a set of leaf hashes, its proofs, and their
-- verification. The loops over levels take fuel; a level of n nodes is followed by one of (n + 1) / 2,
-- so the number of leaves is enough (Merkle/Levels).
pub mod Levels
pub mod Leaves
pub mod Completeness
pub mod Messages
pub mod Descent
pub mod Soundness
use mathlib.Core.Option
use proveria.Common.{
  ℕ, zero, suc, ◌+◌, ◌-◌, ◌/◌, ◌%◌, Bool, true, false, ◌&&◌, not, Option, none, some, List, [], ◌∷◌,
  ◌++◌, length, get_or, ltb, ◌==◌, if◌then◌else◌, Result, ok, err, ◌>>=◌, ◌>>◌,
}
use proveria.Common.Sort.{sort}
use proveria.Bytes.{Bytes, Text, not_after, bytes_equal}
use proveria.Crypto.{
  Error, child_length, empty_leaf_set, leaf_length, duplicate_leaf_hash, target_length,
  target_not_in_leaf_set, Sha256,
}

-- `'left' | 'right'`; the verifier meets other texts too, since packages come from outside.
pub data Position : Type 0 where
  left right : Position
  other : Text → Position

pub record MerkleProofStep : Type 0 where
  pub sibling : Bytes
  pub position : Position

-- the first leaf that has not 32 bytes
check_lengths : List Bytes → Result Error (Unit {0})
check_lengths [] = ok tt
check_lengths (h ∷ rest) =
    if length h == 32 then check_lengths rest else err (leaf_length (length h))

-- the loop over neighbours of the sorted leaves
check_distinct : List Bytes → Result Error (Unit {0})
check_distinct [] = ok tt
check_distinct (h ∷ []) = ok tt
check_distinct (h ∷ k ∷ rest) =
    if bytes_equal h k then err duplicate_leaf_hash else check_distinct (k ∷ rest)

unfoldable pub sort_and_validate_leaves : List Bytes → Result Error (List Bytes)
unfolding check_lengths check_distinct
sort_and_validate_leaves leaf_hashes = if length leaf_hashes == 0 then err empty_leaf_set else (do
  check_lengths leaf_hashes
  let sorted = sort not_after leaf_hashes
  check_distinct sorted
  ok sorted)

-- `sorted.findIndex((h) => bytesEqual(h, target))`
pub find_index : Bytes → List Bytes → Option ℕ
find_index target [] = none
find_index target (h ∷ rest) =
    if bytes_equal h target then some 0 else Option.map suc (find_index target rest)

-- `level[i]!`; the code reads in range only
abbrev pub at : List Bytes → ℕ → Bytes
at level i = get_or level i []

module _ ⦃H : Sha256⦄ where
  unfoldable pub hash_internal_node : Bytes → Bytes → Result Error Bytes
  hash_internal_node l r =
      if length l == 32 && length r == 32 then ok (H.digest (0x01 ∷ l ++ r)) else err child_length

  unfoldable pub build_next_level : List Bytes → Result Error (List Bytes)
  build_next_level [] = ok []
  build_next_level (l ∷ []) = ok (l ∷ [])
  build_next_level (l ∷ r ∷ rest) = do
    node ← hash_internal_node l r
    next ← build_next_level rest
    ok (node ∷ next)

  -- `while (level.length > 1) level = buildNextLevel(level)`
  unfoldable pub climb : ℕ → List Bytes → Result Error (List Bytes)
  climb zero level = ok level
  climb (suc fuel) level =
      let rest = (do next ← build_next_level level; climb fuel next) in
      if ltb 1 (length level) then rest else ok level

  unfoldable pub compute_merkle_root : List Bytes → Result Error Bytes
  compute_merkle_root leaf_hashes = do
    sorted ← sort_and_validate_leaves leaf_hashes
    top ← climb (length sorted) sorted
    ok (at top 0)

  -- one round of the loop of `buildMerkleProof`: what it pushes
  abbrev pub proof_steps : List Bytes → ℕ → List MerkleProofStep
  proof_steps level idx =
      if idx == length level - 1 && length level % 2 == 1
      then []
      else if idx % 2 == 0
      then record { sibling = at level (idx + 1); position = right } ∷ []
      else record { sibling = at level (idx - 1); position = left } ∷ []

  unfoldable pub proof_loop :
      ℕ → List Bytes → ℕ → List MerkleProofStep → Result Error (List MerkleProofStep)
  proof_loop zero level idx proof = ok proof
  proof_loop (suc fuel) level idx proof =
      let rest = (do
        next ← build_next_level level
        proof_loop fuel next (idx / 2) (proof ++ proof_steps level idx)) in
      if ltb 1 (length level) then rest else ok proof

  unfoldable pub build_merkle_proof : List Bytes → Bytes → Result Error (List MerkleProofStep)
  unfolding find_index
  build_merkle_proof leaf_hashes target =
      if length target == 32
      then (do
        sorted ← sort_and_validate_leaves leaf_hashes
        elim (find_index target sorted) [
          | none ↦ err target_not_in_leaf_set
          | some idx ↦ proof_loop (length sorted) sorted idx []
        ])
      else err target_length

  -- the loop of `verifyMerkleProof`, and the comparison behind it
  unfoldable pub verify_steps : Bytes → List MerkleProofStep → Bytes → Result Error Bool
  verify_steps current [] root = ok (bytes_equal current root)
  verify_steps current (step ∷ proof) root =
      if length step.sibling == 32
      then elim step.position [
        | other t ↦ ok false
        | left ↦ hash_internal_node step.sibling current >>= λ next. verify_steps next proof root
        | right ↦ hash_internal_node current step.sibling >>= λ next. verify_steps next proof root
      ]
      else ok false

  unfoldable pub verify_merkle_proof : Bytes → List MerkleProofStep → Bytes → Result Error Bool
  unfolding verify_steps
  verify_merkle_proof leaf_hash proof expected_root =
      if length leaf_hash == 32 && length expected_root == 32
      then verify_steps leaf_hash proof expected_root
      else ok false
