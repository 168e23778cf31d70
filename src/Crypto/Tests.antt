-- ===== src/Crypto/Tests.antt =====
-- Runs of the leaf hash and the Merkle tree, with a checksum of 32 bytes in the place of SHA-256.
use mathlib.Core.List.{Memᴰ, Permᴰ}
use proveria.Common.{
  ℕ, ◌≡◌, ◌≢◌, ◌⊎◌, ◌↔◌, refl, List, [], ◌∷◌, ◌++◌, arith, length, drop, replicate, true, codes, ok,
  err,
}
use proveria.Bytes.{Bytes, not_after, same_text, uint32be, bytes_equal}
use proveria.Bytes.Utf8.{utf8}
use proveria.Crypto.{Error, Collision}
use proveria.Crypto.LeafHash.{
  LeafInput, file_sha256_v1, is_leaf_type, build_leaf_hash_input, compute_leaf_hash,
}
use proveria.Crypto.LeafHash.Binding.{
  SameInput, IsAcceptable, layout, build_leaf_hash_input-eq-ok_iff, compute_leaf_hash_binding,
}
use proveria.Crypto.Merkle.{
  MerkleProofStep, left, hash_internal_node, build_next_level, climb, sort_and_validate_leaves,
  compute_merkle_root, build_merkle_proof, proof_loop, verify_merkle_proof,
}
use proveria.Crypto.Merkle.Leaves.{IsLeafSet, sort_and_validate_leaves-eq-ok_iff}
use proveria.Crypto.Merkle.Completeness.{
  verify_merkle_proof-build_merkle_proof, compute_merkle_root-perm,
}
use proveria.Crypto.Merkle.Soundness.{verify_merkle_proof_sound, verify_merkle_proof-ne-err}
use proveria.Common.Sort.{sort}
use proveria.Json.{null, undefined, object, Fields, end, field}
use proveria.Crypto.Canonical.{canonicalize}
use proveria.Crypto.Canonical.KeyOrder.{canonicalize-perm}
use proveria.Crypto.Merkle.Messages.{walk_messages, tree_messages}
use proveria.Samples.{toy_hash}

-- Four file leaves and one shingle leaf.
abbrev input : ℕ → LeafInput
input n = record {
  protocol_version = codes "1.0";
  leaf_type = file_sha256_v1;
  hash_algorithm = codes "sha256";
  canonical_payload_hash = replicate 32 n;
}

opened : Unit {0}
unfolding utf8 is_leaf_type same_text uint32be bytes_equal build_leaf_hash_input compute_leaf_hash
    sort_and_validate_leaves compute_merkle_root hash_internal_node build_next_level climb
    build_merkle_proof proof_loop verify_merkle_proof sort not_after
opened = tt

abbrev leaf_of : ℕ → Bytes
leaf_of n = toy_hash.digest (layout (input n))

abbrev five : List Bytes
five = leaf_of 1 ∷ leaf_of 2 ∷ leaf_of 3 ∷ leaf_of 4 ∷ leaf_of 9 ∷ []

abbrev five_in_order : List Bytes
five_in_order = leaf_of 4 ∷ leaf_of 1 ∷ leaf_of 2 ∷ leaf_of 9 ∷ leaf_of 3 ∷ []

leaf_runs : compute_leaf_hash (input 3) ≡ ok (leaf_of 3)
unfolding opened
leaf_runs = refl

five_accepted : sort_and_validate_leaves five ≡ ok five_in_order
unfolding opened
five_accepted = refl

five-IsLeafSet : IsLeafSet five
five-IsLeafSet = (sort_and_validate_leaves-eq-ok_iff five).0 (five_in_order, five_accepted)

third : Memᴰ (leaf_of 3) five
third = Memᴰ.tail (Memᴰ.tail (Memᴰ.head refl))

abbrev top : Bytes
top = replicate 32 0

abbrev two_root : Bytes
two_root = toy_hash.digest (0x01 ∷ leaf_of 1 ++ leaf_of 2)

-- The last of the five leaves is promoted twice: its proof has one step.
promoted_proof :
    (proof : List MerkleProofStep) × (build_merkle_proof five (leaf_of 3) ≡ ok proof)
    × (length proof ≡ 1)
unfolding opened
promoted_proof = (_, refl, refl)

rejected :
    (compute_merkle_root [] ≡ err Error.empty_leaf_set)
    × (compute_merkle_root (leaf_of 1 ∷ leaf_of 2 ∷ leaf_of 1 ∷ []) ≡ err Error.duplicate_leaf_hash)
    × (compute_merkle_root ((1 ∷ []) ∷ []) ≡ err (Error.leaf_length 1))
    × (build_merkle_proof five (leaf_of 7) ≡ err Error.target_not_in_leaf_set)
unfolding opened
rejected = (refl, refl, refl, refl)

accepted_example :
    (proof : List MerkleProofStep) × (root : Bytes) × (build_merkle_proof five (leaf_of 3)
      ≡ ok proof)
    × (compute_merkle_root five ≡ ok root)
    × (verify_merkle_proof (leaf_of 3) proof root ≡ ok true)
accepted_example = verify_merkle_proof-build_merkle_proof five (leaf_of 3) five-IsLeafSet third

leaf_set_example :
    ((sorted : List Bytes) × (sort_and_validate_leaves five ≡ ok sorted)) ↔ IsLeafSet five
leaf_set_example = sort_and_validate_leaves-eq-ok_iff five

reordered_example : compute_merkle_root (leaf_of 2 ∷ leaf_of 1 ∷ []) ≡ ok two_root
unfolding opened
reordered_example =
    compute_merkle_root-perm (leaf_of 1 ∷ leaf_of 2 ∷ []) (leaf_of 2 ∷ leaf_of 1 ∷ []) two_root
      (Permᴰ.swap refl refl) refl

sound_example :
    Memᴰ (leaf_of 2) (leaf_of 1 ∷ leaf_of 2 ∷ [])
    ⊎ Collision
        (layout (input 2)
          ∷ walk_messages (leaf_of 2) (record { sibling = leaf_of 1; position = left } ∷ []))
        ((layout (input 1) ∷ layout (input 2) ∷ []) ++ tree_messages (leaf_of 1 ∷ leaf_of 2 ∷ []))
unfolding opened
sound_example =
    verify_merkle_proof_sound (layout (input 1) ∷ layout (input 2) ∷ []) two_root (layout (input 2))
      (record { sibling = leaf_of 1; position = left } ∷ [])
      ((drop 1 (layout (input 1)), refl), ((drop 1 (layout (input 2)), refl), tt))
      (drop 1 (layout (input 2)), refl) refl refl

never_throws_example : verify_merkle_proof (leaf_of 2) [] top ≢ err Error.child_length
never_throws_example = verify_merkle_proof-ne-err (leaf_of 2) [] top Error.child_length

input_example :
    (build_leaf_hash_input (input 3) ≡ ok (layout (input 3)))
    ↔ (IsAcceptable (input 3) × (layout (input 3) ≡ layout (input 3)))
input_example = build_leaf_hash_input-eq-ok_iff (input 3) (layout (input 3))

binding_example :
    SameInput (input 3) (input 3) ⊎ Collision (layout (input 3) ∷ []) (layout (input 3) ∷ [])
binding_example = compute_leaf_hash_binding (input 3) (input 3) (leaf_of 3) leaf_runs leaf_runs

abbrev ab : Fields
ab = field (codes "a") null (field (codes "b") undefined end)

abbrev ba : Fields
ba = field (codes "b") undefined (field (codes "a") null end)

keys_differ : codes "a" ≢ codes "b"
keys_differ e = ground arith

reordered_keys_example : canonicalize (object ab) ≡ canonicalize (object ba)
reordered_keys_example =
    canonicalize-perm ab ba (Permᴰ.swap refl refl) ((keys_differ, tt), (tt, tt))
