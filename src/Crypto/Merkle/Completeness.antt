-- ===== src/Crypto/Merkle/Completeness.antt =====
-- A proof that `buildMerkleProof` builds is accepted against the root of `computeMerkleRoot`.
use mathlib.Core.List.{Memᴰ, Permᴰ}
use proveria.Common.Sort.{Permᴰ-mem, Permᴰ-symm}
use proveria.Bytes.Order.{bytes_equal_iff}
use proveria.Crypto.Merkle.Leaves.{
  IsLeafSet, sort_and_validate_leaves-eq-ok_iff, sort_and_validate_leaves-IsCanonical,
  sort_and_validate_leaves-perm, find_index-mem,
}
use proveria.Common.{
  ℕ, zero, suc, ◌+◌, ◌-◌, ◌/◌, ◌<◌, ◌≤◌, ◌≡◌, ◌∙◌, sym, refl, ap, true, List, [], ◌∷◌, ◌++◌, arith,
  length, All, All-mem, All-append, All-get_or, lt→ltb, ok, >>=-eq-ok,
}
use proveria.Bytes.{Bytes, bytes_equal}
use proveria.Crypto.{Sha256}
use proveria.Crypto.Merkle.{
  at, Position, left, right, other, MerkleProofStep, climb, proof_steps, proof_loop, verify_steps,
  sort_and_validate_leaves, compute_merkle_root, build_merkle_proof, verify_merkle_proof,
}
use proveria.Crypto.Merkle.Levels.{
  Is32, node, next_level, node-Is32, hash_internal_node-eq, build_next_level-eq, next_level-Is32,
  length-next_level, at-next_level_left, at-next_level_right, at-next_level_last, climb_step,
  climb_stop, climb-eq-root,
}

-- A step as the builder emits it.
abbrev pub IsKnown : Position → Type 0
IsKnown left = Unit
IsKnown right = Unit
IsKnown (other t) = ⊥

abbrev pub IsStep : MerkleProofStep → Type 0
IsStep s = Is32 s.sibling × IsKnown s.position

module _ ⦃H : Sha256⦄ where
  -- The hash over a node and its sibling, and the end of a walk.
  abbrev pub combine : Bytes → MerkleProofStep → Bytes
  combine h s = elim s.position [ left ↦ node s.sibling h | right ↦ node h s.sibling | other t ↦ h ]

  abbrev pub walk : Bytes → List MerkleProofStep → Bytes
  walk h [] = h
  walk h (s ∷ proof) = walk (combine h s) proof

  pub walk-append : (h : Bytes) (p q : List MerkleProofStep) → walk h (p ++ q) ≡ walk (walk h p) q
  walk-append h [] q = refl
  walk-append h (s ∷ p) q = walk-append (combine h s) p q

  combine-Is32 : (h : Bytes) (s : MerkleProofStep) → Is32 h → Is32 (combine h s)
  combine-Is32 h s k = ground (arith, node-Is32 s.sibling h, node-Is32 h s.sibling)

  -- On well-formed steps the verifier compares the end of the walk with the root.
  pub verify_steps-eq :
      (h : Bytes) (proof : List MerkleProofStep) (root : Bytes)
      → Is32 h
      → All IsStep proof
      → verify_steps h proof root ≡ ok (bytes_equal (walk h proof) root)
  unfolding verify_steps
  verify_steps-eq h [] root k w = refl
  verify_steps-eq h (s ∷ proof) root k (ws, w) = ground (
    arith,
    hash_internal_node-eq s.sibling h,
    hash_internal_node-eq h s.sibling,
    node-Is32 s.sibling h,
    node-Is32 h s.sibling,
    verify_steps-eq (combine h s) proof root (combine-Is32 h s k) w,
  )

  -- What one round pushes leads from a node to the one over it.
  walk-proof_steps :
      (level : List Bytes) (idx : ℕ)
      → idx < length level
      → walk (at level idx) (proof_steps level idx) ≡ at (next_level level) (idx / 2)
  walk-proof_steps level idx lt = ground (
    arith,
    at-next_level_left level idx,
    at-next_level_right level idx,
    at-next_level_last level idx,
  )

  at-Is32 : (level : List Bytes) (i : ℕ) → All Is32 level → i < length level → Is32 (at level i)
  at-Is32 level i h lt = All-get_or Is32 level i [] lt h

  proof_steps-IsStep :
      (level : List Bytes) (idx : ℕ)
      → All Is32 level
      → idx < length level
      → All IsStep (proof_steps level idx)
  proof_steps-IsStep level idx h lt =
      ground (arith, at-Is32 level (idx + 1) h, at-Is32 level (idx - 1) h)

  proof_loop_step :
      (fuel : ℕ) (level : List Bytes) (idx : ℕ) (proof : List MerkleProofStep)
      → All Is32 level
      → 1 < length level
      → proof_loop (suc fuel) level idx proof
        ≡ proof_loop fuel (next_level level) (idx / 2) (proof ++ proof_steps level idx)
  unfolding proof_loop
  proof_loop_step fuel level idx proof h lt =
      rw (lt→ltb 1 (length level) lt) (rw (build_next_level-eq level h))

  proof_loop_stop :
      (fuel : ℕ) (root : Bytes) (idx : ℕ) (proof : List MerkleProofStep)
      → proof_loop fuel (root ∷ []) idx proof ≡ ok proof
  unfolding proof_loop
  proof_loop_stop zero root idx proof = refl
  proof_loop_stop (suc fuel) root idx proof = refl

  -- The two loops go up together: the proof leads to the hash at which the other loop ends.
  record IsProofFor (fuel : ℕ) (level : List Bytes) (idx : ℕ) (h : Bytes)
      (sofar : List MerkleProofStep) : Type 0 where
    proof : List MerkleProofStep
    root : Bytes
    built : proof_loop fuel level idx sofar ≡ ok proof
    climbed : climb fuel level ≡ ok (root ∷ [])
    leads : walk h proof ≡ root
    steps : All IsStep proof

  proof_loop_lem :
      (fuel : ℕ) (level : List Bytes) (idx : ℕ) (h : Bytes) (sofar : List MerkleProofStep)
      → All Is32 level
      → idx < length level
      → length level ≤ fuel
      → All IsStep sofar
      → walk h sofar ≡ at level idx
      → IsProofFor fuel level idx h sofar
  proof_loop_lem zero level idx h sofar k lt le w e = absurd (omega arith)
  proof_loop_lem (suc fuel) [] idx h sofar k lt le w e = absurd (omega arith)
  proof_loop_lem (suc fuel) (l ∷ []) (suc idx) h sofar k lt le w e = absurd (omega arith)
  proof_loop_lem (suc fuel) (l ∷ []) zero h sofar k lt le w e = record {
    proof = sofar;
    root = l;
    built = proof_loop_stop (suc fuel) l zero sofar;
    climbed = climb_stop (suc fuel) l;
    leads = e;
    steps = w;
  }
  proof_loop_lem (suc fuel) (l ∷ r ∷ rest) idx h sofar k lt le w e =
      let level = l ∷ r ∷ rest in
      let pushed = proof_steps level idx in
      let reached : walk h (sofar ++ pushed) ≡ at (next_level level) (idx / 2) =
        walk-append h sofar pushed ∙ ap (λ x. walk x pushed) e ∙ walk-proof_steps level idx lt in
      let up =
        proof_loop_lem fuel (next_level level) (idx / 2) h (sofar ++ pushed)
          (next_level-Is32 level k) (omega (arith, length-next_level level))
          (omega (arith, length-next_level level))
          (All-append IsStep sofar pushed w (proof_steps-IsStep level idx k lt)) reached in
      record {
        proof = up.proof;
        root = up.root;
        built = proof_loop_step fuel level idx sofar k (omega arith) ∙ up.built;
        climbed = climb_step fuel level k (omega arith) ∙ up.climbed;
        leads = up.leads;
        steps = up.steps;
      }

  climb-root :
      (leaves sorted : List Bytes) (root : Bytes)
      → sort_and_validate_leaves leaves ≡ ok sorted
      → climb (length sorted) sorted ≡ ok (root ∷ [])
      → compute_merkle_root leaves ≡ ok root
  unfolding compute_merkle_root
  climb-root leaves sorted root e k = rw e (rw k)

  -- For every leaf of an accepted set: the builder returns a proof, the root exists, and the
  -- verifier accepts the proof of that leaf against that root.
  pub verify_merkle_proof-build_merkle_proof :
      (leaves : List Bytes) (target : Bytes)
      → IsLeafSet leaves
      → Memᴰ target leaves
      → (proof : List MerkleProofStep) × (root : Bytes) × (build_merkle_proof leaves target
          ≡ ok proof)
        × (compute_merkle_root leaves ≡ ok root)
        × (verify_merkle_proof target proof root ≡ ok true)
  unfolding build_merkle_proof verify_merkle_proof
  verify_merkle_proof-build_merkle_proof leaves target set member =
      let (sorted, accepted) = (sort_and_validate_leaves-eq-ok_iff leaves).1 set in
      let c = sort_and_validate_leaves-IsCanonical leaves sorted accepted in
      let (idx, found, lt, here) =
        find_index-mem target sorted (Permᴰ-mem (Permᴰ-symm c.perm) member) in
      let size : Is32 target = All-mem Is32 member set.sizes in
      let up =
        proof_loop_lem (length sorted) sorted idx target [] c.sizes lt (omega arith) tt
          (sym here) in
      let (root, climbed, root_size) =
        climb-eq-root (length sorted) sorted c.sizes c.inhabited (omega arith) in
      let same : up.root ≡ root = cc (up.climbed, climbed) in
      let accepts = verify_steps-eq target up.proof root size up.steps in
      (
        up.proof,
        root,
        ground (arith, up.built),
        climb-root leaves sorted root accepted climbed,
        ground (arith, bytes_equal_iff (walk target up.proof) root, up.leads),
      )

  -- The root depends on the set of leaves only, not on the order in which they are given.
  pub compute_merkle_root-perm :
      (xs ys : List Bytes) (root : Bytes)
      → Permᴰ xs ys
      → compute_merkle_root xs ≡ ok root
      → compute_merkle_root ys ≡ ok root
  unfolding compute_merkle_root
  compute_merkle_root-perm xs ys root p e =
      let (sorted, accepted, rest) = >>=-eq-ok (sort_and_validate_leaves xs) _ e in
      rw (sort_and_validate_leaves-perm xs ys sorted p accepted) rest
