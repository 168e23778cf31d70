-- ===== src/Crypto/Merkle/Soundness.antt =====
-- What an accepted proof shows: the leaf is in the set, or SHA-256 has collided. Leaves are hashes of
-- inputs that begin with 0x00 and nodes of inputs that begin with 0x01, which keeps them apart.
use mathlib.Core.List.{Memᴰ, Permᴰ, reverse, reverse-cons, reverse-reverse}
use proveria.Common.Sort.{Permᴰ-mem, Permᴰ-symm, Permᴰ-All}
use proveria.Crypto.Merkle.Leaves.{
  sort_and_validate_leaves-IsCanonical, sort_and_validate_leaves-sorted,
}
use proveria.Common.{
  ◌≡◌, ◌≢◌, ◌⊎◌, ◌∙◌, sym, refl, ap, subst, true, List, [], ◌∷◌, ◌++◌, map, arith, length, All,
  All-append, >>=-eq-ok, inl, inr, ok, err,
}
use proveria.Bytes.{IsByte, Bytes}
use proveria.Bytes.Order.{bytes_equal_iff}
use proveria.Crypto.{Error, Sha256, Collision}
use proveria.Crypto.Merkle.{
  MerkleProofStep, climb, sort_and_validate_leaves, verify_steps, compute_merkle_root,
  verify_merkle_proof,
}
use proveria.Crypto.Merkle.Levels.{Is32, node, node-Is32, hash_internal_node-eq, climb-eq-root}
use proveria.Crypto.Merkle.Completeness.{IsStep, walk}
use proveria.Crypto.Merkle.Messages.{
  Tree, leaf, branch, leaves_of, forest_leaves, walk_messages, node_messages, tree_messages,
  hash_of, messages_of, forest_messages, climb-tree, walk_back, walk-reverse, walk_messages-reverse,
}
use proveria.Crypto.Merkle.Descent.{IsLeafMessage, Memᴰ-left, Memᴰ-right, IsDigestIn, descend}

mems : (xs ys : List Bytes) → ((m : Bytes) → Memᴰ m xs → Memᴰ m ys) → All (λ m. Memᴰ m ys) xs
mems [] ys f = tt
mems (x ∷ xs) ys f = (f x (Memᴰ.head refl), mems xs ys (λ m k. f m (Memᴰ.tail k)))

module _ ⦃H : Sha256⦄ where
  -- The verifier accepts only well-formed steps that lead to the root.
  verify_steps_sound :
      (h : Bytes) (proof : List MerkleProofStep) (root : Bytes)
      → Is32 h
      → verify_steps h proof root ≡ ok true
      → All IsStep proof × (walk h proof ≡ root)
  unfolding verify_steps
  verify_steps_sound h [] root k e = (tt, ground (arith, bytes_equal_iff h root))
  verify_steps_sound h (s ∷ proof) root k e = ground (
    arith,
    hash_internal_node-eq s.sibling h,
    hash_internal_node-eq h s.sibling,
    node-Is32 s.sibling h,
    node-Is32 h s.sibling,
    verify_steps_sound (node s.sibling h) proof root,
    verify_steps_sound (node h s.sibling) proof root,
  )

  All-reverse : (proof : List MerkleProofStep) → All IsStep proof → All IsStep (reverse proof)
  All-reverse [] w = tt
  All-reverse (s ∷ proof) (ws, w) =
      subst (All IsStep) (sym (reverse-cons s proof))
        (All-append IsStep (reverse proof) (s ∷ []) (All-reverse proof w) (ws, tt))

  map-leaf : (hs : List Bytes) → map hash_of (map leaf hs) ≡ hs
  map-leaf [] = refl
  map-leaf (h ∷ hs) = ap (λ r. h ∷ r) (map-leaf hs)

  forest_leaves-leaf : (hs : List Bytes) → forest_leaves (map leaf hs) ≡ hs
  forest_leaves-leaf [] = refl
  forest_leaves-leaf (h ∷ hs) = ap (λ r. h ∷ r) (forest_leaves-leaf hs)

  forest_messages-leaf :
      (P : Bytes → Type 0) (hs : List Bytes) → All P (forest_messages (map leaf hs))
  forest_messages-leaf P [] = tt
  forest_messages-leaf P (h ∷ hs) = forest_messages-leaf P hs

  -- The root of an accepted set is the hash of a tree over the sorted leaves, which has hashed what the
  -- levels have.
  compute_merkle_root-tree :
      (P : Bytes → Type 0) (leaves : List Bytes) (root : Bytes)
      → compute_merkle_root leaves ≡ ok root
      → All P (tree_messages leaves)
      → (t : Tree) × (hash_of t ≡ root)
        × Permᴰ (leaves_of t) leaves
        × All Is32 (leaves_of t)
        × All P (messages_of t)
  unfolding compute_merkle_root
  compute_merkle_root-tree P leaves root e hashed =
      let (sorted, accepted, rest) = >>=-eq-ok (sort_and_validate_leaves leaves) _ e in
      let c = sort_and_validate_leaves-IsCanonical leaves sorted accepted in
      let by_sort = sort_and_validate_leaves-sorted leaves sorted accepted in
      let (top, climbed, _) =
        climb-eq-root (length sorted) sorted c.sizes c.inhabited (omega arith) in
      let same : top ≡ root = ground (arith, climbed, rest) in
      let (t, h, l, n) =
        climb-tree P (length sorted) (map leaf sorted) top
          (subst (All Is32) (sym (map-leaf sorted)) c.sizes)
          (ap (climb (length sorted)) (map-leaf sorted) ∙ climbed) (forest_messages-leaf P sorted)
          (subst (λ x. All P (node_messages (length sorted) x)) (sym (map-leaf sorted))
            (subst (λ x. All P (node_messages (length x) x)) (sym by_sort) hashed)) in
      let all_leaves = l ∙ forest_leaves-leaf sorted in
      (
        t,
        h ∙ same,
        subst (λ x. Permᴰ x leaves) (sym all_leaves) c.perm,
        subst (All Is32) (sym all_leaves) c.sizes,
        n,
      )

  All-IsDigestIn :
      (ys messages : List Bytes)
      → ((m : Bytes) → Memᴰ m messages → Memᴰ m ys)
      → All IsLeafMessage messages
      → All (IsDigestIn ys) (map H.digest messages)
  All-IsDigestIn ys [] f k = tt
  All-IsDigestIn ys (m ∷ messages) f (is_leaf, k) = (
    (m, f m (Memᴰ.head refl), is_leaf, refl),
    All-IsDigestIn ys messages (λ x i. f x (Memᴰ.tail i)) k,
  )

  -- If the verifier accepts the digest of a leaf message against the root over the digests of leaf
  -- messages, then the digest is among them, or SHA-256 has collided: on the leaf message or a message of
  -- the walk along the proof, and on one of the leaf messages or a message of the tree's nodes.
  pub verify_merkle_proof_sound :
      (messages : List Bytes) (root m : Bytes) (proof : List MerkleProofStep)
      → All IsLeafMessage messages
      → IsLeafMessage m
      → compute_merkle_root (map H.digest messages) ≡ ok root
      → verify_merkle_proof (H.digest m) proof root ≡ ok true
      → Memᴰ (H.digest m) (map H.digest messages)
        ⊎ Collision
            (m ∷ walk_messages (H.digest m) proof)
            (messages ++ tree_messages (map H.digest messages))
  unfolding verify_merkle_proof
  verify_merkle_proof_sound messages root m proof are_leaves is_leaf computed e =
      let h = H.digest m in
      let leaves = map H.digest messages in
      let xs = m ∷ walk_messages h proof in
      let ys = messages ++ tree_messages leaves in
      let (t, hashed, perm, sizes, nodes) =
        compute_merkle_root-tree (λ x. Memᴰ x ys) leaves root computed
          (mems (tree_messages leaves) ys (λ x k. Memᴰ-right messages k)) in
      let size : Is32 h = H.length-digest m in
      let (steps, leads) = verify_steps_sound h proof root size (ground arith) in
      let twice = reverse-reverse proof in
      let back : walk_back h (reverse proof) ≡ hash_of t =
        sym (walk-reverse h (reverse proof)) ∙ ap (walk h) twice ∙ leads ∙ sym hashed in
      let walked =
        walk_messages-reverse (λ x. Memᴰ x xs) h (reverse proof)
          (subst (λ p. All (λ x. Memᴰ x xs) (walk_messages h p)) (sym twice)
            (mems (walk_messages h proof) xs (λ x k. Memᴰ.tail k))) in
      let digests =
        All-IsDigestIn ys messages (λ x k. Memᴰ-left (tree_messages leaves) k) are_leaves in
      elim (descend xs ys t h (reverse proof) sizes
        (Permᴰ-All (IsDigestIn ys) (Permᴰ-symm perm) digests) nodes
        (m, Memᴰ.head refl, is_leaf, refl) walked size (All-reverse proof steps) back) [
          | inl found ↦ inl (Permᴰ-mem perm found)
          | inr c ↦ inr c
        ]

  verify_steps-ne-err :
      (h : Bytes) (proof : List MerkleProofStep) (root : Bytes) (e : Error)
      → Is32 h
      → verify_steps h proof root ≢ err e
  unfolding verify_steps
  verify_steps-ne-err h [] root e k = cc
  verify_steps-ne-err h (s ∷ proof) root e k = ground (
    arith,
    hash_internal_node-eq s.sibling h,
    hash_internal_node-eq h s.sibling,
    node-Is32 s.sibling h,
    node-Is32 h s.sibling,
    verify_steps-ne-err (node s.sibling h) proof root e,
    verify_steps-ne-err (node h s.sibling) proof root e,
  )

  -- The verifier never throws, whatever the lengths and positions in the proof.
  pub verify_merkle_proof-ne-err :
      (h : Bytes) (proof : List MerkleProofStep) (root : Bytes) (e : Error)
      → verify_merkle_proof h proof root ≢ err e
  unfolding verify_merkle_proof
  verify_merkle_proof-ne-err h proof root e = ground (arith, verify_steps-ne-err h proof root e)

  hash_of-IsByte : (t : Tree) → All (All IsByte) (leaves_of t) → All IsByte (hash_of t)
  unfolding node
  hash_of-IsByte (leaf h) k = k.0
  hash_of-IsByte (branch a b) k = H.digest-IsByte (0x01 ∷ hash_of a ++ hash_of b)

  mems_any : (xs : List Bytes) → All (λ x. Unit {0}) xs
  mems_any [] = tt
  mems_any (x ∷ xs) = (tt, mems_any xs)

  -- The root of leaves that are bytes is bytes.
  pub compute_merkle_root-IsByte :
      (leaves : List Bytes) (root : Bytes)
      → compute_merkle_root leaves ≡ ok root
      → All (All IsByte) leaves
      → All IsByte root
  compute_merkle_root-IsByte leaves root e k =
      let any = mems_any (tree_messages leaves) in
      let (t, hashed, perm, _, _) = compute_merkle_root-tree (λ x. Unit {0}) leaves root e any in
      subst (All IsByte) hashed (hash_of-IsByte t (Permᴰ-All (All IsByte) (Permᴰ-symm perm) k))
