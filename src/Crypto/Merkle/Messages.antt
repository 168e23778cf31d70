-- ===== src/Crypto/Merkle/Messages.antt =====
-- The messages that are hashed along a proof and over a set of leaves.
use mathlib.Core.List.{reverse, reverse-cons, append_assoc, append-nil}
use proveria.Common.Sort.{sort}
use proveria.Common.{
  ℕ, zero, suc, ◌≡◌, ◌∙◌, sym, refl, ap, subst, List, [], ◌∷◌, ◌++◌, map, arith, length, All,
  All-append, All-left, All-right, ok,
}
use proveria.Bytes.{Bytes, not_after}
use proveria.Crypto.{Sha256}
use proveria.Crypto.Merkle.{left, right, other, MerkleProofStep, climb}
use proveria.Crypto.Merkle.Levels.{Is32, node, next_level, next_level-Is32, climb_step, climb_stop}
use proveria.Crypto.Merkle.Completeness.{combine, walk, walk-append}

-- The input of the hash over two children.
abbrev pub node_message : Bytes → Bytes → Bytes
node_message l r = 0x01 ∷ l ++ r

abbrev pub step_message : Bytes → MerkleProofStep → Bytes
step_message h s = elim s.position [
  | left ↦ node_message s.sibling h
  | right ↦ node_message h s.sibling
  | other t ↦ []
]

abbrev pub level_messages : List Bytes → List Bytes
level_messages [] = []
level_messages (l ∷ []) = []
level_messages (l ∷ r ∷ rest) = node_message l r ∷ level_messages rest

pub data Tree : Type 0 where
  leaf : Bytes → Tree
  branch : Tree → Tree → Tree

abbrev pub leaves_of : Tree → List Bytes
leaves_of (leaf h) = h ∷ []
leaves_of (branch a b) = leaves_of a ++ leaves_of b

abbrev pub forest_leaves : List Tree → List Bytes
forest_leaves [] = []
forest_leaves (t ∷ ts) = leaves_of t ++ forest_leaves ts

module _ ⦃H : Sha256⦄ where
  -- What a walk along a proof hashes.
  abbrev pub walk_messages : Bytes → List MerkleProofStep → List Bytes
  walk_messages h [] = []
  walk_messages h (s ∷ proof) = step_message h s ∷ walk_messages (combine h s) proof

  -- What the levels over a level hash.
  abbrev pub node_messages : ℕ → List Bytes → List Bytes
  node_messages zero level = []
  node_messages (suc fuel) level = level_messages level ++ node_messages fuel (next_level level)

  -- What the nodes over a set of leaves hash.
  abbrev pub tree_messages : List Bytes → List Bytes
  tree_messages leaves = node_messages (length (sort not_after leaves)) (sort not_after leaves)

  abbrev pub hash_of : Tree → Bytes
  hash_of (leaf h) = h
  hash_of (branch a b) = node (hash_of a) (hash_of b)

  abbrev pub messages_of : Tree → List Bytes
  messages_of (leaf h) = []
  messages_of (branch a b) = node_message (hash_of a) (hash_of b) ∷ (messages_of a ++ messages_of b)

  abbrev pub forest_messages : List Tree → List Bytes
  forest_messages [] = []
  forest_messages (t ∷ ts) = messages_of t ++ forest_messages ts

  abbrev pub pair_up : List Tree → List Tree
  pair_up [] = []
  pair_up (a ∷ []) = a ∷ []
  pair_up (a ∷ b ∷ ts) = branch a b ∷ pair_up ts

  map-pair_up : (ts : List Tree) → map hash_of (pair_up ts) ≡ next_level (map hash_of ts)
  unfolding next_level
  map-pair_up [] = refl
  map-pair_up (a ∷ []) = refl
  map-pair_up (a ∷ b ∷ ts) = ap (λ r. node (hash_of a) (hash_of b) ∷ r) (map-pair_up ts)

  forest_leaves-pair_up : (ts : List Tree) → forest_leaves (pair_up ts) ≡ forest_leaves ts
  forest_leaves-pair_up [] = refl
  forest_leaves-pair_up (a ∷ []) = refl
  forest_leaves-pair_up (a ∷ b ∷ ts) =
      rw append_assoc (ap (λ r. leaves_of a ++ (leaves_of b ++ r)) (forest_leaves-pair_up ts))

  -- A level's trees have hashed what the trees below it and the level itself have.
  forest_messages-pair_up :
      (P : Bytes → Type 0) (ts : List Tree)
      → All P (forest_messages ts)
      → All P (level_messages (map hash_of ts))
      → All P (forest_messages (pair_up ts))
  forest_messages-pair_up P [] f l = tt
  forest_messages-pair_up P (a ∷ []) f l = f
  forest_messages-pair_up P (a ∷ b ∷ ts) f l =
      let below = All-right P (messages_of a) (messages_of b ++ forest_messages ts) f in
      (
        l.0,
        All-append P (messages_of a ++ messages_of b) (forest_messages (pair_up ts))
            (All-append P (messages_of a) (messages_of b)
              (All-left P (messages_of a) (messages_of b ++ forest_messages ts) f)
              (All-left P (messages_of b) (forest_messages ts) below))
            (forest_messages-pair_up P ts (All-right P (messages_of b) (forest_messages ts) below)
              l.1),
      )

  -- The hash at which the loop ends is that of a tree over the same leaves, and the tree has hashed
  -- what the loop has.
  pub climb-tree :
      (P : Bytes → Type 0) (fuel : ℕ) (ts : List Tree) (root : Bytes)
      → All Is32 (map hash_of ts)
      → climb fuel (map hash_of ts) ≡ ok (root ∷ [])
      → All P (forest_messages ts)
      → All P (node_messages fuel (map hash_of ts))
      → (t : Tree) × (hash_of t ≡ root) × (leaves_of t ≡ forest_leaves ts) × All P (messages_of t)
  unfolding climb
  climb-tree P zero [] root k e f n = cc
  climb-tree P (suc fuel) [] root k e f n = cc
  climb-tree P fuel (a ∷ []) root k e f n =
      (a, cc (climb_stop fuel (hash_of a)), sym (append-nil _), All-left P (messages_of a) [] f)
  climb-tree P zero (a ∷ b ∷ ts) root k e f n = cc
  climb-tree P (suc fuel) (a ∷ b ∷ ts) root k e f n =
      let forest = a ∷ b ∷ ts in
      let level = map hash_of forest in
      let step = climb_step fuel level k (omega arith) in
      let here = All-left P (level_messages level) (node_messages fuel (next_level level)) n in
      let above = All-right P (level_messages level) (node_messages fuel (next_level level)) n in
      let (t, h, l, m) =
        climb-tree P fuel (pair_up forest) root
          (subst (All Is32) (sym (map-pair_up forest)) (next_level-Is32 level k))
          (ap (climb fuel) (map-pair_up forest) ∙ (sym step ∙ e))
          (forest_messages-pair_up P forest f here)
          (subst (λ x. All P (node_messages fuel x)) (sym (map-pair_up forest)) above) in
      (t, h, l ∙ forest_leaves-pair_up forest, m)

  -- The walk, its last step first.
  abbrev pub walk_back : Bytes → List MerkleProofStep → Bytes
  walk_back h [] = h
  walk_back h (s ∷ proof) = combine (walk_back h proof) s

  pub walk-reverse :
      (h : Bytes) (proof : List MerkleProofStep) → walk h (reverse proof) ≡ walk_back h proof
  walk-reverse h [] = refl
  walk-reverse h (s ∷ proof) =
      ap (walk h) (reverse-cons s proof)
      ∙ walk-append h (reverse proof) (s ∷ [])
      ∙ ap (λ x. combine x s) (walk-reverse h proof)

  abbrev pub back_messages : Bytes → List MerkleProofStep → List Bytes
  back_messages h [] = []
  back_messages h (s ∷ proof) = step_message (walk_back h proof) s ∷ back_messages h proof

  walk_messages-append :
      (h : Bytes) (p q : List MerkleProofStep)
      → walk_messages h (p ++ q) ≡ walk_messages h p ++ walk_messages (walk h p) q
  walk_messages-append h [] q = refl
  walk_messages-append h (s ∷ p) q =
      ap (λ r. step_message h s ∷ r) (walk_messages-append (combine h s) p q)

  pub walk_messages-reverse :
      (P : Bytes → Type 0) (h : Bytes) (proof : List MerkleProofStep)
      → All P (walk_messages h (reverse proof))
      → All P (back_messages h proof)
  walk_messages-reverse P h [] k = tt
  walk_messages-reverse P h (s ∷ proof) k =
      let split =
        ap (walk_messages h) (reverse-cons s proof)
        ∙ walk_messages-append h (reverse proof) (s ∷ []) in
      let parts = subst (All P) split k in
      let last =
        All-right P (walk_messages h (reverse proof))
          (walk_messages (walk h (reverse proof)) (s ∷ [])) parts in
      (
        subst (λ x. P (step_message x s)) (walk-reverse h proof) last.0,
        walk_messages-reverse P h proof (
            All-left P (walk_messages h (reverse proof))
              (walk_messages (walk h (reverse proof)) (s ∷ [])) parts),
      )
