-- ===== src/Crypto/Merkle/Levels.antt =====
-- The levels of the tree: `buildNextLevel` and the loop of `computeMerkleRoot` on 32-byte hashes.
use proveria.Common.{
  ℕ, zero, suc, ◌+◌, ◌-◌, ◌/◌, ◌%◌, ◌<◌, ◌≤◌, ◌≡◌, refl, List, [], ◌∷◌, ◌++◌, arith, length, All,
  lt→ltb, ◌∙◌, ok,
}
use proveria.Bytes.{Bytes}
use proveria.Crypto.{Sha256}
use proveria.Crypto.Merkle.{at, hash_internal_node, build_next_level, climb}

abbrev pub Is32 : Bytes → Type 0
Is32 h = length h ≡ 32

module _ ⦃H : Sha256⦄ where
  -- The node over two hashes, and the next level, where nothing is thrown.
  unfoldable pub node : Bytes → Bytes → Bytes
  node l r = H.digest (0x01 ∷ l ++ r)

  unfoldable pub next_level : List Bytes → List Bytes
  next_level [] = []
  next_level (l ∷ []) = l ∷ []
  next_level (l ∷ r ∷ rest) = node l r ∷ next_level rest

  pub node-Is32 : (l r : Bytes) → Is32 (node l r)
  unfolding node
  node-Is32 l r = H.length-digest (0x01 ∷ l ++ r)

  pub hash_internal_node-eq :
      (l r : Bytes) → Is32 l → Is32 r → hash_internal_node l r ≡ ok (node l r)
  unfolding hash_internal_node node
  hash_internal_node-eq l r hl hr = ground arith

  pub build_next_level-eq :
      (level : List Bytes) → All Is32 level → build_next_level level ≡ ok (next_level level)
  unfolding build_next_level next_level
  build_next_level-eq [] h = refl
  build_next_level-eq (l ∷ []) h = refl
  build_next_level-eq (l ∷ r ∷ rest) (hl, (hr, h)) =
      rw (hash_internal_node-eq l r hl hr) (rw (build_next_level-eq rest h))

  pub next_level-Is32 : (level : List Bytes) → All Is32 level → All Is32 (next_level level)
  unfolding next_level
  next_level-Is32 [] h = tt
  next_level-Is32 (l ∷ []) h = h
  next_level-Is32 (l ∷ r ∷ rest) (hl, (hr, h)) = (node-Is32 l r, next_level-Is32 rest h)

  pub length-next_level : (level : List Bytes) → length (next_level level) ≡ (length level + 1) / 2
  unfolding next_level
  length-next_level [] = refl
  length-next_level (l ∷ []) = refl
  length-next_level (l ∷ r ∷ rest) = omega (arith, length-next_level rest)

  -- What stands over a position of a level: the node over it and its sibling, or itself where it
  -- is the last of an odd number.
  pub at-next_level_left :
      (level : List Bytes) (i : ℕ)
      → i % 2 ≡ 0
      → i + 1 < length level
      → at (next_level level) (i / 2) ≡ node (at level i) (at level (i + 1))
  unfolding next_level
  at-next_level_left [] i e lt = elim lt [ ]
  at-next_level_left (l ∷ []) i e lt = absurd (omega arith)
  at-next_level_left (l ∷ r ∷ rest) zero e lt = refl
  at-next_level_left (l ∷ r ∷ rest) (suc zero) e lt = absurd (omega arith)
  at-next_level_left (l ∷ r ∷ rest) (suc (suc i)) e lt =
      let half : suc (suc i) / 2 ≡ suc (i / 2) = omega arith in
      let right : suc (suc i) + 1 ≡ suc (suc (i + 1)) = omega arith in
      rw (half, right) (at-next_level_left rest i (omega arith) (omega arith))

  pub at-next_level_right :
      (level : List Bytes) (i : ℕ)
      → i % 2 ≡ 1
      → i < length level
      → at (next_level level) (i / 2) ≡ node (at level (i - 1)) (at level i)
  unfolding next_level
  at-next_level_right [] i e lt = elim lt [ ]
  at-next_level_right (l ∷ []) i e lt = absurd (omega arith)
  at-next_level_right (l ∷ r ∷ rest) zero e lt = absurd (omega arith)
  at-next_level_right (l ∷ r ∷ rest) (suc zero) e lt = refl
  at-next_level_right (l ∷ r ∷ rest) (suc (suc zero)) e lt = absurd (omega arith)
  at-next_level_right (l ∷ r ∷ rest) (suc (suc (suc i))) e lt =
      let half : suc (suc (suc i)) / 2 ≡ suc (suc i / 2) = omega arith in
      let left : suc (suc (suc i)) - 1 ≡ suc (suc (suc i - 1)) = omega arith in
      rw (half, left) (at-next_level_right rest (suc i) (omega arith) (omega arith))

  pub at-next_level_last :
      (level : List Bytes) (i : ℕ)
      → length level ≡ i + 1
      → i % 2 ≡ 0
      → at (next_level level) (i / 2) ≡ at level i
  unfolding next_level
  at-next_level_last [] i n e = absurd (omega arith)
  at-next_level_last (l ∷ []) zero n e = refl
  at-next_level_last (l ∷ []) (suc i) n e = absurd (omega arith)
  at-next_level_last (l ∷ r ∷ rest) zero n e = absurd (omega arith)
  at-next_level_last (l ∷ r ∷ rest) (suc zero) n e = absurd (omega arith)
  at-next_level_last (l ∷ r ∷ rest) (suc (suc i)) n e =
      let half : suc (suc i) / 2 ≡ suc (i / 2) = omega arith in
      rw half (at-next_level_last rest i (omega arith) (omega arith))

  -- One round of the loop, and its end.
  pub climb_step :
      (fuel : ℕ) (level : List Bytes)
      → All Is32 level
      → 1 < length level
      → climb (suc fuel) level ≡ climb fuel (next_level level)
  unfolding climb
  climb_step fuel level h lt = rw (lt→ltb 1 (length level) lt) (rw (build_next_level-eq level h))

  pub climb_stop : (fuel : ℕ) (root : Bytes) → climb fuel (root ∷ []) ≡ ok (root ∷ [])
  unfolding climb
  climb_stop zero root = refl
  climb_stop (suc fuel) root = refl

  -- As many rounds as there are nodes are enough: the loop ends at one hash.
  pub climb-eq-root :
      (fuel : ℕ) (level : List Bytes)
      → All Is32 level
      → 0 < length level
      → length level ≤ fuel
      → (root : Bytes) × (climb fuel level ≡ ok (root ∷ [])) × Is32 root
  climb-eq-root zero level h pos le = absurd (omega arith)
  climb-eq-root (suc fuel) [] h pos le = absurd (omega arith)
  climb-eq-root (suc fuel) (l ∷ []) h pos le = (l, climb_stop (suc fuel) l, h.0)
  climb-eq-root (suc fuel) (l ∷ r ∷ rest) h pos le =
      let level = l ∷ r ∷ rest in
      let (root, e, k) =
        climb-eq-root fuel (next_level level) (next_level-Is32 level h)
          (omega (arith, length-next_level level)) (omega (arith, length-next_level level)) in
      (root, climb_step fuel level h (omega arith) ∙ e, k)
