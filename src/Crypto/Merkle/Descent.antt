-- ===== src/Crypto/Merkle/Descent.antt =====
-- A walk that leads to the hash of a tree starts at one of the tree's leaves, or SHA-256 has collided.
use mathlib.Core.List.{Memᴰ}
use proveria.Common.{
  ◌≡◌, ◌≢◌, ◌⊎◌, ◌∙◌, sym, refl, List, [], ◌∷◌, ◌++◌, arith, All, All-left, All-right, inl, inr,
}
use proveria.Bytes.{Bytes}
use proveria.Bytes.Prefix.{append_injective}
use proveria.Crypto.{Sha256, Collision}
use proveria.Crypto.LeafHash.Binding.{collide_within}
use proveria.Crypto.Merkle.{Position, left, right, other, MerkleProofStep}
use proveria.Crypto.Merkle.Levels.{Is32, node, node-Is32}
use proveria.Crypto.Merkle.Completeness.{IsStep, IsKnown, combine}
use proveria.Crypto.Merkle.Messages.{
  node_message, step_message, Tree, leaf, branch, leaves_of, hash_of, messages_of, walk_back,
  back_messages,
}

-- What begins with the first byte of the leaves.
abbrev pub IsLeafMessage : Bytes → Type 0
IsLeafMessage x = (m : Bytes) × (x ≡ 0x00 ∷ m)

pub Memᴰ-left : {h : Bytes} {xs : List Bytes} (ys : List Bytes) → Memᴰ h xs → Memᴰ h (xs ++ ys)
Memᴰ-left ys (Memᴰ.head e) = Memᴰ.head e
Memᴰ-left ys (Memᴰ.tail m) = Memᴰ.tail (Memᴰ-left ys m)

pub Memᴰ-right : {h : Bytes} (xs : List Bytes) {ys : List Bytes} → Memᴰ h ys → Memᴰ h (xs ++ ys)
Memᴰ-right [] m = m
Memᴰ-right (x ∷ xs) m = Memᴰ.tail (Memᴰ-right xs m)

module _ ⦃H : Sha256⦄ where
  -- A hash is the digest of a leaf message of the list.
  abbrev pub IsDigestIn : List Bytes → Bytes → Type 0
  IsDigestIn zs h = (m : Bytes) × Memᴰ m zs × IsLeafMessage m × (h ≡ H.digest m)

  walk_back-Is32 :
      (h : Bytes) (proof : List MerkleProofStep)
      → Is32 h
      → All IsStep proof
      → Is32 (walk_back h proof)
  walk_back-Is32 h [] k w = k
  walk_back-Is32 h (s ∷ proof) k (ws, w) = ground (
    arith,
    walk_back-Is32 h proof k w,
    node-Is32 s.sibling (walk_back h proof),
    node-Is32 (walk_back h proof) s.sibling,
  )

  hash_of-Is32 : (t : Tree) → All Is32 (leaves_of t) → Is32 (hash_of t)
  hash_of-Is32 (leaf h) k = k.0
  hash_of-Is32 (branch a b) k = node-Is32 (hash_of a) (hash_of b)

  node-digest : (l r : Bytes) → node l r ≡ H.digest (node_message l r)
  unfolding node
  node-digest l r = refl

  -- A step hashes its message.
  combine-digest :
      (h : Bytes) (s : MerkleProofStep)
      → IsKnown s.position
      → combine h s ≡ H.digest (step_message h s)
  combine-digest h s k = step s.position k
    where
      step :
          (p : Position)
          → IsKnown p
          → combine h (record { sibling = s.sibling; position = p })
            ≡ H.digest (step_message h (record { sibling = s.sibling; position = p }))
      step left k = node-digest s.sibling h
      step right k = node-digest h s.sibling
      step (other t) k = absurd k

  -- No message of a step is a leaf message.
  step_message-ne-leaf :
      (h : Bytes) (s : MerkleProofStep) (m : Bytes)
      → IsKnown s.position
      → step_message h s ≢ 0x00 ∷ m
  step_message-ne-leaf h s m k = apart s.position k
    where
      apart :
          (p : Position)
          → IsKnown p
          → step_message h (record { sibling = s.sibling; position = p }) ≢ 0x00 ∷ m
      apart left k e = absurd (cc e)
      apart right k e = absurd (cc e)
      apart (other t) k e = absurd k

  -- A step whose message is that of two children starts at one of them.
  children :
      (h : Bytes) (s : MerkleProofStep) (l r : Bytes)
      → Is32 s.sibling
      → Is32 h
      → Is32 l
      → IsKnown s.position
      → step_message h s ≡ node_message l r
      → (h ≡ l) ⊎ (h ≡ r)
  children h s l r ks kh kl kp e = from s.position kp e
    where
      from :
          (p : Position)
          → IsKnown p
          → step_message h (record { sibling = s.sibling; position = p }) ≡ node_message l r
          → (h ≡ l) ⊎ (h ≡ r)
      from left k e = inr (append_injective s.sibling l h r (ks ∙ sym kl) (cc e)).1
      from right k e = inl (append_injective h l s.sibling r (kh ∙ sym kl) (cc e)).0
      from (other t) k e = absurd k

  module _ (xs ys : List Bytes) where
    pub descend :
        (t : Tree) (h : Bytes) (proof : List MerkleProofStep)
        → All Is32 (leaves_of t)
        → All (IsDigestIn ys) (leaves_of t)
        → All (λ m. Memᴰ m ys) (messages_of t)
        → IsDigestIn xs h
        → All (λ m. Memᴰ m xs) (back_messages h proof)
        → Is32 h
        → All IsStep proof
        → walk_back h proof ≡ hash_of t
        → Memᴰ h (leaves_of t) ⊎ Collision xs ys
    descend (leaf x) h [] k d n dh b kh w e = inl (Memᴰ.head e)
    descend (leaf x) h (s ∷ proof) k ((m, mem, (m', is_leaf), same), _) n dh b kh (ws, w) e =
        let up = walk_back h proof in
        elim (collide_within xs ys (step_message up s) m b.0 mem
          (sym (combine-digest up s ws.1) ∙ e ∙ same)) [
            | inl p ↦ absurd (step_message-ne-leaf up s m' ws.1 (p ∙ is_leaf))
            | inr c ↦ inr c
          ]
    descend (branch l r) h [] k d n (m, mem, (m', is_leaf), same) b kh w e =
        elim (collide_within xs ys m (node_message (hash_of l) (hash_of r)) mem n.0
          (sym same ∙ e ∙ node-digest (hash_of l) (hash_of r))) [
            | inl p ↦ absurd (cc (p, is_leaf))
            | inr c ↦ inr c
          ]
    descend (branch l r) h (s ∷ proof) k d n dh b kh (ws, w) e =
        let up = walk_back h proof in
        let kl = All-left Is32 (leaves_of l) (leaves_of r) k in
        elim (collide_within xs ys (step_message up s) (node_message (hash_of l) (hash_of r)) b.0
          n.0 (sym (combine-digest up s ws.1) ∙ e ∙ node-digest (hash_of l) (hash_of r))) [
            | inr c ↦ inr c
            | inl p ↦
                elim (children up s (hash_of l) (hash_of r) ws.0 (walk_back-Is32 h proof kh w)
                  (hash_of-Is32 l kl) ws.1 p) [
                    | inl at_left ↦
                        elim (descend l h proof kl
                          (All-left (IsDigestIn ys) (leaves_of l) (leaves_of r) d)
                          (All-left (λ m. Memᴰ m ys) (messages_of l) (messages_of r) n.1) dh b.1 kh
                          w at_left) [
                            | inl found ↦ inl (Memᴰ-left (leaves_of r) found)
                            | inr c ↦ inr c
                          ]
                    | inr at_right ↦
                        elim (descend r h proof (All-right Is32 (leaves_of l) (leaves_of r) k)
                          (All-right (IsDigestIn ys) (leaves_of l) (leaves_of r) d)
                          (All-right (λ m. Memᴰ m ys) (messages_of l) (messages_of r) n.1) dh b.1 kh
                          w at_right) [
                            | inl found ↦ inl (Memᴰ-right (leaves_of l) found)
                            | inr c ↦ inr c
                          ]
                  ]
          ]
