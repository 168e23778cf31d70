-- ===== src/Crypto/LeafHash/Binding.antt =====
-- The leaf hash binds its inputs.
use mathlib.Core.List.{Memᴰ}
use proveria.Common.{
  ℕ, ◌<◌, ◌^◌, ◌≡◌, ◌⊎◌, ◌↔◌, inl, inr, refl, sym, ◌∙◌, true, subst, List, [], ◌∷◌, arith, length,
  Bool-cases, ok, >>=-eq-ok,
}
use proveria.Bytes.{Bytes, Text, uint32be, bytes_equal}
use proveria.Bytes.Order.{same_text_iff, bytes_equal_iff}
use proveria.Bytes.Prefix.{field, append_injective, field_injective}
use proveria.Bytes.Utf8.{utf8}
use proveria.Crypto.{Sha256, Collision}
use proveria.Crypto.LeafHash.{
  LeafInput, is_leaf_type, length_prefix, build_leaf_hash_input, compute_leaf_hash, file_sha256_v1,
  shingle_sha256_v1, component_sha256_v1,
}

-- The bytes of a valid input, and what its guards have established.
pub record IsInput (input : LeafInput) (bytes : Bytes) : Type 0 where
  pub layout :
      bytes
      ≡ 0x00
        ∷ field (utf8 input.protocol_version) (
            field
              (utf8 input.leaf_type)
              (field (utf8 input.hash_algorithm) (field input.canonical_payload_hash [])))
  pub protocol_fits : length (utf8 input.protocol_version) < 2 ^ 32
  pub leaf_type_fits : length (utf8 input.leaf_type) < 2 ^ 32
  pub algorithm_fits : length (utf8 input.hash_algorithm) < 2 ^ 32
  pub payload_size : length input.canonical_payload_hash ≡ 32
  pub known : is_leaf_type input.leaf_type ≡ true

length_prefix_lem : (n : ℕ) {p : Bytes} → length_prefix n ≡ ok p → (p ≡ uint32be n) × (n < 2 ^ 32)
unfolding length_prefix
length_prefix_lem n h = ground arith

pub build_leaf_hash_input-IsInput :
    (input : LeafInput) (bytes : Bytes)
    → build_leaf_hash_input input ≡ ok bytes
    → IsInput input bytes
unfolding build_leaf_hash_input
build_leaf_hash_input-IsInput input bytes h = record {
  layout = ground arith;
  protocol_fits = ground arith;
  leaf_type_fits = ground arith;
  algorithm_fits = ground arith;
  payload_size = ground arith;
  known = ground arith;
}

-- What two leaf inputs with the same bytes agree on: all, up to the encoding of the free texts.
pub record SameInput (a b : LeafInput) : Type 0 where
  pub protocol : utf8 a.protocol_version ≡ utf8 b.protocol_version
  pub leaf_type : a.leaf_type ≡ b.leaf_type
  pub algorithm : utf8 a.hash_algorithm ≡ utf8 b.hash_algorithm
  pub payload : a.canonical_payload_hash ≡ b.canonical_payload_hash

pub is_leaf_type-cases :
    (s : Text)
    → is_leaf_type s ≡ true
    → (s ≡ file_sha256_v1) ⊎ ((s ≡ shingle_sha256_v1) ⊎ (s ≡ component_sha256_v1))
unfolding is_leaf_type
is_leaf_type-cases s h = ground (
  arith,
  same_text_iff file_sha256_v1 s,
  same_text_iff shingle_sha256_v1 s,
  same_text_iff component_sha256_v1 s,
)

-- The leaf types are ASCII texts.
utf8-leaf_type : (s : Text) → is_leaf_type s ≡ true → utf8 s ≡ s
unfolding utf8
utf8-leaf_type s h = elim (is_leaf_type-cases s h) [
  | inl e ↦ rw e
  | inr (inl e) ↦ rw e
  | inr (inr e) ↦ rw e
]

-- One array of bytes comes from one input.
pub build_leaf_hash_input_injective :
    (a b : LeafInput) (bytes : Bytes)
    → build_leaf_hash_input a ≡ ok bytes
    → build_leaf_hash_input b ≡ ok bytes
    → SameInput a b
build_leaf_hash_input_injective a b bytes ha hb =
    let x = build_leaf_hash_input-IsInput a bytes ha in
    let y = build_leaf_hash_input-IsInput b bytes hb in
    let (_, whole) = append_injective (0 ∷ []) (0 ∷ []) _ _ refl (sym x.layout ∙ y.layout) in
    let (protocol, rest) = field_injective _ _ _ _ x.protocol_fits y.protocol_fits whole in
    let (leaf_type, rest₁) = field_injective _ _ _ _ x.leaf_type_fits y.leaf_type_fits rest in
    let (algorithm, rest₂) = field_injective _ _ _ _ x.algorithm_fits y.algorithm_fits rest₁ in
    let (payload, _) =
      field_injective _ _ _ _ (small _ x.payload_size) (small _ y.payload_size) rest₂ in
    record {
      protocol = protocol;
      leaf_type = sym (utf8-leaf_type _ x.known) ∙ leaf_type ∙ utf8-leaf_type _ y.known;
      algorithm = algorithm;
      payload = payload;
    }
  where
    small : (p : Bytes) → length p ≡ 32 → length p < 2 ^ 32
    small p e = omega arith

-- What the code asks of an input: a payload hash of 32 bytes, a leaf type of the registry, and
-- encoded texts whose lengths fit 32 bits.
pub record IsAcceptable (input : LeafInput) : Type 0 where
  pub payload_size : length input.canonical_payload_hash ≡ 32
  pub known : is_leaf_type input.leaf_type ≡ true
  pub protocol_fits : length (utf8 input.protocol_version) < 2 ^ 32
  pub leaf_type_fits : length (utf8 input.leaf_type) < 2 ^ 32
  pub algorithm_fits : length (utf8 input.hash_algorithm) < 2 ^ 32

-- The documented layout of the bytes.
abbrev pub layout : LeafInput → Bytes
layout input =
    0x00
    ∷ field (utf8 input.protocol_version) (
        field (utf8 input.leaf_type)
          (field (utf8 input.hash_algorithm) (field input.canonical_payload_hash [])))

pub build_leaf_hash_input-eq-layout :
    (input : LeafInput) → IsAcceptable input → build_leaf_hash_input input ≡ ok (layout input)
unfolding build_leaf_hash_input
build_leaf_hash_input-eq-layout input h = ground arith

-- The bytes are built exactly for the acceptable inputs, and have the documented layout.
pub build_leaf_hash_input-eq-ok_iff :
    (input : LeafInput) (bytes : Bytes)
    → (build_leaf_hash_input input ≡ ok bytes) ↔ (IsAcceptable input × (bytes ≡ layout input))
build_leaf_hash_input-eq-ok_iff input bytes = (
  λ h.
      let x = build_leaf_hash_input-IsInput input bytes h in
      (
        record {
          payload_size = x.payload_size;
          known = x.known;
          protocol_fits = x.protocol_fits;
          leaf_type_fits = x.leaf_type_fits;
          algorithm_fits = x.algorithm_fits;
        },
        x.layout,
      ),
  λ h. rw h.1 (build_leaf_hash_input-eq-layout input h.0),
)

pub Memᴰ-one : {m x : Bytes} → Memᴰ m (x ∷ []) → m ≡ x
Memᴰ-one (Memᴰ.head e) = e
Memᴰ-one (Memᴰ.tail k) = elim k [ ]

module _ ⦃H : Sha256⦄ where
  -- Two digests that agree: of one message, or here is a collision.
  pub digest_binding :
      (x y : Bytes) → H.digest x ≡ H.digest y → (x ≡ y) ⊎ Collision (x ∷ []) (y ∷ [])
  digest_binding x y e = elim (Bool-cases (bytes_equal x y)) [
    | inl same ↦ inl ((bytes_equal_iff x y).0 same)
    | inr other ↦ inr (record {
      first = x;
      second = y;
      hashed = Memᴰ.head refl;
      hashed_too = Memᴰ.head refl;
      differ = λ p. cc (other, (bytes_equal_iff x y).1 p);
      collide = e;
    })
  ]

  pub compute_leaf_hash-eq-ok :
      (input : LeafInput) (h : Bytes)
      → compute_leaf_hash input ≡ ok h
      → (bytes : Bytes) × (build_leaf_hash_input input ≡ ok bytes) × (H.digest bytes ≡ h)
  unfolding compute_leaf_hash
  compute_leaf_hash-eq-ok input h e =
      let (bytes, built, same) = >>=-eq-ok (build_leaf_hash_input input) _ e in (bytes, built, cc)

  -- Collisions among messages are collisions among more messages.
  pub Collision-widen :
      {xs xs' ys ys' : List Bytes}
      → ((m : Bytes) → Memᴰ m xs → Memᴰ m xs')
      → ((m : Bytes) → Memᴰ m ys → Memᴰ m ys')
      → Collision xs ys
      → Collision xs' ys'
  Collision-widen f g c = record {
    first = c.first;
    second = c.second;
    hashed = f c.first c.hashed;
    hashed_too = g c.second c.hashed_too;
    differ = c.differ;
    collide = c.collide;
  }

  -- Two digests that agree, of messages that stand in the lists.
  pub collide_within :
      (xs ys : List Bytes) (x y : Bytes)
      → Memᴰ x xs
      → Memᴰ y ys
      → H.digest x ≡ H.digest y
      → (x ≡ y) ⊎ Collision xs ys
  collide_within xs ys x y mx my e = elim (digest_binding x y e) [
    | inl same ↦ inl same
    | inr c ↦ inr (
        Collision-widen (λ m k. subst (λ z. Memᴰ z xs) (sym (Memᴰ-one k)) mx)
          (λ m k. subst (λ z. Memᴰ z ys) (sym (Memᴰ-one k)) my) c)
  ]

  -- A leaf hash belongs to one protocol version, leaf type, algorithm and payload, or SHA-256 has
  -- collided on the two documented layouts.
  pub compute_leaf_hash_binding :
      (a b : LeafInput) (h : Bytes)
      → compute_leaf_hash a ≡ ok h
      → compute_leaf_hash b ≡ ok h
      → SameInput a b ⊎ Collision (layout a ∷ []) (layout b ∷ [])
  compute_leaf_hash_binding a b h ha hb =
      let (x, bx, dx) = compute_leaf_hash-eq-ok a h ha in
      let (y, by, dy) = compute_leaf_hash-eq-ok b h hb in
      elim (digest_binding x y (dx ∙ sym dy)) [
        | inl same ↦ inl (build_leaf_hash_input_injective a b x bx (rw same by))
        | inr c ↦ inr (
            subst (λ p. Collision (p ∷ []) (layout b ∷ []))
              (build_leaf_hash_input-IsInput a x bx).layout
              (subst (λ p. Collision (x ∷ []) (p ∷ []))
                (build_leaf_hash_input-IsInput b y by).layout c))
      ]
