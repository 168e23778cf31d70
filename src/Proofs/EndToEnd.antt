-- ===== src/Proofs/EndToEnd.antt =====
-- What a verified match says: the manifest behind the root has an entry for the submitted hash.
use mathlib.Core.List.{Memᴰ}
use proveria.Common.{
  ◌≡◌, ◌⊎◌, ◌∙◌, refl, sym, ap, ap₂, subst, Bool, true, Option, none, some, List, [], ◌∷◌, ◌++◌,
  map, arith, All, codes, inl, inr, ok, err, Option-cases, Result-cases,
}
use proveria.Bytes.{Bytes, Text, IsByte}
use proveria.Bytes.Order.{same_text_iff}
use proveria.Bytes.Hex.{to_hex, from_hex, from_hex-to_hex}
use proveria.Json.{Json, string, object, Fields}
use proveria.Json.Access.{get}
use proveria.Crypto.{Sha256, Collision}
use proveria.Crypto.LeafHash.{LeafInput, compute_leaf_hash}
use proveria.Crypto.LeafHash.Binding.{
  SameInput, layout, Collision-widen, Memᴰ-one, build_leaf_hash_input-IsInput,
  compute_leaf_hash-eq-ok, compute_leaf_hash_binding,
}
use proveria.Crypto.Merkle.{compute_merkle_root, verify_merkle_proof}
use proveria.Crypto.Merkle.Descent.{IsLeafMessage, Memᴰ-left}
use proveria.Crypto.Merkle.Soundness.{verify_merkle_proof_sound, compute_merkle_root-IsByte}
use proveria.Crypto.Merkle.Messages.{walk_messages, tree_messages}
use proveria.Manifest.Entries.{IsEntry}
use proveria.Manifest.Validate.{
  entry_hash, entry_hashes, entry_input, hex_text, leaf_list, validate_manifest,
}
use proveria.Manifest.Sound.{IsValidManifest, validate_manifest_sound}
use proveria.Proofs.{ResultType, match_result, no_match_result, MatchPayload, ResultPackage}
use proveria.Proofs.Verify.{
  decode_step, package_input, verify_payload, verify_for, verify_match_proof,
}

Memᴰ-map : {A B : Type 0} (f : A → B) {x : A} {xs : List A} → Memᴰ x xs → Memᴰ (f x) (map f xs)
Memᴰ-map f (Memᴰ.head e) = Memᴰ.head (ap f e)
Memᴰ-map f (Memᴰ.tail m) = Memᴰ.tail (Memᴰ-map f m)

-- A text, where there is one.
abbrev pub text_of : Json → Text
text_of (string s) = s
text_of v = []

-- What an entry of a leaf set commits to, in the documented layout.
abbrev pub entry_message : Json → Bytes
entry_message (object fields) = layout (
    entry_input (text_of (get fields (codes "leaf_type")))
      (text_of (get fields (codes "canonical_payload_hash"))))
entry_message v = []

module _ ⦃H : Sha256⦄ where
  -- What is hashed for a manifest with these entries.
  abbrev pub manifest_messages : List Json → List Bytes
  manifest_messages leaves =
      map entry_message leaves ++ tree_messages (map H.digest (map entry_message leaves))

  -- What is hashed for the match of a package.
  abbrev pub package_messages : ResultPackage → MatchPayload → List Bytes
  package_messages pkg found =
      layout (package_input pkg found)
      ∷ walk_messages (H.digest (layout (package_input pkg found)))
          (map decode_step found.proof_path)

  leaf_digest :
      (input : LeafInput) (h : Bytes)
      → compute_leaf_hash input ≡ ok h
      → (H.digest (layout input) ≡ h) × All IsByte h
  leaf_digest input h e =
      let (bytes, built, digest) = compute_leaf_hash-eq-ok input h e in
      let x = build_leaf_hash_input-IsInput input bytes built in
      (sym (ap H.digest x.layout) ∙ digest, subst (All IsByte) digest (H.digest-IsByte bytes))

  abbrev raw_hashes : (leaves : List Json) → All IsEntry leaves → List Bytes
  raw_hashes [] es = []
  raw_hashes (leaf ∷ rest) es = es.0.leaf_hash ∷ raw_hashes rest es.1

  entry_hash-entry : (leaf : Json) (e : IsEntry leaf) → entry_hash leaf ≡ some (to_hex e.leaf_hash)
  unfolding entry_hash hex_text
  entry_hash-entry leaf e = rw e.is_object (rw e.has_hash (rw e.hash_hex refl))

  -- The texts that the loop has collected are the leaf hashes of the entries.
  from_hex-entry_hashes :
      (leaves : List Json) (es : All IsEntry leaves) (hashes : List Text)
      → entry_hashes leaves ≡ some hashes
      → map from_hex hashes ≡ raw_hashes leaves es
  unfolding entry_hashes
  from_hex-entry_hashes [] es hashes e = cc
  from_hex-entry_hashes (leaf ∷ rest) es hashes e =
      let here = entry_hash-entry leaf es.0 in
      let h = es.0.leaf_hash in
      let (_, bytes) = leaf_digest _ h es.0.recomputes in
      elim (Option-cases (entry_hashes rest)) [
        | inl none_later ↦ absurd (ground arith)
        | inr (later, found) ↦
            let same : hashes ≡ to_hex h ∷ later = ground arith in
            ap (map from_hex) same
            ∙ ap₂ (λ x xs. x ∷ xs) (from_hex-to_hex h bytes)
                (from_hex-entry_hashes rest es.1 later found)
      ]

  entry_message-layout :
      (leaf : Json) (e : IsEntry leaf)
      → entry_message leaf ≡ layout (entry_input e.leaf_type e.payload)
  entry_message-layout leaf e =
      ap entry_message e.is_object
      ∙ ap₂ (λ a b. layout (entry_input (text_of a) (text_of b))) e.has_type e.has_payload

  raw_hashes-digests :
      (leaves : List Json) (es : All IsEntry leaves)
      → map H.digest (map entry_message leaves) ≡ raw_hashes leaves es
  raw_hashes-digests [] es = refl
  raw_hashes-digests (leaf ∷ rest) es =
      ap₂ (λ x xs. x ∷ xs)
        (ap H.digest (entry_message-layout leaf es.0) ∙ (leaf_digest _ _ es.0.recomputes).0)
        (raw_hashes-digests rest es.1)

  entry_message-IsLeafMessage : (leaf : Json) → IsEntry leaf → IsLeafMessage (entry_message leaf)
  entry_message-IsLeafMessage leaf e = (_, entry_message-layout leaf e)

  entry_messages-IsLeafMessage :
      (leaves : List Json) → All IsEntry leaves → All IsLeafMessage (map entry_message leaves)
  entry_messages-IsLeafMessage [] es = tt
  entry_messages-IsLeafMessage (leaf ∷ rest) es =
      (entry_message-IsLeafMessage leaf es.0, entry_messages-IsLeafMessage rest es.1)

  raw_hashes-bytes :
      (leaves : List Json) (es : All IsEntry leaves) → All (All IsByte) (raw_hashes leaves es)
  raw_hashes-bytes [] es = tt
  raw_hashes-bytes (leaf ∷ rest) es =
      ((leaf_digest _ _ es.0.recomputes).1, raw_hashes-bytes rest es.1)

  entry_of_hash :
      (leaves : List Json) (es : All IsEntry leaves) (h : Bytes)
      → Memᴰ h (raw_hashes leaves es)
      → (leaf : Json) × Memᴰ leaf leaves × (e : IsEntry leaf) × (e.leaf_hash ≡ h)
  entry_of_hash [] es h m = elim m [ ]
  entry_of_hash (leaf ∷ rest) es h (Memᴰ.head e) = (leaf, Memᴰ.head refl, es.0, sym e)
  entry_of_hash (leaf ∷ rest) es h (Memᴰ.tail m) =
      let (found, member, entry, same) = entry_of_hash rest es.1 h m in
      (found, Memᴰ.tail member, entry, same)

-- An entry of a leaf set for a payload hash and a leaf type.
pub record IsCommitted (leaves : List Json) (leaf_type : Text) (payload : Bytes) : Type 0 where
  pub fields : Fields
  pub payload_text : Text
  pub member : Memᴰ (object fields) leaves
  pub has_type : get fields (codes "leaf_type") ≡ string leaf_type
  pub has_payload : get fields (codes "canonical_payload_hash") ≡ string payload_text
  pub same_payload : from_hex payload_text ≡ payload

-- What the verifier has checked of a package.
pub record IsVerified ⦃H : Sha256⦄ (pkg : ResultPackage) (found : MatchPayload) : Type 0 where
  pub is_match : pkg.result_type ≡ match_result
  pub carries : pkg.match ≡ some found
  pub leaf_hash : Bytes
  pub recomputed : compute_leaf_hash (package_input pkg found) ≡ ok leaf_hash
  pub names_leaf : found.leaf_id ≡ to_hex leaf_hash
  pub leads_to_root :
      verify_merkle_proof
        (from_hex found.leaf_id)
        (map decode_step found.proof_path)
        (from_hex pkg.attestation.merkle_root)
      ≡ ok true

module _ ⦃H : Sha256⦄ where
  verify_payload-true :
      (pkg : ResultPackage) (found : MatchPayload)
      → verify_payload pkg found ≡ ok true
      → (h : Bytes) × (compute_leaf_hash (package_input pkg found) ≡ ok h)
        × (found.leaf_id ≡ to_hex h)
        × (verify_merkle_proof
              (from_hex found.leaf_id)
              (map decode_step found.proof_path)
              (from_hex pkg.attestation.merkle_root)
            ≡ ok true)
  unfolding verify_payload
  verify_payload-true pkg found e =
      elim (Result-cases (compute_leaf_hash (package_input pkg found))) [
        | err (x, failed) ↦ absurd (ground arith)
        | ok (h, computed) ↦
            (h, computed, ground (arith, same_text_iff (to_hex h) found.leaf_id), ground arith)
      ]

  verify_for-true :
      (t : ResultType) (o : Option MatchPayload) (pkg : ResultPackage)
      → verify_for t o pkg ≡ ok true
      → (t ≡ match_result)
        × (found : MatchPayload) × (o ≡ some found)
        × (verify_payload pkg found ≡ ok true)
  unfolding verify_for
  verify_for-true match_result none pkg e = cc
  verify_for-true match_result (some found) pkg e = (refl, found, refl, e)
  verify_for-true no_match_result o pkg e = cc

  verify_match_proof-IsVerified :
      (pkg : ResultPackage)
      → verify_match_proof pkg ≡ ok true
      → (found : MatchPayload) × IsVerified pkg found
  unfolding verify_match_proof
  verify_match_proof-IsVerified pkg e =
      let (is_match, found, carries, checked) = verify_for-true pkg.result_type pkg.match pkg e in
      let (h, computed, names, leads) = verify_payload-true pkg found checked in
      (
        found,
        record {
          is_match = is_match;
          carries = carries;
          leaf_hash = h;
          recomputed = computed;
          names_leaf = names;
          leads_to_root = leads;
        },
      )

  entry-IsCommitted :
      (leaves : List Json) (leaf : Json) (entry : IsEntry leaf) (input : LeafInput)
      → Memᴰ leaf leaves
      → SameInput input (entry_input entry.leaf_type entry.payload)
      → IsCommitted leaves input.leaf_type input.canonical_payload_hash
  entry-IsCommitted leaves leaf entry input member same = record {
    fields = entry.fields;
    payload_text = entry.payload;
    member = subst (λ l. Memᴰ l leaves) entry.is_object member;
    has_type = entry.has_type ∙ ap string (sym same.leaf_type);
    has_payload = entry.has_payload;
    same_payload = sym same.payload;
  }

  -- The entry behind a hash that is among the entries' hashes.
  member-IsCommitted :
      (leaves : List Json) (es : All IsEntry leaves) (pkg : ResultPackage) (found : MatchPayload)
      (h : Bytes)
      → compute_leaf_hash (package_input pkg found) ≡ ok h
      → Memᴰ h (raw_hashes leaves es)
      → IsCommitted leaves found.leaf_type (from_hex pkg.submitted_hash)
        ⊎ Collision (package_messages pkg found) (manifest_messages leaves)
  member-IsCommitted leaves es pkg found h computed member =
      let input = package_input pkg found in
      let (leaf, among, entry, same) = entry_of_hash leaves es h member in
      elim (compute_leaf_hash_binding input (entry_input entry.leaf_type entry.payload) h computed
        (entry.recomputes ∙ ap ok same)) [
          | inl one ↦ inl (entry-IsCommitted leaves leaf entry input among one)
          | inr c ↦ inr (
              Collision-widen (λ m k. Memᴰ.head (Memᴰ-one k))
                (λ m k. Memᴰ-left (tree_messages (map H.digest (map entry_message leaves))) (
                  subst (λ x. Memᴰ x (map entry_message leaves))
                    (entry_message-layout leaf entry ∙ sym (Memᴰ-one k))
                    (Memᴰ-map entry_message among)))
                c)
        ]

  package-IsCommitted :
      (m : Fields) (valid : IsValidManifest m) (pkg : ResultPackage)
      → pkg.attestation.merkle_root ≡ to_hex valid.root
      → verify_match_proof pkg ≡ ok true
      → (found : MatchPayload) × (pkg.match ≡ some found)
        × (IsCommitted valid.leaves found.leaf_type (from_hex pkg.submitted_hash)
            ⊎ Collision (package_messages pkg found) (manifest_messages valid.leaves))
  package-IsCommitted m valid pkg same_root e =
      let (found, v) = verify_match_proof-IsVerified pkg e in
      let input = package_input pkg found in
      let es = valid.checked.entries in
      let raw = raw_hashes valid.leaves es in
      let messages = map entry_message valid.leaves in
      let hashes = raw_hashes-digests valid.leaves es in
      let computed : compute_merkle_root raw ≡ ok valid.root =
        sym (
          ap compute_merkle_root
            (from_hex-entry_hashes valid.leaves es valid.checked.hashes valid.checked.found))
        ∙ valid.computed in
      let (digest, bytes) = leaf_digest input v.leaf_hash v.recomputed in
      let leaf_bytes = ap from_hex v.names_leaf ∙ from_hex-to_hex v.leaf_hash bytes ∙ sym digest in
      let root_bytes =
        ap from_hex same_root
        ∙ from_hex-to_hex valid.root (
            compute_merkle_root-IsByte raw valid.root computed
              (raw_hashes-bytes valid.leaves es)) in
      let proof = map decode_step found.proof_path in
      let leads : verify_merkle_proof (H.digest (layout input)) proof valid.root ≡ ok true =
        sym (ap₂ (λ h r. verify_merkle_proof h proof r) leaf_bytes root_bytes) ∙ v.leads_to_root in
      (
        found,
        v.carries,
        elim (verify_merkle_proof_sound messages valid.root (layout input) proof
            (entry_messages-IsLeafMessage valid.leaves es) (_, refl)
            (ap compute_merkle_root hashes ∙ computed) leads) [
              | inr c ↦ inr c
              | inl member ↦ member-IsCommitted valid.leaves es pkg found v.leaf_hash v.recomputed (
                  subst (λ h. Memᴰ h raw) digest
                    (subst (λ hs. Memᴰ (H.digest (layout input)) hs) hashes member))
            ],
      )

  -- If validation finds no issue in a manifest, a package names the manifest's root, and the verifier
  -- accepts the package, then the package carries a match, and the manifest's leaf set has an entry
  -- with the match's leaf type and the submitted hash as its payload, or SHA-256 has collided on a message that is
  -- hashed for the match and one that is hashed for the manifest.
  pub verify_match_proof_sound :
      (parses : Text → Bool) (m : Fields) (pkg : ResultPackage)
      → validate_manifest parses (object m) ≡ ok []
      → get m (codes "merkle_root") ≡ string pkg.attestation.merkle_root
      → verify_match_proof pkg ≡ ok true
      → (found : MatchPayload) × (pkg.match ≡ some found)
        × (IsCommitted
              (leaf_list (get m (codes "leaf_set")))
              found.leaf_type
              (from_hex pkg.submitted_hash)
            ⊎ Collision
                (package_messages pkg found)
                (manifest_messages (leaf_list (get m (codes "leaf_set")))))
  verify_match_proof_sound parses m pkg valid names_root e =
      let (n, same, v) = validate_manifest_sound parses (object m) valid in
      let kept : n ≡ m = cc same in
      let root =
        subst (λ f. get f (codes "merkle_root") ≡ string pkg.attestation.merkle_root) (sym kept)
          names_root in
      let root_text : pkg.attestation.merkle_root ≡ to_hex v.root = cc (root, v.declared) in
      let (found, carries, shown) = package-IsCommitted n v pkg root_text e in
      (
        found,
        carries,
        subst
            (λ ls.
              IsCommitted ls found.leaf_type (from_hex pkg.submitted_hash)
              ⊎ Collision (package_messages pkg found) (manifest_messages ls))
            (sym v.leaf_set ∙ ap (λ f. leaf_list (get f (codes "leaf_set"))) kept) shown,
      )
