-- ===== src/Shingling/Payload.antt =====
-- packages/shingling/src/hash.ts: the payload of a shingle, its hash and its leaf hash. `lengthPrefix`
-- and `concat` are the code of packages/crypto-core/src/leaf-hash.ts again.
use mathlib.Core.List.{Memᴰ}
use proveria.Common.{
  ap, sym, ◌∙◌, ℕ, ◌<◌, ◌^◌, ◌≡◌, ◌⊎◌, inl, inr, refl, List, [], ◌∷◌, ◌++◌, arith, length, codes,
  Result, ok, ◌>>=◌, >>=-eq-ok, ◌==◌, if◌then◌else◌,
}
use proveria.Bytes.{Bytes, Text}
use proveria.Bytes.Prefix.{field, append_injective, field_injective}
use proveria.Bytes.Utf8.{utf8}
use proveria.Crypto.{Error, Sha256, Collision}
use proveria.Crypto.LeafHash.{
  LeafInput, shingle_sha256_v1, length_prefix, concat, compute_leaf_hash,
}
use proveria.Crypto.LeafHash.Binding.{
  layout, Collision-widen, Memᴰ-one, digest_binding, compute_leaf_hash_binding,
}
use proveria.Shingling.{
  ShinglePreset, SourceExtractionMethod, preset_name, method_name, shingling_v1,
}

pub record ShingleHashContext : Type 0 where
  pub preset : ShinglePreset
  pub source_extraction_method : SourceExtractionMethod

unfoldable pub tagged : Text → Result Error (List Bytes)
unfolding length_prefix
tagged s = do prefix ← length_prefix (length (utf8 s)); ok (prefix ∷ utf8 s ∷ [])

unfoldable pub build_shingle_payload : Text → ShingleHashContext → Result Error Bytes
unfolding tagged concat
build_shingle_payload window_text ctx = do
  shingling_version ← tagged shingling_v1
  preset ← tagged (preset_name ctx.preset)
  normalization_version ← tagged shingling_v1
  tokenizer_version ← tagged shingling_v1
  method ← tagged (method_name ctx.source_extraction_method)
  window ← tagged window_text
  ok (
      concat (
        (0x02 ∷ []) ∷ shingling_version
        ++ preset
        ++ normalization_version
        ++ tokenizer_version
        ++ method
        ++ window))

module _ ⦃H : Sha256⦄ where
  unfoldable pub compute_shingle_payload_hash : Text → ShingleHashContext → Result Error Bytes
  unfolding build_shingle_payload
  compute_shingle_payload_hash window_text ctx = do
    payload ← build_shingle_payload window_text ctx
    ok (H.digest payload)

  abbrev pub shingle_leaf_input : Bytes → LeafInput
  shingle_leaf_input payload_hash = record {
    protocol_version = codes "1.0";
    leaf_type = shingle_sha256_v1;
    hash_algorithm = codes "sha256";
    canonical_payload_hash = payload_hash;
  }

  unfoldable pub compute_shingle_leaf_hash : Text → ShingleHashContext → Result Error Bytes
  unfolding compute_shingle_payload_hash
  compute_shingle_leaf_hash window_text ctx = do
    payload_hash ← compute_shingle_payload_hash window_text ctx
    compute_leaf_hash (shingle_leaf_input payload_hash)

-- The documented layout of the payload.
abbrev pub payload_layout : Text → ShingleHashContext → Bytes
payload_layout window_text ctx =
    0x02
    ∷ field (utf8 shingling_v1) (
        field (utf8 (preset_name ctx.preset)) (
          field (utf8 shingling_v1) (
            field (utf8 shingling_v1) (
              field (utf8 (method_name ctx.source_extraction_method))
                (field (utf8 window_text) [])))))

name_lengths : (p : ShinglePreset) → length (utf8 (preset_name p)) < 2 ^ 32
unfolding utf8
name_lengths ShinglePreset.standard = omega arith
name_lengths ShinglePreset.broad = omega arith
name_lengths ShinglePreset.sensitive = omega arith

method_lengths : (m : SourceExtractionMethod) → length (utf8 (method_name m)) < 2 ^ 32
unfolding utf8
method_lengths SourceExtractionMethod.plain_text = omega arith
method_lengths SourceExtractionMethod.pdf_text_layer = omega arith
method_lengths SourceExtractionMethod.ocr_tesseract = omega arith

version_length : length (utf8 shingling_v1) < 2 ^ 32
unfolding utf8
version_length = omega arith

-- A window text whose encoding has a 32-bit length has the documented payload.
pub build_shingle_payload-eq-layout :
    (window_text : Text) (ctx : ShingleHashContext)
    → length (utf8 window_text) < 2 ^ 32
    → build_shingle_payload window_text ctx ≡ ok (payload_layout window_text ctx)
unfolding build_shingle_payload
build_shingle_payload-eq-layout window_text ctx h =
    ground
      (arith, version_length, name_lengths ctx.preset, method_lengths ctx.source_extraction_method)

build_shingle_payload-fits :
    (window_text : Text) (ctx : ShingleHashContext) {payload : Bytes}
    → build_shingle_payload window_text ctx ≡ ok payload
    → length (utf8 window_text) < 2 ^ 32
unfolding build_shingle_payload
build_shingle_payload-fits window_text ctx e = ground arith

-- The names differ in their lengths, from which they can be read back.
preset_of : ℕ → ShinglePreset
preset_of n =
    if n == 8
    then ShinglePreset.standard
    else if n == 5
    then ShinglePreset.broad
    else ShinglePreset.sensitive

method_of : ℕ → SourceExtractionMethod
method_of n =
    if n == 13
    then SourceExtractionMethod.plain_text
    else if n == 17
    then SourceExtractionMethod.pdf_text_layer
    else SourceExtractionMethod.ocr_tesseract

preset_of-preset_name : (p : ShinglePreset) → preset_of (length (utf8 (preset_name p))) ≡ p
unfolding utf8 preset_of
preset_of-preset_name ShinglePreset.standard = refl
preset_of-preset_name ShinglePreset.broad = refl
preset_of-preset_name ShinglePreset.sensitive = refl

method_of-method_name : (m : SourceExtractionMethod) → method_of (length (utf8 (method_name m))) ≡ m
unfolding utf8 method_of
method_of-method_name SourceExtractionMethod.plain_text = refl
method_of-method_name SourceExtractionMethod.pdf_text_layer = refl
method_of-method_name SourceExtractionMethod.ocr_tesseract = refl

preset_name_injective : (p q : ShinglePreset) → utf8 (preset_name p) ≡ utf8 (preset_name q) → p ≡ q
preset_name_injective p q e = cc (preset_of-preset_name p, preset_of-preset_name q, e)

method_name_injective :
    (m n : SourceExtractionMethod) → utf8 (method_name m) ≡ utf8 (method_name n) → m ≡ n
method_name_injective m n e = cc (method_of-method_name m, method_of-method_name n, e)

-- What two shingles with one hash agree on: all, up to the encoding of the window text.
pub record SameShingle (s t : Text) (a b : ShingleHashContext) : Type 0 where
  pub text : utf8 s ≡ utf8 t
  pub preset : a.preset ≡ b.preset
  pub method : a.source_extraction_method ≡ b.source_extraction_method

payload_layout_injective :
    (s t : Text) (a b : ShingleHashContext)
    → length (utf8 s) < 2 ^ 32
    → length (utf8 t) < 2 ^ 32
    → payload_layout s a ≡ payload_layout t b
    → SameShingle s t a b
payload_layout_injective s t a b hs ht e =
    let v = version_length in
    let (_, r₀) = append_injective (2 ∷ []) (2 ∷ []) _ _ refl e in
    let (_, r₁) = field_injective _ _ _ _ v v r₀ in
    let (preset, r₂) = field_injective _ _ _ _ (name_lengths a.preset) (name_lengths b.preset) r₁ in
    let (_, r₃) = field_injective _ _ _ _ v v r₂ in
    let (_, r₄) = field_injective _ _ _ _ v v r₃ in
    let (method, r₅) =
      field_injective _ _ _ _ (method_lengths a.source_extraction_method)
        (method_lengths b.source_extraction_method) r₄ in
    let (text, _) = field_injective _ _ _ _ hs ht r₅ in
    record {
      text = text;
      preset = preset_name_injective _ _ preset;
      method = method_name_injective _ _ method;
    }

module _ ⦃H : Sha256⦄ where
  compute_shingle_payload_hash-eq-ok :
      (s : Text) (a : ShingleHashContext) (h : Bytes)
      → compute_shingle_payload_hash s a ≡ ok h
      → (length (utf8 s) < 2 ^ 32) × (H.digest (payload_layout s a) ≡ h)
  unfolding compute_shingle_payload_hash
  compute_shingle_payload_hash-eq-ok s a h e =
      let (payload, built, same) = >>=-eq-ok (build_shingle_payload s a) _ e in
      let fits = build_shingle_payload-fits s a built in
      (fits, cc (build_shingle_payload-eq-layout s a fits, built, same))

  -- What is hashed for a shingle: its payload, and the leaf input over the payload's digest.
  abbrev pub shingle_messages : Text → ShingleHashContext → List Bytes
  shingle_messages s a =
      payload_layout s a ∷ layout (shingle_leaf_input (H.digest (payload_layout s a))) ∷ []

  -- A leaf hash of a shingle belongs to one preset, one method of extraction and one encoded window
  -- text, or SHA-256 has collided on what is hashed for the two.
  pub compute_shingle_leaf_hash_binding :
      (s t : Text) (a b : ShingleHashContext) (h : Bytes)
      → compute_shingle_leaf_hash s a ≡ ok h
      → compute_shingle_leaf_hash t b ≡ ok h
      → SameShingle s t a b ⊎ Collision (shingle_messages s a) (shingle_messages t b)
  unfolding compute_shingle_leaf_hash
  compute_shingle_leaf_hash_binding s t a b h ha hb =
      let (x, hx, leaf_x) = >>=-eq-ok (compute_shingle_payload_hash s a) _ ha in
      let (y, hy, leaf_y) = >>=-eq-ok (compute_shingle_payload_hash t b) _ hb in
      let (fits_s, same_x) = compute_shingle_payload_hash-eq-ok s a x hx in
      let (fits_t, same_y) = compute_shingle_payload_hash-eq-ok t b y hy in
      elim (compute_leaf_hash_binding (shingle_leaf_input x) (shingle_leaf_input y) h leaf_x
        leaf_y) [
          | inl same ↦
              elim (digest_binding (payload_layout s a) (payload_layout t b)
                (cc (same_x, same_y, same.payload))) [
                  | inl e ↦ inl (payload_layout_injective s t a b fits_s fits_t e)
                  | inr c ↦ inr (
                      Collision-widen (λ m k. Memᴰ.head (Memᴰ-one k))
                        (λ m k. Memᴰ.head (Memᴰ-one k)) c)
                ]
          | inr c ↦ inr (
              Collision-widen
                (λ m k.
                  Memᴰ.tail
                    (Memᴰ.head (Memᴰ-one k ∙ ap (λ d. layout (shingle_leaf_input d)) (sym same_x))))
                (λ m k.
                  Memᴰ.tail
                    (Memᴰ.head (Memᴰ-one k ∙ ap (λ d. layout (shingle_leaf_input d)) (sym same_y))))
                c)
        ]
