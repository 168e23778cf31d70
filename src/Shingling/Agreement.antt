-- ===== src/Shingling/Agreement.antt =====
-- packages/shingling/src/browser.ts against packages/shingling/src/hash.ts: the browser lists the hashes
-- that node computes, each of them once.
use mathlib.Core.List.{Memᴰ}
use mathlib.Core.List.Memᴰ
use proveria.Common.{
  ℕ, ◌+◌, ◌<◌, ◌^◌, ◌≡◌, ◌≢◌, ◌∙◌, ◌↔◌, inl, inr, refl, sym, ap, subst, true, false, List, [], ◌∷◌,
  map, arith, length, All, All-map_of, All-mem, Bool-cases, ok, ◌>>=◌,
}
use proveria.Bytes.{Bytes, Text, same_text}
use proveria.Bytes.Order.{same_text_iff}
use proveria.Bytes.Hex.{to_hex}
use proveria.Bytes.Utf8.{utf8}
use proveria.Crypto.{Sha256}
use proveria.Crypto.LeafHash.{includes}
use proveria.Shingling.{Shingle, presets}
use proveria.Shingling.Normal.{Unicode, normalize_for_shingling}
use proveria.Shingling.Tokens.{tokenize_normalized}
use proveria.Shingling.Payload.{
  ShingleHashContext, payload_layout, compute_shingle_payload_hash, build_shingle_payload-eq-layout,
  build_shingle_payload,
}
use proveria.Shingling.Windows.{all_windows, number, generate_shingles-eq-number}
use proveria.Shingling.Browser.{
  BrowserShingleHash, BrowserShinglingResult, drop_seen, hash_all,
  compute_browser_shingle_payload_hash, build_browser_shingle_payload,
  shingle_plain_text_in_browser, token_count,
}

includes_mem : (seen : List Text) (h : Text) → includes seen h ≡ true → Memᴰ h seen
unfolding includes
includes_mem [] h e = cc
includes_mem (x ∷ seen) h e = elim (Bool-cases (same_text x h)) [
  | inl same ↦ Memᴰ.head (sym ((same_text_iff x h).0 same))
  | inr other ↦ Memᴰ.tail (includes_mem seen h (ground arith))
]

mem_includes : (seen : List Text) (h : Text) → Memᴰ h seen → includes seen h ≡ true
unfolding includes
mem_includes [] h m = elim m [ ]
mem_includes (x ∷ seen) h (Memᴰ.head e) = ground (arith, same_text_iff x h, sym e)
mem_includes (x ∷ seen) h (Memᴰ.tail m) = ground (arith, mem_includes seen h m)

abbrev pub hashes : List BrowserShingleHash → List Text
hashes shingles = map (λ s. BrowserShingleHash.canonical_payload_hash s) shingles

abbrev pub Distinct : List Text → Type 0
Distinct [] = Unit
Distinct (h ∷ rest) = All (λ k. h ≢ k) rest × Distinct rest

includes-cons :
    (k : Text) (seen : List Text) (h : Text)
    → includes (k ∷ seen) h ≡ false
    → (includes seen h ≡ false) × (k ≢ h)
unfolding includes
includes-cons k seen h e = (ground arith, λ p. ground (arith, same_text_iff k h))

cons-includes :
    (k : Text) (seen : List Text) (h : Text)
    → includes seen h ≡ false
    → k ≢ h
    → includes (k ∷ seen) h ≡ false
unfolding includes
cons-includes k seen h e d = elim (Bool-cases (same_text k h)) [
  | inl same ↦ absurd (d ((same_text_iff k h).0 same))
  | inr other ↦ rw other e
]

module _ (seen : List Text) (x : BrowserShingleHash) (xs : List BrowserShingleHash) where
  drop_seen-old :
      includes seen x.canonical_payload_hash ≡ true → drop_seen seen (x ∷ xs) ≡ drop_seen seen xs
  unfolding drop_seen
  drop_seen-old e = rw (e, drop_seen) refl

  drop_seen-fresh :
      includes seen x.canonical_payload_hash ≡ false
      → drop_seen seen (x ∷ xs) ≡ x ∷ drop_seen (x.canonical_payload_hash ∷ seen) xs
  unfolding drop_seen
  drop_seen-fresh e = rw (e, drop_seen) refl

IsNew : List Text → List BrowserShingleHash → Type 0
IsNew seen kept = All (λ h. includes seen h ≡ false) (hashes kept) × Distinct (hashes kept)

drop_seen-IsNew : (seen : List Text) (xs : List BrowserShingleHash) → IsNew seen (drop_seen seen xs)
unfolding IsNew
drop_seen-IsNew seen [] = unfold drop_seen in (tt, tt)
drop_seen-IsNew seen (x ∷ xs) =
    let k = x.canonical_payload_hash in
    elim (Bool-cases (includes seen k)) [
      | inl e ↦ subst (IsNew seen) (sym (drop_seen-old seen x xs e)) (drop_seen-IsNew seen xs)
      | inr e ↦
          let (new, distinct) = drop_seen-IsNew (k ∷ seen) xs in
          let kept = hashes (drop_seen (k ∷ seen) xs) in
          subst (IsNew seen) (sym (drop_seen-fresh seen x xs e)) (
            (e, All-map_of _ _ (λ h n. (includes-cons k seen h n).0) kept new),
            (All-map_of _ _ (λ h n. (includes-cons k seen h n).1) kept new, distinct),
          )
    ]

drop_seen-Distinct : (xs : List BrowserShingleHash) → Distinct (hashes (drop_seen [] xs))
unfolding IsNew
drop_seen-Distinct xs = (drop_seen-IsNew [] xs).1

drop_seen-subset :
    (seen : List Text) (xs : List BrowserShingleHash) {h : Text}
    → Memᴰ h (hashes (drop_seen seen xs))
    → Memᴰ h (hashes xs)
drop_seen-subset seen [] m = unfold drop_seen in m
drop_seen-subset seen (x ∷ xs) {h} m =
    let k = x.canonical_payload_hash in
    elim (Bool-cases (includes seen k)) [
      | inl e ↦
          let m' = subst (λ r. Memᴰ h (hashes r)) (drop_seen-old seen x xs e) m in
          Memᴰ.tail (drop_seen-subset seen xs m')
      | inr e ↦
          elim (Memᴰ.cases_cons (subst (λ r. Memᴰ h (hashes r)) (drop_seen-fresh seen x xs e) m)) [
            | inl p ↦ Memᴰ.head p
            | inr t ↦ Memᴰ.tail (drop_seen-subset (k ∷ seen) xs t)
          ]
    ]

drop_seen-keeps :
    (seen : List Text) (xs : List BrowserShingleHash) (h : Text)
    → includes seen h ≡ false
    → Memᴰ h (hashes xs)
    → Memᴰ h (hashes (drop_seen seen xs))
drop_seen-keeps seen [] h new m = elim m [ ]
drop_seen-keeps seen (x ∷ xs) h new m =
    let k = x.canonical_payload_hash in
    elim (Bool-cases (includes seen k)) [
      | inl e ↦
          subst (λ r. Memᴰ h (hashes r)) (sym (drop_seen-old seen x xs e))
            (elim (Memᴰ.cases_cons m) [
              | inl p ↦ absurd (cc (p, e, new))
              | inr t ↦ drop_seen-keeps seen xs h new t
            ])
      | inr e ↦
          subst (λ r. Memᴰ h (hashes r)) (sym (drop_seen-fresh seen x xs e))
            (elim (Bool-cases (same_text k h)) [
              | inl same ↦ Memᴰ.head (sym ((same_text_iff k h).0 same))
              | inr other ↦ elim (Memᴰ.cases_cons m) [
                | inl p ↦ Memᴰ.head p
                | inr t ↦ Memᴰ.tail (
                    drop_seen-keeps (k ∷ seen) xs h
                      (cons-includes k seen h new (λ p. cc ((same_text_iff k h).1 p, other))) t)
              ]
            ])
    ]

module _ ⦃H : Sha256⦄ (ctx : ShingleHashContext) where
  -- The hash of a window text in node, as hexadecimal.
  node_hash : Text → Text
  node_hash text = to_hex (H.digest (payload_layout text ctx))

  -- The two builders of the payload are one function.
  payloads_agree :
      (text : Text) → build_browser_shingle_payload text ctx ≡ build_shingle_payload text ctx
  unfolding build_browser_shingle_payload build_shingle_payload
  payloads_agree text = refl

  node_bind :
      (text : Text)
      → compute_shingle_payload_hash text ctx
        ≡ (build_shingle_payload text ctx >>= λ p. ok (H.digest p))
  unfolding compute_shingle_payload_hash
  node_bind text = refl

  browser_bind :
      (text : Text)
      → compute_browser_shingle_payload_hash text ctx
        ≡ (build_browser_shingle_payload text ctx >>= λ p. ok (to_hex (H.digest p)))
  unfolding compute_browser_shingle_payload_hash
  browser_bind text = refl

  module _ (text : Text) (fits : length (utf8 text) < 2 ^ 32) where
    compute_shingle_payload_hash_lem :
        compute_shingle_payload_hash text ctx ≡ ok (H.digest (payload_layout text ctx))
    compute_shingle_payload_hash_lem =
        node_bind text
        ∙ ap (λ b. b >>= λ p. ok (H.digest p)) (build_shingle_payload-eq-layout text ctx fits)

    compute_browser_shingle_payload_hash_lem :
        compute_browser_shingle_payload_hash text ctx ≡ ok (node_hash text)
    unfolding node_hash
    compute_browser_shingle_payload_hash_lem =
        browser_bind text
        ∙ ap (λ b. b >>= λ p. ok (to_hex (H.digest p)))
            (payloads_agree text ∙ build_shingle_payload-eq-layout text ctx fits)

  hash_all_step :
      (shingle : Shingle) (rest : List Shingle) (hash : Text) (hashed : List BrowserShingleHash)
      → compute_browser_shingle_payload_hash shingle.text ctx ≡ ok hash
      → hash_all ctx rest ≡ ok hashed
      → hash_all ctx (shingle ∷ rest)
        ≡ ok
            (record { source_index = shingle.source_index; canonical_payload_hash = hash } ∷ hashed)
  unfolding hash_all
  hash_all_step shingle rest hash hashed e k = rw (e, hash_all) (rw k refl)

  hash_all-number :
      (index : ℕ) (texts : List Text)
      → All (λ t. length (utf8 t) < 2 ^ 32) texts
      → (out : List BrowserShingleHash) × (hash_all ctx (number index texts) ≡ ok out)
        × (hashes out ≡ map node_hash texts)
  unfolding number
  hash_all-number index [] h = ([], unfold hash_all in refl, refl)
  hash_all-number index (t ∷ texts) h =
      let (out, e, same) = hash_all-number (index + 1) texts h.1 in
      (
        record { source_index = index; canonical_payload_hash = node_hash t } ∷ out,
        hash_all_step (record { source_index = index; text = t }) (number (index + 1) texts)
            (node_hash t) out (compute_browser_shingle_payload_hash_lem t h.0) e,
        ap (λ r. node_hash t ∷ r) same,
      )

  mem-map :
      (texts : List Text) {h : Text}
      → Memᴰ h (map node_hash texts)
      → (t : Text) × Memᴰ t texts × (h ≡ node_hash t)
  mem-map [] m = elim m [ ]
  mem-map (t ∷ texts) (Memᴰ.head e) = (t, Memᴰ.head refl, e)
  mem-map (t ∷ texts) (Memᴰ.tail m) = let (u, n, e) = mem-map texts m in (u, Memᴰ.tail n, e)

  module _ ⦃U : Unicode⦄ (text : Text) where
    -- The texts of the windows of the normalized text.
    abbrev pub windows : List Text
    windows = all_windows (presets ctx.preset) (tokenize_normalized (normalize_for_shingling text))

    browser_run :
        (out : List BrowserShingleHash)
        → hash_all ctx (number 0 windows) ≡ ok out
        → shingle_plain_text_in_browser text ctx
          ≡ ok (record {
            normalized_token_count =
                token_count (tokenize_normalized (normalize_for_shingling text));
            shingle_count = length (drop_seen [] out);
            shingles = drop_seen [] out;
          })
    unfolding shingle_plain_text_in_browser
    browser_run out e =
        let tokens = tokenize_normalized (normalize_for_shingling text) in
        rw (generate_shingles-eq-number tokens ctx.preset, shingle_plain_text_in_browser)
          (rw e refl)

    -- If the encoding of every window has a 32-bit length, then the browser returns a result. No hash
    -- stands in it twice, their number is the count, and the hashes are those that node computes for the
    -- windows of the normalized text.
    pub shingle_plain_text_in_browser_agrees :
        All (λ t. length (utf8 t) < 2 ^ 32) windows
        → (result : BrowserShinglingResult) × (shingle_plain_text_in_browser text ctx ≡ ok result)
          × Distinct (hashes result.shingles)
          × (result.shingle_count ≡ length result.shingles)
          × ((h : Text)
              → Memᴰ h (hashes result.shingles) ↔ (
                  (t : Text) × Memᴰ t windows
                  × (d : Bytes) × (compute_shingle_payload_hash t ctx ≡ ok d)
                  × (h ≡ to_hex d)))
    unfolding node_hash
    shingle_plain_text_in_browser_agrees fits =
        let (out, e, same) = hash_all-number 0 windows fits in
        (
          _,
          browser_run out e,
          drop_seen-Distinct out,
          refl,
          λ h. (
            λ m.
                let (t, n, p) = mem-map windows (subst (Memᴰ h) same (drop_seen-subset [] out m)) in
                (t, n, _, compute_shingle_payload_hash_lem t (All-mem _ n fits), p),
            λ (t, n, d, k, p).
                let found : h ≡ node_hash t =
                  cc (k, p, compute_shingle_payload_hash_lem t (All-mem _ n fits)) in
                drop_seen-keeps [] out h (unfold includes in refl)
                  (subst (Memᴰ h) (sym same) (Memᴰ.cast found (Memᴰ.map node_hash n))),
          ),
        )
