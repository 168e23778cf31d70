-- ===== src/Shingling/Browser.antt =====
-- packages/shingling/src/browser.ts: shingling without node's crypto, for the desktop renderer and the
-- verifier, and its agreement with packages/shingling/src/hash.ts.
use proveria.Common.{ℕ, ◌+◌, true, false, List, [], ◌∷◌, ◌++◌, length, Result, ok, err, ◌>>=◌}
use proveria.Bytes.{Bytes, Text}
use proveria.Bytes.Hex.{to_hex}
use proveria.Crypto.{Error, Sha256}
use proveria.Crypto.LeafHash.{concat, includes}
use proveria.Shingling.{
  preset_name, method_name, shingling_v1, Shingle, ShingleError, generate_shingles,
}
use proveria.Shingling.Normal.{Unicode, normalize_for_shingling}
use proveria.Shingling.Tokens.{tokenize_normalized}
use proveria.Shingling.Payload.{ShingleHashContext, tagged}

pub record BrowserShingleHash : Type 0 where
  pub source_index : ℕ
  pub canonical_payload_hash : Text

pub record BrowserShinglingResult : Type 0 where
  pub normalized_token_count : ℕ
  pub shingle_count : ℕ
  pub shingles : List BrowserShingleHash

unfoldable pub build_browser_shingle_payload : Text → ShingleHashContext → Result Error Bytes
unfolding tagged concat
build_browser_shingle_payload window_text ctx = do
  shingling_version ← tagged shingling_v1
  preset ← tagged (preset_name ctx.preset)
  normalization_version ← tagged shingling_v1
  tokenizer_version ← tagged shingling_v1
  method ← tagged (method_name ctx.source_extraction_method)
  window ← tagged window_text
  ok (
      concat (
        (0x02 ∷ []) ∷ shingling_version
        ++ preset
        ++ normalization_version
        ++ tokenizer_version
        ++ method
        ++ window))

-- What stops the browser's run.
pub data BrowserError : Type 0 where
  generating : ShingleError → BrowserError
  hashing : Error → BrowserError

unfoldable pub token_count : List (List Text) → ℕ
token_count [] = 0
token_count (paragraph ∷ rest) = length paragraph + token_count rest

-- The filter with the set of the hashes seen.
unfoldable pub drop_seen : List Text → List BrowserShingleHash → List BrowserShingleHash
unfolding includes
drop_seen seen [] = []
drop_seen seen (shingle ∷ rest) = elim (includes seen shingle.canonical_payload_hash) [
  | true ↦ drop_seen seen rest
  | false ↦ shingle ∷ drop_seen (shingle.canonical_payload_hash ∷ seen) rest
]

module _ ⦃H : Sha256⦄ where
  unfoldable pub compute_browser_shingle_payload_hash :
      Text → ShingleHashContext → Result Error Text
  unfolding build_browser_shingle_payload
  compute_browser_shingle_payload_hash window_text ctx = do
    payload ← build_browser_shingle_payload window_text ctx
    ok (to_hex (H.digest payload))

  -- `Promise.all` over the shingles: the first failure, or all the hashes.
  unfoldable pub hash_all :
      ShingleHashContext → List Shingle → Result BrowserError (List BrowserShingleHash)
  unfolding compute_browser_shingle_payload_hash
  hash_all ctx [] = ok []
  hash_all ctx (shingle ∷ rest) =
      let later = hash_all ctx rest in
      elim (compute_browser_shingle_payload_hash shingle.text ctx) [
        | err thrown ↦ err (BrowserError.hashing thrown)
        | ok hash ↦ later >>= λ hashed.
            ok (
              record { source_index = shingle.source_index; canonical_payload_hash = hash }
              ∷ hashed)
      ]

  unfoldable pub shingle_plain_text_in_browser :
      ⦃U : Unicode⦄ → Text → ShingleHashContext → Result BrowserError BrowserShinglingResult
  unfolding hash_all drop_seen token_count
  shingle_plain_text_in_browser text ctx =
      let paragraphs = tokenize_normalized (normalize_for_shingling text) in
      elim (generate_shingles paragraphs ctx.preset) [
        | err thrown ↦ err (BrowserError.generating thrown)
        | ok shingles ↦ do
          with_duplicates ← hash_all ctx shingles
          let hashed = drop_seen [] with_duplicates
          ok (record {
            normalized_token_count = token_count paragraphs;
            shingle_count = length hashed;
            shingles = hashed;
          })
      ]
