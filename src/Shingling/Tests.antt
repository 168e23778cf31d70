-- ===== src/Shingling/Tests.antt =====
-- Runs of shingling, with a runtime that knows ASCII letters only.
use mathlib.Core.List.{Memᴰ}
use proveria.Common.{
  ◌≡◌, ◌⊎◌, ◌↔◌, refl, List, [], ◌∷◌, ◌++◌, map, arith, length, All, codes, ok, ◌+◌, leb, ◌&&◌,
  if◌then◌else◌,
}
use proveria.Bytes.{Text, Bytes, uint32be, same_text}
use proveria.Bytes.Utf8.{utf8}
use proveria.Bytes.Hex.{to_hex}
use proveria.Crypto.{Collision}
use proveria.Crypto.LeafHash.{compute_leaf_hash, build_leaf_hash_input, is_leaf_type}
use proveria.Samples.{toy_hash}
use proveria.Shingling.{
  ShinglePreset, SourceExtractionMethod, presets, join_with, generate_shingles, Shingle,
}
use proveria.Shingling.Normal.{Unicode, normalize_for_shingling, normal_paragraphs}
use proveria.Shingling.Tokens.{
  tokenize_normalized, paragraph_tokens, IsToken, tokenize_normalized-normalize_for_shingling,
}
use proveria.Shingling.Windows.{
  total_count, window_count, number, all_windows, generate_shingles-eq-number,
  length-generate_shingles,
}
use proveria.Shingling.Passages.{generate_shingles_passage}
use proveria.Shingling.Payload.{
  shingle_messages, ShingleHashContext, SameShingle, build_shingle_payload,
  compute_shingle_payload_hash, compute_shingle_leaf_hash, compute_shingle_leaf_hash_binding,
}
use proveria.Shingling.Browser.{BrowserShinglingResult, shingle_plain_text_in_browser}
use proveria.Shingling.Agreement.{Distinct, hashes, windows, shingle_plain_text_in_browser_agrees}

instance abbrev ascii : Unicode
ascii = record { nfc = λ t. t; lower_case = map (λ c. if leb 65 c && leb c 90 then c + 32 else c) }

opened : Unit {0}
unfolding join_with generate_shingles normalize_for_shingling tokenize_normalized total_count
    window_count number all_windows utf8 build_shingle_payload compute_shingle_payload_hash
    compute_shingle_leaf_hash compute_leaf_hash build_leaf_hash_input is_leaf_type uint32be
    same_text
opened = tt

-- Two paragraphs, a broken word and punctuation.
abbrev raw : Text
raw =
    codes "The well-known qui-" ++ 10 ∷ codes "ck fox (red), jumps." ++ 10 ∷ 10 ∷ codes "Short one!"

abbrev first_tokens : List Text
first_tokens =
    codes "the"
    ∷ codes "well-known"
    ∷ codes "quick"
    ∷ codes "fox"
    ∷ codes "red"
    ∷ codes "jumps"
    ∷ []

tokens_run :
    tokenize_normalized (normalize_for_shingling raw)
    ≡ first_tokens ∷ (codes "short" ∷ codes "one" ∷ []) ∷ []
unfolding opened
tokens_run = refl

shingles_run :
    map
      (λ s. Shingle.text s)
      (number 0 (all_windows (presets ShinglePreset.sensitive) (first_tokens ∷ [])))
    ≡ codes "the well-known quick fox"
      ∷ codes "well-known quick fox red"
      ∷ codes "quick fox red jumps"
      ∷ []
unfolding opened
shingles_run = refl

abbrev doc : List (List Text)
doc = first_tokens ∷ (codes "short" ∷ codes "one" ∷ []) ∷ []

abbrev sensitive_shingles : List Shingle
sensitive_shingles =
    record { source_index = 0; text = codes "the well-known quick fox" }
    ∷ record { source_index = 1; text = codes "well-known quick fox red" }
    ∷ record { source_index = 2; text = codes "quick fox red jumps" }
    ∷ []

doc_runs : generate_shingles doc ShinglePreset.sensitive ≡ ok sensitive_shingles
unfolding opened
doc_runs = refl

all_windows_example :
    generate_shingles doc ShinglePreset.sensitive
    ≡ ok (number 0 (all_windows (presets ShinglePreset.sensitive) doc))
all_windows_example = generate_shingles-eq-number doc ShinglePreset.sensitive

count_example :
    (out : List Shingle) × (generate_shingles doc ShinglePreset.sensitive ≡ ok out)
    × (length out ≡ total_count (presets ShinglePreset.sensitive) doc)
count_example = length-generate_shingles doc ShinglePreset.sensitive

tokens_example :
    (tokenize_normalized (normalize_for_shingling raw)
      ≡ map paragraph_tokens (normal_paragraphs raw))
    × All (All IsToken) (tokenize_normalized (normalize_for_shingling raw))
tokens_example = tokenize_normalized-normalize_for_shingling raw

passage_example :
    Memᴰ (codes "well-known quick fox red") (map (λ s. Shingle.text s) sensitive_shingles)
unfolding opened
passage_example =
    generate_shingles_passage doc ShinglePreset.sensitive sensitive_shingles (codes "the" ∷ [])
      (codes "well-known" ∷ codes "quick" ∷ codes "fox" ∷ codes "red" ∷ []) (codes "jumps" ∷ []) 1
      doc_runs (Memᴰ.head refl) refl refl

abbrev ctx : ShingleHashContext
ctx = record {
  preset = ShinglePreset.sensitive;
  source_extraction_method = SourceExtractionMethod.plain_text;
}

leaf_runs : (h : Bytes) × (compute_shingle_leaf_hash (codes "a b c d") ctx ≡ ok h)
unfolding opened
leaf_runs = (_, refl)

shingle_binding_example :
    SameShingle (codes "a b c d") (codes "a b c d") ctx ctx
    ⊎ Collision (shingle_messages (codes "a b c d") ctx) (shingle_messages (codes "a b c d") ctx)
shingle_binding_example =
    compute_shingle_leaf_hash_binding (codes "a b c d") (codes "a b c d") ctx ctx leaf_runs.0
      leaf_runs.1 leaf_runs.1

browser_example :
    (result : BrowserShinglingResult) × (shingle_plain_text_in_browser raw ctx ≡ ok result)
    × Distinct (hashes result.shingles)
    × (result.shingle_count ≡ length result.shingles)
    × ((h : Text)
        → Memᴰ h (hashes result.shingles) ↔ (
            (t : Text) × Memᴰ t (windows ctx raw)
            × (d : Bytes) × (compute_shingle_payload_hash t ctx ≡ ok d)
            × (h ≡ to_hex d)))
unfolding opened
browser_example =
    shingle_plain_text_in_browser_agrees ctx raw (omega arith, (omega arith, (omega arith, tt)))
