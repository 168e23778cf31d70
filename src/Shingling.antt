-- ===== src/Shingling.antt =====
-- packages/shingling/src: types.ts (presets, versions) and shingle.ts (the windows of tokens).
pub mod Windows
pub mod Passages
pub mod Payload
pub mod Normal
pub mod Tokens
pub mod Browser
pub mod Agreement
mod Tests
use proveria.Common.{
  ℕ, zero, suc, ◌+◌, Bool, ◌||◌, List, [], ◌∷◌, ◌++◌, codes, length, take, drop, ltb, leb, ◌==◌,
  if◌then◌else◌, Option, none, some, Result, ok, err,
}
use proveria.Bytes.{Text}

pub data ShinglePreset : Type 0 where
  standard : ShinglePreset
  broad : ShinglePreset
  sensitive : ShinglePreset

pub data SourceExtractionMethod : Type 0 where
  plain_text : SourceExtractionMethod
  pdf_text_layer : SourceExtractionMethod
  ocr_tesseract : SourceExtractionMethod

pub record PresetSpec : Type 0 where
  pub window : ℕ
  pub stride : ℕ

abbrev pub presets : ShinglePreset → PresetSpec
presets ShinglePreset.standard = record { window = 7; stride = 1 }
presets ShinglePreset.broad = record { window = 12; stride = 3 }
presets ShinglePreset.sensitive = record { window = 4; stride = 1 }

-- The strings of the two enumerations.
abbrev pub preset_name : ShinglePreset → Text
preset_name ShinglePreset.standard = codes "standard"
preset_name ShinglePreset.broad = codes "broad"
preset_name ShinglePreset.sensitive = codes "sensitive"

abbrev pub method_name : SourceExtractionMethod → Text
method_name SourceExtractionMethod.plain_text = codes "plain-text/v1"
method_name SourceExtractionMethod.pdf_text_layer = codes "pdf-text-layer/v1"
method_name SourceExtractionMethod.ocr_tesseract = codes "ocr-tesseract/v1"

-- The value of each of the three fields of SHINGLING_V1_VERSIONS.
abbrev pub shingling_v1 : Text
shingling_v1 = codes "1.0"

pub record Shingle : Type 0 where
  pub source_index : ℕ
  pub text : Text

-- `parts.join(separator)`
unfoldable pub join_with : Text → List Text → Text
join_with separator [] = []
join_with separator (part ∷ []) = part
join_with separator (part ∷ next ∷ rest) = part ++ separator ++ join_with separator (next ∷ rest)

-- What stops a generation: a preset that the guard refuses, or the fuel of the model.
pub data ShingleError : Type 0 where
  invalid_preset : ShingleError
  out_of_fuel : ShingleError

-- The loop over `i` in one paragraph, with the shingles pushed so far and the next index.
unfoldable pub paragraph_loop :
    ℕ → PresetSpec → List Text → ℕ → ℕ → List Shingle → Result ShingleError (List Shingle × ℕ)
unfolding join_with
paragraph_loop zero spec tokens i source_index out = err ShingleError.out_of_fuel
paragraph_loop (suc fuel) spec tokens i source_index out =
    let text = join_with (codes " ") (take spec.window (drop i tokens)) in
    let pushed = out ++ record { source_index = source_index; text = text } ∷ [] in
    let later = paragraph_loop fuel spec tokens (i + spec.stride) (source_index + 1) pushed in
    if leb (i + spec.window) (length tokens) then later else ok (out, source_index)

-- The loop over the paragraphs. A paragraph of n tokens is given n + 1 rounds.
unfoldable pub paragraphs_loop :
    PresetSpec → List (List Text) → ℕ → List Shingle → Result ShingleError (List Shingle)
unfolding paragraph_loop
paragraphs_loop spec [] source_index out = ok out
paragraphs_loop spec (tokens ∷ rest) source_index out =
    if ltb (length tokens) spec.window
    then paragraphs_loop spec rest source_index out
    else elim (paragraph_loop (length tokens + 1) spec tokens 0 source_index out) [
      | err thrown ↦ err thrown
      | ok (pushed, next) ↦ paragraphs_loop spec rest next pushed
    ]

unfoldable pub generate_shingles :
    List (List Text) → ShinglePreset → Result ShingleError (List Shingle)
unfolding paragraphs_loop
generate_shingles paragraphs preset =
    let spec = presets preset in
    if spec.window == 0 || spec.stride == 0
    then err ShingleError.invalid_preset
    else paragraphs_loop spec paragraphs 0 []
