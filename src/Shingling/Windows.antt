-- ===== src/Shingling/Windows.antt =====
-- What `generateShingles` returns (packages/shingling/src/shingle.ts): all the windows, in order.
use mathlib.Core.List.{append_assoc, append-nil}
use proveria.Common.{
  ℕ, zero, suc, ◌+◌, ◌-◌, ◌/◌, ◌≤◌, ◌<◌, ◌≡◌, ◌∙◌, refl, sym, ap, subst, List, [], ◌∷◌, ◌++◌, map,
  codes, arith, length, take, drop, ltb, if◌then◌else◌, true, false, ok, Bool-cases, inl, inr,
  length-append,
}
use proveria.Bytes.{Text}
use proveria.Shingling.{
  ShinglePreset, PresetSpec, presets, Shingle, join_with, paragraph_loop, paragraphs_loop,
  generate_shingles,
}

-- The number of positions of a window in n tokens: none if it does not fit.
unfoldable pub window_count : PresetSpec → ℕ → ℕ
window_count spec n = if ltb n spec.window then 0 else (n - spec.window) / spec.stride + 1

-- The texts of a number of windows from a position on.
unfoldable pub windows_from : PresetSpec → List Text → ℕ → ℕ → List Text
windows_from spec tokens i zero = []
windows_from spec tokens i (suc more) =
    join_with (codes " ") (take spec.window (drop i tokens))
    ∷ windows_from spec tokens (i + spec.stride) more

unfoldable pub all_windows : PresetSpec → List (List Text) → List Text
unfolding window_count windows_from
all_windows spec [] = []
all_windows spec (tokens ∷ rest) =
    windows_from spec tokens 0 (window_count spec (length tokens)) ++ all_windows spec rest

unfoldable pub total_count : PresetSpec → List (List Text) → ℕ
unfolding window_count
total_count spec [] = 0
total_count spec (tokens ∷ rest) = window_count spec (length tokens) + total_count spec rest

-- Texts numbered from an index on.
unfoldable pub number : ℕ → List Text → List Shingle
number index [] = []
number index (text ∷ rest) = record { source_index = index; text = text } ∷ number (index + 1) rest

number-append :
    (index : ℕ) (a b : List Text)
    → number index (a ++ b) ≡ number index a ++ number (index + length a) b
unfolding number
number-append index [] b = let same : index + 0 ≡ index = omega arith in cc
number-append index (x ∷ a) b =
    let shift : index + 1 + length a ≡ index + suc (length a) = omega arith in
    cc (number-append (index + 1) a b, shift)

-- How many windows start at i or later, a stride apart.
unfoldable pub IsRoom : PresetSpec → ℕ → ℕ → ℕ → Type 0
IsRoom spec n i zero = n < i + spec.window
IsRoom spec n i (suc more) = (i + spec.window ≤ n) × IsRoom spec n (i + spec.stride) more

module _ (spec : PresetSpec) (tokens : List Text) where
  paragraph_loop_lem :
      (more fuel i index : ℕ) (out : List Shingle)
      → IsRoom spec (length tokens) i more
      → more < fuel
      → paragraph_loop fuel spec tokens i index out
        ≡ ok (out ++ number index (windows_from spec tokens i more), index + more)
  unfolding paragraph_loop IsRoom windows_from number
  paragraph_loop_lem more zero i index out room lt = absurd (omega arith)
  paragraph_loop_lem zero (suc fuel) i index out room lt = ground (arith, append-nil out)
  paragraph_loop_lem (suc more) (suc fuel) i index out (fits, room) lt =
      let text = join_with (codes " ") (take spec.window (drop i tokens)) in
      let pushed = out ++ record { source_index = index; text = text } ∷ [] in
      let later =
        paragraph_loop_lem more fuel (i + spec.stride) (index + 1) pushed room (omega arith) in
      ground (
        arith,
        later,
        append_assoc out (record { source_index = index; text = text } ∷ [])
            (number (index + 1) (windows_from spec tokens (i + spec.stride) more)),
      )

-- The counts of the presets are right: a literal stride lets the quotient be computed.
module _ (spec : PresetSpec) (n : ℕ)
    (last : (room : ℕ) → room < spec.stride → room / spec.stride ≡ 0)
    (more : (room : ℕ)
      → spec.stride ≤ room
      → room / spec.stride ≡ (room - spec.stride) / spec.stride + 1) where
  quotient-IsRoom :
      (c i : ℕ)
      → i + spec.window ≤ n
      → c ≡ (n - (i + spec.window)) / spec.stride
      → IsRoom spec n i (suc c)
  unfolding IsRoom
  quotient-IsRoom zero i fits e = (fits, ground (arith, more (n - (i + spec.window))))
  quotient-IsRoom (suc c) i fits e =
      let room = n - (i + spec.window) in
      let smaller : room - spec.stride ≡ n - (i + spec.stride + spec.window) = omega arith in
      let fact : (spec.stride ≤ room) × (c ≡ (room - spec.stride) / spec.stride) =
        ground (arith, last room, more room) in
      (fits, quotient-IsRoom c (i + spec.stride) (omega (arith, fact.0)) (cc (fact.1, smaller)))

  quotient_all-IsRoom : spec.window ≤ n → IsRoom spec n 0 ((n - spec.window) / spec.stride + 1)
  quotient_all-IsRoom fits =
      let one_more : suc ((n - spec.window) / spec.stride) ≡ (n - spec.window) / spec.stride + 1 =
        omega arith in
      let same : (n - spec.window) / spec.stride ≡ (n - (0 + spec.window)) / spec.stride =
        let w : spec.window ≡ 0 + spec.window = omega arith in ap (λ w. (n - w) / spec.stride) w in
      subst (IsRoom spec n 0) one_more
        (quotient-IsRoom ((n - spec.window) / spec.stride) 0 (omega arith) same)

pub window_count-IsRoom :
    (preset : ShinglePreset) (n : ℕ) → IsRoom (presets preset) n 0 (window_count (presets preset) n)
unfolding window_count IsRoom
window_count-IsRoom preset n = elim (Bool-cases (ltb n (presets preset).window)) [
  | inl short ↦ rw short (ground arith)
  | inr long ↦ rw long (of_preset preset (ground arith))
]
  where
    of_preset :
        (p : ShinglePreset)
        → (presets p).window ≤ n
        → IsRoom (presets p) n 0 ((n - (presets p).window) / (presets p).stride + 1)
    of_preset ShinglePreset.standard =
        quotient_all-IsRoom (presets ShinglePreset.standard) n (λ r h. omega arith)
          (λ r h. omega arith)
    of_preset ShinglePreset.broad =
        quotient_all-IsRoom (presets ShinglePreset.broad) n (λ r h. omega arith)
          (λ r h. omega arith)
    of_preset ShinglePreset.sensitive =
        quotient_all-IsRoom (presets ShinglePreset.sensitive) n (λ r h. omega arith)
          (λ r h. omega arith)

IsRoom-bound :
    (spec : PresetSpec) (n i more : ℕ)
    → 1 ≤ spec.stride
    → 1 ≤ spec.window
    → IsRoom spec n i more
    → more ≤ n - i
unfolding IsRoom
IsRoom-bound spec n i zero hs hw room = omega arith
IsRoom-bound spec n i (suc more) hs hw (fits, room) =
    omega (arith, IsRoom-bound spec n (i + spec.stride) more hs hw room)

preset_positive :
    (preset : ShinglePreset) → (1 ≤ (presets preset).stride) × (1 ≤ (presets preset).window)
preset_positive ShinglePreset.standard = (omega arith, omega arith)
preset_positive ShinglePreset.broad = (omega arith, omega arith)
preset_positive ShinglePreset.sensitive = (omega arith, omega arith)

length-windows_from :
    (spec : PresetSpec) (tokens : List Text) (i more : ℕ)
    → length (windows_from spec tokens i more) ≡ more
unfolding windows_from
length-windows_from spec tokens i zero = refl
length-windows_from spec tokens i (suc more) =
    ap suc (length-windows_from spec tokens (i + spec.stride) more)

-- One paragraph, from its first token.
paragraph_loop-all :
    (preset : ShinglePreset) (tokens : List Text) (index : ℕ) (out : List Shingle)
    → paragraph_loop (length tokens + 1) (presets preset) tokens 0 index out
      ≡ ok (
        out
            ++ number index (
                windows_from
                  (presets preset)
                  tokens
                  0
                  (window_count (presets preset) (length tokens))),
        index + window_count (presets preset) (length tokens),
      )
paragraph_loop-all preset tokens index out =
    let spec = presets preset in
    let count = window_count spec (length tokens) in
    let room = window_count-IsRoom preset (length tokens) in
    let (hs, hw) = preset_positive preset in
    let bound = IsRoom-bound spec (length tokens) 0 count hs hw room in
    paragraph_loop_lem spec tokens count (length tokens + 1) 0 index out room (omega arith)

module _ (preset : ShinglePreset) (tokens : List Text) (rest : List (List Text)) where
  paragraphs_loop-short :
      (index : ℕ) (out : List Shingle)
      → ltb (length tokens) (presets preset).window ≡ true
      → (paragraphs_loop (presets preset) (tokens ∷ rest) index out
          ≡ paragraphs_loop (presets preset) rest index out)
        × (window_count (presets preset) (length tokens) ≡ 0)
  unfolding paragraphs_loop window_count
  paragraphs_loop-short index out short = (rw short refl, rw short refl)

  paragraphs_loop-long :
      (index : ℕ) (out : List Shingle)
      → ltb (length tokens) (presets preset).window ≡ false
      → paragraphs_loop (presets preset) (tokens ∷ rest) index out
        ≡ paragraphs_loop
            (presets preset)
            rest
            (index + window_count (presets preset) (length tokens))
            (out
              ++ number index (
                  windows_from
                    (presets preset)
                    tokens
                    0
                    (window_count (presets preset) (length tokens))))
  unfolding paragraphs_loop
  paragraphs_loop-long index out long =
      rw long (rw (paragraph_loop-all preset tokens index out) refl)

number-pushed :
    (out : List Shingle) (index count : ℕ) (a b : List Text)
    → length a ≡ count
    → out ++ number index a ++ number (index + count) b ≡ out ++ number index (a ++ b)
number-pushed out index count a b e =
    cc (append_assoc out (number index a) (number (index + count) b), number-append index a b, e)

paragraphs_loop_lem :
    (preset : ShinglePreset) (paragraphs : List (List Text)) (index : ℕ) (out : List Shingle)
    → paragraphs_loop (presets preset) paragraphs index out
      ≡ ok (out ++ number index (all_windows (presets preset) paragraphs))
unfolding paragraphs_loop all_windows number
paragraphs_loop_lem preset [] index out = cc (append-nil out)
paragraphs_loop_lem preset (tokens ∷ rest) index out =
    let spec = presets preset in
    let count = window_count spec (length tokens) in
    elim (Bool-cases (ltb (length tokens) spec.window)) [
      | inl short ↦
          let (same, zero_count) = paragraphs_loop-short preset tokens rest index out short in
          let later = paragraphs_loop_lem preset rest index out in
          same
          ∙ later
          ∙ ap
              (λ c.
                ok (out ++ number index (windows_from spec tokens 0 c ++ all_windows spec rest)))
              (sym zero_count)
      | inr long ↦
          let texts = windows_from spec tokens 0 count in
          let later = paragraphs_loop_lem preset rest (index + count) (out ++ number index texts) in
          paragraphs_loop-long preset tokens rest index out long
          ∙ later
          ∙ ap ok (
              number-pushed out index count texts (all_windows spec rest)
                (length-windows_from spec tokens 0 count))
    ]

-- The code pushes exactly the windows of the paragraphs, in order and numbered from 0: the preset
-- is never refused and the rounds of the loop suffice.
pub generate_shingles-eq-number :
    (paragraphs : List (List Text)) (preset : ShinglePreset)
    → generate_shingles paragraphs preset ≡ ok (number 0 (all_windows (presets preset) paragraphs))
unfolding generate_shingles
generate_shingles-eq-number paragraphs ShinglePreset.standard =
    paragraphs_loop_lem ShinglePreset.standard paragraphs 0 []
generate_shingles-eq-number paragraphs ShinglePreset.broad =
    paragraphs_loop_lem ShinglePreset.broad paragraphs 0 []
generate_shingles-eq-number paragraphs ShinglePreset.sensitive =
    paragraphs_loop_lem ShinglePreset.sensitive paragraphs 0 []

length-number : (index : ℕ) (texts : List Text) → length (number index texts) ≡ length texts
unfolding number
length-number index [] = refl
length-number index (x ∷ texts) = ap suc (length-number (index + 1) texts)

length-all_windows :
    (spec : PresetSpec) (paragraphs : List (List Text))
    → length (all_windows spec paragraphs) ≡ total_count spec paragraphs
unfolding all_windows total_count
length-all_windows spec [] = refl
length-all_windows spec (tokens ∷ rest) = omega (
  arith,
  length-append (windows_from spec tokens 0 (window_count spec (length tokens)))
      (all_windows spec rest),
  length-windows_from spec tokens 0 (window_count spec (length tokens)),
  length-all_windows spec rest,
)

texts-number :
    (index : ℕ) (texts : List Text) → map (λ s. Shingle.text s) (number index texts) ≡ texts
unfolding number
texts-number index [] = refl
texts-number index (x ∷ texts) = ap (λ r. x ∷ r) (texts-number (index + 1) texts)

pub texts_of :
    (paragraphs : List (List Text)) (preset : ShinglePreset) (out : List Shingle)
    → generate_shingles paragraphs preset ≡ ok out
    → map (λ s. Shingle.text s) out ≡ all_windows (presets preset) paragraphs
texts_of paragraphs preset out e =
    let texts = all_windows (presets preset) paragraphs in
    cc (texts-number 0 texts, generate_shingles-eq-number paragraphs preset, e)

-- A paragraph of n tokens has no shingle if n is below the window, and (n - window) / stride + 1 of
-- them otherwise; the text has the sum of these.
pub length-generate_shingles :
    (paragraphs : List (List Text)) (preset : ShinglePreset)
    → (out : List Shingle) × (generate_shingles paragraphs preset ≡ ok out)
      × (length out ≡ total_count (presets preset) paragraphs)
length-generate_shingles paragraphs preset =
    let texts = all_windows (presets preset) paragraphs in
    (
      number 0 texts,
      generate_shingles-eq-number paragraphs preset,
      length-number 0 texts ∙ length-all_windows (presets preset) paragraphs,
    )
