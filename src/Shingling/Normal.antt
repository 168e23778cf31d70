-- ===== src/Shingling/Normal.antt =====
-- packages/shingling/src/normalize.ts: the normalization of a text before it is cut into tokens. Unicode's
-- tables (`normalize('NFC')`, `toLowerCase()`) are the runtime's; the regular expressions are scans.
use proveria.Common.{
  ℕ, ◌+◌, Bool, true, false, not, ◌&&◌, ◌||◌, List, [], ◌∷◌, ◌++◌, codes, map, leb, ◌==◌,
  if◌then◌else◌, length,
}
use proveria.Bytes.{Text}
use proveria.Bytes.Split.{is_space, trim_start, trim_end}
use proveria.Shingling.{join_with}

-- The runtime's operations on strings. Nothing is assumed of them.
pub record Unicode : Type 0 where
  pub nfc : Text → Text
  pub lower_case : Text → Text

-- `s.split(from).join(to)` for a `from` of one code unit
unfoldable pub replace_unit : ℕ → Text → Text → Text
replace_unit from to [] = []
replace_unit from to (c ∷ rest) =
    let later = replace_unit from to rest in if c == from then to ++ later else c ∷ later

-- SMART_PUNCT_MAP
abbrev pub smart_punct_map : List (ℕ × Text)
smart_punct_map =
    (0x2018, codes "'")
    ∷ (0x2019, codes "'")
    ∷ (0x201c, b'"' ∷ [])
    ∷ (0x201d, b'"' ∷ [])
    ∷ (0x2013, codes "-")
    ∷ (0x2014, codes "-")
    ∷ (0x2026, codes "...")
    ∷ []

-- LIGATURE_MAP
abbrev pub ligature_map : List (ℕ × Text)
ligature_map =
    (0xfb00, codes "ff")
    ∷ (0xfb01, codes "fi")
    ∷ (0xfb02, codes "fl")
    ∷ (0xfb03, codes "ffi")
    ∷ (0xfb04, codes "ffl")
    ∷ []

unfoldable pub replace_map : Text → List (ℕ × Text) → Text
unfolding replace_unit
replace_map s [] = s
replace_map s ((from, to) ∷ rest) = replace_map (replace_unit from to s) rest

-- `[ \t]`
is_blank : ℕ → Bool
is_blank c = c == 32 || c == 9

-- `replace(/-\n[ \t]*/g, '')`, where the flag says that such a match is being skipped.
unfoldable pub dehyphenate : Bool → Text → Text
unfolding is_blank
dehyphenate skipping [] = []
dehyphenate skipping (c ∷ []) = if skipping && is_blank c then [] else c ∷ []
dehyphenate skipping (c ∷ d ∷ rest) = elim (skipping && is_blank c) [
  | true ↦ dehyphenate true (d ∷ rest)
  | false ↦ elim (c == b'-' && d == 10) [
    | true ↦ dehyphenate true rest
    | false ↦ c ∷ dehyphenate false (d ∷ rest)
  ]
]

-- `[ \t\r\v\f\n]`: what a match of PARAGRAPH_SPLIT_RE consists of
unfoldable pub is_break : ℕ → Bool
is_break c = c == 32 || (leb 9 c && leb c 13)

-- `split(PARAGRAPH_SPLIT_RE)`: a match is a maximal run of breaks with two newlines or more. The
-- paragraph so far, the run of breaks behind it and its newlines are carried along.
unfoldable pub split_paragraphs : Text → Text → ℕ → Text → List Text
unfolding is_break
split_paragraphs paragraph run newlines [] =
    if leb 2 newlines then paragraph ∷ [] ∷ [] else (paragraph ++ run) ∷ []
split_paragraphs paragraph run newlines (c ∷ rest) = elim (is_break c) [
  | true ↦
      split_paragraphs paragraph (run ++ c ∷ []) (if c == 10 then newlines + 1 else newlines) rest
  | false ↦ elim (leb 2 newlines) [
    | true ↦ paragraph ∷ split_paragraphs (c ∷ []) [] 0 rest
    | false ↦ split_paragraphs (paragraph ++ run ++ c ∷ []) [] 0 rest
  ]
]

-- PUNCT_RE: ASCII punctuation but the hyphen
unfoldable pub is_punct : ℕ → Bool
is_punct c =
    (leb 33 c && leb c 47 && not (c == b'-'))
    || (leb 58 c && leb c 64)
    || (leb 91 c && leb c 96)
    || (leb 123 c && leb c 126)

-- `replace(PUNCT_RE, ' ')`, behind which a newline is a space too
unfoldable pub spaced : ℕ → ℕ
unfolding is_punct
spaced c = if c == 10 then 32 else if is_punct c then 32 else c

-- `replace(/\s+/g, ' ')`, where the flag says that the run has had its space.
unfoldable pub collapse : Bool → Text → Text
unfolding is_space
collapse in_run [] = []
collapse in_run (c ∷ rest) =
    let inside = collapse true rest in
    let outside = collapse false rest in
    if is_space c then (if in_run then inside else 32 ∷ inside) else c ∷ outside

unfoldable pub normal_paragraph : Text → Text
unfolding spaced collapse trim_start trim_end
normal_paragraph p = trim_end (trim_start (collapse false (map spaced p)))

-- `filter((p) => p.length > 0)`
unfoldable pub non_empty : List Text → List Text
non_empty [] = []
non_empty (p ∷ rest) = let later = non_empty rest in if length p == 0 then later else p ∷ later

-- The text above the split: steps 1 to 7.
unfoldable pub prepared : ⦃U : Unicode⦄ → Text → Text
unfolding replace_map dehyphenate
prepared ⦃U⦄ raw =
    let s = replace_map (replace_map (U.lower_case (U.nfc raw)) smart_punct_map) ligature_map in
    replace_unit 12 (10 ∷ 10 ∷ []) (dehyphenate false (replace_unit 0xad [] s))

unfoldable pub normal_paragraphs : ⦃U : Unicode⦄ → Text → List Text
unfolding prepared split_paragraphs normal_paragraph non_empty
normal_paragraphs raw = non_empty (map normal_paragraph (split_paragraphs [] [] 0 (prepared raw)))

unfoldable pub normalize_for_shingling : ⦃U : Unicode⦄ → Text → Text
unfolding normal_paragraphs join_with
normalize_for_shingling raw = join_with (10 ∷ 10 ∷ []) (normal_paragraphs raw)
