-- ===== src/Shingling/Tokens.antt =====
-- packages/shingling/src/tokenize.ts, and what the tokens of a normalized text are.
use mathlib.Core.List.{append_assoc}
use proveria.Common.{
  ℕ, ◌≤◌, ◌≡◌, refl, ap, Bool, true, false, not, ◌&&◌, ◌||◌, List, [], ◌∷◌, ◌++◌, map, ◌==◌,
  if◌then◌else◌, length, All, arith, Bool-cases, inl, inr, sym, subst, length-append, All-map_of,
}
use proveria.Bytes.{Text}
use proveria.Bytes.Split.{is_space, trim_start, trim_end, cons_head, split_on}
use proveria.Shingling.{join_with}
use proveria.Shingling.Normal.{
  Unicode, is_punct, spaced, collapse, normal_paragraph, non_empty, split_paragraphs, prepared,
  normal_paragraphs, normalize_for_shingling,
}

-- `split('\n\n')`
split_blank_lines : Text → List Text
unfolding cons_head
split_blank_lines [] = [] ∷ []
split_blank_lines (c ∷ []) = (c ∷ []) ∷ []
split_blank_lines (c ∷ d ∷ rest) = elim (c == 10 && d == 10) [
  | true ↦ [] ∷ split_blank_lines rest
  | false ↦ cons_head c (split_blank_lines (d ∷ rest))
]

-- `paragraph.split(' ').filter((t) => t.length > 0)`
unfoldable pub paragraph_tokens : Text → List Text
unfolding split_on non_empty
paragraph_tokens paragraph = non_empty (split_on 32 paragraph)

unfoldable pub tokenize_normalized : Text → List (List Text)
unfolding split_blank_lines paragraph_tokens
tokenize_normalized normalized =
    if length normalized == 0 then [] else map paragraph_tokens (split_blank_lines normalized)

-- A unit of a token: neither white space nor ASCII punctuation but the hyphen.
unfoldable pub is_token_unit : ℕ → Bool
unfolding is_space is_punct
is_token_unit c = not (is_space c) && not (is_punct c)

is_normal_unit : ℕ → Bool
unfolding is_token_unit
is_normal_unit c = c == 32 || is_token_unit c

abbrev Unpunctuated : Text → Type 0
Unpunctuated p = All (λ c. is_punct c ≡ false) p

abbrev NormalUnits : Text → Type 0
NormalUnits p = All (λ c. is_normal_unit c ≡ true) p

map-spaced : (p : Text) → Unpunctuated (map spaced p)
unfolding spaced is_punct
map-spaced [] = tt
map-spaced (c ∷ p) = (ground arith, map-spaced p)

unit : (c : ℕ) → is_space c ≡ false → is_punct c ≡ false → is_normal_unit c ≡ true
unfolding is_normal_unit is_token_unit
unit c e k = ground arith

spaced_run : (b : Bool) (p : Text) → NormalUnits p → NormalUnits (if b then p else 32 ∷ p)
unfolding is_normal_unit
spaced_run true p h = h
spaced_run false p h = (refl, h)

collapse-units : (in_run : Bool) (p : Text) → Unpunctuated p → NormalUnits (collapse in_run p)
unfolding collapse is_normal_unit
collapse-units in_run [] h = tt
collapse-units in_run (c ∷ p) h = elim (Bool-cases (is_space c)) [
  | inl e ↦ rw e (spaced_run in_run (collapse true p) (collapse-units true p h.1))
  | inr e ↦ rw e (unit c e h.0, collapse-units false p h.1)
]

trim_start-units : (p : Text) → NormalUnits p → NormalUnits (trim_start p)
unfolding trim_start
trim_start-units [] h = tt
trim_start-units (c ∷ p) h = elim (Bool-cases (is_space c)) [
  | inl e ↦ rw e (trim_start-units p h.1)
  | inr e ↦ rw e h
]

trim_end-units : (p : Text) → NormalUnits p → NormalUnits (trim_end p)
unfolding trim_end
trim_end-units [] h = tt
trim_end-units (c ∷ p) h = more (trim_end p) (trim_end-units p h.1)
  where
    more :
        (t : Text)
        → NormalUnits t
        → NormalUnits (elim t [ [] ↦ if is_space c then [] else c ∷ [] | d ∷ m ↦ c ∷ d ∷ m ])
    more [] k = elim (Bool-cases (is_space c)) [ inl e ↦ rw e tt | inr e ↦ rw e (h.0, tt) ]
    more (d ∷ m) k = (h.0, k)

normal_paragraph-units : (p : Text) → NormalUnits (normal_paragraph p)
unfolding normal_paragraph
normal_paragraph-units p =
    trim_end-units _ (trim_start-units _ (collapse-units false (map spaced p) (map-spaced p)))

non_empty-All :
    (P : Text → Type 0) (ps : List Text) → All P ps → All (λ p. P p × (1 ≤ length p)) (non_empty ps)
unfolding non_empty
non_empty-All P [] h = tt
non_empty-All P (p ∷ ps) h = elim (Bool-cases (length p == 0)) [
  | inl e ↦ rw e (non_empty-All P ps h.1)
  | inr e ↦ rw e ((h.0, ground arith), non_empty-All P ps h.1)
]

All-map :
    (P : Text → Type 0) (f : Text → Text)
    → ((p : Text) → P (f p))
    → (ps : List Text) → All P (map f ps)
All-map P f h [] = tt
All-map P f h (p ∷ ps) = (h p, All-map P f h ps)

-- The paragraphs of a normalized text: none is empty.
normal_paragraphs-units :
    ⦃U : Unicode⦄ (raw : Text) → All (λ p. NormalUnits p × (1 ≤ length p)) (normal_paragraphs raw)
unfolding normal_paragraphs
normal_paragraphs-units raw =
    let parts = split_paragraphs [] [] 0 (prepared raw) in
    non_empty-All NormalUnits (map normal_paragraph parts)
      (All-map NormalUnits normal_paragraph normal_paragraph-units parts)

abbrev pub IsToken : Text → Type 0
IsToken t = All (λ c. is_token_unit c ≡ true) t × (1 ≤ length t)

cons_head-All :
    (P : ℕ → Type 0) (c : ℕ) (parts : List Text)
    → P c
    → All (All P) parts
    → All (All P) (cons_head c parts)
unfolding cons_head
cons_head-All P c [] h k = ((h, tt), tt)
cons_head-All P c (part ∷ rest) h k = ((h, k.0), k.1)

token_unit : (c : ℕ) → (c == 32) ≡ false → is_normal_unit c ≡ true → is_token_unit c ≡ true
unfolding is_normal_unit
token_unit c e h = ground arith

split_on-units :
    (p : Text) → NormalUnits p → All (All (λ c. is_token_unit c ≡ true)) (split_on 32 p)
unfolding split_on is_normal_unit
split_on-units [] h = (tt, tt)
split_on-units (c ∷ p) h =
    let later = split_on-units p h.1 in
    elim (Bool-cases (c == 32)) [
      | inl e ↦ rw e (tt, later)
      | inr e ↦
          rw e (
            cons_head-All (λ u. is_token_unit u ≡ true) c (split_on 32 p) (token_unit c e h.0)
              later)
    ]

paragraph_tokens-IsToken : (p : Text) → NormalUnits p → All IsToken (paragraph_tokens p)
unfolding paragraph_tokens
paragraph_tokens-IsToken p h =
    non_empty-All (All (λ c. is_token_unit c ≡ true)) (split_on 32 p) (split_on-units p h)

no_newline : (c : ℕ) → is_normal_unit c ≡ true → (c == 10) ≡ false
unfolding is_normal_unit is_token_unit is_space
no_newline c h = ground arith

-- The blank lines of a normalized text stand between its paragraphs only.
split_blank_lines-append :
    (p rest : Text)
    → NormalUnits p
    → split_blank_lines (p ++ (10 ∷ 10 ∷ rest)) ≡ p ∷ split_blank_lines rest
unfolding split_blank_lines cons_head
split_blank_lines-append [] rest h = refl
split_blank_lines-append (c ∷ []) rest h = rw (no_newline c h.0, split_blank_lines) refl
split_blank_lines-append (c ∷ d ∷ p) rest h =
    rw (no_newline c h.0, split_blank_lines) (cc (split_blank_lines-append (d ∷ p) rest h.1))

split_blank_lines-alone : (p : Text) → NormalUnits p → split_blank_lines p ≡ p ∷ []
unfolding split_blank_lines cons_head
split_blank_lines-alone [] h = refl
split_blank_lines-alone (c ∷ []) h = refl
split_blank_lines-alone (c ∷ d ∷ p) h =
    rw (no_newline c h.0, split_blank_lines) (cc (split_blank_lines-alone (d ∷ p) h.1))

split_blank_lines-join_with :
    (p : Text) (rest : List Text)
    → All NormalUnits (p ∷ rest)
    → split_blank_lines (join_with (10 ∷ 10 ∷ []) (p ∷ rest)) ≡ p ∷ rest
unfolding join_with
split_blank_lines-join_with p [] h = split_blank_lines-alone p h.0
split_blank_lines-join_with p (q ∷ rest) h =
    let later = join_with (10 ∷ 10 ∷ []) (q ∷ rest) in
    cc (
      append_assoc p (10 ∷ 10 ∷ []) later,
      split_blank_lines-append p later h.0,
      split_blank_lines-join_with q rest h.1,
    )

tokens_of_paragraphs :
    (ps : List Text)
    → All (λ p. NormalUnits p × (1 ≤ length p)) ps
    → All (All IsToken) (map paragraph_tokens ps)
tokens_of_paragraphs [] h = tt
tokens_of_paragraphs (p ∷ ps) h = (paragraph_tokens-IsToken p h.0.0, tokens_of_paragraphs ps h.1)

length-join_with :
    (p : Text) (rest : List Text) → length p ≤ length (join_with (10 ∷ 10 ∷ []) (p ∷ rest))
unfolding join_with
length-join_with p [] = omega arith
length-join_with p (q ∷ rest) =
    let later = join_with (10 ∷ 10 ∷ []) (q ∷ rest) in
    omega (arith, length-append (p ++ 10 ∷ 10 ∷ []) later, length-append p (10 ∷ 10 ∷ []))

tokenize_normalized-join_with :
    (ps : List Text)
    → All (λ p. NormalUnits p × (1 ≤ length p)) ps
    → tokenize_normalized (join_with (10 ∷ 10 ∷ []) ps) ≡ map paragraph_tokens ps
unfolding tokenize_normalized
tokenize_normalized-join_with [] h = unfold join_with in refl
tokenize_normalized-join_with (p ∷ rest) h =
    let filled : (length (join_with (10 ∷ 10 ∷ []) (p ∷ rest)) == 0) ≡ false =
      ground (arith, length-join_with p rest, h.0.1) in
    rw filled (
      ap (map paragraph_tokens)
        (split_blank_lines-join_with p rest (All-map_of _ _ (λ q k. k.0) (p ∷ rest) h)))

-- The split at blank lines finds the paragraphs of the normalization again; each token of theirs is
-- non-empty and has neither white space nor ASCII punctuation other than hyphens in it.
pub tokenize_normalized-normalize_for_shingling :
    ⦃U : Unicode⦄ (raw : Text)
    → (tokenize_normalized (normalize_for_shingling raw)
        ≡ map paragraph_tokens (normal_paragraphs raw))
      × All (All IsToken) (tokenize_normalized (normalize_for_shingling raw))
unfolding normalize_for_shingling
tokenize_normalized-normalize_for_shingling raw =
    let ps = normal_paragraphs raw in
    let units = normal_paragraphs-units raw in
    let same = tokenize_normalized-join_with ps units in
    (same, subst (All (All IsToken)) (sym same) (tokens_of_paragraphs ps units))
