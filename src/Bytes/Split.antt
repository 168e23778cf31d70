-- ===== src/Bytes/Split.antt =====
-- `split(c)` at one code unit, `\\s` and `trim()` of JavaScript strings.
use proveria.Common.{
  ℕ, ◌≡◌, refl, Bool, false, ◌&&◌, ◌||◌, List, [], ◌∷◌, ◌++◌, leb, ◌==◌, if◌then◌else◌, All, arith,
}
use proveria.Bytes.{Text}

-- `\s`, which is also what `trim` removes
unfoldable pub is_space : ℕ → Bool
is_space c =
    (leb 9 c && leb c 13)
    || c == 32
    || c == 0xa0
    || c == 0x1680
    || (leb 0x2000 c && leb c 0x200a)
    || c == 0x2028
    || c == 0x2029
    || c == 0x202f
    || c == 0x205f
    || c == 0x3000
    || c == 0xfeff

-- `trim()`
unfoldable pub trim_start : Text → Text
unfolding is_space
trim_start [] = []
trim_start (c ∷ rest) = let later = trim_start rest in if is_space c then later else c ∷ rest

unfoldable pub trim_end : Text → Text
unfolding is_space
trim_end [] = []
trim_end (c ∷ rest) = elim (trim_end rest) [
  | [] ↦ if is_space c then [] else c ∷ []
  | d ∷ more ↦ c ∷ d ∷ more
]

unfoldable pub trim : Text → Text
unfolding trim_start trim_end
trim t = trim_end (trim_start t)

-- A code unit in front of the first part.
unfoldable pub cons_head : ℕ → List Text → List Text
cons_head c [] = (c ∷ []) ∷ []
cons_head c (part ∷ rest) = (c ∷ part) ∷ rest

unfoldable pub split_on : ℕ → Text → List Text
unfolding cons_head
split_on separator [] = [] ∷ []
split_on separator (c ∷ rest) =
    let later = split_on separator rest in if c == separator then [] ∷ later else cons_head c later

module _ (separator : ℕ) where
  pub split_on-append :
      (a rest : Text)
      → All (λ c. (c == separator) ≡ false) a
      → split_on separator (a ++ (separator ∷ rest)) ≡ a ∷ split_on separator rest
  unfolding split_on
  split_on-append [] rest h = ground arith
  split_on-append (c ∷ a) rest h = rw (h.0, split_on) (rw (split_on-append a rest h.1) refl)

  pub split_on-alone :
      (a : Text) → All (λ c. (c == separator) ≡ false) a → split_on separator a ≡ a ∷ []
  unfolding split_on
  split_on-alone [] h = refl
  split_on-alone (c ∷ a) h = rw (h.0, split_on) (rw (split_on-alone a h.1) refl)

pub trim-plain : (t : Text) → All (λ c. is_space c ≡ false) t → trim t ≡ t
unfolding trim
trim-plain [] h = refl
trim-plain (c ∷ t) h = rw (h.0, trim_start) (trim_end-plain (c ∷ t) h)
  where
    trim_end-plain : (s : Text) → All (λ u. is_space u ≡ false) s → trim_end s ≡ s
    trim_end-plain [] k = refl
    trim_end-plain (u ∷ []) k = rw (k.0, trim_end) refl
    trim_end-plain (u ∷ v ∷ s) k = rw (trim_end-plain (v ∷ s) k.1, trim_end) refl
