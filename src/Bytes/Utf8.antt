-- ===== src/Bytes/Utf8.antt =====
-- `TextEncoder.encode`: UTF-16 code units to UTF-8, where a surrogate with no partner becomes the
-- replacement character U+FFFD.
use mathlib.Core.List.{append-nil, append_assoc}
use proveria.Common.{
  ℕ, ◌+◌, ◌-◌, ◌*◌, ◌/◌, ◌%◌, Bool, ◌&&◌, [], ◌∷◌, ◌++◌, ltb, leb, if◌then◌else◌, ◌≡◌, refl, codes,
  true, ap, All, All-append, ◌==◌, ◌∙◌, arith, false, sym, Bool-cases, inl, inr,
}
use proveria.Bytes.{Bytes, Text, IsByte}

unfoldable pub is_high : ℕ → Bool
is_high u = leb 0xd800 u && leb u 0xdbff

unfoldable pub is_low : ℕ → Bool
is_low u = leb 0xdc00 u && leb u 0xdfff

encode_unit : ℕ → Bytes
encode_unit u =
    if ltb u 0x80
    then u ∷ []
    else if ltb u 0x800
    then (192 + u / 64) ∷ (128 + u % 64) ∷ []
    else if leb 0xd800 u && leb u 0xdfff
    then 0xef ∷ 0xbf ∷ 0xbd ∷ []
    else (224 + u / 4096 % 16) ∷ (128 + u / 64 % 64) ∷ (128 + u % 64) ∷ []

encode_pair : ℕ → ℕ → Bytes
encode_pair hi lo =
    let p = 0x10000 + (hi - 0xd800) * 1024 + (lo - 0xdc00) in
    (240 + p / 262144 % 8) ∷ (128 + p / 4096 % 64) ∷ (128 + p / 64 % 64) ∷ (128 + p % 64) ∷ []

unfoldable pub utf8 : Text → Bytes
unfolding is_high is_low encode_unit encode_pair
utf8 [] = []
utf8 (u ∷ []) = encode_unit u
utf8 (u ∷ v ∷ rest) =
    let joined = encode_pair u v ++ utf8 rest in
    let apart = encode_unit u ++ utf8 (v ∷ rest) in if is_high u && is_low v then joined else apart

-- Every byte of the encoding is a byte.
encode_unit-IsByte : (u : ℕ) → All IsByte (encode_unit u)
unfolding encode_unit
encode_unit-IsByte u = ground arith

utf8_examples :
    (utf8 (codes "a-1") ≡ codes "a-1")
    × (utf8 (0xe9 ∷ []) ≡ 0xc3 ∷ 0xa9 ∷ [])
    × (utf8 (0xd83d ∷ 0xde00 ∷ 0xd83d ∷ []) ≡ 0xf0 ∷ 0x9f ∷ 0x98 ∷ 0x80 ∷ 0xef ∷ 0xbf ∷ 0xbd ∷ [])
unfolding utf8
utf8_examples = (refl, refl, refl)

-- At a unit that is no surrogate, an encoding can be cut.
pub utf8-append :
    (a : Text) (c : ℕ) (b : Text)
    → is_high c ≡ false
    → is_low c ≡ false
    → utf8 (a ++ (c ∷ b)) ≡ utf8 (a ++ c ∷ []) ++ utf8 b
unfolding utf8
utf8-append [] c [] hi lo = sym (append-nil (encode_unit c))
utf8-append [] c (v ∷ b) hi lo = rw (hi, utf8) refl
utf8-append (x ∷ []) c b hi lo =
    let apart : (is_high x && is_low c) ≡ false = ground (arith, lo) in
    rw (apart, utf8)
      (cc (append_assoc (encode_unit x) (encode_unit c) (utf8 b), utf8-append [] c b hi lo))
utf8-append (x ∷ y ∷ a) c b hi lo = elim (Bool-cases (is_high x && is_low y)) [
  | inl e ↦ rw (e, utf8) (cc (utf8-append a c b hi lo))
  | inr e ↦
      rw (e, utf8)
        (cc (
          append_assoc (encode_unit x) (utf8 (y ∷ a ++ c ∷ [])) (utf8 b),
          utf8-append (y ∷ a) c b hi lo,
        ))
]

-- In front of a unit that is no low surrogate, an encoding can be cut too.
utf8-before :
    (a : Text) (c : ℕ) (b : Text) → is_low c ≡ false → utf8 (a ++ (c ∷ b)) ≡ utf8 a ++ utf8 (c ∷ b)
unfolding utf8
utf8-before [] c b lo = refl
utf8-before (x ∷ []) c b lo =
    let apart : (is_high x && is_low c) ≡ false = ground (arith, lo) in rw (apart, utf8) refl
utf8-before (x ∷ y ∷ a) c b lo = elim (Bool-cases (is_high x && is_low y)) [
  | inl e ↦ rw (e, utf8) (cc (utf8-before a c b lo))
  | inr e ↦
      rw (e, utf8)
        (cc
          (append_assoc (encode_unit x) (utf8 (y ∷ a)) (utf8 (c ∷ b)), utf8-before (y ∷ a) c b lo))
]

newline-utf8 : (b : Text) → utf8 (10 ∷ b) ≡ 10 ∷ utf8 b
unfolding utf8
newline-utf8 [] = refl
newline-utf8 (v ∷ b) = refl

unit_one_line : (u : ℕ) → (u == 10) ≡ false → All (λ b. (b == 10) ≡ false) (encode_unit u)
unfolding encode_unit
unit_one_line u h = ground arith

pair_one_line :
    (u v : ℕ) (rest : Bytes)
    → All (λ b. (b == 10) ≡ false) rest
    → All (λ b. (b == 10) ≡ false) (encode_pair u v ++ rest)
unfolding encode_pair
pair_one_line u v rest h = (ground arith, (ground arith, (ground arith, (ground arith, h))))

-- A text without line breaks has an encoding without them.
pub utf8-one_line :
    (t : Text) → All (λ c. (c == 10) ≡ false) t → All (λ b. (b == 10) ≡ false) (utf8 t)
unfolding utf8
utf8-one_line [] h = tt
utf8-one_line (u ∷ []) h = unit_one_line u h.0
utf8-one_line (u ∷ v ∷ rest) h = elim (Bool-cases (is_high u && is_low v)) [
  | inl e ↦ rw (e, utf8) (pair_one_line u v (utf8 rest) (utf8-one_line rest h.1.1))
  | inr e ↦
      rw (e, utf8)
        (All-append (λ b. (b == 10) ≡ false) (encode_unit u) (utf8 (v ∷ rest)) (unit_one_line u h.0)
          (utf8-one_line (v ∷ rest) h.1))
]

pub utf8-line : (a b : Text) → utf8 (a ++ (10 ∷ b)) ≡ utf8 a ++ (10 ∷ utf8 b)
utf8-line a b = utf8-before a 10 b (unfold is_low in refl) ∙ ap (λ r. utf8 a ++ r) (newline-utf8 b)

pub utf8-ascii : (t : Text) → All (λ c. ltb c 128 ≡ true) t → utf8 t ≡ t
unfolding utf8
utf8-ascii [] h = refl
utf8-ascii (u ∷ []) h = ground arith
utf8-ascii (u ∷ v ∷ t) h =
    let low : (is_high u && is_low v) ≡ false = ground arith in
    rw (low, utf8) (ground (arith, utf8-ascii (v ∷ t) h.1))
