-- ===== src/Bytes/Hex.antt =====
-- `toHex` and `fromHex`: `Buffer.from(b).toString('hex')` and `Buffer.from(h, 'hex')`, and the
-- test `HEX64` of packages/manifest/src/validate.ts.
use proveria.Common.{
  ℕ, ◌+◌, ◌-◌, ◌*◌, ◌/◌, ◌%◌, ◌<◌, ◌≡◌, refl, ap, Bool, true, ◌&&◌, ◌||◌, Option, none, some, [],
  ◌∷◌, arith, length, all, All, ltb, leb, ◌==◌, if◌then◌else◌,
}
use proveria.Bytes.{Bytes, Text, IsByte, compare_bytes}

hex_digit : ℕ → ℕ
hex_digit d = if ltb d 10 then 48 + d else 87 + d

unfoldable pub to_hex : Bytes → Text
unfolding hex_digit
to_hex [] = []
to_hex (b ∷ bytes) = hex_digit (b / 16) ∷ hex_digit (b % 16) ∷ to_hex bytes

hex_value : ℕ → Option ℕ
hex_value c =
    if leb b'0' c && leb c b'9'
    then some (c - 48)
    else if leb b'a' c && leb c b'f'
    then some (c - 87)
    else if leb b'A' c && leb c b'F'
    then some (c - 55)
    else none

pair_value : ℕ → ℕ → Option ℕ
unfolding hex_value
pair_value a b = elim (hex_value a) [
  | none ↦ none
  | some x ↦ elim (hex_value b) [ none ↦ none | some y ↦ some (16 * x + y) ]
]

-- Decoding stops at the first pair that is not hexadecimal, and drops an odd digit at the end.
unfoldable pub from_hex : Text → Bytes
unfolding pair_value
from_hex [] = []
from_hex (a ∷ []) = []
from_hex (a ∷ b ∷ rest) =
    let later = from_hex rest in elim (pair_value a b) [ none ↦ [] | some v ↦ v ∷ later ]

unfoldable pub is_lower_hex : ℕ → Bool
is_lower_hex c = (leb b'0' c && leb c b'9') || (leb b'a' c && leb c b'f')

-- `/^[0-9a-f]{64}$/`
unfoldable pub is_hex64 : Text → Bool
unfolding is_lower_hex
is_hex64 h = length h == 64 && all is_lower_hex h

pair_value-hex_digit :
    (b : ℕ) → b < 256 → pair_value (hex_digit (b / 16)) (hex_digit (b % 16)) ≡ some b
unfolding pair_value hex_digit
pair_value-hex_digit b h = ground arith

pub from_hex-to_hex : (b : Bytes) → All IsByte b → from_hex (to_hex b) ≡ b
unfolding from_hex to_hex
from_hex-to_hex [] h = refl
from_hex-to_hex (x ∷ b) h =
    rw (pair_value-hex_digit x h.0, from_hex) (ap (λ r. x ∷ r) (from_hex-to_hex b h.1))

-- The number that a lower-case digit stands for.
abbrev digit_of : ℕ → ℕ
digit_of c = if leb c b'9' then c - 48 else c - 87

digit_of_lem :
    (c : ℕ)
    → is_lower_hex c ≡ true
    → (hex_value c ≡ some (digit_of c)) × (hex_digit (digit_of c) ≡ c) × (digit_of c < 16)
unfolding hex_value hex_digit is_lower_hex
digit_of_lem c h = (ground arith, ground arith, ground arith)

pair_value_lem :
    (a b : ℕ)
    → is_lower_hex a ≡ true
    → is_lower_hex b ≡ true
    → (v : ℕ) × (pair_value a b ≡ some v)
      × (hex_digit (v / 16) ≡ a)
      × (hex_digit (v % 16) ≡ b)
      × (v < 256)
unfolding pair_value
pair_value_lem a b h k =
    let (va, da, la) = digit_of_lem a h in
    let (vb, db, lb) = digit_of_lem b k in
    let x = digit_of a in
    let y = digit_of b in
    let hi : (16 * x + y) / 16 ≡ x = omega arith in
    let lo : (16 * x + y) % 16 ≡ y = omega arith in
    (16 * x + y, rw (va, pair_value) (rw vb refl), rw hi da, rw lo db, omega arith)

-- An even number of lower-case digits comes back from the bytes that they encode.
record Decodes (n : ℕ) (h : Text) : Type 0 where
  again : to_hex (from_hex h) ≡ h
  size : length (from_hex h) ≡ n
  range : All IsByte (from_hex h)

from_hex-Decodes : (n : ℕ) (h : Text) → length h ≡ n + n → all is_lower_hex h ≡ true → Decodes n h
unfolding from_hex to_hex
from_hex-Decodes n [] e k = record { again = refl; size = omega arith; range = tt }
from_hex-Decodes n (a ∷ []) e k = absurd (omega arith)
from_hex-Decodes n (a ∷ b ∷ rest) e k =
    let (v, found, hi, lo, small) = pair_value_lem a b (ground arith) (ground arith) in
    let later = from_hex-Decodes (n - 1) rest (omega arith) (ground arith) in
    record {
      again = rw (found, from_hex) (cc (hi, lo, later.again));
      size = rw (found, from_hex) (omega (arith, later.size));
      range = rw (found, from_hex) (small, later.range);
    }

module _ (h : Text) (valid : is_hex64 h ≡ true) where
  is_hex64-Decodes : Decodes 32 h
  unfolding is_hex64
  is_hex64-Decodes = from_hex-Decodes 32 h (ground arith) (ground arith)

  pub to_hex-from_hex : to_hex (from_hex h) ≡ h
  to_hex-from_hex = is_hex64-Decodes.again

  pub length-from_hex : length (from_hex h) ≡ 32
  length-from_hex = is_hex64-Decodes.size

  pub from_hex-IsByte : All IsByte (from_hex h)
  from_hex-IsByte = is_hex64-Decodes.range

pub to_hex-lower : (b : Bytes) → All IsByte b → all is_lower_hex (to_hex b) ≡ true
unfolding to_hex is_lower_hex
to_hex-lower [] k = refl
to_hex-lower (x ∷ b) k = ground (arith, to_hex-lower b k.1)

pub length-to_hex : (b : Bytes) → length (to_hex b) ≡ 2 * length b
unfolding to_hex
length-to_hex [] = refl
length-to_hex (x ∷ b) = omega (arith, length-to_hex b)

pub is_hex64-to_hex : (b : Bytes) → length b ≡ 32 → All IsByte b → is_hex64 (to_hex b) ≡ true
unfolding is_hex64
is_hex64-to_hex b n k = ground (arith, length-to_hex b, to_hex-lower b k)

pub compare-to_hex :
    (a b : Bytes)
    → All IsByte a
    → All IsByte b
    → compare_bytes (to_hex a) (to_hex b) ≡ compare_bytes a b
unfolding compare_bytes to_hex
compare-to_hex [] [] h k = refl
compare-to_hex [] (y ∷ b) h k = refl
compare-to_hex (x ∷ a) [] h k = refl
compare-to_hex (x ∷ a) (y ∷ b) h k = ground (arith, compare-to_hex a b)
