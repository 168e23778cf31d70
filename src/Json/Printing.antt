-- ===== src/Json/Printing.antt =====
-- `JSON.stringify` of integers and of strings.
use proveria.Common.{
  ℕ, zero, suc, ◌+◌, ◌-◌, ◌*◌, ◌/◌, ◌%◌, ◌<◌, ◌≡◌, refl, Bool, ◌&&◌, ◌||◌, [], ◌∷◌, ◌++◌, arith,
  ltb, leb, ◌==◌, if◌then◌else◌, codes, Bool-cases, inl, inr, true, All, All-append,
}
use proveria.Bytes.{Text}
use proveria.Json.{ℤ, pos, negsuc}

-- The loop over the digits; a number has at most as many digits as its value plus one.
decimal_from : ℕ → ℕ → Text
decimal_from zero n = []
decimal_from (suc fuel) n =
    let higher = decimal_from fuel (n / 10) ++ (48 + n % 10) ∷ [] in
    if ltb n 10 then (48 + n) ∷ [] else higher

unfoldable pub decimal : ℕ → Text
unfolding decimal_from
decimal n = decimal_from (n + 1) n

unfoldable pub integer_text : ℤ → Text
unfolding decimal
integer_text (pos n) = decimal n
integer_text (negsuc n) = b'-' ∷ decimal (n + 1)

-- The number that a text of digits stands for.
abbrev value_from : ℕ → Text → ℕ
value_from acc [] = acc
value_from acc (c ∷ rest) = value_from (acc * 10 + (c - 48)) rest

value_from-append :
    (acc : ℕ) (s t : Text) → value_from acc (s ++ t) ≡ value_from (value_from acc s) t
value_from-append acc [] t = refl
value_from-append acc (c ∷ s) t = value_from-append (acc * 10 + (c - 48)) s t

value-decimal_from : (fuel n : ℕ) → n < fuel → value_from 0 (decimal_from fuel n) ≡ n
unfolding decimal_from
value-decimal_from zero n h = elim h [ ]
value-decimal_from (suc fuel) n h = elim (Bool-cases (ltb n 10)) [
  | inl small ↦ rw small (omega arith)
  | inr large ↦ rw large (rw value_from-append (ground (arith, value-decimal_from fuel (n / 10))))
]

-- Decimal digits are read back as the number, so the fuel is enough.
pub value-decimal : (n : ℕ) → value_from 0 (decimal n) ≡ n
unfolding decimal
value-decimal n = value-decimal_from (n + 1) n (omega arith)

decimal_from-digits :
    (fuel n : ℕ) → All (λ c. (leb b'0' c && leb c b'9') ≡ true) (decimal_from fuel n)
unfolding decimal_from
decimal_from-digits zero n = tt
decimal_from-digits (suc fuel) n = elim (Bool-cases (ltb n 10)) [
  | inl small ↦ rw small (ground arith, tt)
  | inr large ↦ rw large (
      All-append (λ c. (leb b'0' c && leb c b'9') ≡ true) (decimal_from fuel (n / 10)) _
        (decimal_from-digits fuel (n / 10)) (ground arith, tt))
]

pub decimal-digits : (n : ℕ) → All (λ c. (leb b'0' c && leb c b'9') ≡ true) (decimal n)
unfolding decimal
decimal-digits n = decimal_from-digits (n + 1) n

hex_digit : ℕ → ℕ
hex_digit d = if ltb d 10 then 48 + d else 87 + d

unicode_escape : ℕ → Text
unfolding hex_digit
unicode_escape u =
    b'\\'
    ∷ b'u'
    ∷ hex_digit (u / 4096 % 16)
    ∷ hex_digit (u / 256 % 16)
    ∷ hex_digit (u / 16 % 16)
    ∷ hex_digit (u % 16)
    ∷ []

-- One code unit inside quotes, a surrogate without partner apart.
escape_unit : ℕ → Text
unfolding unicode_escape
escape_unit u =
    if u == 34
    then b'\\' ∷ 34 ∷ []
    else if u == 92
    then b'\\' ∷ b'\\' ∷ []
    else if u == 8
    then b'\\' ∷ b'b' ∷ []
    else if u == 9
    then b'\\' ∷ b't' ∷ []
    else if u == 10
    then b'\\' ∷ b'n' ∷ []
    else if u == 12
    then b'\\' ∷ b'f' ∷ []
    else if u == 13
    then b'\\' ∷ b'r' ∷ []
    else if ltb u 32 || (leb 0xd800 u && leb u 0xdfff)
    then unicode_escape u
    else u ∷ []

is_pair : ℕ → ℕ → Bool
is_pair u v = leb 0xd800 u && leb u 0xdbff && leb 0xdc00 v && leb v 0xdfff

escape : Text → Text
unfolding escape_unit is_pair
escape [] = []
escape (u ∷ []) = escape_unit u
escape (u ∷ v ∷ rest) =
    let kept = u ∷ v ∷ escape rest in
    let apart = escape_unit u ++ escape (v ∷ rest) in if is_pair u v then kept else apart

unfoldable pub quote : Text → Text
unfolding escape
quote s = 34 ∷ escape s ++ 34 ∷ []

quote_example : quote (codes "a\"b" ++ 10 ∷ 0xd800 ∷ []) ≡ codes "\"a\\\"b\\n\\ud800\""
unfolding quote
quote_example = refl
