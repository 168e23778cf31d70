-- ===== src/Bytes.antt =====
-- Byte arrays (`Uint8Array`, `Buffer`) and texts (JavaScript strings, as UTF-16 code units), both
-- as lists of numbers: their order, big-endian lengths, hexadecimal and UTF-8.
-- compareBytes, bytesEqual: packages/crypto-core/src/merkle.ts.
-- lengthPrefix, concat: packages/crypto-core/src/leaf-hash.ts (and the same code in
-- packages/shingling/src/hash.ts). `Buffer.from(h, 'hex')`, `Buffer.toString('hex')`, `TextEncoder`
-- are the runtime's.
pub mod Order
pub mod Hex
pub mod Prefix
pub mod Utf8
pub mod Split
use proveria.Common.{
  ℕ, ◌+◌, ◌-◌, ◌*◌, ◌/◌, ◌%◌, ◌^◌, ◌<◌, compare, Ordering, Bool, true, false, ◌&&◌, ◌||◌, List, [],
  ◌∷◌, ◌++◌, length, All, ltb, leb, ◌==◌, if◌then◌else◌,
}

abbrev pub Bytes : Type 0
Bytes = List ℕ

-- A JavaScript string: its UTF-16 code units.
abbrev pub Text : Type 0
Text = List ℕ

abbrev pub IsByte : ℕ → Type 0
IsByte b = b < 256

-- The sign of what `compareBytes` returns. JavaScript's `<` on strings is this order too.
unfoldable pub compare_bytes : Bytes → Bytes → Ordering
compare_bytes [] [] = Ordering.eq
compare_bytes [] (b ∷ ys) = Ordering.lt
compare_bytes (a ∷ xs) [] = Ordering.gt
compare_bytes (a ∷ xs) (b ∷ ys) = elim (compare a b) [
  | Ordering.lt ↦ Ordering.lt
  | Ordering.gt ↦ Ordering.gt
  | Ordering.eq ↦ compare_bytes xs ys
]

-- `compareBytes(a, b) <= 0`
unfoldable pub not_after : Bytes → Bytes → Bool
unfolding compare_bytes
not_after a b = elim (compare_bytes a b) [ Ordering.gt ↦ false | _ ↦ true ]

-- `a < b` on strings
unfoldable pub before : Text → Text → Bool
unfolding compare_bytes
before a b = elim (compare_bytes a b) [ Ordering.lt ↦ true | _ ↦ false ]

unfoldable pub bytes_equal : Bytes → Bytes → Bool
unfolding compare_bytes
bytes_equal a b =
    length a == length b && (elim (compare_bytes a b) [ Ordering.eq ↦ true | _ ↦ false ])

-- `===` on strings
unfoldable pub same_text : Text → Text → Bool
same_text [] [] = true
same_text (a ∷ xs) (b ∷ ys) = a == b && same_text xs ys
same_text _ _ = false

-- `setUint32(0, length, false)`
unfoldable pub uint32be : ℕ → Bytes
uint32be n = n / 2 ^ 24 % 256 ∷ n / 2 ^ 16 % 256 ∷ n / 2 ^ 8 % 256 ∷ n % 256 ∷ []
