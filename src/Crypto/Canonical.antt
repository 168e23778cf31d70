-- ===== src/Crypto/Canonical.antt =====
-- packages/crypto-core/src/canonical-json.ts: the canonical serialization (RFC 8785) of JSON values.
pub mod KeyOrder
pub mod Total
use proveria.Common.{
  ℕ, ◌+◌, ◌≤◌, Bool, true, false, List, [], ◌∷◌, ◌++◌, ltb, leb, if◌then◌else◌, codes, Result, ok,
  err, ◌>>=◌,
}
use proveria.Common.Sort.{sort}
use proveria.Bytes.{Bytes, Text, not_after}
use proveria.Bytes.Utf8.{utf8}
use proveria.Json.{
  ℤ, pos, negsuc, Number, whole, fractional, nan, infinity, Json, null, undefined, boolean, number,
  string, array, object, foreign, Items, nil, cons, Fields, end, field,
}
use proveria.Json.Printing.{integer_text, quote}

-- What the serialization throws.
pub data CanonicalError : Type 0 where
  is_undefined not_finite : CanonicalError
  not_safe_integer : Number → CanonicalError
  forbidden_type : Text → CanonicalError

-- Number.isSafeInteger
unfoldable pub is_safe : ℤ → Bool
is_safe (pos n) = leb n 9007199254740991
is_safe (negsuc n) = ltb n 9007199254740991

canonical_number : Number → Result CanonicalError Text
unfolding is_safe
canonical_number (whole z) =
    if is_safe z then ok (integer_text z) else err (not_safe_integer (whole z))
canonical_number (fractional t) = err (not_safe_integer (fractional t))
canonical_number nan = err not_finite
canonical_number infinity = err not_finite

-- `parts.join(',')`, where the first part that threw is thrown
pub join : List (Result CanonicalError Text) → Result CanonicalError Text
join [] = ok []
join (part ∷ []) = part
join (part ∷ rest) = do text ← part; more ← join rest; ok (text ++ b',' ∷ more)

-- The order of the keys: JavaScript's on strings.
abbrev pub key_le : (Text × Result CanonicalError Text) → (Text × Result CanonicalError Text) → Bool
key_le a b = not_after a.0 b.0

labelled : List (Text × Result CanonicalError Text) → List (Result CanonicalError Text)
labelled [] = []
labelled ((k, part) ∷ rest) = (do text ← part; ok (quote k ++ b':' ∷ text)) ∷ labelled rest

unfoldable pub object_text : List (Text × Result CanonicalError Text) → Result CanonicalError Text
unfolding labelled join
object_text entries = do text ← join (labelled (sort key_le entries)); ok (b'{' ∷ text ++ b'}' ∷ [])

-- The values of an object are serialized in the order of the sorted keys; the serialization is
-- pure, so that sorting the serialized fields is the same.
unfoldable mutual
  unfolding canonical_number

  pub canonicalize_to_string : Json → Result CanonicalError Text
  canonicalize_to_string null = ok (codes "null")
  canonicalize_to_string undefined = err is_undefined
  canonicalize_to_string (boolean true) = ok (codes "true")
  canonicalize_to_string (boolean false) = ok (codes "false")
  canonicalize_to_string (number n) = canonical_number n
  canonicalize_to_string (string s) = ok (quote s)
  canonicalize_to_string (array xs) = do
    text ← join (canonical_items xs)
    ok (b'[' ∷ text ++ b']' ∷ [])
  canonicalize_to_string (object fs) = object_text (canonical_fields fs)
  canonicalize_to_string (foreign t) = err (forbidden_type t)

  pub canonical_items : Items → List (Result CanonicalError Text)
  canonical_items nil = []
  canonical_items (cons v vs) = canonicalize_to_string v ∷ canonical_items vs

  pub canonical_fields : Fields → List (Text × Result CanonicalError Text)
  canonical_fields end = []
  canonical_fields (field k v fs) = (k, canonicalize_to_string v) ∷ canonical_fields fs

unfoldable pub canonicalize : Json → Result CanonicalError Bytes
canonicalize v = do text ← canonicalize_to_string v; ok (utf8 text)
