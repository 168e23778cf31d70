-- ===== src/Crypto/Canonical/Total.antt =====
-- Which values the canonical serialization accepts.
use proveria.Common.{
  ◌≡◌, refl, Bool, true, false, ◌&&◌, List, [], ◌∷◌, ◌++◌, arith, All, Result, ok, ◌>>=◌,
}
use proveria.Common.Sort.{sort, sort-perm, Permᴰ-All, Permᴰ-symm}
use proveria.Bytes.{Bytes, Text}
use proveria.Json.{
  whole, fractional, nan, infinity, Json, null, undefined, boolean, number, string, array, object,
  foreign, Items, nil, cons, Fields, end, field,
}
use proveria.Bytes.Utf8.{utf8}
use proveria.Json.Printing.{integer_text, quote}
use proveria.Crypto.Canonical.{
  CanonicalError, is_safe, canonical_number, join, key_le, labelled, object_text,
  canonicalize_to_string, canonical_items, canonical_fields, canonicalize,
}

-- Built from null, booleans, safe integers, strings, arrays and objects alone.
unfoldable mutual
  pub serializable : Json → Bool
  serializable null = true
  serializable undefined = false
  serializable (boolean b) = true
  serializable (number (whole z)) = is_safe z
  serializable (number (fractional t)) = false
  serializable (number nan) = false
  serializable (number infinity) = false
  serializable (string s) = true
  serializable (array xs) = all_items xs
  serializable (object fs) = all_fields fs
  serializable (foreign t) = false

  pub all_items : Items → Bool
  all_items nil = true
  all_items (cons v vs) = serializable v && all_items vs

  pub all_fields : Fields → Bool
  all_fields end = true
  all_fields (field k v fs) = serializable v && all_fields fs

abbrev IsOk : Result CanonicalError Text → Type 0
IsOk r = (t : Text) × (r ≡ ok t)

abbrev HasOk : (Text × Result CanonicalError Text) → Type 0
HasOk e = IsOk e.1

-- A part that serializes does so after a change of its text.
IsOk-after :
    (r : Result CanonicalError Text) (f : Text → Text) → IsOk r → IsOk (r >>= λ t. ok (f t))
IsOk-after r f (t, e) = (f t, rw e refl)

join-IsOk : (parts : List (Result CanonicalError Text)) → All IsOk parts → IsOk (join parts)
unfolding join
join-IsOk [] h = ([], refl)
join-IsOk (p ∷ []) h = h.0
join-IsOk (p ∷ q ∷ rest) ((t, e), h) =
    let (more, e₂) = join-IsOk (q ∷ rest) h in (t ++ b',' ∷ more, rw e (rw e₂ refl))

labelled-IsOk :
    (entries : List (Text × Result CanonicalError Text))
    → All HasOk entries
    → All IsOk (labelled entries)
unfolding labelled
labelled-IsOk [] h = tt
labelled-IsOk ((k, part) ∷ rest) ((t, e), h) =
    (IsOk-after part (λ u. quote k ++ b':' ∷ u) (t, e), labelled-IsOk rest h)

object_text-IsOk :
    (entries : List (Text × Result CanonicalError Text))
    → All HasOk entries
    → IsOk (object_text entries)
unfolding object_text
object_text-IsOk entries h =
    let sorted = Permᴰ-All HasOk (Permᴰ-symm (sort-perm key_le entries)) h in
    IsOk-after (join (labelled (sort key_le entries))) (λ t. b'{' ∷ t ++ b'}' ∷ [])
      (join-IsOk (labelled (sort key_le entries)) (labelled-IsOk _ sorted))

mutual
  unfolding canonicalize_to_string serializable canonical_number

  pub canonicalize_to_string-IsOk :
      (v : Json) → serializable v ≡ true → (t : Text) × (canonicalize_to_string v ≡ ok t)
  canonicalize_to_string-IsOk null h = (_, refl)
  canonicalize_to_string-IsOk undefined h = cc
  canonicalize_to_string-IsOk (boolean true) h = (_, refl)
  canonicalize_to_string-IsOk (boolean false) h = (_, refl)
  canonicalize_to_string-IsOk (number (whole z)) h = (integer_text z, rw h refl)
  canonicalize_to_string-IsOk (number (fractional t)) h = cc
  canonicalize_to_string-IsOk (number nan) h = cc
  canonicalize_to_string-IsOk (number infinity) h = cc
  canonicalize_to_string-IsOk (string s) h = (_, refl)
  canonicalize_to_string-IsOk (array xs) h =
      IsOk-after (join (canonical_items xs)) (λ t. b'[' ∷ t ++ b']' ∷ [])
        (join-IsOk (canonical_items xs) (items-IsOk xs h))
  canonicalize_to_string-IsOk (object fs) h =
      object_text-IsOk (canonical_fields fs) (fields-HasOk fs h)
  canonicalize_to_string-IsOk (foreign t) h = cc

  items-IsOk : (xs : Items) → all_items xs ≡ true → All IsOk (canonical_items xs)
  items-IsOk nil h = tt
  items-IsOk (cons v vs) h =
      (canonicalize_to_string-IsOk v (ground arith), items-IsOk vs (ground arith))

  fields-HasOk : (fs : Fields) → all_fields fs ≡ true → All HasOk (canonical_fields fs)
  fields-HasOk end h = tt
  fields-HasOk (field k v fs) h =
      (canonicalize_to_string-IsOk v (ground arith), fields-HasOk fs (ground arith))

-- The serialization throws nothing on such values.
pub canonicalize-serializable :
    (v : Json) → serializable v ≡ true → (bytes : Bytes) × (canonicalize v ≡ ok bytes)
unfolding canonicalize
canonicalize-serializable v h = let (t, e) = canonicalize_to_string-IsOk v h in (utf8 t, rw e refl)
