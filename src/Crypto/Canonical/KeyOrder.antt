-- ===== src/Crypto/Canonical/KeyOrder.antt =====
-- The canonical form does not depend on the order in which an object lists its fields.
use mathlib.Core.List.{Permᴰ}
use proveria.Common.{◌≡◌, ◌≢◌, ◌∙◌, refl, sym, ap, true, List, [], ◌∷◌, All, Result}
use proveria.Common.Sort.{sort, TotalOrder, PairwiseApart, sort-eq_of_perm_apart}
use proveria.Bytes.{Text}
use proveria.Bytes.Order.{not_after-TotalOrder, not_after_antisym}
use proveria.Json.{Json, object, Fields, end, field}
use proveria.Crypto.Canonical.{
  CanonicalError, key_le, object_text, canonicalize_to_string, canonical_fields, canonicalize,
}

abbrev Entry : Type 0
Entry = Text × Result CanonicalError Text

key_le-TotalOrder : TotalOrder key_le
key_le-TotalOrder = record {
  total = λ a b. not_after-TotalOrder.total a.0 b.0;
  le_trans = λ a b c. not_after-TotalOrder.le_trans a.0 b.0 c.0;
}

-- The fields of an object, with the keys apart.
abbrev pub entries : Fields → List (Text × Json)
entries end = []
entries (field k v fs) = (k, v) ∷ entries fs

abbrev pub HasDistinctKeys : List (Text × Json) → Type 0
HasDistinctKeys [] = Unit
HasDistinctKeys (e ∷ rest) = All (λ f. e.0 ≢ f.0) rest × HasDistinctKeys rest

abbrev serialized : Text × Json → Entry
serialized e = (e.0, canonicalize_to_string e.1)

abbrev all_serialized : List (Text × Json) → List Entry
all_serialized [] = []
all_serialized (e ∷ rest) = serialized e ∷ all_serialized rest

canonical_fields-eq : (fs : Fields) → canonical_fields fs ≡ all_serialized (entries fs)
unfolding canonicalize_to_string
canonical_fields-eq end = refl
canonical_fields-eq (field k v fs) =
    ap (λ r. (k, canonicalize_to_string v) ∷ r) (canonical_fields-eq fs)

all_serialized-perm :
    {xs ys : List (Text × Json)} → Permᴰ xs ys → Permᴰ (all_serialized xs) (all_serialized ys)
all_serialized-perm Permᴰ.nil = Permᴰ.nil
all_serialized-perm (Permᴰ.cons e p) = Permᴰ.cons (ap serialized e) (all_serialized-perm p)
all_serialized-perm (Permᴰ.swap e f) = Permᴰ.swap (ap serialized e) (ap serialized f)
all_serialized-perm (Permᴰ.trans p q) = Permᴰ.trans (all_serialized-perm p) (all_serialized-perm q)

abbrev Apart : Entry → Entry → Type 0
Apart a b = a.0 ≢ b.0

apart_symm : (a b : Entry) → Apart a b → Apart b a
apart_symm a b h e = h (sym e)

apart_strict : (a b : Entry) → Apart a b → key_le a b ≡ true → key_le b a ≡ true → a ≡ b
apart_strict a b h p q = absurd (h (not_after_antisym a.0 b.0 p q))

away :
    (k : Text) (r : Result CanonicalError Text) (xs : List (Text × Json))
    → All (λ f. k ≢ f.0) xs
    → All (Apart (k, r)) (all_serialized xs)
away k r [] h = tt
away k r (e ∷ rest) (h, hs) = (h, away k r rest hs)

all_serialized-apart :
    (xs : List (Text × Json))
    → HasDistinctKeys xs
    → PairwiseApart key_le key_le-TotalOrder Apart apart_symm apart_strict (all_serialized xs)
all_serialized-apart [] d = tt
all_serialized-apart (e ∷ rest) (h, d) =
    (away e.0 (canonicalize_to_string e.1) rest h, all_serialized-apart rest d)

-- Objects without a repeated key that have the same fields, in whatever order, have the same canonical
-- bytes, and throw the same error where one throws.
pub canonicalize-perm :
    (f g : Fields)
    → Permᴰ (entries f) (entries g)
    → HasDistinctKeys (entries f)
    → canonicalize (object f) ≡ canonicalize (object g)
unfolding canonicalize canonicalize_to_string object_text
canonicalize-perm f g p d =
    let same : sort key_le (canonical_fields f) ≡ sort key_le (canonical_fields g) =
      ap (sort key_le) (canonical_fields-eq f)
      ∙ sort-eq_of_perm_apart key_le key_le-TotalOrder Apart apart_symm apart_strict
          (all_serialized-perm p) (all_serialized-apart (entries f) d)
      ∙ ap (sort key_le) (sym (canonical_fields-eq g)) in
    rw same refl
