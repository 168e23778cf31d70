-- ===== src/Webhooks/Header.antt =====
-- packages/sdk/src/webhooks.ts: how a header of the signer is read.
use mathlib.Core.List.{append_assoc}
use proveria.Common.{
  ℕ, ◌≤◌, ◌≡◌, ◌∙◌, refl, true, false, not, ◌&&◌, ◌||◌, none, some, [], ◌∷◌, ◌++◌, codes, length,
  all, All, All-append, All-map_of, all-All, ◌==◌, if◌then◌else◌, arith, ok, err, ==_refl,
}
use proveria.Bytes.{Bytes, Text, IsByte, same_text, bytes_equal}
use proveria.Bytes.Order.{bytes_equal_iff}
use proveria.Bytes.Hex.{to_hex, from_hex, is_lower_hex, to_hex-lower, length-to_hex}
use proveria.Bytes.Split.{is_space, trim, split_on, split_on-append, split_on-alone, trim-plain}
use proveria.Webhooks.Verify.{
  FailureReason, ParsedSignatureHeader, key_and_value, read_part, read_parts,
  parse_signature_header, is_hex_digit, is_hex_text, safe_equal_hex,
}

-- A unit that neither separates parts nor is trimmed: no space, comma or equals sign.
abbrev pub IsPlainUnit : ℕ → Type 0
IsPlainUnit c = (is_space c ≡ false) × ((c == b',') ≡ false) × ((c == b'=') ≡ false)

abbrev pub IsPlain : Text → Type 0
IsPlain t = All IsPlainUnit t × (1 ≤ length t)

lower_hex_plain : (c : ℕ) → is_lower_hex c ≡ true → IsPlainUnit c
unfolding is_lower_hex is_space
lower_hex_plain c h = (ground arith, ground arith, ground arith)

pub to_hex-IsPlain : (b : Bytes) → length b ≡ 32 → All IsByte b → IsPlain (to_hex b)
to_hex-IsPlain b n h = (
  All-map_of _ _ lower_hex_plain (to_hex b) (all-All is_lower_hex (to_hex b) (to_hex-lower b h)),
  omega (arith, length-to_hex b),
)

-- A part `key=value` of plain units.
key_and_value-plain :
    (key value : Text)
    → IsPlain key
    → IsPlain value
    → key_and_value (key ++ (b'=' ∷ value)) ≡ (key, some value)
unfolding key_and_value
key_and_value-plain key value hk hv =
    rw (split_on-append b'=' key value (no_equals key hk), key_and_value)
      (rw (split_on-alone b'=' value (no_equals value hv)) refl)
  where
    no_equals : (t : Text) → IsPlain t → All (λ c. (c == b'=') ≡ false) t
    no_equals t h = All-map_of _ _ (λ c k. k.2) t h.0

trim-IsPlain : (t : Text) → IsPlain t → trim t ≡ t
trim-IsPlain t h = trim-plain t (All-map_of _ _ (λ c k. k.0) t h.0)

nonzero : (t : Text) → 1 ≤ length t → (length t == 0) ≡ false
nonzero t h = ground arith

read_part-shape :
    (part : Text) (parsed : ParsedSignatureHeader)
    → read_part part parsed ≡ (elim (key_and_value part).1 [
      | none ↦ err FailureReason.malformed_signature_header
      | some raw_value ↦
          if length (trim (key_and_value part).0) == 0 || length (trim raw_value) == 0
          then err FailureReason.malformed_signature_header
          else ok (record {
            timestamp =
                if same_text (trim (key_and_value part).0) (codes "t")
                then some (trim raw_value)
                else parsed.timestamp;
            signature =
                if same_text (trim (key_and_value part).0) (codes "v1")
                then some (trim raw_value)
                else parsed.signature;
          })
    ])
unfolding read_part
read_part-shape part parsed = refl

read_part-plain :
    (key value : Text) (parsed : ParsedSignatureHeader)
    → IsPlain key
    → IsPlain value
    → read_part (key ++ (b'=' ∷ value)) parsed
      ≡ ok (record {
        timestamp = if same_text key (codes "t") then some value else parsed.timestamp;
        signature = if same_text key (codes "v1") then some value else parsed.signature;
      })
read_part-plain key value parsed hk hv =
    read_part-shape (key ++ (b'=' ∷ value)) parsed
    ∙ rw (key_and_value-plain key value hk hv, key_and_value-plain key value hk hv)
        (rw (trim-IsPlain key hk)
          (rw (trim-IsPlain value hv) (rw (nonzero key hk.1) (rw (nonzero value hv.1) refl))))

-- The header that a signer writes.
abbrev pub header_of : Text → Text → Text
header_of timestamp signature = codes "t=" ++ timestamp ++ codes ",v1=" ++ signature

no_space : (t : Text) → IsPlain t → All (λ c. is_space c ≡ false) t
no_space t h = All-map_of _ _ (λ c k. k.0) t h.0

no_comma : (t : Text) → IsPlain t → All (λ c. (c == b',') ≡ false) t
no_comma t h = All-map_of _ _ (λ c k. k.1) t h.0

abbrev start : ParsedSignatureHeader
start = record { timestamp = none; signature = none }

abbrev after_first : Text → ParsedSignatureHeader
after_first timestamp = record { timestamp = some timestamp; signature = none }

t-IsPlain : IsPlain (codes "t")
unfolding is_space
t-IsPlain = (((refl, refl, refl), tt), omega arith)

v1-IsPlain : IsPlain (codes "v1")
unfolding is_space
v1-IsPlain = (((refl, refl, refl), ((refl, refl, refl), tt)), omega arith)

read_t :
    (timestamp : Text)
    → IsPlain timestamp
    → read_part (codes "t=" ++ timestamp) start ≡ ok (after_first timestamp)
unfolding same_text
read_t timestamp h = read_part-plain (codes "t") timestamp start t-IsPlain h

read_v1 :
    (timestamp signature : Text)
    → IsPlain signature
    → read_part (codes "v1=" ++ signature) (after_first timestamp)
      ≡ ok (record { timestamp = some timestamp; signature = some signature })
unfolding same_text
read_v1 timestamp signature h =
    read_part-plain (codes "v1") signature (after_first timestamp) v1-IsPlain h

parse_signature_header-shape :
    (header : Text)
    → parse_signature_header header ≡ (
        if length (trim header) == 0
        then err FailureReason.missing_signature_header
        else read_parts (split_on b',' header) start)
unfolding parse_signature_header
parse_signature_header-shape header = refl

read_parts-two :
    (a b : Text) (p q r : ParsedSignatureHeader)
    → read_part a p ≡ ok q
    → read_part b q ≡ ok r
    → read_parts (a ∷ b ∷ []) p ≡ ok r
unfolding read_parts
read_parts-two a b p q r h k = rw (h, read_parts) (rw (k, read_parts) refl)

module _ (timestamp signature : Text) (ht : IsPlain timestamp) (hs : IsPlain signature) where
  header_parts :
      header_of timestamp signature
      ≡ (codes "t=" ++ timestamp) ++ (b',' ∷ (codes "v1=" ++ signature))
  header_parts = append_assoc (codes "t=" ++ timestamp) (codes ",v1=") signature

  header_filled : (length (trim (header_of timestamp signature)) == 0) ≡ false
  header_filled =
      let plain : All (λ c. is_space c ≡ false) (header_of timestamp signature) =
        unfold is_space in
        (
          refl,
          (
            refl,
            All-append (λ c. is_space c ≡ false) (timestamp ++ codes ",v1=") signature
                (All-append (λ c. is_space c ≡ false) timestamp (codes ",v1=")
                  (no_space timestamp ht) (refl, (refl, (refl, (refl, tt)))))
                (no_space signature hs),
          ),
        ) in
      rw (trim-plain (header_of timestamp signature) plain)
        (nonzero (header_of timestamp signature) (omega arith))

  header_split :
      split_on b',' (header_of timestamp signature)
      ≡ (codes "t=" ++ timestamp) ∷ (codes "v1=" ++ signature) ∷ []
  header_split = rw header_parts (
      rw
        (split_on-append b',' (codes "t=" ++ timestamp) (codes "v1=" ++ signature)
          (refl, (refl, no_comma timestamp ht)))
        (rw
          (split_on-alone b',' (codes "v1=" ++ signature)
            (refl, (refl, (refl, no_comma signature hs))))
          refl))

  pub parse_signature_header-plain :
      parse_signature_header (header_of timestamp signature)
      ≡ ok (record { timestamp = some timestamp; signature = some signature })
  parse_signature_header-plain =
      parse_signature_header-shape (header_of timestamp signature)
      ∙ rw header_filled (
          rw header_split
            (read_parts-two _ _ _ _ _ (read_t timestamp ht) (read_v1 timestamp signature hs)))

hex_digits : (t : Text) → all is_lower_hex t ≡ true → all is_hex_digit t ≡ true
unfolding is_lower_hex is_hex_digit
hex_digits [] h = refl
hex_digits (c ∷ t) h = ground (arith, hex_digits t)

is_hex_text-to_hex : (b : Bytes) → length b ≡ 32 → All IsByte b → is_hex_text (to_hex b) ≡ true
unfolding is_hex_text
is_hex_text-to_hex b n h =
    rw (hex_digits (to_hex b) (to_hex-lower b h), is_hex_text) (ground (arith, length-to_hex b))

safe_equal_hex-shape :
    (a b : Text)
    → safe_equal_hex a b ≡ (
        if not (is_hex_text a) || not (is_hex_text b)
        then false
        else length (from_hex a) == length (from_hex b) && bytes_equal (from_hex a) (from_hex b))
unfolding safe_equal_hex
safe_equal_hex-shape a b = refl

pub safe_equal_hex_refl :
    (b : Bytes) → length b ≡ 32 → All IsByte b → safe_equal_hex (to_hex b) (to_hex b) ≡ true
safe_equal_hex_refl b n h =
    let text : is_hex_text (to_hex b) ≡ true = is_hex_text-to_hex b n h in
    let same = (bytes_equal_iff (from_hex (to_hex b)) (from_hex (to_hex b))).1 refl in
    let sizes = ==_refl (length (from_hex (to_hex b))) in
    safe_equal_hex-shape (to_hex b) (to_hex b) ∙ rw text (rw same (rw sizes refl))
