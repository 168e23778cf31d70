-- ===== src/Auth/Binding.antt =====
-- What a device's signature is bound to (canonicalSignedBytes in apps/api/src/auth/device-signature.ts):
-- the lines of the signed text can be read back.
use mathlib.Core.List.{append_assoc}
use proveria.Common.{
  ℕ, ◌≡◌, ◌⊎◌, ◌∙◌, sym, ap, true, false, List, [], ◌∷◌, ◌++◌, arith, All, All-map_of, all-All, ltb,
  ◌==◌,
}
use proveria.Bytes.{Bytes, Text}
use proveria.Bytes.Hex.{to_hex, is_lower_hex, to_hex-lower, from_hex-to_hex}
use proveria.Bytes.Split.{split_on, split_on-append, split_on-alone}
use proveria.Bytes.Utf8.{utf8, utf8-one_line, utf8-line, utf8-ascii}
use proveria.Json.Printing.{decimal, decimal-digits, value-decimal}
use proveria.Crypto.{Sha256, Collision}
use proveria.Crypto.LeafHash.Binding.{digest_binding}
use proveria.Shingling.{join_with}
use proveria.Auth.DeviceSignature.{Runtime, canonical_signed_bytes, signature_protocol}

abbrev pub IsLine : Text → Type 0
IsLine t = All (λ c. (c == 10) ≡ false) t

line_of_lines :
    (a b : Text) → IsLine a → split_on 10 (utf8 (a ++ (10 ∷ b))) ≡ utf8 a ∷ split_on 10 (utf8 b)
line_of_lines a b h =
    ap (split_on 10) (utf8-line a b) ∙ split_on-append 10 (utf8 a) (utf8 b) (utf8-one_line a h)

last_line : (a : Text) → IsLine a → split_on 10 (utf8 a) ≡ utf8 a ∷ []
last_line a h = split_on-alone 10 (utf8 a) (utf8-one_line a h)

join_with-line :
    (a b : Text) (rest : List Text)
    → join_with (10 ∷ []) (a ∷ b ∷ rest) ≡ a ++ (10 ∷ join_with (10 ∷ []) (b ∷ rest))
unfolding join_with
join_with-line a b rest = append_assoc a (10 ∷ []) (join_with (10 ∷ []) (b ∷ rest))

-- The lines of a joined text.
abbrev encoded : List Text → List Bytes
encoded [] = []
encoded (t ∷ ts) = utf8 t ∷ encoded ts

split_on-join_with :
    (a : Text) (rest : List Text)
    → All IsLine (a ∷ rest)
    → split_on 10 (utf8 (join_with (10 ∷ []) (a ∷ rest))) ≡ encoded (a ∷ rest)
split_on-join_with a [] h = unfold join_with in last_line a h.0
split_on-join_with a (b ∷ rest) h =
    ap (λ t. split_on 10 (utf8 t)) (join_with-line a b rest)
    ∙ line_of_lines a (join_with (10 ∷ []) (b ∷ rest)) h.0
    ∙ ap (λ r. utf8 a ∷ r) (split_on-join_with b rest h.1)

digits-IsLine : (n : ℕ) → IsLine (decimal n)
digits-IsLine n = All-map_of _ _ (λ c h. ground arith) (decimal n) (decimal-digits n)

digits-ascii : (n : ℕ) → utf8 (decimal n) ≡ decimal n
digits-ascii n =
    utf8-ascii (decimal n) (All-map_of _ _ (λ c h. ground arith) (decimal n) (decimal-digits n))

decimal_injective : (m n : ℕ) → utf8 (decimal m) ≡ utf8 (decimal n) → m ≡ n
decimal_injective m n e = cc (digits-ascii m, digits-ascii n, value-decimal m, value-decimal n, e)

protocol-IsLine : IsLine signature_protocol
protocol-IsLine = ground arith

module _ ⦃H : Sha256⦄ where
  hash_line : Bytes → Text
  hash_line body = to_hex (H.digest body)

  hex_unit : (c : ℕ) → is_lower_hex c ≡ true → ((c == 10) ≡ false) × (ltb c 128 ≡ true)
  unfolding is_lower_hex
  hex_unit c h = (ground arith, ground arith)

  hash_units : (body : Bytes) → All (λ c. is_lower_hex c ≡ true) (hash_line body)
  unfolding hash_line
  hash_units body =
      all-All is_lower_hex (to_hex (H.digest body))
        (to_hex-lower (H.digest body) (H.digest-IsByte body))

  hash-IsLine : (body : Bytes) → IsLine (hash_line body)
  hash-IsLine body = All-map_of _ _ (λ c h. (hex_unit c h).0) (hash_line body) (hash_units body)

  hash_binding :
      (a b : Bytes)
      → utf8 (hash_line a) ≡ utf8 (hash_line b)
      → (a ≡ b) ⊎ Collision (a ∷ []) (b ∷ [])
  unfolding hash_line
  hash_binding a b e =
      let plain : (body : Bytes) → utf8 (to_hex (H.digest body)) ≡ to_hex (H.digest body) =
        λ body. utf8-ascii _ (All-map_of _ _ (λ c h. (hex_unit c h).1) _ (hash_units body)) in
      digest_binding a b (
        cc (
          plain a,
          plain b,
          e,
          from_hex-to_hex (H.digest a) (H.digest-IsByte a),
          from_hex-to_hex (H.digest b) (H.digest-IsByte b),
        ))

  module _ ⦃R : Runtime⦄ where
    -- One signed text stands for one timestamp, one upper-case method, one path with its query (both up
    -- to their encoding) and one body, or SHA-256 has collided on the two bodies; methods and paths hold no line break.
    pub canonical_signed_bytes_binding :
        (m n : ℕ) (method method' path path' : Text) (body body' : Bytes)
        → IsLine (R.upper_case method)
        → IsLine (R.upper_case method')
        → IsLine path
        → IsLine path'
        → canonical_signed_bytes m method path body ≡ canonical_signed_bytes n method' path' body'
        → (m ≡ n)
          × (utf8 (R.upper_case method) ≡ utf8 (R.upper_case method'))
          × (utf8 path ≡ utf8 path')
          × ((body ≡ body') ⊎ Collision (body ∷ []) (body' ∷ []))
    unfolding canonical_signed_bytes hash_line
    canonical_signed_bytes_binding m n method method' path path' body body' hm hm' hp hp' e =
        let left =
          split_on-join_with signature_protocol
            (decimal m ∷ R.upper_case method ∷ path ∷ hash_line body ∷ [])
            (protocol-IsLine, (digits-IsLine m, (hm, (hp, (hash-IsLine body, tt))))) in
        let right =
          split_on-join_with signature_protocol
            (decimal n ∷ R.upper_case method' ∷ path' ∷ hash_line body' ∷ [])
            (protocol-IsLine, (digits-IsLine n, (hm', (hp', (hash-IsLine body', tt))))) in
        let same = sym left ∙ ap (split_on 10) e ∙ right in
        (decimal_injective m n (cc same), cc same, cc same, hash_binding body body' (cc same))
