-- ===== src/Manifest/Signed.antt =====
-- What an accepted signature of a manifest shows (verifyManifestSignature in
-- packages/manifest/src/validate.ts).
use mathlib.Core.List.{Memᴰ}
use proveria.Common.{
  ◌≡◌, ◌≢◌, refl, sym, ap, subst, true, false, some, List, [], ◌∷◌, arith, codes, inl, inr,
  Bool-cases, Option-cases, Result-cases, ok, err, ◌>>=◌,
}
use proveria.Bytes.{Bytes, Text}
use proveria.Bytes.Order.{same_text_iff}
use proveria.Json.{
  Json, null, undefined, boolean, number, string, array, object, foreign, Fields, nil,
}
use proveria.Json.Access.{get, set}
use proveria.Crypto.{Sha256}
use proveria.Crypto.Canonical.{canonicalize}
use proveria.Crypto.Signing.{Ed25519, build_signing_digest}
use proveria.Manifest.Checks.{is_text}
use proveria.Manifest.Signature.{
  find_signer, signature_list, verify_text, verify_manifest_signature,
}

pub is_text_sound : (v : Json) (s : Text) → is_text v s ≡ true → v ≡ string s
unfolding is_text
is_text_sound (string u) s e = ap string ((same_text_iff u s).0 e)
is_text_sound null s e = cc
is_text_sound undefined s e = cc
is_text_sound (boolean b) s e = cc
is_text_sound (number n) s e = cc
is_text_sound (array xs) s e = cc
is_text_sound (object f) s e = cc
is_text_sound (foreign t) s e = cc

find_signer-mem :
    (kind : Text) (entries : List Json) (entry : Fields)
    → find_signer kind entries ≡ some entry
    → Memᴰ (object entry) entries × (is_text (get entry (codes "signer_kind")) kind ≡ true)
unfolding find_signer
find_signer-mem kind [] entry e = cc
find_signer-mem kind (object s ∷ rest) entry e =
    elim (Bool-cases (is_text (get s (codes "signer_kind")) kind)) [
      | inl here ↦
          let same : s ≡ entry = ground arith in
          (
            Memᴰ.head (ap object (sym same)),
            subst (λ f. is_text (get f (codes "signer_kind")) kind ≡ true) same here,
          )
      | inr other ↦
          let (member, found) = find_signer-mem kind rest entry (ground arith) in
          (Memᴰ.tail member, found)
    ]
find_signer-mem kind (null ∷ rest) entry e =
    let (member, found) = find_signer-mem kind rest entry e in (Memᴰ.tail member, found)
find_signer-mem kind (undefined ∷ rest) entry e =
    let (member, found) = find_signer-mem kind rest entry e in (Memᴰ.tail member, found)
find_signer-mem kind (boolean b ∷ rest) entry e =
    let (member, found) = find_signer-mem kind rest entry e in (Memᴰ.tail member, found)
find_signer-mem kind (number n ∷ rest) entry e =
    let (member, found) = find_signer-mem kind rest entry e in (Memᴰ.tail member, found)
find_signer-mem kind (string s ∷ rest) entry e =
    let (member, found) = find_signer-mem kind rest entry e in (Memᴰ.tail member, found)
find_signer-mem kind (array xs ∷ rest) entry e =
    let (member, found) = find_signer-mem kind rest entry e in (Memᴰ.tail member, found)
find_signer-mem kind (foreign t ∷ rest) entry e =
    let (member, found) = find_signer-mem kind rest entry e in (Memᴰ.tail member, found)

module _ ⦃H : Sha256⦄ ⦃E : Ed25519⦄ where
  -- An entry of the manifest's signatures, by a device under that id, holds a text that the key accepts
  -- over the digest of the canonical bytes of the manifest with no signatures.
  pub record HasSignature (m : Fields) (key_id public_key : Text) : Type 0 where
    pub entry : Fields
    pub signature : Text
    pub bytes : Bytes
    pub listed : Memᴰ (object entry) (signature_list (get m (codes "signatures")))
    pub by_device : get entry (codes "signer_kind") ≡ string (codes "device")
    pub by_ed25519 : get entry (codes "algorithm") ≡ string (codes "ed25519")
    pub names_key : get entry (codes "key_id") ≡ string key_id
    pub carries : get entry (codes "signature") ≡ string signature
    pub encodes : canonicalize (object (set (codes "signatures") (array nil) m)) ≡ ok bytes
    pub accepts : E.verify (H.digest bytes) signature public_key ≡ true

  never_true : (m : Fields) → (do signing ← build_signing_digest m; ok false) ≢ ok true
  unfolding build_signing_digest
  never_true m e =
      elim (Result-cases (canonicalize (object (set (codes "signatures") (array nil) m)))) [
        | err (x, failed) ↦ absurd (ground arith)
        | ok (bytes, encodes) ↦ absurd (ground arith)
      ]

  verify_text_sound :
      (m : Fields) (v : Json) (public_key : Text)
      → verify_text m v public_key ≡ ok true
      → (signature : Text) × (bytes : Bytes) × (v ≡ string signature)
        × (canonicalize (object (set (codes "signatures") (array nil) m)) ≡ ok bytes)
        × (E.verify (H.digest bytes) signature public_key ≡ true)
  unfolding verify_text build_signing_digest
  verify_text_sound m (string s) public_key e =
      elim (Result-cases (canonicalize (object (set (codes "signatures") (array nil) m)))) [
        | err (x, failed) ↦ absurd (ground arith)
        | ok (bytes, encodes) ↦ (s, bytes, refl, encodes, ground arith)
      ]
  verify_text_sound m null public_key e = absurd (never_true m e)
  verify_text_sound m undefined public_key e = absurd (never_true m e)
  verify_text_sound m (boolean b) public_key e = absurd (never_true m e)
  verify_text_sound m (number n) public_key e = absurd (never_true m e)
  verify_text_sound m (array xs) public_key e = absurd (never_true m e)
  verify_text_sound m (object f) public_key e = absurd (never_true m e)
  verify_text_sound m (foreign t) public_key e = absurd (never_true m e)

  pub verify_manifest_signature_sound :
      (m : Fields) (key_id public_key : Text)
      → verify_manifest_signature m (codes "device") public_key (some key_id) ≡ ok true
      → HasSignature m key_id public_key
  unfolding verify_manifest_signature
  verify_manifest_signature_sound m key_id public_key e =
      elim (Option-cases
        (find_signer (codes "device") (signature_list (get m (codes "signatures"))))) [
          | inl missing ↦ absurd (ground arith)
          | inr (entry, found) ↦
              let (listed, by_device) = find_signer-mem (codes "device") _ entry found in
              let algorithm : is_text (get entry (codes "algorithm")) (codes "ed25519") ≡ true =
                ground arith in
              let named : is_text (get entry (codes "key_id")) key_id ≡ true = ground arith in
              let verified : verify_text m (get entry (codes "signature")) public_key ≡ ok true =
                ground arith in
              let (signature, bytes, carries, encodes, accepts) =
                verify_text_sound m (get entry (codes "signature")) public_key verified in
              record {
                entry = entry;
                signature = signature;
                bytes = bytes;
                listed = listed;
                by_device = is_text_sound _ _ by_device;
                by_ed25519 = is_text_sound _ _ algorithm;
                names_key = is_text_sound _ _ named;
                carries = carries;
                encodes = encodes;
                accepts = accepts;
              }
        ]
