-- ===== src/Receipt/RoundTrip.antt =====
-- A signed receipt verifies.
use proveria.Common.{◌≡◌, ◌≤◌, refl, ap, true, some, List, [], ◌∷◌, arith, ok}
use proveria.Bytes.{Text, same_text}
use proveria.Bytes.Order.{same_text_iff}
use proveria.Json.{items}
use proveria.Json.Access.{set}
use proveria.Crypto.{Sha256}
use proveria.Crypto.Canonical.{is_safe}
use proveria.Crypto.Canonical.Total.{serializable, all_items, canonicalize-serializable}
use proveria.Crypto.Signing.{Ed25519, SigningDigest, without_signatures}
use proveria.Manifest.{SignatureEntry, LeafCounts}
use proveria.Receipt.{AttestationReceipt, receipt_fields, strings}
use proveria.Receipt.Sign.{
  build_receipt_signing_digest, sign_receipt, verify_receipt, verify_entry, find_proveria,
  with_signatures, proveria_signature,
}

-- The counts are integers that a double holds exactly.
pub record AreSafe (c : LeafCounts) : Type 0 where
  pub file : c.file ≤ 9007199254740991
  pub shingle : c.shingle ≤ 9007199254740991
  pub component : c.component ≤ 9007199254740991

strings-serializable : (ts : List Text) → all_items (items (strings ts)) ≡ true
unfolding serializable
strings-serializable [] = refl
strings-serializable (t ∷ ts) = strings-serializable ts

receipt-serializable :
    (r : AttestationReceipt)
    → AreSafe r.leaf_counts
    → serializable (without_signatures (receipt_fields r)) ≡ true
unfolding serializable receipt_fields set same_text is_safe
receipt-serializable r safe =
    ground
      (arith, strings-serializable r.extraction_methods, strings-serializable r.component_methods)

-- The digest leaves the signatures out.
without_signatures-with_signatures :
    (r : AttestationReceipt) (signatures : List SignatureEntry)
    → without_signatures (receipt_fields (with_signatures r signatures))
      ≡ without_signatures (receipt_fields r)
unfolding receipt_fields set same_text
without_signatures-with_signatures r signatures = refl

module _ ⦃H : Sha256⦄ ⦃E : Ed25519⦄ where
  digest_kept :
      (r : AttestationReceipt) (signatures : List SignatureEntry)
      → build_receipt_signing_digest (with_signatures r signatures) ≡ build_receipt_signing_digest r
  unfolding build_receipt_signing_digest
  digest_kept r signatures = rw (without_signatures-with_signatures r signatures) refl

  digest_exists :
      (r : AttestationReceipt)
      → AreSafe r.leaf_counts
      → (signing : SigningDigest) × (build_receipt_signing_digest r ≡ ok signing)
  unfolding build_receipt_signing_digest
  digest_exists r safe =
      let (bytes, e) = canonicalize-serializable _ (receipt-serializable r safe) in
      (record { canonical_bytes = bytes; digest = H.digest bytes }, rw e refl)

  module _ (r : AttestationReceipt) (key_id private_key : Text) where
    abbrev own_signature : SigningDigest → SignatureEntry
    own_signature signing = proveria_signature key_id (E.sign signing.digest private_key)

    signs :
        (signing : SigningDigest)
        → build_receipt_signing_digest r ≡ ok signing
        → sign_receipt r key_id private_key ≡ ok (with_signatures r (own_signature signing ∷ []))
    unfolding sign_receipt
    signs signing e = rw e refl

    verifies :
        (signing : SigningDigest)
        → build_receipt_signing_digest r ≡ ok signing
        → verify_receipt
            (with_signatures r (own_signature signing ∷ []))
            (E.public_key private_key)
            (some key_id)
          ≡ ok true
    unfolding verify_receipt verify_entry find_proveria same_text
    verifies signing e = rw ((same_text_iff key_id key_id).1 refl) (
        rw (digest_kept r (own_signature signing ∷ []))
          (rw e (ap ok (E.verify-sign signing.digest private_key))))

  -- A receipt whose counts a double holds exactly can be signed; the signed receipt verifies under
  -- the signer's public key and key id, and has the digest of the unsigned one.
  pub verify_receipt-sign_receipt :
      (r : AttestationReceipt) (key_id private_key : Text)
      → AreSafe r.leaf_counts
      → (signed : AttestationReceipt) × (sign_receipt r key_id private_key ≡ ok signed)
        × (verify_receipt signed (E.public_key private_key) (some key_id) ≡ ok true)
        × (build_receipt_signing_digest signed ≡ build_receipt_signing_digest r)
  verify_receipt-sign_receipt r key_id private_key safe =
      let (signing, e) = digest_exists r safe in
      let signatures = own_signature r key_id private_key signing ∷ [] in
      (
        with_signatures r signatures,
        signs r key_id private_key signing e,
        verifies r key_id private_key signing e,
        digest_kept r signatures,
      )
