-- ===== src/Attestation/Validated.antt =====
-- What a validation that confirms has checked.
use proveria.Common.{
  ℕ, ◌≡◌, ◌∙◌, refl, ap, subst, true, Option, none, some, List, [], ◌∷◌, arith, codes, inl, inr,
  Bool-cases, Option-cases, Result-cases, ok, err, >>=-eq-ok, >>-eq-ok, All,
}
use proveria.Bytes.{Text}
use proveria.Json.{Json, null, undefined, boolean, number, string, array, object, foreign, Fields}
use proveria.Json.Access.{get}
use proveria.Crypto.{Sha256}
use proveria.Crypto.Signing.{Ed25519}
use proveria.Manifest.Checks.{Issue, is_text}
use proveria.Manifest.Validate.{validate_manifest}
use proveria.Manifest.Signed.{is_text_sound, HasSignature, verify_manifest_signature_sound}
use proveria.Attestation.{confirmed, Attestation, Attempt, World, is_attempt_uploaded}
use proveria.Attestation.Validation.{
  Device, Services, validated, validate_attempt, conclude, row_ids, object_of, checks, row_checks,
  id_checks, fetched, structural, plan_gate, signer_checks, confirmed_row, sibling_key,
}
use proveria.Attestation.Invariant.{update-hit}
use proveria.Attestation.Steps.{conclude-cases}

object_of_lem : (v : Json) (m : Fields) → object_of v ≡ ok m → v ≡ object m
object_of_lem (object n) m e = ground arith
object_of_lem null m e = cc
object_of_lem undefined m e = cc
object_of_lem (boolean b) m e = cc
object_of_lem (number n) m e = cc
object_of_lem (string s) m e = cc
object_of_lem (array xs) m e = cc
object_of_lem (foreign t) m e = cc

module _ ⦃H : Sha256⦄ ⦃E : Ed25519⦄ (S : Services) where
  -- The manifest is signed by the device of the attestation, which is known and not revoked.
  abbrev pub IsSigned : Fields → Option Text → Type 0
  IsSigned m none = Unit
  IsSigned m (some []) = Unit
  IsSigned m (some (c ∷ d)) =
      (device : Device) × (S.devices (c ∷ d) ≡ some device)
      × (device.revoked_at ≡ none)
      × HasSignature m (c ∷ d) device.public_key

  -- What stands behind a confirmation.
  pub record IsAccepted (key k t : Text) (att : Attestation) (m : Fields) : Type 0 where
    pub text : Text
    pub fetches : S.fetch_manifest key ≡ ok text
    pub parses : S.parse_json text ≡ ok (object m)
    pub no_issue : validate_manifest S.parses_date (object m) ≡ ok []
    pub names_attestation : get m (codes "attestation_id") ≡ string k
    pub names_attempt : get m (codes "attempt_id") ≡ string t
    pub names_tenant : get m (codes "tenant_id") ≡ string att.tenant_id
    pub names_project : get m (codes "project_id") ≡ string att.project_id
    pub names_user : get m (codes "created_by_user_id") ≡ string att.created_by_user_id
    pub signed : IsSigned m att.created_by_device_id

  id_checks_sound :
      (m : Fields) (ids : List (Text × Text))
      → id_checks m ids ≡ ok tt
      → All (λ i. is_text (get m i.0) i.1 ≡ true) ids
  unfolding id_checks
  id_checks_sound m [] e = tt
  id_checks_sound m ((name, actual) ∷ rest) e = elim (Bool-cases (is_text (get m name) actual)) [
    | inl same ↦ (same, id_checks_sound m rest (ground arith))
    | inr other ↦ absurd (ground arith)
  ]

  signer_checks_sound :
      (m : Fields) (device : Option Text) → signer_checks S m device ≡ ok tt → IsSigned m device
  signer_checks_sound m none e = tt
  signer_checks_sound m (some []) e = tt
  signer_checks_sound m (some (c ∷ d)) e = elim (Option-cases (S.devices (c ∷ d))) [
    | inl missing ↦ absurd (ground arith)
    | inr (device, found) ↦ elim (Option-cases device.revoked_at) [
      | inr (when, revoked) ↦ absurd (ground arith)
      | inl kept ↦ (
        device,
        found,
        kept,
        verify_manifest_signature_sound m (c ∷ d) device.public_key (ground arith),
      )
    ]
  ]

  no_issues :
      (v : Json) (m : Fields) (issues : List Issue)
      → validate_manifest S.parses_date v ≡ ok issues
      → structural S v ≡ ok m
      → (issues ≡ []) × (object_of v ≡ ok m)
  no_issues v m [] done e = (refl, ground arith)
  no_issues v m (i ∷ issues) done e = absurd (ground arith)

  structural_sound :
      (v : Json) (m : Fields)
      → structural S v ≡ ok m
      → (v ≡ object m) × (validate_manifest S.parses_date v ≡ ok [])
  structural_sound v m e = elim (Result-cases (validate_manifest S.parses_date v)) [
    | err (x, failed) ↦ absurd (ground arith)
    | ok (issues, done) ↦
        let (none_found, same) = no_issues v m issues done e in
        (object_of_lem v m same, done ∙ ap ok none_found)
  ]

  fetched_sound :
      (key : Text) (v : Json)
      → fetched S key ≡ ok v
      → (text : Text) × (S.fetch_manifest key ≡ ok text) × (S.parse_json text ≡ ok v)
  fetched_sound key v e = elim (Result-cases (S.fetch_manifest key)) [
    | err (x, failed) ↦ absurd (ground arith)
    | ok (text, found) ↦ elim (Result-cases (S.parse_json text)) [
      | err (x, failed) ↦ absurd (ground arith)
      | ok (w, parsed) ↦ (text, found, ground arith)
    ]
  ]

  checks_sound :
      (key k t : Text) (att : Attestation) (m : Fields)
      → checks S key k t att ≡ ok m
      → IsAccepted key k t att m
  unfolding checks row_checks
  checks_sound key k t att m e =
      let (v, is_fetched, e₁) = >>=-eq-ok (fetched S key) _ e in
      let (n, is_structural, e₂) = >>=-eq-ok (structural S v) _ e₁ in
      let (text, fetches, parses) = fetched_sound key v is_fetched in
      let (_, rows, e₃) = >>-eq-ok (row_checks S n k t att) (ok n) e₂ in
      let (whole, valid) = structural_sound v n is_structural in
      let kept : n ≡ m = ground arith in
      let (_, ids, e₄) = >>-eq-ok (id_checks n (row_ids k t att)) _ rows in
      let (_, _, signer) = >>-eq-ok (plan_gate S n att.tenant_id) _ e₄ in
      let named : All (λ i. is_text (get n i.0) i.1 ≡ true) (row_ids k t att) =
        id_checks_sound n (row_ids k t att) ids in
      subst (IsAccepted key k t att) kept (record {
        text = text;
        fetches = fetches;
        parses = parses ∙ ap ok whole;
        no_issue = subst (λ x. validate_manifest S.parses_date x ≡ ok []) whole valid;
        names_attestation = is_text_sound _ _ named.0;
        names_attempt = is_text_sound _ _ named.1.0;
        names_tenant = is_text_sound _ _ named.1.1.0;
        names_project = is_text_sound _ _ named.1.1.1.0;
        names_user = is_text_sound _ _ named.1.1.1.1.0;
        signed = signer_checks_sound n att.created_by_device_id signer;
      })

  -- If a validation confirms an uploaded attempt of an attestation that was never confirmed, then its
  -- stored manifest has no issue, names the attestation, the attempt, the tenant, the project and the
  -- user, and is signed by the attestation's device if it has one, known and not revoked: an entry of its
  -- signatures names the device and holds a text that the device's key accepts over the digest of the
  -- unsigned manifest; the attestation ends confirmed with this attempt and the manifest's root.
  pub validate_attempt_sound :
      (k t : Text) (att : Attestation) (attempt : Attempt) (now : ℕ) (w w' : World)
      → w.attempts t ≡ some attempt
      → attempt.attestation_id ≡ k
      → w.attestations k ≡ some att
      → is_attempt_uploaded attempt.state ≡ true
      → att.confirmed_at ≡ none
      → validate_attempt S t now w ≡ ok (validated, w')
      → (key : Text) × (m : Fields) × (row : Attestation) × (attempt.manifest_object_key ≡ some key)
        × IsAccepted key k t att m
        × (w'.attestations k ≡ some row)
        × (row.state ≡ confirmed)
        × (row.confirmed_attempt_id ≡ some t)
        × (row.merkle_root ≡ some (get m (codes "merkle_root")))
  unfolding validate_attempt
  validate_attempt_sound k t att attempt now w w' found mine row state first e =
      elim (Option-cases attempt.manifest_object_key) [
        | inl no_key ↦ absurd (ground arith)
        | inr (key, has_key) ↦
            let here : w.attestations attempt.attestation_id ≡ some att =
              ap w.attestations mine ∙ row in
            let concluded : conclude S (checks S key attempt.attestation_id t att) key
                  attempt.attestation_id t att now w
                ≡ ok (validated, w') =
              ground arith in
            let owned =
              subst (λ j. conclude S (checks S key j t att) key j t att now w ≡ ok (validated, w'))
                mine concluded in
            elim (conclude-cases S (checks S key k t att) key k t att now w w' validated owned) [
              | inr (error, stopped, is_failure, written, same) ↦ absurd (ground arith)
              | inl (m, checked, is_valid, same) ↦ (
                key,
                m,
                _,
                has_key,
                checks_sound key k t att m checked,
                ap (λ x. x.attestations k) same
                    ∙ update-hit k
                        (confirmed_row t key (sibling_key key (codes "leaves.jsonl"))
                          (get m (codes "merkle_root")) now)
                        w.attestations row,
                rw first refl,
                rw first refl,
                rw first refl,
              )
            ]
      ]
