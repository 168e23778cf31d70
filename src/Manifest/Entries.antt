-- ===== src/Manifest/Entries.antt =====
-- What the loop over the leaf set accepts: every entry carries the leaf hash of what it declares.
use proveria.Common.{
  ℕ, ◌+◌, ◌≡◌, ◌∙◌, refl, sym, ap, subst, ◌<◌, Bool, true, false, not, Option, none, some, List, [],
  ◌∷◌, ◌++◌, arith, length, All, codes, Result, ok, >>=-eq-ok,
}
use proveria.Bytes.{Bytes, Text, before}
use proveria.Bytes.Order.{same_text_iff}
use proveria.Bytes.Hex.{is_hex64, to_hex}
use proveria.Json.{Json, string, object, array, null, undefined, boolean, number, foreign, Fields}
use proveria.Json.Access.{get}
use proveria.Crypto.{Error, Sha256}
use proveria.Crypto.LeafHash.{is_leaf_type, includes, compute_leaf_hash}
use proveria.Manifest.Checks.{Issue, issue, unless, Message}
use proveria.Manifest.Validate.{
  hex_text, known_leaf_type, is_none, entry_input, leaf_path, entry_hash, seen_after, prev_after,
  sorted_after, recompute_issues, entry_issues, leaf_issues, check_leaves, entry_hashes,
}

pub append-eq-nil {ℓ} : {A : Type ℓ} (xs ys : List A) → xs ++ ys ≡ [] → (xs ≡ []) × (ys ≡ [])
append-eq-nil [] ys e = (refl, e)
append-eq-nil (x ∷ xs) ys e = cc

pub unless-eq-nil : (b : Bool) (f : Text) (m : Message) → unless b (issue f m) ≡ [] → b ≡ true
unless-eq-nil true f m e = refl
unless-eq-nil false f m e = cc

pub hex_text-eq-some :
    (v : Json) {s : Text} → hex_text v ≡ some s → (v ≡ string s) × (is_hex64 s ≡ true)
unfolding hex_text
hex_text-eq-some (string t) e = ground arith
hex_text-eq-some null e = cc
hex_text-eq-some undefined e = cc
hex_text-eq-some (boolean b) e = cc
hex_text-eq-some (number n) e = cc
hex_text-eq-some (array xs) e = cc
hex_text-eq-some (object fs) e = cc
hex_text-eq-some (foreign t) e = cc

known_leaf_type-eq-some :
    (v : Json) {s : Text} → known_leaf_type v ≡ some s → (v ≡ string s) × (is_leaf_type s ≡ true)
unfolding known_leaf_type
known_leaf_type-eq-some (string t) e = ground arith
known_leaf_type-eq-some null e = cc
known_leaf_type-eq-some undefined e = cc
known_leaf_type-eq-some (boolean b) e = cc
known_leaf_type-eq-some (number n) e = cc
known_leaf_type-eq-some (array xs) e = cc
known_leaf_type-eq-some (object fs) e = cc
known_leaf_type-eq-some (foreign t) e = cc

some_of_form {ℓ} : {A : Type ℓ} (o : Option A) → not (is_none o) ≡ true → (a : A) × (o ≡ some a)
some_of_form none e = cc
some_of_form (some a) e = (a, refl)

not-eq-true : (b : Bool) → not b ≡ true → b ≡ false
not-eq-true true e = cc
not-eq-true false e = refl

pub ok_injective : {a b : List Issue} → ◌≡◌ {A = Result Error (List Issue)} (ok a) (ok b) → a ≡ b
ok_injective e = cc

module _ ⦃H : Sha256⦄ where
  -- An entry of the leaf set: its declared hash is the leaf hash of its declared type and payload.
  pub record IsEntry (leaf : Json) : Type 0 where
    pub fields : Fields
    pub leaf_type : Text
    pub payload : Text
    pub leaf_hash : Bytes
    pub is_object : leaf ≡ object fields
    pub has_type : get fields (codes "leaf_type") ≡ string leaf_type
    pub has_payload : get fields (codes "canonical_payload_hash") ≡ string payload
    pub has_hash : get fields (codes "leaf_hash") ≡ string (to_hex leaf_hash)
    pub known : is_leaf_type leaf_type ≡ true
    pub payload_hex : is_hex64 payload ≡ true
    pub hash_hex : is_hex64 (to_hex leaf_hash) ≡ true
    pub recomputes : compute_leaf_hash (entry_input leaf_type payload) ≡ ok leaf_hash

  recompute_issues_sound :
      (path leaf_type payload leaf_hash : Text)
      → recompute_issues path (some leaf_type) (some payload) leaf_hash ≡ ok []
      → (h : Bytes) × (compute_leaf_hash (entry_input leaf_type payload) ≡ ok h)
        × (to_hex h ≡ leaf_hash)
  unfolding recompute_issues
  recompute_issues_sound path leaf_type payload leaf_hash e =
      let (h, computed, rest) = >>=-eq-ok (compute_leaf_hash (entry_input leaf_type payload)) _ e in
      (h, computed, ground (arith, rest, same_text_iff (to_hex h) leaf_hash))

  entry_issues_sound :
      (path : Text) (v : Json) (leaf_type payload leaf_hash : Option Text) (seen : List Text)
      → entry_issues path v leaf_type payload leaf_hash seen ≡ ok []
      → (t p s : Text) × (leaf_type ≡ some t)
        × (payload ≡ some p)
        × (leaf_hash ≡ some s)
        × ((h : Bytes) × (compute_leaf_hash (entry_input t p) ≡ ok h) × (to_hex h ≡ s))
        × (includes seen s ≡ false)
  unfolding entry_issues
  entry_issues_sound path v none payload (some s) seen e =
      let (_, _, bad) = >>=-eq-ok (recompute_issues path none payload s) _ e in cc bad
  entry_issues_sound path v (some t) none (some s) seen e =
      let (_, _, bad) = >>=-eq-ok (recompute_issues path (some t) none s) _ e in cc bad
  entry_issues_sound path v none payload none seen e = cc
  entry_issues_sound path v (some t) none none seen e = cc
  entry_issues_sound path v (some t) (some p) none seen e = cc
  entry_issues_sound path v (some t) (some p) (some s) seen e =
      let (mismatch, found, rest) = >>=-eq-ok (recompute_issues path (some t) (some p) s) _ e in
      let (empty, fresh) = append-eq-nil mismatch _ (ok_injective rest) in
      (
        t,
        p,
        s,
        refl,
        refl,
        refl,
        recompute_issues_sound path t p s (rw empty at found),
        not-eq-true _ (unless-eq-nil (not (includes seen s)) _ _ fresh),
      )

  leaf_issues_sound :
      (i : ℕ) (leaf : Json) (seen : List Text)
      → leaf_issues i leaf seen ≡ ok []
      → (entry : IsEntry leaf) × (entry_hash leaf ≡ some (to_hex entry.leaf_hash))
        × (includes seen (to_hex entry.leaf_hash) ≡ false)
  unfolding leaf_issues entry_hash
  leaf_issues_sound i (object leaf) seen e =
      let (t, p, s, et, ep, es, (h, computed, same), new) =
        entry_issues_sound (leaf_path i) _ _ _ _ seen e in
      let (is_type, known) = known_leaf_type-eq-some _ et in
      let (is_payload, payload_hex) = hex_text-eq-some _ ep in
      let (is_hash, hash_hex) = hex_text-eq-some _ es in
      (
        record {
          fields = leaf;
          leaf_type = t;
          payload = p;
          leaf_hash = h;
          is_object = refl;
          has_type = is_type;
          has_payload = is_payload;
          has_hash = is_hash ∙ ap string (sym same);
          known = known;
          payload_hex = payload_hex;
          hash_hex = rw same hash_hex;
          recomputes = computed;
        },
        es ∙ ap some (sym same),
        rw same new,
      )
  leaf_issues_sound i null seen e = cc
  leaf_issues_sound i undefined seen e = cc
  leaf_issues_sound i (boolean b) seen e = cc
  leaf_issues_sound i (number n) seen e = cc
  leaf_issues_sound i (array xs) seen e = cc
  leaf_issues_sound i (string s) seen e = cc
  leaf_issues_sound i (foreign t) seen e = cc

-- Each hash is not before the one that precedes it; the first has none before it.
abbrev pub Ordered : Text → List Text → Type 0
Ordered prev [] = Unit
Ordered prev (h ∷ hs) = (0 < length prev → before h prev ≡ false) × Ordered h hs

in_order :
    (prev h : Text) (sorted : Bool)
    → sorted_after (some h) prev sorted ≡ true
    → (sorted ≡ true) × (0 < length prev → before h prev ≡ false)
in_order prev h sorted e = (ground arith, λ pos. ground arith)

entry_hashes-cons :
    (leaf : Json) (rest : List Json) (h : Text) (hs : List Text)
    → entry_hash leaf ≡ some h
    → entry_hashes rest ≡ some hs
    → entry_hashes (leaf ∷ rest) ≡ some (h ∷ hs)
unfolding entry_hashes
entry_hashes-cons leaf rest h hs e f = ground arith

module _ ⦃H : Sha256⦄ where
  -- The leaf set as the loop has seen it.
  pub record AreEntries (leaves : List Json) (prev : Text) : Type 0 where
    pub entries : All IsEntry leaves
    pub hashes : List Text
    pub found : entry_hashes leaves ≡ some hashes
    pub ordered : Ordered prev hashes

  pub check_leaves_sound :
      (i : ℕ) (leaves : List Json) (seen : List Text) (prev : Text) (sorted : Bool)
      → check_leaves i leaves seen prev sorted ≡ ok ([], true)
      → AreEntries leaves prev × (sorted ≡ true)
  unfolding check_leaves entry_hashes
  check_leaves_sound i [] seen prev sorted e =
      (record { entries = tt; hashes = []; found = refl; ordered = tt }, ground arith)
  check_leaves_sound i (leaf ∷ rest) seen prev sorted e =
      let (here, checked, e₁) = >>=-eq-ok (leaf_issues i leaf seen) _ e in
      let (later, looped, e₂) =
        >>=-eq-ok
          (check_leaves (i + 1) rest (seen_after (entry_hash leaf) seen)
            (prev_after (entry_hash leaf) prev) (sorted_after (entry_hash leaf) prev sorted))
          _ e₁ in
      let (no_here, no_later) = append-eq-nil here later.0 (ground (arith, e₂)) in
      let (entry, hash, _) = leaf_issues_sound i leaf seen (checked ∙ ap ok no_here) in
      let h = to_hex entry.leaf_hash in
      let looped' : check_leaves (i + 1) rest (seen_after (entry_hash leaf) seen)
            (prev_after (entry_hash leaf) prev) (sorted_after (entry_hash leaf) prev sorted)
          ≡ ok ([], true) =
        looped ∙ ap ok (ground (arith, no_later, e₂)) in
      let (tail, kept) =
        check_leaves_sound (i + 1) rest (seen_after (some h) seen) (prev_after (some h) prev)
          (sorted_after (some h) prev sorted)
          (subst
            (λ n.
              check_leaves (i + 1) rest (seen_after n seen) (prev_after n prev)
                (sorted_after n prev sorted)
              ≡ ok ([], true))
            hash looped') in
      let (was, here_ordered) = in_order prev h sorted kept in
      (
        record {
          entries = (entry, tail.entries);
          hashes = h ∷ tail.hashes;
          found = entry_hashes-cons leaf rest h tail.hashes hash tail.found;
          ordered = (here_ordered, tail.ordered);
        },
        was,
      )
