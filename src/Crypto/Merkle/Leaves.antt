-- ===== src/Crypto/Merkle/Leaves.antt =====
-- Which leaf sets `validateAndSort` accepts, and in which order it returns them.
use mathlib.Core.List.{Memᴰ, Permᴰ}
use mathlib.Core.Bool.{false≢true}
use proveria.Common.{
  ℕ, suc, ◌<◌, ◌≡◌, ◌≢◌, ◌∙◌, ◌↔◌, sym, refl, ap, subst, true, false, some, List, [], ◌∷◌, arith,
  length, All, All-map_of, Bool-cases, inl, inr, ok,
}
use proveria.Common.Sort.{
  sort, IsSorted, sort-perm, sort-IsSorted, sort-eq_of_perm, Permᴰ-symm, Permᴰ-All,
}
use proveria.Bytes.{Bytes, not_after, bytes_equal}
use proveria.Bytes.Order.{bytes_equal_iff, not_after-TotalOrder, not_after_antisym}
use proveria.Crypto.Merkle.{at, check_lengths, check_distinct, sort_and_validate_leaves, find_index}
use proveria.Crypto.Merkle.Levels.{Is32}

-- No hash occurs twice.
abbrev pub Distinct : List Bytes → Type 0
Distinct [] = Unit
Distinct (h ∷ rest) = All (λ k. h ≢ k) rest × Distinct rest

check_lengths_iff : (xs : List Bytes) → (check_lengths xs ≡ ok tt) ↔ All Is32 xs
unfolding check_lengths
check_lengths_iff [] = (λ _. tt, λ _. refl)
check_lengths_iff (x ∷ xs) =
    (λ e. ground (arith, check_lengths_iff xs), λ h. ground (arith, check_lengths_iff xs))

check_distinct_sound :
    (xs : List Bytes) → IsSorted not_after xs → check_distinct xs ≡ ok tt → Distinct xs
unfolding check_distinct
check_distinct_sound [] s e = tt
check_distinct_sound (x ∷ []) s e = (tt, tt)
check_distinct_sound (x ∷ y ∷ xs) ((xy, below), s) e =
    let ne : x ≢ y = ground (arith, bytes_equal_iff x y) in
    let away : All (λ z. x ≢ z) xs =
      All-map_of (λ z. not_after y z ≡ true) (λ z. x ≢ z)
        (λ z yz q. ne (not_after_antisym x y xy (rw q yz))) xs (s.0) in
    ((ne, away), check_distinct_sound (y ∷ xs) s (ground (arith, bytes_equal_iff x y)))

check_distinct_complete : (xs : List Bytes) → Distinct xs → check_distinct xs ≡ ok tt
unfolding check_distinct
check_distinct_complete [] d = refl
check_distinct_complete (x ∷ []) d = refl
check_distinct_complete (x ∷ y ∷ xs) ((ne, _), d) =
    ground (arith, bytes_equal_iff x y, check_distinct_complete (y ∷ xs) d)

Permᴰ-Distinct : {xs ys : List Bytes} → Permᴰ xs ys → Distinct xs → Distinct ys
Permᴰ-Distinct Permᴰ.nil d = d
Permᴰ-Distinct (Permᴰ.cons {a} {b} e p) (away, d) =
    (rw (← e) (Permᴰ-All (λ k. a ≢ k) p away), Permᴰ-Distinct p d)
Permᴰ-Distinct (Permᴰ.swap {l} e f) ((ab, al), (bl, d)) = (
  (λ q. ab (e ∙ sym q ∙ sym f), subst (λ x. All (λ k. x ≢ k) l) f bl),
  (subst (λ x. All (λ k. x ≢ k) l) e al, d),
)
Permᴰ-Distinct (Permᴰ.trans p q) d = Permᴰ-Distinct q (Permᴰ-Distinct p d)

-- What an accepted leaf set is.
pub record IsLeafSet (leaves : List Bytes) : Type 0 where
  pub inhabited : 0 < length leaves
  pub sizes : All Is32 leaves
  pub distinct : Distinct leaves

-- The sorted leaves are those that were given, in increasing order.
pub record IsCanonical (leaves sorted : List Bytes) : Type 0 where
  pub perm : Permᴰ sorted leaves
  pub increasing : IsSorted not_after sorted
  pub distinct : Distinct sorted
  pub sizes : All Is32 sorted
  pub inhabited : 0 < length sorted

Permᴰ-length : {xs ys : List Bytes} → Permᴰ xs ys → length xs ≡ length ys
Permᴰ-length Permᴰ.nil = refl
Permᴰ-length (Permᴰ.cons e p) = omega (arith, Permᴰ-length p)
Permᴰ-length (Permᴰ.swap e f) = refl
Permᴰ-length (Permᴰ.trans p q) = Permᴰ-length p ∙ Permᴰ-length q

sort_and_validate_leaves_sound :
    (leaves sorted : List Bytes)
    → sort_and_validate_leaves leaves ≡ ok sorted
    → (0 < length leaves)
      × All Is32 leaves
      × (check_distinct sorted ≡ ok tt)
      × (sorted ≡ sort not_after leaves)
unfolding sort_and_validate_leaves
sort_and_validate_leaves_sound leaves sorted e = ground (arith, check_lengths_iff leaves)

pub sort_and_validate_leaves-sorted :
    (leaves sorted : List Bytes)
    → sort_and_validate_leaves leaves ≡ ok sorted
    → sorted ≡ sort not_after leaves
sort_and_validate_leaves-sorted leaves sorted e =
    let (_, _, _, same) = sort_and_validate_leaves_sound leaves sorted e in same

-- An accepted set comes back as its canonical list.
pub sort_and_validate_leaves-IsCanonical :
    (leaves sorted : List Bytes)
    → sort_and_validate_leaves leaves ≡ ok sorted
    → IsCanonical leaves sorted
sort_and_validate_leaves-IsCanonical leaves sorted e =
    let (pos, sizes, checked, same) = sort_and_validate_leaves_sound leaves sorted e in
    let perm : Permᴰ sorted leaves = rw same (sort-perm not_after leaves) in
    let inc : IsSorted not_after sorted =
      rw same (sort-IsSorted not_after not_after-TotalOrder leaves) in
    record {
      perm = perm;
      increasing = inc;
      distinct = check_distinct_sound sorted inc checked;
      sizes = Permᴰ-All Is32 (Permᴰ-symm perm) sizes;
      inhabited = omega (arith, Permᴰ-length perm);
    }

pub sort_and_validate_leaves-eq-ok :
    (leaves : List Bytes)
    → IsLeafSet leaves
    → sort_and_validate_leaves leaves ≡ ok (sort not_after leaves)
unfolding sort_and_validate_leaves
sort_and_validate_leaves-eq-ok leaves h =
    let d = Permᴰ-Distinct (Permᴰ-symm (sort-perm not_after leaves)) h.distinct in
    ground (
      arith,
      check_lengths_iff leaves,
      check_distinct_complete (sort not_after leaves) d,
      h.inhabited,
      h.sizes,
    )

-- Accepted are exactly the non-empty lists of distinct 32-byte hashes.
pub sort_and_validate_leaves-eq-ok_iff :
    (leaves : List Bytes)
    → ((sorted : List Bytes) × (sort_and_validate_leaves leaves ≡ ok sorted)) ↔ IsLeafSet leaves
sort_and_validate_leaves-eq-ok_iff leaves = (
  λ (sorted, e).
      let c = sort_and_validate_leaves-IsCanonical leaves sorted e in
      let (pos, sizes, _, _) = sort_and_validate_leaves_sound leaves sorted e in
      record { inhabited = pos; sizes = sizes; distinct = Permᴰ-Distinct c.perm c.distinct },
  λ h. (sort not_after leaves, sort_and_validate_leaves-eq-ok leaves h),
)

-- The order in which the leaves are given does not matter.
pub sort_and_validate_leaves-perm :
    (xs ys sorted : List Bytes)
    → Permᴰ xs ys
    → sort_and_validate_leaves xs ≡ ok sorted
    → sort_and_validate_leaves ys ≡ ok sorted
sort_and_validate_leaves-perm xs ys sorted p e =
    let h = (sort_and_validate_leaves-eq-ok_iff xs).0 (sorted, e) in
    let k : IsLeafSet ys = record {
      inhabited = omega (arith, Permᴰ-length p, h.inhabited);
      sizes = Permᴰ-All Is32 p h.sizes;
      distinct = Permᴰ-Distinct p h.distinct;
    } in
    sort_and_validate_leaves-eq-ok ys k
    ∙ ap ok (sym (sort-eq_of_perm not_after not_after-TotalOrder not_after_antisym p))
    ∙ (sym (sort_and_validate_leaves-eq-ok xs h) ∙ e)

-- A leaf of the set is found at an index that holds it.
pub find_index-mem :
    (target : Bytes) (xs : List Bytes)
    → Memᴰ target xs
    → (i : ℕ) × (find_index target xs ≡ some i) × (i < length xs) × (at xs i ≡ target)
unfolding find_index
find_index-mem target [] m = elim m [ ]
find_index-mem target (x ∷ xs) m = elim (Bool-cases (bytes_equal x target)) [
  | inl same ↦ (0, rw same, omega arith, (bytes_equal_iff x target).0 same)
  | inr differs ↦
      let (i, e, lt, found) = find_index-mem target xs (behind m differs) in
      (suc i, rw differs (rw e), (suc-lt i (length xs) lt), found)
]
  where
    suc-lt : (a b : ℕ) → a < b → suc a < suc b
    suc-lt a b h = omega arith

    behind : Memᴰ target (x ∷ xs) → bytes_equal x target ≡ false → Memᴰ target xs
    behind (Memᴰ.head q) f = absurd (false≢true (sym f ∙ (bytes_equal_iff x target).1 (sym q)))
    behind (Memᴰ.tail n) f = n
