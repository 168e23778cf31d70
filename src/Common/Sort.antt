-- ===== src/Common/Sort.antt =====
-- `Array.prototype.sort`, which is stable: insertion sort by a test "not after".
use mathlib.Core.Path.{◌≡◌, refl, ap₂, sym, subst, subst₂, ◌∙◌}
use mathlib.Core.Logic.{inl, inr}
use mathlib.Core.Bool.{Bool, true, false}
use mathlib.Core.List.{List, [], ◌∷◌, Memᴰ, Permᴰ}
use mathlib.Core.List.Permᴰ
use native.Mathlib.Omega.{arith}
use proveria.Common.Tests.{if◌then◌else◌, Bool-cases}
use proveria.Common.Lists.{All, All-map_of}

module _ {ℓ} {A : Type ℓ} where
  unfoldable pub insert : (A → A → Bool) → A → List A → List A
  insert le x [] = x ∷ []
  insert le x (y ∷ ys) = if le x y then x ∷ y ∷ ys else y ∷ insert le x ys

  unfoldable pub sort : (A → A → Bool) → List A → List A
  unfolding insert
  sort le [] = []
  sort le (x ∷ xs) = insert le x (sort le xs)

-- A total order: what `sort` wants of its comparator.
pub record TotalOrder {ℓ} {A : Type ℓ} (le : A → A → Bool) : Type ℓ where
  pub total : (a b : A) → le a b ≡ false → le b a ≡ true
  pub le_trans : (a b c : A) → le a b ≡ true → le b c ≡ true → le a c ≡ true

module _ {ℓ} {A : Type ℓ} (le : A → A → Bool) where
  -- Each element is not after any of those behind it.
  abbrev pub IsSorted : List A → Type ℓ
  IsSorted [] = Unit
  IsSorted (x ∷ xs) = All (λ y. le x y ≡ true) xs × IsSorted xs

  pub insert-perm : (x : A) (xs : List A) → Permᴰ (insert le x xs) (x ∷ xs)
  unfolding insert
  insert-perm x [] = Permᴰ.refl (x ∷ [])
  insert-perm x (y ∷ ys) = elim (Bool-cases (le x y)) [
    | inl e ↦ rw e (Permᴰ.refl (x ∷ y ∷ ys))
    | inr e ↦ rw e (Permᴰ.trans (Permᴰ.cons refl (insert-perm x ys)) (Permᴰ.swap refl refl))
  ]

  pub sort-perm : (xs : List A) → Permᴰ (sort le xs) xs
  unfolding sort
  sort-perm [] = Permᴰ.nil
  sort-perm (x ∷ xs) = Permᴰ.trans (insert-perm x (sort le xs)) (Permᴰ.cons refl (sort-perm xs))

pub Permᴰ-mem {ℓ} : {A : Type ℓ} {a : A} {xs ys : List A} → Permᴰ xs ys → Memᴰ a xs → Memᴰ a ys
Permᴰ-mem Permᴰ.nil m = m
Permᴰ-mem (Permᴰ.cons e p) (Memᴰ.head h) = Memᴰ.head (h ∙ e)
Permᴰ-mem (Permᴰ.cons e p) (Memᴰ.tail m) = Memᴰ.tail (Permᴰ-mem p m)
Permᴰ-mem (Permᴰ.swap e f) (Memᴰ.head h) = Memᴰ.tail (Memᴰ.head (h ∙ e))
Permᴰ-mem (Permᴰ.swap e f) (Memᴰ.tail (Memᴰ.head h)) = Memᴰ.head (h ∙ f)
Permᴰ-mem (Permᴰ.swap e f) (Memᴰ.tail (Memᴰ.tail m)) = Memᴰ.tail (Memᴰ.tail m)
Permᴰ-mem (Permᴰ.trans p q) m = Permᴰ-mem q (Permᴰ-mem p m)

pub Permᴰ-symm {ℓ} : {A : Type ℓ} {xs ys : List A} → Permᴰ xs ys → Permᴰ ys xs
Permᴰ-symm Permᴰ.nil = Permᴰ.nil
Permᴰ-symm (Permᴰ.cons e p) = Permᴰ.cons (sym e) (Permᴰ-symm p)
Permᴰ-symm (Permᴰ.swap e f) = Permᴰ.swap (sym f) (sym e)
Permᴰ-symm (Permᴰ.trans p q) = Permᴰ.trans (Permᴰ-symm q) (Permᴰ-symm p)

pub Permᴰ-All {ℓ κ} :
    {A : Type ℓ} (P : A → Type κ) {xs ys : List A} → Permᴰ xs ys → All P xs → All P ys
Permᴰ-All P Permᴰ.nil h = h
Permᴰ-All P (Permᴰ.cons e p) h = (rw (← e) (h.0), Permᴰ-All P p h.1)
Permᴰ-All P (Permᴰ.swap e f) h = (rw (← f) (h.1.0), (rw (← e) (h.0), h.1.1))
Permᴰ-All P (Permᴰ.trans p q) h = Permᴰ-All P q (Permᴰ-All P p h)

module _ {ℓ} {A : Type ℓ} (le : A → A → Bool) (ord : TotalOrder le) where
  insert-IsSorted : (x : A) (xs : List A) → IsSorted le xs → IsSorted le (insert le x xs)
  unfolding insert
  insert-IsSorted x [] h = (tt, tt)
  insert-IsSorted x (y ∷ ys) h = elim (Bool-cases (le x y)) [
    | inl e ↦ rw e ((e, All-map_of _ _ (λ z k. ord.le_trans x y z e k) ys h.0), h)
    | inr e ↦ rw e (
      Permᴰ-All (λ z. le y z ≡ true) (Permᴰ-symm (insert-perm le x ys)) (ord.total x y e, h.0),
      insert-IsSorted x ys h.1,
    )
  ]

  pub sort-IsSorted : (xs : List A) → IsSorted le (sort le xs)
  unfolding sort
  sort-IsSorted [] = tt
  sort-IsSorted (x ∷ xs) = insert-IsSorted x (sort le xs) (sort-IsSorted xs)

-- Where elements that are not after one another are equal, the result depends on the items alone.
module _ {ℓ} {A : Type ℓ} (le : A → A → Bool) (ord : TotalOrder le)
    (antisym : (a b : A) → le a b ≡ true → le b a ≡ true → a ≡ b) where
  insert_comm :
      (x y : A) (zs : List A) → insert le x (insert le y zs) ≡ insert le y (insert le x zs)
  unfolding insert
  insert_comm x y [] = ground (arith, ord.total x y, antisym x y)
  insert_comm x y (z ∷ zs) = ground (
    arith,
    ord.total x y,
    antisym x y,
    ord.le_trans x y z,
    ord.le_trans y x z,
    insert_comm x y zs,
  )

  pub sort-eq_of_perm : {xs ys : List A} → Permᴰ xs ys → sort le xs ≡ sort le ys
  unfolding sort
  sort-eq_of_perm Permᴰ.nil = refl
  sort-eq_of_perm (Permᴰ.cons e p) = ap₂ (insert le) e (sort-eq_of_perm p)
  sort-eq_of_perm (Permᴰ.swap {a} {b} {l} e f) =
      insert_comm a b (sort le l) ∙ ap₂ (λ u v. insert le u (insert le v (sort le l))) f e
  sort-eq_of_perm (Permᴰ.trans p q) = sort-eq_of_perm p ∙ sort-eq_of_perm q

-- The same for items that are pairwise apart, where no two are each not after the other.
module _ {ℓ} {A : Type ℓ} (le : A → A → Bool) (ord : TotalOrder le) (Apart : A → A → Type ℓ)
    (symm : (a b : A) → Apart a b → Apart b a)
    (strict : (a b : A) → Apart a b → le a b ≡ true → le b a ≡ true → a ≡ b) where
  abbrev pub PairwiseApart : List A → Type ℓ
  PairwiseApart [] = Unit
  PairwiseApart (x ∷ xs) = All (Apart x) xs × PairwiseApart xs

  PairwiseApart-perm : {xs ys : List A} → Permᴰ xs ys → PairwiseApart xs → PairwiseApart ys
  PairwiseApart-perm Permᴰ.nil d = d
  PairwiseApart-perm (Permᴰ.cons {a} {b} {l₂} e p) (away, d) =
      (subst (λ x. All (Apart x) l₂) e (Permᴰ-All (Apart a) p away), PairwiseApart-perm p d)
  PairwiseApart-perm (Permᴰ.swap {a} {b} {a'} {b'} {l} e f) ((ab, al), (bl, d)) = (
    (subst₂ Apart f e (symm a b ab), subst (λ x. All (Apart x) l) f bl),
    (subst (λ x. All (Apart x) l) e al, d),
  )
  PairwiseApart-perm (Permᴰ.trans p q) d = PairwiseApart-perm q (PairwiseApart-perm p d)

  insert_comm_apart :
      (x y : A) (zs : List A)
      → Apart x y
      → insert le x (insert le y zs) ≡ insert le y (insert le x zs)
  unfolding insert
  insert_comm_apart x y [] h = ground (arith, ord.total x y, strict x y h)
  insert_comm_apart x y (z ∷ zs) h = ground (
    arith,
    ord.total x y,
    strict x y h,
    ord.le_trans x y z,
    ord.le_trans y x z,
    insert_comm_apart x y zs h,
  )

  pub sort-eq_of_perm_apart :
      {xs ys : List A} → Permᴰ xs ys → PairwiseApart xs → sort le xs ≡ sort le ys
  unfolding sort
  sort-eq_of_perm_apart Permᴰ.nil d = refl
  sort-eq_of_perm_apart (Permᴰ.cons e p) (_, d) = ap₂ (insert le) e (sort-eq_of_perm_apart p d)
  sort-eq_of_perm_apart (Permᴰ.swap {a} {b} {a'} {b'} {l} e f) ((ab, _), _) =
      insert_comm_apart a b (sort le l) ab ∙ ap₂ (λ u v. insert le u (insert le v (sort le l))) f e
  sort-eq_of_perm_apart (Permᴰ.trans p q) d =
      sort-eq_of_perm_apart p d ∙ sort-eq_of_perm_apart q (PairwiseApart-perm p d)
