-- ===== src/Bytes/Order.antt =====
-- `compare_bytes` is a total order whose equality is that of the arrays.
use proveria.Common.{Ordering, ◌≡◌, refl, ◌↔◌, true, false, [], ◌∷◌, arith}
use proveria.Common.Sort.{TotalOrder}
use proveria.Bytes.{Bytes, compare_bytes, not_after, bytes_equal, same_text}

pub compare_bytes_refl : (a : Bytes) → compare_bytes a a ≡ Ordering.eq
unfolding compare_bytes
compare_bytes_refl [] = refl
compare_bytes_refl (x ∷ a) = ground (arith, compare_bytes_refl a)

pub eq_of_compare_bytes : (a b : Bytes) → compare_bytes a b ≡ Ordering.eq → a ≡ b
unfolding compare_bytes
eq_of_compare_bytes [] [] h = refl
eq_of_compare_bytes [] (y ∷ b) h = cc
eq_of_compare_bytes (x ∷ a) [] h = cc
eq_of_compare_bytes (x ∷ a) (y ∷ b) h = ground (arith, eq_of_compare_bytes a b)

flip : Ordering → Ordering
flip Ordering.lt = Ordering.gt
flip Ordering.eq = Ordering.eq
flip Ordering.gt = Ordering.lt

compare_bytes-flip : (a b : Bytes) → compare_bytes b a ≡ flip (compare_bytes a b)
unfolding compare_bytes flip
compare_bytes-flip [] [] = refl
compare_bytes-flip [] (y ∷ b) = refl
compare_bytes-flip (x ∷ a) [] = refl
compare_bytes-flip (x ∷ a) (y ∷ b) = ground (arith, compare_bytes-flip a b)

not_after_total : (a b : Bytes) → not_after a b ≡ false → not_after b a ≡ true
unfolding not_after flip
not_after_total a b h = ground (arith, compare_bytes-flip a b)

not_after_trans :
    (a b c : Bytes) → not_after a b ≡ true → not_after b c ≡ true → not_after a c ≡ true
unfolding not_after
not_after_trans [] [] c h k = k
not_after_trans [] (y ∷ b) [] h k = cc
not_after_trans [] (y ∷ b) (z ∷ c) h k = refl
not_after_trans (x ∷ a) [] c h k = cc
not_after_trans (x ∷ a) (y ∷ b) [] h k = cc
not_after_trans (x ∷ a) (y ∷ b) (z ∷ c) h k = ground (arith, not_after_trans a b c)

pub not_after_antisym : (a b : Bytes) → not_after a b ≡ true → not_after b a ≡ true → a ≡ b
unfolding not_after flip
not_after_antisym a b h k = ground (arith, compare_bytes-flip a b, eq_of_compare_bytes a b)

pub not_after-TotalOrder : TotalOrder not_after
not_after-TotalOrder = record { total = not_after_total; le_trans = not_after_trans }

pub bytes_equal_iff : (a b : Bytes) → (bytes_equal a b ≡ true) ↔ (a ≡ b)
unfolding bytes_equal
bytes_equal_iff a b =
    (λ h. ground (arith, eq_of_compare_bytes a b), λ e. rw e (ground (arith, compare_bytes_refl b)))

same_text_refl : (a : Bytes) → same_text a a ≡ true
unfolding same_text
same_text_refl [] = refl
same_text_refl (x ∷ a) = ground (arith, same_text_refl a)

eq_of_same_text : (a b : Bytes) → same_text a b ≡ true → a ≡ b
unfolding same_text
eq_of_same_text [] [] h = refl
eq_of_same_text [] (y ∷ b) h = cc
eq_of_same_text (x ∷ a) [] h = cc
eq_of_same_text (x ∷ a) (y ∷ b) h = ground (arith, eq_of_same_text a b)

pub same_text_iff : (a b : Bytes) → (same_text a b ≡ true) ↔ (a ≡ b)
same_text_iff a b = (eq_of_same_text a b, λ e. rw e (same_text_refl b))
