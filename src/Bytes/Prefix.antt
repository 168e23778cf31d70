-- ===== src/Bytes/Prefix.antt =====
-- `lengthPrefix` and the tagged fields `uint32be(len) || bytes`: a sequence of them can be read back.
use proveria.Common.{ℕ, ◌<◌, ◌^◌, ◌≡◌, refl, [], ◌∷◌, ◌++◌, arith, length}
use proveria.Bytes.{Bytes, uint32be}

pub uint32be_injective : (m n : ℕ) → m < 2 ^ 32 → n < 2 ^ 32 → uint32be m ≡ uint32be n → m ≡ n
unfolding uint32be
uint32be_injective m n hm hn e = ground arith

pub append_injective : (a b c d : Bytes) → length a ≡ length b → a ++ c ≡ b ++ d → (a ≡ b) × (c ≡ d)
append_injective [] [] c d n e = (refl, e)
append_injective [] (y ∷ b) c d n e = absurd (omega arith)
append_injective (x ∷ a) [] c d n e = absurd (omega arith)
append_injective (x ∷ a) (y ∷ b) c d n e =
    let (same, rest) = append_injective a b c d (omega arith) (cc) in (cc, rest)

-- A field with its length in front, before what follows.
abbrev pub field : Bytes → Bytes → Bytes
field bytes rest = uint32be (length bytes) ++ (bytes ++ rest)

pub field_injective :
    (a b c d : Bytes)
    → length a < 2 ^ 32
    → length b < 2 ^ 32
    → field a c ≡ field b d
    → (a ≡ b) × (c ≡ d)
field_injective a b c d la lb e =
    let (sizes, rest) =
      append_injective (uint32be (length a)) (uint32be (length b)) _ _ (unfold uint32be in refl)
        e in
    append_injective a b c d (uint32be_injective (length a) (length b) la lb sizes) rest
