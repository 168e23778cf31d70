-- ===== src/Shingling/Passages.antt =====
-- Passages that a text contains (packages/shingling/src/shingle.ts): their text is that of a shingle.
use mathlib.Core.List.{Memᴰ}
use mathlib.Core.List.Memᴰ
use proveria.Common.{
  ℕ, zero, suc, ◌+◌, ◌*◌, ◌≤◌, ◌≡◌, refl, sym, ap, subst, List, [], ◌∷◌, ◌++◌, map, codes, arith,
  length, take, drop, ok, length-append,
}
use proveria.Bytes.{Text}
use proveria.Shingling.{ShinglePreset, PresetSpec, presets, Shingle, join_with, generate_shingles}
use proveria.Shingling.Windows.{
  window_count, windows_from, all_windows, texts_of, IsRoom, window_count-IsRoom,
}

drop-append : (a b : List Text) → drop (length a) (a ++ b) ≡ b
drop-append [] b = refl
drop-append (x ∷ a) b = drop-append a b

take-append : (a b : List Text) → take (length a) (a ++ b) ≡ a
take-append [] b = refl
take-append (x ∷ a) b = ap (λ r. x ∷ r) (take-append a b)

-- A position a number of strides on, where a window fits, is reached.
reached :
    (spec : PresetSpec) (tokens : List Text) (k i more : ℕ)
    → IsRoom spec (length tokens) i more
    → i + k * spec.stride + spec.window ≤ length tokens
    → Memᴰ
        (join_with (codes " ") (take spec.window (drop (i + k * spec.stride) tokens)))
        (windows_from spec tokens i more)
unfolding windows_from IsRoom
reached spec tokens k i zero room fits = absurd (omega arith)
reached spec tokens zero i (suc more) room fits =
    let start : i + 0 * spec.stride ≡ i = omega arith in Memᴰ.head (cc start)
reached spec tokens (suc k) i (suc more) room fits =
    let shift : i + suc k * spec.stride ≡ i + spec.stride + k * spec.stride = omega arith in
    Memᴰ.tail (
      subst
        (λ j.
          Memᴰ (join_with (codes " ") (take spec.window (drop j tokens)))
            (windows_from spec tokens (i + spec.stride) more))
        (sym shift) (reached spec tokens k (i + spec.stride) more room.1 (omega arith)))

mem-all_windows :
    (spec : PresetSpec) {tokens : List Text} (paragraphs : List (List Text)) {text : Text}
    → Memᴰ tokens paragraphs
    → Memᴰ text (windows_from spec tokens 0 (window_count spec (length tokens)))
    → Memᴰ text (all_windows spec paragraphs)
unfolding all_windows
mem-all_windows spec [] t m = elim t [ ]
mem-all_windows spec (first ∷ paragraphs) {text} (Memᴰ.head e) m =
    Memᴰ.append_left _
      (subst (λ t. Memᴰ text (windows_from spec t 0 (window_count spec (length t)))) e m)
mem-all_windows spec (first ∷ paragraphs) (Memᴰ.tail t) m =
    Memᴰ.append_right _ (mem-all_windows spec paragraphs t m)

-- If a paragraph contains a passage as long as the preset's window, behind a number of tokens that
-- the stride divides, then the passage's text is the text of a shingle.
pub generate_shingles_passage :
    (paragraphs : List (List Text)) (preset : ShinglePreset) (out : List Shingle)
    (head passage tail : List Text) (k : ℕ)
    → generate_shingles paragraphs preset ≡ ok out
    → Memᴰ (head ++ (passage ++ tail)) paragraphs
    → length passage ≡ (presets preset).window
    → length head ≡ k * (presets preset).stride
    → Memᴰ (join_with (codes " ") passage) (map (λ s. Shingle.text s) out)
generate_shingles_passage paragraphs preset out head passage tail k e m size at =
    let spec = presets preset in
    let tokens = head ++ (passage ++ tail) in
    let long : length tokens ≡ length head + (length passage + length tail) =
      cc (length-append head (passage ++ tail), length-append passage tail) in
    let there =
      reached spec tokens k 0 (window_count spec (length tokens))
        (window_count-IsRoom preset (length tokens)) (omega arith) in
    let start : 0 + k * spec.stride ≡ length head = omega arith in
    let cut : take spec.window (drop (0 + k * spec.stride) tokens) ≡ passage =
      cc (drop-append head (passage ++ tail), take-append passage tail, size, start) in
    let found = mem-all_windows spec paragraphs m there in
    subst (Memᴰ _) (sym (texts_of paragraphs preset out e))
      (subst (λ t. Memᴰ (join_with (codes " ") t) (all_windows spec paragraphs)) cut found)
