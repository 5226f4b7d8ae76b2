-- ===== src/Net/Checksum/Verify.antt =====
-- A packet that carries its checksum sums to nothing: what a receiver checks.
use knetutils.Base.{ℕ, ◌+◌, ◌-◌, ◌*◌, ◌/◌, ◌%◌, ◌^◌, ◌≤◌, ◌<◌}
use knetutils.Base.{◌≡◌, ap, ◌∙◌, arith}
use knetutils.Base.{List, [], ◌∷◌, ◌++◌}
use knetutils.Base.{length}
use knetutils.Base.{u32}
use knetutils.Base.{le16_bytes, IsBytes}
use mathlib.Core.Path.{subst}
use native.Mathlib.Decide.{dec_lt}
use knetutils.Net.Checksum.{sum_words, calculate_checksum}

-- The sum of the 16-bit words, with no wrap.
abbrev word_sum : List ℕ → ℕ
word_sum [] = 0
word_sum (x ∷ []) = x
word_sum (x ∷ y ∷ rest) = x + 256 * y + word_sum rest

word_sum-le : (b : List ℕ) → IsBytes b → 2 * word_sum b ≤ 65535 * (length b + 1)
word_sum-le [] v = omega arith
word_sum-le (x ∷ []) v = omega arith
word_sum-le (x ∷ y ∷ rest) v = omega (arith, word_sum-le rest v.1.1)

sum_words_exact : (s : ℕ) (b : List ℕ) → s + word_sum b < 2 ^ 32 → sum_words s b ≡ s + word_sum b
unfolding sum_words
sum_words_exact s [] h = omega arith
sum_words_exact s (x ∷ []) h = omega arith
sum_words_exact s (x ∷ y ∷ rest) h =
    let e : u32 (s + (x + 256 * y)) ≡ s + (x + 256 * y) = omega arith in
    rw e (omega (arith, sum_words_exact (s + (x + 256 * y)) rest (omega arith)))

word_sum-append : (a b : List ℕ) → length a % 2 ≡ 0 → word_sum (a ++ b) ≡ word_sum a + word_sum b
word_sum-append [] b h = omega arith
word_sum-append (x ∷ []) b h = absurd (omega arith)
word_sum-append (x ∷ y ∷ a) b h = omega (arith, word_sum-append a b (omega arith))

fold : ℕ → ℕ
fold s =
    let folded = u32 (s / 2 ^ 16 + s % 2 ^ 16) in
    let twice = u32 (folded + folded / 2 ^ 16) in 65535 - twice % 2 ^ 16

fold_low : (h l : ℕ) → h + l < 65536 → fold (h * 65536 + l) ≡ 65535 - (h + l)
unfolding fold
fold_low h l b =
    let e : (h * 65536 + l) / 2 ^ 16 + (h * 65536 + l) % 2 ^ 16 ≡ h + l = omega arith in
    rw e (omega arith)

fold_high :
    (h l : ℕ) → 65536 ≤ h + l → h < 65536 → l < 65536 → fold (h * 65536 + l) ≡ 131070 - (h + l)
unfolding fold
fold_high h l b hb lb =
    let e : (h * 65536 + l) / 2 ^ 16 + (h * 65536 + l) % 2 ^ 16 ≡ h + l = omega arith in
    rw e (omega arith)

fold_at : (s h l : ℕ) → s ≡ h * 65536 + l → fold s ≡ fold (h * 65536 + l)
fold_at s h l e = ap fold e

fold_verifies_parts :
    (h l : ℕ)
    → h < 65536
    → l < 65536
    → h * 65536 + l + 65535 < 2 ^ 32
    → fold (h * 65536 + l + fold (h * 65536 + l)) ≡ 0
fold_verifies_parts h l hb lb b = elim (dec_lt (h + l) 65536) [
  | yes low ↦ rw (fold_low h l low) (
      fold_at (h * 65536 + l + (65535 - (h + l))) h (65535 - h) (omega arith)
      ∙ fold_low h (65535 - h) (omega arith)
      ∙ omega arith)
  | no high ↦ rw (fold_high h l (omega arith) hb lb) (
      fold_at (h * 65536 + l + (131070 - (h + l))) (h + 1) (65534 - h) (omega arith)
      ∙ fold_low (h + 1) (65534 - h) (omega arith)
      ∙ omega arith)
]

fold_verifies : (s : ℕ) → s + 65535 < 2 ^ 32 → fold (s + fold s) ≡ 0
fold_verifies s h =
    let e : s / 65536 * 65536 + s % 65536 ≡ s = omega arith in
    subst (λ t. fold (t + fold t) ≡ 0) e
      (fold_verifies_parts (s / 65536) (s % 65536) (omega arith) (omega arith) (omega arith))

fold-le : (s : ℕ) → fold s ≤ 65535
unfolding fold
fold-le s = omega arith

checksum_lem : (b : List ℕ) → word_sum b < 2 ^ 32 → calculate_checksum b ≡ fold (word_sum b)
unfolding calculate_checksum fold
checksum_lem b h =
    let e : sum_words 0 b ≡ word_sum b = omega (arith, sum_words_exact 0 b (omega arith)) in rw e

-- The packet `a ++ field ++ b`, whose checksum field holds `c`.
abbrev pub packet_with : List ℕ → ℕ → List ℕ → List ℕ
packet_with a c b = a ++ (le16_bytes c ++ b)

packet_sum :
    (a b : List ℕ) (c : ℕ)
    → length a % 2 ≡ 0
    → c ≤ 65535
    → word_sum (packet_with a c b) ≡ word_sum a + word_sum b + c
packet_sum a b c even h = omega (arith, word_sum-append a (le16_bytes c ++ b) even)

-- Over a packet whose checksum field, at an even offset, was filled with the checksum taken while
-- it was zero, the checksum is zero; for bytes, and at most 131068 bytes in all.
pub checksum_verifies :
    (a b : List ℕ)
    → IsBytes a
    → IsBytes b
    → length a % 2 ≡ 0
    → length a + length b ≤ 131066
    → calculate_checksum (packet_with a (calculate_checksum (packet_with a 0 b)) b) ≡ 0
checksum_verifies a b va vb even h =
    let s : ℕ = word_sum a + word_sum b in
    let small : s + 65535 < 2 ^ 32 = omega (arith, word_sum-le a va, word_sum-le b vb) in
    let filled = λ (c : ℕ) (hc : c ≤ 65535). packet_sum a b c even hc in
    let e0 : calculate_checksum (packet_with a 0 b) ≡ fold s =
      checksum_lem (packet_with a 0 b) (omega (arith, filled 0 (omega arith)))
      ∙ ap fold (omega (arith, filled 0 (omega arith))) in
    let e1 = filled (fold s) (fold-le s) in
    let small' : word_sum (packet_with a (fold s) b) < 2 ^ 32 = omega (arith, e1, fold-le s) in
    ap (λ c. calculate_checksum (packet_with a c b)) e0
    ∙ checksum_lem (packet_with a (fold s) b) small'
    ∙ ap fold e1
    ∙ fold_verifies s (omega arith)
