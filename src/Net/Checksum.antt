-- ===== src/Net/Checksum.antt =====
-- `calculate_checksum` of net.c, the Internet checksum, on a little-endian host.
pub mod Verify
use knetutils.Base.{ℕ, ◌+◌, ◌-◌, ◌*◌, ◌/◌, ◌%◌, ◌^◌, List, [], ◌∷◌, u32}

-- `for (sum = 0; len > 1; len -= 2) sum += *buf++;` and the odd byte; the list is the `len` bytes.
sum_words : ℕ → List ℕ → ℕ
sum_words sum [] = sum
sum_words sum (x ∷ []) = u32 (sum + x)
sum_words sum (x ∷ y ∷ rest) = sum_words (u32 (sum + (x + 256 * y))) rest

unfoldable pub calculate_checksum : List ℕ → ℕ
unfolding sum_words
calculate_checksum buf =
    let sum = sum_words 0 buf in
    let folded = u32 (sum / 2 ^ 16 + sum % 2 ^ 16) in
    let twice = u32 (folded + folded / 2 ^ 16) in 65535 - twice % 2 ^ 16
