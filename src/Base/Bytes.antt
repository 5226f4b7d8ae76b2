-- ===== src/Base/Bytes.antt =====
-- Byte buffers. A read past the list gives 0; that no such read matters is a theorem where the
-- code depends on it (`AgreeBelow`).
use Prim.Native.Nat.{ℕ, zero, suc, ◌+◌, ◌*◌, ◌/◌, ◌%◌, ◌<◌, ◌^◌}
use mathlib.Core.Path.{◌≡◌, refl, ap, ◌∙◌}
use native.Mathlib.Omega.{arith}
use mathlib.Core.List.{List, [], ◌∷◌, ◌++◌}
use knetutils.Base.Lists.{get_or, set, length, length-set}

abbrev pub byte_at : List ℕ → ℕ → ℕ
byte_at buf i = get_or buf i 0

-- A `u_short` as the host loads it.
abbrev pub le16 : List ℕ → ℕ → ℕ
le16 buf i = byte_at buf i + 256 * byte_at buf (i + 1)

-- `ntohs` and `ntohl` of the field at `i`.
abbrev pub be16 : List ℕ → ℕ → ℕ
be16 buf i = 256 * byte_at buf i + byte_at buf (i + 1)

abbrev pub be32 : List ℕ → ℕ → ℕ
be32 buf i = 65536 * be16 buf i + be16 buf (i + 2)

-- The bytes of a field in network order.
abbrev pub be16_bytes : ℕ → List ℕ
be16_bytes x = (x / 256 % 256) ∷ (x % 256) ∷ []

abbrev pub be32_bytes : ℕ → List ℕ
be32_bytes x = (x / 2 ^ 24 % 256) ∷ (x / 2 ^ 16 % 256) ∷ (x / 2 ^ 8 % 256) ∷ (x % 256) ∷ []

-- Two buffers that hold the same first `n` bytes; what lies behind is left over from earlier use.
abbrev pub AgreeBelow : ℕ → List ℕ → List ℕ → Type 0
AgreeBelow n b c = (i : ℕ) → i < n → byte_at b i ≡ byte_at c i

-- The bytes of a `u_short` as the host stores it.
abbrev pub le16_bytes : ℕ → List ℕ
le16_bytes x = (x % 256) ∷ (x / 256 % 256) ∷ []

-- A `u_int` as the host stores and loads it.
abbrev pub le32_bytes : ℕ → List ℕ
le32_bytes x = le16_bytes x ++ le16_bytes (x / 2 ^ 16)

abbrev pub le32 : List ℕ → ℕ → ℕ
le32 buf i = le16 buf i + 2 ^ 16 * le16 buf (i + 2)

abbrev pub IsBytes : List ℕ → Type 0
IsBytes [] = Unit
IsBytes (x ∷ xs) = (x < 256) × IsBytes xs

pub byte_at-append : (a b : List ℕ) (i : ℕ) → byte_at (a ++ b) (length a + i) ≡ byte_at b i
byte_at-append [] b i = ap (byte_at b) (omega arith)
byte_at-append (x ∷ a) b i =
    ap (byte_at (x ∷ (a ++ b))) (suc_add (length a) i) ∙ byte_at-append a b i
  where
    suc_add : (n k : ℕ) → suc n + k ≡ suc (n + k)
    suc_add n k = omega arith

-- `memcpy` of `bytes` to `buf + i`; a write out of bounds changes nothing.
abbrev pub write : List ℕ → ℕ → List ℕ → List ℕ
write buf i [] = buf
write buf i (x ∷ bytes) = write (set buf i x) (i + 1) bytes

pub length-write : (bytes buf : List ℕ) (i : ℕ) → length (write buf i bytes) ≡ length buf
length-write [] buf i = refl
length-write (x ∷ bytes) buf i = length-write bytes (set buf i x) (i + 1) ∙ length-set buf i x

pub byte_at-append_left : (a b : List ℕ) (i : ℕ) → i < length a → byte_at (a ++ b) i ≡ byte_at a i
byte_at-append_left [] b i h = absurd (omega arith)
byte_at-append_left (x ∷ a) b zero h = refl
byte_at-append_left (x ∷ a) b (suc i) h = byte_at-append_left a b i (omega arith)
