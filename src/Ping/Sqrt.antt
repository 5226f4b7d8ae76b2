-- ===== src/Ping/Sqrt.antt =====
-- `integer_sqrt` of ping.c: the digit-by-digit square root of a u_int64_t.
use knetutils.Base.{ℕ, zero, suc, ◌+◌, ◌-◌, ◌*◌, ◌/◌, ◌^◌, ◌≤◌, ◌<◌}
use knetutils.Base.{◌≡◌, refl, ap, ◌∙◌, arith}
use knetutils.Base.{Option, none, some}
use knetutils.Base.{ltb, leb, ◌==◌, if◌then◌else◌}
use knetutils.Base.{u64, sub64}
use native.Mathlib.Nat.{pow-suc, one-le-pow}
use mathlib.Core.Path.{subst}
use native.Mathlib.Decide.{dec_le}

-- `while (bit > n) bit >>= 2;`
lower_bit : ℕ → ℕ → ℕ → ℕ
lower_bit zero bit n = bit
lower_bit (suc fuel) bit n =
    let rest = lower_bit fuel (bit / 4) n in if ltb n bit then rest else bit

-- `while (bit != 0) { ... }`; the sums are those of u_int64_t. `none` means that the fuel ran out.
root_loop : ℕ → ℕ → ℕ → ℕ → Option ℕ
root_loop zero n root bit = none
root_loop (suc fuel) n root bit =
    let taken = root_loop fuel (sub64 n (u64 (root + bit))) (u64 (root / 2 + bit)) (bit / 4) in
    let left = root_loop fuel n (root / 2) (bit / 4) in
    if bit == 0 then some root else if leb (u64 (root + bit)) n then taken else left

unfoldable pub integer_sqrt : ℕ → Option ℕ
unfolding lower_bit root_loop
integer_sqrt n = root_loop 33 n 0 (lower_bit 33 (2 ^ 62) n)

-- `a` is what is found of the root, a multiple of `p`; the next digit to try is `p / 2`.
record Inv (n₀ p a n root : ℕ) : Type 0 where
  split : n₀ ≡ n + a * a
  scaled : root ≡ a * p
  above : n₀ < (a + p) * (a + p)
  small : a + p ≤ 2 ^ 32

-- The `bit` that goes with `p = 2 ^ j`: the square of the next digit, 0 after the last.
abbrev bit_of : ℕ → ℕ
bit_of zero = 0
bit_of (suc j) = 2 ^ j * 2 ^ j

sq_mono : (x y : ℕ) → x ≤ y → x * x ≤ y * y
sq_mono x y h = grind arith

square_fits : (a q : ℕ) → a + 2 * q ≤ 2 ^ 32 → 1 ≤ q → a * (2 * q) + q * q < 2 ^ 64
square_fits a q h k = omega (arith, sq_mono (a + q) (2 ^ 32 - 1) (omega arith))

take_digit :
    (n₀ q a n root : ℕ)
    → Inv n₀ (2 * q) a n root
    → root + q * q ≤ n
    → Inv n₀ q (a + q) (n - (root + q * q)) (root / 2 + q * q)
take_digit n₀ q a n root v t = record {
  split = omega arith;
  scaled = omega arith;
  above = omega arith;
  small = omega arith;
}

skip_digit :
    (n₀ q a n root : ℕ) → Inv n₀ (2 * q) a n root → n < root + q * q → Inv n₀ q a n (root / 2)
skip_digit n₀ q a n root v t = record {
  split = omega arith;
  scaled = omega arith;
  above = omega arith;
  small = omega arith;
}

bit_of_quarter : (j : ℕ) → bit_of (suc j) / 4 ≡ bit_of j
bit_of_quarter zero = refl
bit_of_quarter (suc j) = rw (pow-suc 2 j) (omega arith)

abbrev pub IsRoot : ℕ → ℕ → Type 0
IsRoot n r = (r * r ≤ n) × (n < (r + 1) * (r + 1))

root_loop_taken :
    (fuel n root b : ℕ)
    → 1 ≤ b
    → root + b < 2 ^ 64
    → root + b ≤ n
    → n < 2 ^ 64
    → root_loop (suc fuel) n root b ≡ root_loop fuel (n - (root + b)) (root / 2 + b) (b / 4)
unfolding root_loop
root_loop_taken fuel n root b pos sum t k =
    let e : u64 (root + b) ≡ root + b = omega arith in
    let f : sub64 n (u64 (root + b)) ≡ n - (root + b) = omega arith in
    let g : u64 (root / 2 + b) ≡ root / 2 + b = omega arith in rw (f, g) (ground arith)

root_loop_skipped :
    (fuel n root b : ℕ)
    → 1 ≤ b
    → root + b < 2 ^ 64
    → n < root + b
    → root_loop (suc fuel) n root b ≡ root_loop fuel n (root / 2) (b / 4)
unfolding root_loop
root_loop_skipped fuel n root b pos sum t = ground arith

lower_bit_again : (fuel b n : ℕ) → n < b → lower_bit (suc fuel) b n ≡ lower_bit fuel (b / 4) n
unfolding lower_bit
lower_bit_again fuel b n h = ground arith

two_pow_suc : (j : ℕ) → 2 ^ suc j ≡ 2 * 2 ^ j
two_pow_suc j = omega (arith, pow-suc 2 j)

pow_mono : (i j : ℕ) → i ≤ j → 2 ^ i ≤ 2 ^ j
pow_mono i zero h = let e : i ≡ 0 = omega arith in rw e (omega arith)
pow_mono i (suc j) h = elim (dec_le i j) [
  | yes le ↦ omega (arith, two_pow_suc j, pow_mono i j le)
  | no gt ↦ let e : i ≡ suc j = omega arith in rw e (omega arith)
]

root_loop_lem :
    (fuel j n₀ a n root : ℕ)
    → j < fuel
    → n < 2 ^ 64
    → Inv n₀ (2 ^ j) a n root
    → (r : ℕ) × (root_loop fuel n root (bit_of j) ≡ some r) × IsRoot n₀ r
unfolding root_loop
root_loop_lem zero j n₀ a n root h k v = absurd (omega arith)
root_loop_lem (suc fuel) zero n₀ a n root h k v =
    (root, refl, let e : root ≡ a = omega arith in rw e (omega arith))
root_loop_lem (suc fuel) (suc j) n₀ a n root h k v =
    let e : 2 ^ suc j ≡ 2 * 2 ^ j = two_pow_suc j in
    let w : Inv n₀ (2 * 2 ^ j) a n root = subst (λ x. Inv n₀ x a n root) e v in
    let pos : 1 ≤ 2 ^ j = one-le-pow j 2 (omega arith) in
    let pos' : 1 ≤ 2 ^ j * 2 ^ j = grind arith in
    let sum : root + 2 ^ j * 2 ^ j < 2 ^ 64 = omega (arith, square_fits a (2 ^ j) w.small pos) in
    elim (dec_le (root + 2 ^ j * 2 ^ j) n) [
      | yes t ↦
          rw (root_loop_taken fuel n root (2 ^ j * 2 ^ j) pos' sum t k, bit_of_quarter j)
            (root_loop_lem fuel j n₀ (a + 2 ^ j) (n - (root + 2 ^ j * 2 ^ j))
              (root / 2 + 2 ^ j * 2 ^ j) (omega arith) (omega arith)
              (take_digit n₀ (2 ^ j) a n root w t))
      | no f ↦
          rw
            (root_loop_skipped fuel n root (2 ^ j * 2 ^ j) pos' sum (omega arith), bit_of_quarter j)
            (root_loop_lem fuel j n₀ a n (root / 2) (omega arith) k
              (skip_digit n₀ (2 ^ j) a n root w (omega arith)))
    ]

lower_bit_lem :
    (fuel j n : ℕ)
    → j ≤ fuel
    → n < 2 ^ j * 2 ^ j
    → (i : ℕ) × (i ≤ j) × (n < 2 ^ i * 2 ^ i) × (lower_bit fuel (bit_of j) n ≡ bit_of i)
unfolding lower_bit
lower_bit_lem zero zero n h b = (0, omega arith, b, refl)
lower_bit_lem zero (suc j) n h b = absurd (omega arith)
lower_bit_lem (suc fuel) zero n h b = (0, omega arith, b, ground arith)
lower_bit_lem (suc fuel) (suc j) n h b = elim (dec_le (2 ^ j * 2 ^ j) n) [
  | yes t ↦ (suc j, omega arith, b, ground arith)
  | no f ↦
      let (i, le, lt, e) = lower_bit_lem fuel j n (omega arith) (omega arith) in
      (
        i,
        omega arith,
        lt,
        lower_bit_again fuel (2 ^ j * 2 ^ j) n (omega arith) ∙ rw (bit_of_quarter j) e,
      )
]

integer_sqrt_lem : (n : ℕ) → integer_sqrt n ≡ root_loop 33 n 0 (lower_bit 33 (2 ^ 62) n)
unfolding integer_sqrt
integer_sqrt_lem n = refl

-- `integer_sqrt` ends, within its fuel, and gives the integer square root of every u_int64_t: the number whose square
-- is at most `n` while that of its successor is above it.
pub integer_sqrt-IsRoot : (n : ℕ) → n < 2 ^ 64 → (r : ℕ) × (integer_sqrt n ≡ some r) × IsRoot n r
integer_sqrt-IsRoot n h =
    let (i, le, lt, e) = lower_bit_lem 33 32 n (omega arith) (omega arith) in
    let p : 2 ^ i ≤ 2 ^ 32 = pow_mono i 32 le in
    let start : Inv n (2 ^ i) 0 n 0 = omega arith in
    let (r, q, root) = root_loop_lem 33 i n 0 n 0 (omega arith) h start in
    (r, integer_sqrt_lem n ∙ ap (root_loop 33 n 0) e ∙ q, root)
