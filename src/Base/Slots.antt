-- ===== src/Base/Slots.antt =====
-- How many of the slots of an array of flags are set.
use Prim.Native.Nat.{ℕ, zero, suc, ◌+◌, ◌-◌, ◌≤◌, ◌<◌, min}
use mathlib.Core.Path.{◌≡◌, refl, sym, subst}
use mathlib.Core.Bool.{Bool, true, false}
use native.Mathlib.Omega.{arith}
use native.Mathlib.Decide.{ℕ_discrete}
use knetutils.Base.Tests.{if◌then◌else◌}
use knetutils.Base.Lists.{update}

-- Of the first `n` slots.
abbrev pub total : (ℕ → Bool) → ℕ → ℕ
total f zero = 0
total f (suc n) = if f n then suc (total f n) else total f n

-- Slots that agree have the same total.
pub total-same : (f g : ℕ → Bool) (n : ℕ) → ((j : ℕ) → j < n → f j ≡ g j) → total f n ≡ total g n
total-same f g zero h = refl
total-same f g (suc n) h = ground (arith, h n, total-same f g n (λ j q. h j (omega arith)))

pub total-update :
    (f : ℕ → Bool) (i n : ℕ) → i < n → f i ≡ false → total (update f i true) n ≡ suc (total f n)
total-update f i zero h e = absurd (omega arith)
total-update f i (suc n) h e = elim (ℕ_discrete i n) [
  | yes p ↦
      let below = total-same (update f i true) f n (λ j q. ground arith) in
      ground (arith, below, subst (λ k. f k ≡ false) p e)
  | no ne ↦ ground (arith, total-update f i n (omega arith) e)
]

-- A slot that is cleared, though it was clear, changes nothing.
pub total-clear : (f : ℕ → Bool) (i n : ℕ) → f i ≡ false → total (update f i false) n ≡ total f n
total-clear f i n e = total-same (update f i false) f n (λ j q. elim (ℕ_discrete j i) [
  | yes p ↦ subst (λ k. update f i false k ≡ f k) (sym p) (ground (arith, e))
  | no ne ↦ ground arith
])

-- If no slot from `k` on is set, at most `k` are.
pub total-le : (f : ℕ → Bool) (k n : ℕ) → ((j : ℕ) → k ≤ j → f j ≡ false) → total f n ≤ min n k
total-le f k zero above = omega arith
total-le f k (suc n) above = ground (arith, above n, total-le f k n above)

-- If none below `first` and none from `k` on is set, at most `k - first` are.
pub total-between :
    (f : ℕ → Bool) (first k n : ℕ)
    → ((j : ℕ) → j < first → f j ≡ false)
    → ((j : ℕ) → k ≤ j → f j ≡ false)
    → total f n ≤ min n k - min n first
total-between f first k zero below above = omega arith
total-between f first k (suc n) below above =
    ground (arith, below n, above n, total-between f first k n below above)

module _ (f : ℕ → Bool) (first count : ℕ)
    (set : (j : ℕ) → first ≤ j → j < first + count → f j ≡ true)
    (below : (j : ℕ) → j < first → f j ≡ false)
    (above : (j : ℕ) → first + count ≤ j → f j ≡ false) where
  total-part : (n : ℕ) → total f n ≡ min n (first + count) - min n first
  total-part zero = omega arith
  total-part (suc n) = ground (arith, set n, below n, above n, total-part n)

  -- Set exactly from `first` to below `first + count`.
  pub total-range : (n : ℕ) → first + count ≤ n → total f n ≡ count
  total-range n room = omega (arith, total-part n)
