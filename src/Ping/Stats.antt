-- ===== src/Ping/Stats.antt =====
-- The round-trip statistics of ping.c over a whole run.
use knetutils.Base.{ℕ, ◌+◌, ◌*◌, ◌/◌, ◌^◌, ◌≤◌, ◌<◌}
use knetutils.Base.{◌≡◌, refl, sym, ◌⊎◌, inl, inr, arith}
use knetutils.Base.{List, [], ◌∷◌}
use knetutils.Base.{u64}
use knetutils.Ping.State.{State, update_ping_stats}
use mathlib.Core.Path.{subst}

-- The state after the round-trip times of a list, the newest first.
abbrev pub after : State → List ℕ → State
after st [] = st
after st (x ∷ xs) = update_ping_stats (after st xs) x

abbrev pub sum : List ℕ → ℕ
sum [] = 0
sum (x ∷ xs) = sum xs + x

abbrev pub sum_us : List ℕ → ℕ
sum_us [] = 0
sum_us (x ∷ xs) = sum_us xs + x / 1000

abbrev pub sum_squares_us : List ℕ → ℕ
sum_squares_us [] = 0
sum_squares_us (x ∷ xs) = sum_squares_us xs + (x / 1000) * (x / 1000)

abbrev pub All : (ℕ → Type 0) → List ℕ → Type 0
All P [] = Unit
All P (x ∷ xs) = P x × All P xs

abbrev pub Member : ℕ → List ℕ → Type 0
Member m [] = ⊥
Member m (x ∷ xs) = (m ≡ x) ⊎ Member m xs

-- No time has been taken yet.
pub record IsFresh (st : State) : Type 0 where
  pub min_zero : st.rtt_min ≡ 0
  pub max_zero : st.rtt_max ≡ 0
  pub sum_zero : st.rtt_sum ≡ 0
  pub us_zero : st.rtt_sum_us ≡ 0
  pub squares_zero : st.rtt_sum_squares_us ≡ 0

-- The sums do not leave u_int64_t.
pub record Fits (xs : List ℕ) : Type 0 where
  pub sum_fits : sum xs < 2 ^ 64
  pub squares_fit : sum_squares_us xs < 2 ^ 64

sums_step :
    (st : State) (x : ℕ)
    → ((update_ping_stats st x).rtt_sum ≡ u64 (st.rtt_sum + x))
      × ((update_ping_stats st x).rtt_sum_us ≡ u64 (st.rtt_sum_us + x / 1000))
      × ((update_ping_stats st x).rtt_sum_squares_us
          ≡ u64 (st.rtt_sum_squares_us + u64 (x / 1000 * (x / 1000))))
unfolding update_ping_stats
sums_step st x = (refl, refl, refl)

us-le-sum : (xs : List ℕ) → sum_us xs ≤ sum xs
us-le-sum [] = omega arith
us-le-sum (x ∷ xs) = omega (arith, us-le-sum xs)

pub sums_exact :
    (st : State) (xs : List ℕ)
    → IsFresh st
    → Fits xs
    → ((after st xs).rtt_sum ≡ sum xs)
      × ((after st xs).rtt_sum_us ≡ sum_us xs)
      × ((after st xs).rtt_sum_squares_us ≡ sum_squares_us xs)
sums_exact st [] f h = omega arith
sums_exact st (x ∷ xs) f h =
    omega (arith, sums_exact st xs f (omega arith), sums_step (after st xs) x, us-le-sum xs)

AllPos : List ℕ → Type 0
AllPos xs = All (λ x. 0 < x) xs

All-weaken : (a b : ℕ) (xs : List ℕ) → a ≤ b → All (λ x. b ≤ x) xs → All (λ x. a ≤ x) xs
All-weaken a b [] h v = tt
All-weaken a b (x ∷ xs) h v = (omega arith, All-weaken a b xs h v.1)

All-weaken_above : (a b : ℕ) (xs : List ℕ) → a ≤ b → All (λ x. x ≤ a) xs → All (λ x. x ≤ b) xs
All-weaken_above a b [] h v = tt
All-weaken_above a b (x ∷ xs) h v = (omega arith, All-weaken_above a b xs h v.1)

-- What the extremes of the state are of the times taken: bounds that are among them.
record IsExtreme (st : State) (xs : List ℕ) : Type 0 where
  min_below : All (λ x. st.rtt_min ≤ x) xs
  min_taken : Member st.rtt_min xs
  max_above : All (λ x. x ≤ st.rtt_max) xs
  max_taken : Member st.rtt_max xs

Member-All : (m : ℕ) (xs : List ℕ) → Member m xs → All (λ x. 0 < x) xs → 0 < m
Member-All m [] i v = absurd i
Member-All m (x ∷ xs) (inl e) v = omega arith
Member-All m (x ∷ xs) (inr i) v = Member-All m xs i v.1

IsExtreme-one :
    (st : State) (x : ℕ) → IsFresh st → 0 < x → IsExtreme (update_ping_stats st x) (x ∷ [])
unfolding update_ping_stats
IsExtreme-one st x f pos = record {
  min_below = ground arith;
  min_taken = inl (ground arith);
  max_above = ground arith;
  max_taken = inl (ground arith);
}

min_cases :
    (st : State) (x : ℕ)
    → 0 < st.rtt_min
    → let m = (update_ping_stats st x).rtt_min in
      ((m ≡ x) × (x ≤ st.rtt_min)) ⊎ ((m ≡ st.rtt_min) × (st.rtt_min ≤ x))
unfolding update_ping_stats
min_cases st x h = ground arith

max_cases :
    (st : State) (x : ℕ)
    → let m = (update_ping_stats st x).rtt_max in
      ((m ≡ x) × (st.rtt_max ≤ x)) ⊎ ((m ≡ st.rtt_max) × (x ≤ st.rtt_max))
unfolding update_ping_stats
max_cases st x = ground arith

lower_bound :
    (m n x : ℕ) (xs : List ℕ)
    → ((n ≡ x) × (x ≤ m)) ⊎ ((n ≡ m) × (m ≤ x))
    → All (λ y. m ≤ y) xs
    → Member m xs
    → All (λ y. n ≤ y) (x ∷ xs) × Member n (x ∷ xs)
lower_bound m n x xs (inl (e, h)) a i = ((omega arith, All-weaken n m xs (omega arith) a), inl e)
lower_bound m n x xs (inr (e, h)) a i =
    ((omega arith, All-weaken n m xs (omega arith) a), inr (subst (λ t. Member t xs) (sym e) i))

upper_bound :
    (m n x : ℕ) (xs : List ℕ)
    → ((n ≡ x) × (m ≤ x)) ⊎ ((n ≡ m) × (x ≤ m))
    → All (λ y. y ≤ m) xs
    → Member m xs
    → All (λ y. y ≤ n) (x ∷ xs) × Member n (x ∷ xs)
upper_bound m n x xs (inl (e, h)) a i =
    ((omega arith, All-weaken_above m n xs (omega arith) a), inl e)
upper_bound m n x xs (inr (e, h)) a i = (
  (omega arith, All-weaken_above m n xs (omega arith) a),
  inr (subst (λ t. Member t xs) (sym e) i),
)

IsExtreme-more :
    (st : State) (x : ℕ) (xs : List ℕ)
    → IsExtreme st xs
    → All (λ y. 0 < y) xs
    → IsExtreme (update_ping_stats st x) (x ∷ xs)
IsExtreme-more st x xs v pos =
    let low =
      lower_bound st.rtt_min (update_ping_stats st x).rtt_min x xs
        (min_cases st x (Member-All st.rtt_min xs v.min_taken pos)) v.min_below v.min_taken in
    let high =
      upper_bound st.rtt_max (update_ping_stats st x).rtt_max x xs (max_cases st x) v.max_above
        v.max_taken in
    record { min_below = low.0; min_taken = low.1; max_above = high.0; max_taken = high.1 }

-- After one or more positive round-trip times `rtt_min` and `rtt_max` are the least and the greatest
-- of them.
after-IsExtreme :
    (st : State) (x : ℕ) (xs : List ℕ)
    → IsFresh st
    → All (λ y. 0 < y) (x ∷ xs)
    → IsExtreme (after st (x ∷ xs)) (x ∷ xs)
after-IsExtreme st x [] f pos = IsExtreme-one st x f pos.0
after-IsExtreme st x (y ∷ ys) f pos =
    IsExtreme-more (after st (y ∷ ys)) x (y ∷ ys) (after-IsExtreme st y ys f pos.1) pos.1
