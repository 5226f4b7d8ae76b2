-- ===== src/Pscan/Ports.antt =====
-- The list of ports of `pscan_run`, and its shuffle. What `rand` returns in the round for index `i`
-- is `rand i`.
use knetutils.Base.{ℕ, zero, suc, ◌+◌, ◌-◌, ◌%◌, ◌≤◌, ◌<◌}
use knetutils.Base.{◌≡◌, refl, ap, ◌∙◌, inl, inr, arith}
use knetutils.Base.{Bool, ◌&&◌, List, [], ◌∷◌}
use knetutils.Base.{ltb, leb, ◌==◌, if◌then◌else◌, Bool-cases}
use knetutils.Base.{length, get_or, set}
use knetutils.Base.{length-set, get_or-set_self, get_or-set_ne}
use knetutils.Base.{u16}
use mathlib.Core.Path.{subst}
use native.Mathlib.Decide.{ℕ_discrete}
use knetutils.Pscan.State.{Config, num_ports}

-- `port_list[i] = config->start_port + i`, for `left` indices from `i` on.
fill : ℕ → ℕ → ℕ → List ℕ
fill start zero i = []
fill start (suc left) i = u16 (start + i) ∷ fill start left (i + 1)

swap : List ℕ → ℕ → ℕ → List ℕ
swap xs i j = set (set xs i (get_or xs j 0)) j (get_or xs i 0)

-- `for (i = num_ports - 1; i > 0; i--)`.
shuffle : (ℕ → ℕ) → ℕ → List ℕ → List ℕ
shuffle rand zero xs = xs
shuffle rand (suc i) xs = shuffle rand i (swap xs (suc i) (rand (suc i) % (suc i + 1)))

unfoldable pub port_list : Config → (ℕ → ℕ) → List ℕ
unfolding fill shuffle swap
port_list config rand =
    let ports = fill config.start_port (num_ports config) 0 in
    if config.randomize then shuffle rand (num_ports config - 1) ports else ports

-- How often a port stands in a list.
abbrev pub count : ℕ → List ℕ → ℕ
count a [] = 0
count a (x ∷ xs) = if a == x then suc (count a xs) else count a xs

abbrev one_if : Bool → ℕ
one_if b = if b then 1 else 0

count-set :
    (a : ℕ) (xs : List ℕ) (i v : ℕ)
    → i < length xs
    → count a (set xs i v) + one_if (a == get_or xs i 0) ≡ count a xs + one_if (a == v)
count-set a [] i v h = absurd (omega arith)
count-set a (x ∷ xs) zero v h = ground arith
count-set a (x ∷ xs) (suc i) v h = ground (arith, count-set a xs i v)

get_or-set_copy :
    (xs : List ℕ) (i j : ℕ) → i < length xs → get_or (set xs i (get_or xs j 0)) j 0 ≡ get_or xs j 0
get_or-set_copy xs i j hi = elim (ℕ_discrete i j) [
  | yes e ↦
      subst (λ k. get_or (set xs i (get_or xs j 0)) k 0 ≡ get_or xs j 0) e
        (get_or-set_self xs i (get_or xs j 0) 0 hi)
  | no n ↦ get_or-set_ne xs i j (get_or xs j 0) 0 n
]

count-swap :
    (a : ℕ) (xs : List ℕ) (i j : ℕ)
    → i < length xs
    → j < length xs
    → count a (swap xs i j) ≡ count a xs
unfolding swap
count-swap a xs i j hi hj =
    let ys : List ℕ = set xs i (get_or xs j 0) in
    omega (
      arith,
      count-set a xs i (get_or xs j 0) hi,
      count-set a ys j (get_or xs i 0) (omega (arith, length-set xs i (get_or xs j 0))),
      ap (λ v. one_if (a == v)) (get_or-set_copy xs i j hi),
    )

length-swap : (xs : List ℕ) (i j : ℕ) → length (swap xs i j) ≡ length xs
unfolding swap
length-swap xs i j = length-set _ j _ ∙ length-set xs i _

count-shuffle :
    (a : ℕ) (rand : ℕ → ℕ) (i : ℕ) (xs : List ℕ)
    → i < length xs
    → count a (shuffle rand i xs) ≡ count a xs
unfolding shuffle
count-shuffle a rand zero xs h = refl
count-shuffle a rand (suc i) xs h =
    count-shuffle a rand i (swap xs (suc i) (rand (suc i) % (suc i + 1)))
      (omega (arith, length-swap xs (suc i) (rand (suc i) % (suc i + 1))))
    ∙ count-swap a xs (suc i) (rand (suc i) % (suc i + 1)) h (omega arith)

length-fill : (start left i : ℕ) → length (fill start left i) ≡ left
unfolding fill
length-fill start zero i = refl
length-fill start (suc left) i = ap suc (length-fill start left (i + 1))

count-fill :
    (a start left i : ℕ)
    → start + i + left ≤ 65536
    → count a (fill start left i) ≡ one_if (leb (start + i) a && ltb a (start + i + left))
unfolding fill
count-fill a start zero i h = ground arith
count-fill a start (suc left) i h = ground (arith, count-fill a start left (i + 1))

-- Whatever `rand` returns, each port of the range is probed exactly once and no other is probed.
pub count-port_list :
    (config : Config) (rand : ℕ → ℕ) (a : ℕ)
    → config.start_port ≤ config.end_port
    → config.end_port < 65536
    → count a (port_list config rand)
      ≡ (if leb config.start_port a && leb a config.end_port then 1 else 0)
unfolding port_list
count-port_list config rand a le lt =
    let n : num_ports config ≡ config.end_port - config.start_port + 1 = omega arith in
    let c = count-fill a config.start_port (num_ports config) 0 (omega arith) in
    let base : count a (fill config.start_port (num_ports config) 0)
        ≡ (if leb config.start_port a && leb a config.end_port then 1 else 0) =
      ground (arith, c) in
    elim (Bool-cases config.randomize) [
      | inl on ↦ rw on (
          count-shuffle a rand (num_ports config - 1) (fill config.start_port (num_ports config) 0)
            (omega (arith, length-fill config.start_port (num_ports config) 0))
          ∙ base)
      | inr off ↦ rw off base
    ]
