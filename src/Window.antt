-- ===== src/Window.antt =====
-- The loop that ping.c, arping.c and tcping.c share: it moves `next_timeout_check_seq` over the
-- probes that were answered or have timed out, and stops at one that is still awaited. A slot is
-- indexed by a u_short. `late` collects the probes that are reported as timed out.
pub mod Balance
use knetutils.Base.{ℕ, zero, suc, ◌+◌, ◌-◌, ◌/◌, ◌%◌, ◌^◌, ◌≤◌, ◌<◌}
use knetutils.Base.{◌≡◌, refl, sym, ap, ◌∙◌, ◌≢◌, ◌⊎◌, inl, inr, arith}
use knetutils.Base.{Bool, true, false, ◌||◌, Option, none, some}
use knetutils.Base.{leb, ◌==◌, if◌then◌else◌, Bool-cases}
use knetutils.Base.{update, List, [], ◌∷◌, ◌++◌, length, length-append, total, total-update}
use knetutils.Base.{u16, u32, u64}
use mathlib.Core.Path.{subst}
use native.Mathlib.Decide.{ℕ_discrete}

pub record Window : Type 0 where
  pub sent_times : ℕ → ℕ
  pub replied_or_timeout : ℕ → Bool
  pub next : ℕ
  pub late : List ℕ

-- `now >= st.sent_times[chk_seq] + config->timeout_ns`.
abbrev pub expired : ℕ → ℕ → Window → Bool
expired now timeout_ns w = leb (u64 (w.sent_times w.next + timeout_ns)) now

abbrev pub advance : Window → Window
advance w = record w { next = u16 (w.next + 1) }

abbrev pub settle : Window → Window
settle w = record w {
  replied_or_timeout = update w.replied_or_timeout w.next true;
  next = u16 (w.next + 1);
  late = w.late ++ (w.next ∷ []);
}

-- The loop up to `stop`, the sequence number of the next probe; `none` means that the fuel ran out.
unfoldable pub scan : ℕ → ℕ → ℕ → ℕ → Window → Option Window
scan zero now timeout_ns stop w = none
scan (suc fuel) now timeout_ns stop w =
    let passed = scan fuel now timeout_ns stop (advance w) in
    let settled = scan fuel now timeout_ns stop (settle w) in
    if w.next == stop
    then some w
    else if w.replied_or_timeout w.next
    then passed
    else if expired now timeout_ns w
    then settled
    else some w

-- `timeout_ms = diff / NS_PER_MS`, the bit pattern of an int, at least 1.
abbrev pub millis : ℕ → ℕ
millis diff = let ms = u32 (diff / 1_000_000) in if ms == 0 || leb (2 ^ 31) ms then 1 else ms

-- How many probes lie before `stop`.
abbrev pub distance : ℕ → ℕ → ℕ
distance next stop = (stop + 65536 - next) % 65536

-- What the loop leaves behind.
pub record IsScanned (now timeout_ns stop : ℕ) (w v : Window) : Type 0 where
  pub times : v.sent_times ≡ w.sent_times
  pub next_small : v.next < 65536
  pub stops :
      (v.next ≡ stop) ⊎ ((v.replied_or_timeout v.next ≡ false) × (expired now timeout_ns v ≡ false))
  pub nearer : distance v.next stop ≤ distance w.next stop
  pub passed :
      (k : ℕ)
      → k < distance w.next stop - distance v.next stop
      → v.replied_or_timeout ((w.next + k) % 65536) ≡ true
  pub counted :
      (n : ℕ)
      → 65536 ≤ n
      → total v.replied_or_timeout n + length w.late ≡ total w.replied_or_timeout n + length v.late
  pub kept : (j : ℕ) → w.replied_or_timeout j ≡ true → v.replied_or_timeout j ≡ true
  pub ahead :
      (k : ℕ)
      → distance w.next stop - distance v.next stop ≤ k
      → k < 65536
      → v.replied_or_timeout ((w.next + k) % 65536) ≡ w.replied_or_timeout ((w.next + k) % 65536)
  pub beyond : (j : ℕ) → 65536 ≤ j → v.replied_or_timeout j ≡ w.replied_or_timeout j

pub next_distance :
    (n s : ℕ) → n < 65536 → s < 65536 → n ≢ s → distance n s ≡ suc (distance (u16 (n + 1)) s)
next_distance n s hn hs ne = omega arith

stay :
    (now timeout_ns stop : ℕ) (w : Window)
    → w.next < 65536
    → (w.next ≡ stop) ⊎ ((w.replied_or_timeout w.next ≡ false) × (expired now timeout_ns w ≡ false))
    → IsScanned now timeout_ns stop w w
stay now timeout_ns stop w h s = record {
  times = refl;
  next_small = h;
  stops = s;
  nearer = omega arith;
  passed = λ k q. absurd (omega arith);
  counted = λ n b. refl;
  kept = λ j e. e;
  ahead = λ k p q. refl;
  beyond = λ j b. refl;
}

shift : (n k : ℕ) → (u16 (n + 1) + k) % 65536 ≡ (n + suc k) % 65536
shift n k = omega arith

ahead_differs : (n k : ℕ) → n < 65536 → 0 < k → k < 65536 → (n + k) % 65536 ≢ n
ahead_differs n k h p q = omega arith

-- One round that settles the slot at `w.next`, or finds it settled.
module _ (now timeout_ns stop : ℕ) (w w' v : Window) where
  passed_more :
      (k : ℕ)
      → w.next < 65536
      → w'.next ≡ u16 (w.next + 1)
      → w'.replied_or_timeout w.next ≡ true
      → distance w.next stop ≡ suc (distance w'.next stop)
      → IsScanned now timeout_ns stop w' v
      → k < distance w.next stop - distance v.next stop
      → v.replied_or_timeout ((w.next + k) % 65536) ≡ true
  passed_more zero small en et d r q =
      subst (λ j. v.replied_or_timeout j ≡ true) (omega arith) (r.kept w.next et)
  passed_more (suc k) small en et d r q =
      subst (λ j. v.replied_or_timeout j ≡ true) (ap (λ n. (n + k) % 65536) en ∙ shift w.next k)
        (r.passed k (omega arith))

  ahead_more :
      (k : ℕ)
      → w.next < 65536
      → w'.next ≡ u16 (w.next + 1)
      → ((j : ℕ) → j ≢ w.next → w'.replied_or_timeout j ≡ w.replied_or_timeout j)
      → distance w.next stop ≡ suc (distance w'.next stop)
      → IsScanned now timeout_ns stop w' v
      → distance w.next stop - distance v.next stop ≤ k
      → k < 65536
      → v.replied_or_timeout ((w.next + k) % 65536) ≡ w.replied_or_timeout ((w.next + k) % 65536)
  ahead_more zero small en same d r p q = absurd (omega (arith, r.nearer))
  ahead_more (suc k) small en same d r p q =
      subst (λ j. v.replied_or_timeout j ≡ w.replied_or_timeout j)
        (ap (λ n. (n + k) % 65536) en ∙ shift w.next k)
        (r.ahead k (omega (arith, r.nearer)) (omega arith)
          ∙ same ((w'.next + k) % 65536) (λ e.
            ahead_differs w.next (suc k) small (omega arith) q
              (sym (ap (λ n. (n + k) % 65536) en ∙ shift w.next k) ∙ e)))

  extend :
      w.next < 65536
      → stop < 65536
      → w.next ≢ stop
      → w'.next ≡ u16 (w.next + 1)
      → w'.sent_times ≡ w.sent_times
      → w'.replied_or_timeout w.next ≡ true
      → ((j : ℕ) → w.replied_or_timeout j ≡ true → w'.replied_or_timeout j ≡ true)
      → ((j : ℕ) → j ≢ w.next → w'.replied_or_timeout j ≡ w.replied_or_timeout j)
      → ((n : ℕ)
          → 65536 ≤ n
          → total w'.replied_or_timeout n + length w.late
            ≡ total w.replied_or_timeout n + length w'.late)
      → IsScanned now timeout_ns stop w' v
      → IsScanned now timeout_ns stop w v
  extend small fits ne en es et keep same one r =
      let d : distance w.next stop ≡ suc (distance w'.next stop) =
        rw en (next_distance w.next stop small fits ne) in
      record {
        times = r.times ∙ es;
        next_small = r.next_small;
        stops = r.stops;
        nearer = omega (arith, d, r.nearer);
        passed = λ k. passed_more k small en et d r;
        counted = λ n b. omega (arith, one n b, r.counted n b);
        kept = λ j e. r.kept j (keep j e);
        ahead = λ k. ahead_more k small en same d r;
        beyond = λ j b. r.beyond j b ∙ same j (λ e. omega (arith, e));
      }

update_self : (f : ℕ → Bool) (i : ℕ) → update f i true i ≡ true
update_self f i = ground arith

update_keeps : (f : ℕ → Bool) (i j : ℕ) → f j ≡ true → update f i true j ≡ true
update_keeps f i j h = ground arith

update_other : (f : ℕ → Bool) (i j : ℕ) → j ≢ i → update f i true j ≡ f j
update_other f i j h = ground arith

settle_counted :
    (w : Window)
    → w.next < 65536
    → w.replied_or_timeout w.next ≡ false
    → (n : ℕ) → 65536 ≤ n
    → total (settle w).replied_or_timeout n + length w.late
      ≡ total w.replied_or_timeout n + length (settle w).late
settle_counted w small waits n b = omega (
  arith,
  total-update w.replied_or_timeout w.next n (omega arith) waits,
  length-append w.late (w.next ∷ []),
)

-- With more fuel than there are probes before `stop` the loop ends. It passes over slots that are then
-- all settled, stops at `stop` or at a probe that is awaited and has not timed out, forgets no
-- answer, changes no slot from there on nor any time, and reports as many probes as late as it settles.
pub scan-IsScanned :
    (fuel now timeout_ns stop : ℕ) (w : Window)
    → w.next < 65536
    → stop < 65536
    → distance w.next stop < fuel
    → (v : Window) × (scan fuel now timeout_ns stop w ≡ some v) × IsScanned now timeout_ns stop w v
unfolding scan
scan-IsScanned zero now timeout_ns stop w small fits f = absurd (omega arith)
scan-IsScanned (suc fuel) now timeout_ns stop w small fits f = elim (ℕ_discrete w.next stop) [
  | yes e ↦ (w, ground arith, stay now timeout_ns stop w small (inl e))
  | no ne ↦
      let near : distance (u16 (w.next + 1)) stop < fuel =
        omega (arith, next_distance w.next stop small fits ne) in
      elim (Bool-cases (w.replied_or_timeout w.next)) [
        | inl done ↦
            let (v, e, r) =
              scan-IsScanned fuel now timeout_ns stop (advance w) (omega arith) fits near in
            (
              v,
              ground (arith, e),
              extend now timeout_ns stop w (advance w) v small fits ne refl refl done (λ j h. h)
                  (λ j h. refl) (λ n b. refl) r,
            )
        | inr waits ↦ elim (Bool-cases (expired now timeout_ns w)) [
          | inl late ↦
              let (v, e, r) =
                scan-IsScanned fuel now timeout_ns stop (settle w) (omega arith) fits near in
              (
                v,
                ground (arith, e),
                extend now timeout_ns stop w (settle w) v small fits ne refl refl
                    (update_self w.replied_or_timeout w.next)
                    (update_keeps w.replied_or_timeout w.next)
                    (update_other w.replied_or_timeout w.next) (settle_counted w small waits) r,
              )
          | inr early ↦ (w, ground arith, stay now timeout_ns stop w small (inr (waits, early)))
        ]
      ]
]
