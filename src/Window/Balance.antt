-- ===== src/Window/Balance.antt =====
-- The books of a tool that numbers its probes from `first` on: how many slots are settled, against how many
-- answers and how many timeouts it has reported. For the loops that src/ping.c and src/tcping.c share.
use knetutils.Base.{ℕ, suc, ◌+◌, ◌-◌, ◌%◌, ◌≤◌, ◌<◌}
use knetutils.Base.{◌≡◌, refl, sym, ◌∙◌, ◌⊎◌, inl, inr, arith}
use knetutils.Base.{Bool, true, false, []}
use knetutils.Base.{length, total, total-update, total-clear, total-range}
use knetutils.Base.{update}
use knetutils.Base.{u32}
use knetutils.Base.{total-le, total-between}
use mathlib.Core.Path.{subst}
use native.Mathlib.Decide.{dec_le}
use knetutils.Window.{Window, IsScanned}

-- A slot is settled only from `first` to below `seq`, the next number, and once for each reply or timeout.
pub record IsBalanced (settled : ℕ → Bool) (first seq received replies timeouts : ℕ) : Type 0 where
  pub below : (j : ℕ) → j < first → settled j ≡ false
  pub above : (j : ℕ) → seq ≤ j → settled j ≡ false
  pub all_received : received ≡ replies
  pub balance : (n : ℕ) → 65536 ≤ n → total settled n ≡ replies + timeouts

pub recount :
    {settled : ℕ → Bool} {first seq received replies timeouts replies' timeouts' : ℕ}
    → IsBalanced settled first seq received replies timeouts
    → replies' ≡ replies
    → timeouts' ≡ timeouts
    → IsBalanced settled first seq received replies' timeouts'
recount b r t = record {
  below = b.below;
  above = b.above;
  all_received = b.all_received ∙ sym r;
  balance = λ n h. omega (arith, b.balance n h, r, t);
}

pub start-IsBalanced : (first : ℕ) → IsBalanced (λ j. false) first first 0 0 0
start-IsBalanced first = record {
  below = λ j h. refl;
  above = λ j h. refl;
  all_received = refl;
  balance = λ n h. omega (arith, total-le (λ j. false) 0 n (λ j q. refl));
}

module _ (settled : ℕ → Bool) (first seq received replies timeouts : ℕ) where
  -- A reply to a probe that was sent and was not settled yet.
  pub answer-IsBalanced :
      (i : ℕ)
      → first ≤ i
      → i < seq
      → seq ≤ 65535
      → settled i ≡ false
      → IsBalanced settled first seq received replies timeouts
      → IsBalanced (update settled i true) first seq (u32 (received + 1)) (suc replies) timeouts
  answer-IsBalanced i low high fits e b = record {
    below = λ j h. ground (arith, b.below j);
    above = λ j h. ground (arith, b.above j);
    all_received =
        omega (
          arith,
          b.all_received,
          b.balance 65536 (omega arith),
          total-le settled seq 65536 b.above,
        );
    balance = λ n h. omega (arith, b.balance n h, total-update settled i n (omega arith) e);
  }

  -- The slot of the next probe is cleared.
  pub clear-IsBalanced :
      IsBalanced settled first seq received replies timeouts
      → IsBalanced (update settled seq false) first seq received replies timeouts
  clear-IsBalanced b = record {
    below = λ j h. ground (arith, b.below j);
    above = λ j h. ground (arith, b.above j);
    all_received = b.all_received;
    balance =
        λ n h. omega (arith, b.balance n h, total-clear settled seq n (b.above seq (omega arith)));
  }

  -- The next probe is sent, and its slot is cleared.
  pub send-IsBalanced :
      IsBalanced settled first seq received replies timeouts
      → IsBalanced (update settled seq false) first (suc seq) received replies timeouts
  send-IsBalanced b =
      let cleared = clear-IsBalanced b in
      record {
        below = cleared.below;
        above = λ j h. cleared.above j (omega arith);
        all_received = cleared.all_received;
        balance = cleared.balance;
      }

  -- When every probe is settled, each is reported once.
  pub finish-IsBalanced :
      (count : ℕ)
      → seq ≡ first + count
      → seq ≤ 65535
      → ((j : ℕ) → first ≤ j → j < first + count → settled j ≡ true)
      → IsBalanced settled first seq received replies timeouts
      → replies + timeouts ≡ count
  finish-IsBalanced count e fits all b = omega (
    arith,
    b.balance 65536 (omega arith),
    total-range settled first count all b.below (λ j h. b.above j (omega (arith, e))) 65536
        (omega (arith, e)),
  )

  -- No more replies and timeouts are reported than probes were sent.
  pub within-IsBalanced :
      seq ≤ 65535
      → IsBalanced settled first seq received replies timeouts
      → replies + timeouts ≤ seq - first
  within-IsBalanced fits b =
      omega (
        arith,
        b.balance 65536 (omega arith),
        total-between settled first seq 65536 b.below b.above,
      )

  -- The timeout loop, over probes that were sent.
  pub scan-IsBalanced :
      (now timeout_ns : ℕ) (sent_times : ℕ → ℕ) (next : ℕ) (v : Window)
      → first ≤ next
      → next ≤ seq
      → seq ≤ 65535
      → IsScanned now timeout_ns seq
          (record { sent_times = sent_times; replied_or_timeout = settled; next = next; late = [] })
          v
      → IsBalanced settled first seq received replies timeouts
      → IsBalanced v.replied_or_timeout first seq received replies (timeouts + length v.late)
  scan-IsBalanced now timeout_ns sent_times next v low high fits r b =
      let same : (j : ℕ) → (j < next) ⊎ (seq ≤ j) → v.replied_or_timeout j ≡ settled j = λ j out.
        elim (dec_le 65536 j) [
          | yes far ↦ r.beyond j far
          | no near ↦
              subst (λ i. v.replied_or_timeout i ≡ settled i) (omega arith)
                (r.ahead ((j + 65536 - next) % 65536) (omega (arith, out)) (omega arith))
        ] in
      record {
        below = λ j h. same j (inl (omega arith)) ∙ b.below j h;
        above = λ j h. same j (inr h) ∙ b.above j h;
        all_received = b.all_received;
        balance = λ n h. omega (arith, b.balance n h, r.counted n h);
      }
