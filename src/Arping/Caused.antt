-- ===== src/Arping/Caused.antt =====
-- How a run of arping with a count ends, whatever frames arrive. For the rounds of src/arping.c.
use knetutils.Base.{ℕ, ◌+◌, ◌≤◌}
use knetutils.Base.{◌≡◌, refl, arith}
use knetutils.Base.{Bool, true, false, List, [], ◌∷◌}
use knetutils.Window.Balance.{start-IsBalanced, finish-IsBalanced, within-IsBalanced}
use mathlib.Core.Path.{subst}
use knetutils.Arping.Options.{Config}
use knetutils.Arping.Frame.{State, init_arping_state, drain_arping_replies}
use knetutils.Arping.Run.{
  Tick, Round, stuck, refused, leaves, polls, Ending, broken, failed, completed, interrupted, round,
  arping_run,
}
use knetutils.Arping.Settled.{IsCounted, IsComplete, init-IsGood, drain-IsGood}
use knetutils.Arping.Account.{timeouts}
use knetutils.Arping.Owed.{all_arp_replies, arp_replies, IsOwed, IsOwed-IsKept, drain-IsOwed}
use knetutils.Arping.Booked.{IsBooked, RoundBooked, round-RoundBooked}

-- No more timeouts are reported than probes were sent.
abbrev TimeoutsWithin : Config → State → Type 0
TimeoutsWithin config st = (st.sent ≤ config.count) × (timeouts st.printed ≤ st.sent)

-- How a run ends that meets so many ARP replies. When it ends because all is settled, each probe is marked as
-- settled, and the timeouts reported and the ARP replies account for all of them.
abbrev pub EndsCaused : Config → ℕ → Ending → Type 0
EndsCaused config arrived broken = ⊥
EndsCaused config arrived (failed st) = TimeoutsWithin config st
EndsCaused config arrived (completed st) =
    IsComplete config st
    × (timeouts st.printed ≤ config.count)
    × (config.count ≤ timeouts st.printed + arrived)
EndsCaused config arrived (interrupted st) = TimeoutsWithin config st

module _ (config : Config) (c : IsCounted config) where
  owed-Within :
      (n : ℕ) (st : State) → st.sent ≤ config.count → IsOwed n st → TimeoutsWithin config st
  owed-Within n st few (k, le, b) =
      let within =
        within-IsBalanced st.replied_or_timeout 0 st.sent k k (timeouts st.printed)
          (omega (arith, few, c.1)) b in
      (few, omega (arith, within))

  owed-EndsCaused :
      (n m : ℕ) (st : State)
      → n ≤ m
      → IsComplete config st
      → IsOwed n st
      → EndsCaused config m (completed st)
  owed-EndsCaused n m st more done (k, le, b) =
      let all =
        finish-IsBalanced st.replied_or_timeout 0 st.sent k k (timeouts st.printed) config.count
          (omega (arith, done.all_sent)) (omega (arith, done.all_sent, c.1))
          (λ j low high. done.settled j (omega (arith, high))) b in
      (done, omega (arith, all), omega (arith, all, le, more))

  after-EndsCaused :
      (n : ℕ) (st : State) (next : ℕ) (tick : Tick) (ticks : List Tick) (r : Round)
      → round config st next tick ≡ r
      → RoundBooked config (IsOwed n) r
      → ((st' : State × Bool) (next' : ℕ)
          → IsBooked config (IsOwed (n + arp_replies tick.packets)) st'.0
          → EndsCaused config
              (n + all_arp_replies (tick ∷ ticks))
              (arping_run config st' next' ticks))
      → EndsCaused config
          (n + all_arp_replies (tick ∷ ticks))
          (arping_run config (st, true) next (tick ∷ ticks))
  unfolding arping_run
  after-EndsCaused n st next tick ticks stuck e b more = absurd b
  after-EndsCaused n st next tick ticks (refused st') e b more =
      rw (arping_run, e) (owed-Within n st' b.0 b.1)
  after-EndsCaused n st next tick ticks (leaves st') e b more =
      rw (arping_run, e)
        (owed-EndsCaused n (n + all_arp_replies (tick ∷ ticks)) st' (omega arith) b.0 b.1.accounts)
  after-EndsCaused n st next tick ticks (polls st' next' timeout_ms) e b more =
      rw (arping_run, e)
        (more (drain_arping_replies config st' tick.packets) next' (record {
          good = drain-IsGood config st' tick.packets b.good;
          accounts = drain-IsOwed config c n st' tick.packets b.good b.accounts;
        }))

  run-EndsCaused :
      (n : ℕ) (st : State × Bool) (next : ℕ) (ticks : List Tick)
      → IsBooked config (IsOwed n) st.0
      → EndsCaused config (n + all_arp_replies ticks) (arping_run config st next ticks)
  unfolding arping_run
  run-EndsCaused n (st, running) next [] b = owed-Within n st b.good.few b.accounts
  run-EndsCaused n (st, false) next (tick ∷ ticks) b = owed-Within n st b.good.few b.accounts
  run-EndsCaused n (st, true) next (tick ∷ ticks) b =
      let met : ℕ = n + arp_replies tick.packets in
      after-EndsCaused n st next tick ticks (round config st next tick) refl
        (round-RoundBooked config (IsOwed n) c (IsOwed-IsKept config n c) st next tick b)
        (λ st' next' b'.
          subst (λ m. EndsCaused config m (arping_run config st' next' ticks)) (omega arith)
            (run-EndsCaused met st' next' ticks b'))

-- With a count from 1 to 65535, and whatever the clock, the kernel and the frames are, the timeout loop
-- never runs out of fuel, no more probes than the count are sent, and no more timeouts are reported than probes
-- were sent. When the run ends because all is settled, all probes of the count were sent and each is marked
-- as settled, and the timeouts reported and the ARP replies among the frames, from whatever host, are
-- together at least the count.
pub arping_run-EndsCaused :
    (config : Config) (next_send_time : ℕ) (ticks : List Tick)
    → IsCounted config
    → EndsCaused config
        (all_arp_replies ticks)
        (arping_run config (init_arping_state, true) next_send_time ticks)
arping_run-EndsCaused config next_send_time ticks c =
    subst
      (λ m. EndsCaused config m (arping_run config (init_arping_state, true) next_send_time ticks))
      (omega arith)
      (run-EndsCaused config c 0 (init_arping_state, true) next_send_time ticks
        (record { good = init-IsGood config; accounts = (0, omega arith, start-IsBalanced 0) }))
