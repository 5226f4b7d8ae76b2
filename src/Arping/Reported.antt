-- ===== src/Arping/Reported.antt =====
-- What a run of arping reports in the end. For the rounds of src/arping.c.
use knetutils.Base.{ℕ, ◌+◌, ◌≤◌}
use knetutils.Base.{◌≡◌, refl, sym, arith}
use knetutils.Base.{Bool, true, false, List, [], ◌∷◌}
use knetutils.Window.Balance.{finish-IsBalanced, within-IsBalanced}
use knetutils.Arping.Options.{Config}
use knetutils.Arping.Frame.{State, Packet, init_arping_state, drain_arping_replies}
use knetutils.Arping.Run.{
  Tick, Round, stuck, refused, leaves, polls, Ending, broken, failed, completed, interrupted, round,
  arping_run,
}
use knetutils.Arping.Settled.{IsCounted, IsComplete, init-IsGood, drain-IsGood}
use knetutils.Arping.Account.{
  replies, timeouts, IsAccounted, AllAwaited, init-IsAccounted, drain-IsAccounted,
}
use knetutils.Arping.Booked.{IsBooked, RoundBooked, round-RoundBooked, IsAccounted-IsKept}

-- Of a round and what `more` asks of the rounds behind it.
abbrev pub AwaitedRound : Config → List Packet → (State × Bool → ℕ → Type 0) → Round → Type 0
AwaitedRound config packets more stuck = Unit
AwaitedRound config packets more (refused st) = Unit
AwaitedRound config packets more (leaves st) = Unit
AwaitedRound config packets more (polls st next timeout_ms) =
    AllAwaited config st packets × more (drain_arping_replies config st packets) next

-- Every ARP reply of the run is the target's and comes while a probe is awaited: what the network must keep to.
abbrev pub RepliesAwaited : Config → State × Bool → ℕ → List Tick → Type 0
RepliesAwaited config (st, running) next [] = Unit
RepliesAwaited config (st, false) next (tick ∷ ticks) = Unit
RepliesAwaited config (st, true) next (tick ∷ ticks) =
    AwaitedRound config tick.packets (λ st' next'. RepliesAwaited config st' next' ticks)
      (round config st next tick)

-- As many replies are reported as the statistics count, and no more replies and timeouts than probes.
abbrev pub WithinSent : State → Type 0
WithinSent st = (replies st.printed ≡ st.received) × (st.received + timeouts st.printed ≤ st.sent)

-- What was reported when a run ends; when all is settled, as many replies and timeouts as the count.
abbrev pub EndsReported : Config → Ending → Type 0
EndsReported config broken = ⊥
EndsReported config (failed st) = WithinSent st
EndsReported config (completed st) =
    (st.sent ≡ config.count)
    × (replies st.printed ≡ st.received)
    × (st.received + timeouts st.printed ≡ config.count)
EndsReported config (interrupted st) = WithinSent st

module _ (config : Config) (c : IsCounted config) where
  accounted-Within : (st : State) → st.sent ≤ config.count → IsAccounted st → WithinSent st
  accounted-Within st few a =
      let within =
        within-IsBalanced st.replied_or_timeout 0 st.sent st.received (replies st.printed)
          (timeouts st.printed) (omega (arith, few, c.1)) a in
      (sym a.all_received, omega (arith, within, a.all_received))

  booked-Reported :
      (st : State)
      → IsComplete config st
      → IsBooked config IsAccounted st
      → EndsReported config (completed st)
  booked-Reported st done b =
      let all =
        finish-IsBalanced st.replied_or_timeout 0 st.sent st.received (replies st.printed)
          (timeouts st.printed) config.count (omega (arith, done.all_sent))
          (omega (arith, b.good.few, c.1)) (λ j low high. done.settled j (omega (arith, high)))
          b.accounts in
      (done.all_sent, sym b.accounts.all_received, omega (arith, all, b.accounts.all_received))

  after-EndsReported :
      (st : State) (next : ℕ) (tick : Tick) (ticks : List Tick) (r : Round)
      → round config st next tick ≡ r
      → RoundBooked config IsAccounted r
      → AwaitedRound config tick.packets (λ st' next'. RepliesAwaited config st' next' ticks) r
      → ((st' : State × Bool) (next' : ℕ)
          → IsBooked config IsAccounted st'.0
          → RepliesAwaited config st' next' ticks
          → EndsReported config (arping_run config st' next' ticks))
      → EndsReported config (arping_run config (st, true) next (tick ∷ ticks))
  unfolding arping_run
  after-EndsReported st next tick ticks stuck e b awaited more = absurd b
  after-EndsReported st next tick ticks (refused st') e b awaited more =
      rw (arping_run, e) (accounted-Within st' b.0 b.1)
  after-EndsReported st next tick ticks (leaves st') e b awaited more =
      rw (arping_run, e) (booked-Reported st' b.0 b.1)
  after-EndsReported st next tick ticks (polls st' next' timeout_ms) e b awaited more =
      rw (arping_run, e)
        (more (drain_arping_replies config st' tick.packets) next'
          (record {
            good = drain-IsGood config st' tick.packets b.good;
            accounts = drain-IsAccounted config st' tick.packets c b.good awaited.0 b.accounts;
          })
          awaited.1)

  run-EndsReported :
      (st : State × Bool) (next : ℕ) (ticks : List Tick)
      → IsBooked config IsAccounted st.0
      → RepliesAwaited config st next ticks
      → EndsReported config (arping_run config st next ticks)
  unfolding arping_run
  run-EndsReported (st, running) next [] b awaited = accounted-Within st b.good.few b.accounts
  run-EndsReported (st, false) next (tick ∷ ticks) b awaited =
      accounted-Within st b.good.few b.accounts
  run-EndsReported (st, true) next (tick ∷ ticks) b awaited =
      after-EndsReported st next tick ticks (round config st next tick) refl
        (round-RoundBooked config IsAccounted c (IsAccounted-IsKept config c) st next tick b)
        awaited (λ st' next'. run-EndsReported st' next' ticks)

-- With a count from 1 to 65535, and whatever the clock and the kernel are, if every ARP reply is the target's and
-- comes while a probe is awaited: the run never runs out of fuel; every reply that the statistics count is
-- reported, once; when all is settled the count was sent, and the replies and the timeouts reported are
-- together the count, and else no more than the probes sent.
pub arping_run-EndsReported :
    (config : Config) (next_send_time : ℕ) (ticks : List Tick)
    → IsCounted config
    → RepliesAwaited config (init_arping_state, true) next_send_time ticks
    → EndsReported config (arping_run config (init_arping_state, true) next_send_time ticks)
arping_run-EndsReported config next_send_time ticks c awaited =
    run-EndsReported config c (init_arping_state, true) next_send_time ticks
      (record { good = init-IsGood config; accounts = init-IsAccounted }) awaited
