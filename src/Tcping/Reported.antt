-- ===== src/Tcping/Reported.antt =====
-- What a run of tcping reports in the end. For the rounds of src/tcping.c.
use knetutils.Base.{ℕ, ◌+◌, ◌≤◌}
use knetutils.Base.{◌≡◌, refl, sym, inl, inr, arith}
use knetutils.Base.{some, List, [], ◌∷◌}
use knetutils.Base.{Bool-cases}
use knetutils.Base.{u16}
use knetutils.Window.{Window, scan-IsScanned}
use knetutils.Window.Balance.{finish-IsBalanced, within-IsBalanced}
use knetutils.Tcping.State.{Config, State, init_tcping_state}
use knetutils.Tcping.Run.{
  Packet, Tick, Round, stuck, leaves, polls, Ending, broken, completed, interrupted, send_due,
  window_of, close_round, round, with_window, all_settled, tcping_run, drain_tcping_replies,
}
use knetutils.Tcping.Settled.{
  IsCounted, IsGood, IsComplete, init-IsGood, send_due-IsGood, scanned-IsGood, drain-IsGood,
  close_round-RoundOk,
}
use knetutils.Tcping.Account.{
  answers, timeouts, IsAccounted, AllOfSent, init-IsAccounted, send_due-IsAccounted,
  scanned-IsAccounted, drain-IsAccounted,
}

-- Of a round and what `more` asks of the rounds behind it.
abbrev pub AnswersRound : Config → List Packet → (State → ℕ → Type 0) → Round → Type 0
AnswersRound config packets more stuck = Unit
AnswersRound config packets more (leaves st) = Unit
AnswersRound config packets more (polls st next timeout_ms) =
    AllOfSent config st packets × more (drain_tcping_replies config st packets) next

-- No packet of the run answers a probe that was not sent yet: what the target must keep to.
abbrev pub AnswersSent : Config → State → ℕ → List Tick → Type 0
AnswersSent config st next [] = Unit
AnswersSent config st next (tick ∷ ticks) =
    AnswersRound config tick.packets (λ st' next'. AnswersSent config st' next' ticks)
      (round config st next tick)

record IsBooked (config : Config) (st : State) : Type 0 where
  good : IsGood config st
  accounts : IsAccounted st

-- Each round ends with its books in order.
abbrev RoundBooked : Config → Round → Type 0
RoundBooked config stuck = ⊥
RoundBooked config (leaves st) = IsComplete config st × IsBooked config st
RoundBooked config (polls st next timeout_ms) = IsBooked config st

close_round-RoundBooked :
    (config : Config) (now next : ℕ) (st : State) (v : Window)
    → IsCounted config
    → IsBooked config (with_window st v)
    → RoundBooked config (close_round config now (st, next) (some v))
unfolding close_round
close_round-RoundBooked config now next st v c b =
    let ok = close_round-RoundOk config now next st v c b.good in
    elim (Bool-cases (all_settled config (with_window st v))) [
      | inl e ↦ rw e ((rw e at ok), b)
      | inr e ↦ rw e b
    ]

round-RoundBooked :
    (config : Config) (st : State) (next : ℕ) (tick : Tick)
    → IsCounted config
    → IsBooked config st
    → RoundBooked config (round config st next tick)
unfolding round
round-RoundBooked config st next tick c b =
    let due : State × ℕ = send_due config tick.now (st, next) in
    let good = send_due-IsGood config tick.now next st c b.good in
    let accounts = send_due-IsAccounted config c tick.now next st b.good b.accounts in
    let (v, e, r) =
      scan-IsScanned 65537 tick.later config.timeout_ns (u16 due.0.seq) (window_of due.0)
        (omega (arith, good.high, good.seq_is, good.few)) (omega arith) (omega arith) in
    rw e (
      close_round-RoundBooked config tick.later due.1 due.0 v c (record {
        good = scanned-IsGood config tick.later due.0 v c good r;
        accounts = scanned-IsAccounted config c tick.later due.0 v good r accounts;
      }))

-- What was reported when a run ends: as many answers as the statistics count, and no more answers and timeouts
-- than probes; exactly as many as the count when the run ends by itself.
abbrev pub EndsReported : Config → Ending → Type 0
EndsReported config broken = ⊥
EndsReported config (completed st) =
    (st.sent ≡ config.count)
    × (answers st.printed ≡ st.received)
    × (st.received + timeouts st.printed ≡ config.count)
EndsReported config (interrupted st) =
    (answers st.printed ≡ st.received) × (st.received + timeouts st.printed ≤ st.sent)

module _ (config : Config) (c : IsCounted config) where
  booked-Within : (st : State) → IsBooked config st → EndsReported config (interrupted st)
  booked-Within st b =
      let within =
        within-IsBalanced st.replied_or_timeout 1000 st.seq st.received (answers st.printed)
          (timeouts st.printed) (omega (arith, b.good.seq_is, b.good.few, c.1)) b.accounts in
      (sym b.accounts.all_received, omega (arith, within, b.accounts.all_received, b.good.seq_is))

  booked-Reported :
      (st : State) → IsComplete config st → IsBooked config st → EndsReported config (completed st)
  booked-Reported st done b =
      let all =
        finish-IsBalanced st.replied_or_timeout 1000 st.seq st.received (answers st.printed)
          (timeouts st.printed) config.count (omega (arith, b.good.seq_is, done.all_sent))
          (omega (arith, b.good.seq_is, b.good.few, c.1)) done.settled b.accounts in
      (done.all_sent, sym b.accounts.all_received, omega (arith, all, b.accounts.all_received))

  after-EndsReported :
      (st : State) (next : ℕ) (tick : Tick) (ticks : List Tick) (r : Round)
      → round config st next tick ≡ r
      → RoundBooked config r
      → AnswersRound config tick.packets (λ st' next'. AnswersSent config st' next' ticks) r
      → ((st' : State) (next' : ℕ)
          → IsBooked config st'
          → AnswersSent config st' next' ticks
          → EndsReported config (tcping_run config st' next' ticks))
      → EndsReported config (tcping_run config st next (tick ∷ ticks))
  unfolding tcping_run
  after-EndsReported st next tick ticks stuck e b sent more = absurd b
  after-EndsReported st next tick ticks (leaves st') e b sent more =
      rw (tcping_run, e) (booked-Reported st' b.0 b.1)
  after-EndsReported st next tick ticks (polls st' next' timeout_ms) e b sent more =
      rw (tcping_run, e)
        (more (drain_tcping_replies config st' tick.packets) next'
          (record {
            good = drain-IsGood config st' tick.packets b.good;
            accounts = drain-IsAccounted config st' tick.packets c b.good sent.0 b.accounts;
          })
          sent.1)

  run-EndsReported :
      (st : State) (next : ℕ) (ticks : List Tick)
      → IsBooked config st
      → AnswersSent config st next ticks
      → EndsReported config (tcping_run config st next ticks)
  unfolding tcping_run
  run-EndsReported st next [] b sent = booked-Within st b
  run-EndsReported st next (tick ∷ ticks) b sent =
      after-EndsReported st next tick ticks (round config st next tick) refl
        (round-RoundBooked config st next tick c b) sent
        (λ st' next'. run-EndsReported st' next' ticks)

-- With a count from 1 to 64535, and whatever the clock is, if no packet answers a probe before it is sent: the
-- run never runs out of fuel; every answer that the statistics count is reported, once; when the run ends by
-- itself the count was sent, and the answers and the timeouts reported are together the count, and else no
-- more than the probes sent.
pub tcping_run-EndsReported :
    (config : Config) (src_addr : List ℕ) (pid next_send_time : ℕ) (ticks : List Tick)
    → IsCounted config
    → AnswersSent config (init_tcping_state src_addr pid) next_send_time ticks
    → EndsReported config (tcping_run config (init_tcping_state src_addr pid) next_send_time ticks)
tcping_run-EndsReported config src_addr pid next_send_time ticks c sent =
    run-EndsReported config c (init_tcping_state src_addr pid) next_send_time ticks
      (record { good = init-IsGood config src_addr pid; accounts = init-IsAccounted src_addr pid })
      sent
