-- ===== src/Ping/Reported.antt =====
-- What a run of ping reports in the end. For the rounds of src/ping.c.
use knetutils.Base.{ℕ, ◌+◌, ◌≤◌}
use knetutils.Base.{◌≡◌, refl, sym, inl, inr, arith}
use knetutils.Base.{Bool, some, List, [], ◌∷◌}
use knetutils.Base.{Bool-cases}
use knetutils.Window.{Window, scan-IsScanned}
use knetutils.Window.Balance.{finish-IsBalanced, within-IsBalanced}
use knetutils.Ping.State.{Config, State}
use knetutils.Ping.Packet.{Packet, init_ping_state, drain_ping_replies}
use knetutils.Ping.Run.{
  Tick, Round, stuck, too_late, leaves, polls, Ending, broken, completed, expired, interrupted,
  send_due, window_of, close_round, round, with_window, all_settled, past_deadline, ping_run,
}
use knetutils.Ping.Settled.{
  IsCounted, IsGood, IsComplete, init-IsGood, send_due-IsGood, scanned-IsGood, drain-IsGood,
  close_round-RoundOk,
}
use knetutils.Ping.Account.{
  requests, replies, timeouts, IsAccounted, AllOfSent, init-IsAccounted, send_due-IsAccounted,
  scanned-IsAccounted, drain-IsAccounted,
}

-- Of a round and what `more` asks of the rounds behind it.
abbrev pub AnswersRound : Config → List Packet → (State → ℕ → Type 0) → Round → Type 0
AnswersRound config packets more stuck = Unit
AnswersRound config packets more (too_late st) = Unit
AnswersRound config packets more (leaves st) = Unit
AnswersRound config packets more (polls st next timeout_ms) =
    AllOfSent config st packets × more (drain_ping_replies config st packets) next

-- No packet of the run answers a request that was not sent yet: what the hosts that answer must keep to.
abbrev pub AnswersSent : Config → State → ℕ → List Tick → Type 0
AnswersSent config st next [] = Unit
AnswersSent config st next (tick ∷ ticks) =
    AnswersRound config tick.packets (λ st' next'. AnswersSent config st' next' ticks)
      (round config st next tick)

record IsBooked (config : Config) (st : State) : Type 0 where
  good : IsGood config st
  accounts : IsAccounted st

-- Each round ends with its books in order.
abbrev RoundBooked : Config → Round → Type 0
RoundBooked config stuck = ⊥
RoundBooked config (too_late st) = IsBooked config st
RoundBooked config (leaves st) = IsComplete config st × IsBooked config st
RoundBooked config (polls st next timeout_ms) = IsBooked config st

close_round-RoundBooked :
    (config : Config) (now next : ℕ) (st : State) (v : Window)
    → IsCounted config
    → IsBooked config (with_window st v)
    → RoundBooked config (close_round config now (st, next) (some v))
unfolding close_round
close_round-RoundBooked config now next st v c b =
    let ok = close_round-RoundOk config now next st v c b.good in
    elim (Bool-cases (all_settled config (with_window st v))) [
      | inl e ↦ rw e ((rw e at ok), b)
      | inr e ↦ rw e b
    ]

round-RoundBooked :
    (config : Config) (st : State) (next : ℕ) (tick : Tick)
    → IsCounted config
    → IsBooked config st
    → RoundBooked config (round config st next tick)
unfolding round
round-RoundBooked config st next tick c b =
    let due : State × ℕ = send_due config tick.now tick.stamp (st, next) in
    let good = send_due-IsGood config tick.now tick.stamp next st c b.good in
    let accounts = send_due-IsAccounted config c tick.now tick.stamp next st b.good b.accounts in
    let (v, e, r) =
      scan-IsScanned 65537 tick.later config.timeout_ns due.0.seq (window_of due.0)
        (omega (arith, good.high, good.seq_is, good.few)) (omega arith) (omega arith) in
    elim (Bool-cases (past_deadline config st tick.now)) [
      | inl late ↦ rw late b
      | inr early ↦
          rw (early, e)
            (close_round-RoundBooked config tick.later due.1 due.0 v c (record {
              good = scanned-IsGood config tick.later due.0 v c good r;
              accounts = scanned-IsAccounted config c tick.later due.0 v good r accounts;
            }))
    ]

-- What was reported when a run ends: as many requests as were sent, as many replies as the statistics count, and
-- no more replies and timeouts than requests; exactly as many as the count when the run ends by itself.
abbrev pub EndsReported : Config → Ending → Type 0
EndsReported config broken = ⊥
EndsReported config (completed st) =
    (st.sent ≡ config.count)
    × (requests st.printed ≡ config.count)
    × (replies st.printed ≡ st.received)
    × (st.received + timeouts st.printed ≡ config.count)
EndsReported config (expired st) =
    (requests st.printed ≡ st.sent)
    × (replies st.printed ≡ st.received)
    × (st.received + timeouts st.printed ≤ st.sent)
EndsReported config (interrupted st) =
    (requests st.printed ≡ st.sent)
    × (replies st.printed ≡ st.received)
    × (st.received + timeouts st.printed ≤ st.sent)

module _ (config : Config) (c : IsCounted config) where
  booked-Within :
      (st : State)
      → IsBooked config st
      → (requests st.printed ≡ st.sent)
        × (replies st.printed ≡ st.received)
        × (st.received + timeouts st.printed ≤ st.sent)
  booked-Within st b =
      let books = b.accounts.books in
      let within =
        within-IsBalanced st.replied_or_timeout 1 st.seq st.received (replies st.printed)
          (timeouts st.printed) (omega (arith, b.good.seq_is, b.good.few, c.1)) books in
      (
        sym b.accounts.all_sent,
        sym books.all_received,
        omega (arith, within, books.all_received, b.good.seq_is),
      )

  booked-Reported :
      (st : State) → IsComplete config st → IsBooked config st → EndsReported config (completed st)
  booked-Reported st done b =
      let books = b.accounts.books in
      let all =
        finish-IsBalanced st.replied_or_timeout 1 st.seq st.received (replies st.printed)
          (timeouts st.printed) config.count (omega (arith, b.good.seq_is, done.all_sent))
          (omega (arith, b.good.seq_is, b.good.few, c.1)) done.settled books in
      (
        done.all_sent,
        omega (arith, b.accounts.all_sent, done.all_sent),
        sym books.all_received,
        omega (arith, all, books.all_received),
      )

  after-EndsReported :
      (st : State) (next : ℕ) (tick : Tick) (ticks : List Tick) (r : Round)
      → round config st next tick ≡ r
      → RoundBooked config r
      → AnswersRound config tick.packets (λ st' next'. AnswersSent config st' next' ticks) r
      → ((st' : State) (next' : ℕ)
          → IsBooked config st'
          → AnswersSent config st' next' ticks
          → EndsReported config (ping_run config st' next' ticks))
      → EndsReported config (ping_run config st next (tick ∷ ticks))
  unfolding ping_run
  after-EndsReported st next tick ticks stuck e b answers more = absurd b
  after-EndsReported st next tick ticks (too_late st') e b answers more =
      rw (ping_run, e) (booked-Within st' b)
  after-EndsReported st next tick ticks (leaves st') e b answers more =
      rw (ping_run, e) (booked-Reported st' b.0 b.1)
  after-EndsReported st next tick ticks (polls st' next' timeout_ms) e b answers more =
      rw (ping_run, e)
        (more (drain_ping_replies config st' tick.packets) next'
          (record {
            good = drain-IsGood config st' tick.packets b.good;
            accounts = drain-IsAccounted config st' tick.packets c b.good answers.0 b.accounts;
          })
          answers.1)

  run-EndsReported :
      (st : State) (next : ℕ) (ticks : List Tick)
      → IsBooked config st
      → AnswersSent config st next ticks
      → EndsReported config (ping_run config st next ticks)
  unfolding ping_run
  run-EndsReported st next [] b answers = booked-Within st b
  run-EndsReported st next (tick ∷ ticks) b answers =
      after-EndsReported st next tick ticks (round config st next tick) refl
        (round-RoundBooked config st next tick c b) answers
        (λ st' next'. run-EndsReported st' next' ticks)

-- With a count from 1 to 65534, and whatever the clock is, if no packet answers a request before it is sent: the
-- run never runs out of fuel; every request is reported, and every reply that the statistics count, however
-- often it comes; when the run ends by itself the replies and the timeouts reported are together the
-- count, and else no more than the requests sent.
pub ping_run-EndsReported :
    (config : Config) (pid start_time next_send_time : ℕ) (is_dgram : Bool) (ticks : List Tick)
    → IsCounted config
    → AnswersSent config (init_ping_state config pid start_time is_dgram) next_send_time ticks
    → EndsReported config
        (ping_run config (init_ping_state config pid start_time is_dgram) next_send_time ticks)
ping_run-EndsReported config pid start_time next_send_time is_dgram ticks c answers =
    run-EndsReported config c (init_ping_state config pid start_time is_dgram) next_send_time ticks
      (record {
        good = init-IsGood config pid start_time is_dgram;
        accounts = init-IsAccounted config pid start_time is_dgram;
      })
      answers
