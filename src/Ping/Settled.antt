-- ===== src/Ping/Settled.antt =====
-- How a run of ping with a count ends, for the rounds of src/ping.c.
use knetutils.Base.{ℕ, suc, ◌+◌, ◌-◌, ◌≤◌, ◌<◌}
use knetutils.Base.{◌≡◌, refl, inl, inr, arith}
use knetutils.Base.{Bool, true, Option, none, some, List, [], ◌∷◌}
use knetutils.Base.{Bool-cases}
use mathlib.Core.Path.{subst}
use native.Mathlib.Decide.{dec_le}
use knetutils.Window.{Window, IsScanned, scan-IsScanned}
use knetutils.Ping.State.{Config, Event, State, update_ping_stats}
use knetutils.Ping.Packet.{
  Packet, init_ping_state, send_ping_request, answered_seq, take_answer, take_reply,
  drain_ping_replies, rtt_of, reply_event,
}
use knetutils.Ping.Run.{
  Tick, Round, stuck, too_late, leaves, polls, Ending, broken, completed, expired, interrupted,
  send_due, window_of, with_window, close_round, round, all_settled, past_deadline, ping_run,
}

-- A count that keeps the sequence numbers, which start at 1, in a u_short.
abbrev pub IsCounted : Config → Type 0
IsCounted config = (1 ≤ config.count) × (config.count ≤ 65534)

-- What holds between the rounds: numbers are given one by one, no more than the count, and every
-- probe before the one that the timeout loop looks at is answered or has timed out.
pub record IsGood (config : Config) (st : State) : Type 0 where
  pub seq_is : st.seq ≡ 1 + st.sent
  pub few : st.sent ≤ config.count
  pub low : 1 ≤ st.next_timeout_check_seq
  pub high : st.next_timeout_check_seq ≤ st.seq
  pub passed : (j : ℕ) → 1 ≤ j → j < st.next_timeout_check_seq → st.replied_or_timeout j ≡ true

pub init-IsGood :
    (config : Config) (pid start_time : ℕ) (is_dgram : Bool)
    → IsGood config (init_ping_state config pid start_time is_dgram)
unfolding init_ping_state
init-IsGood config pid start_time is_dgram = record {
  seq_is = refl;
  few = omega arith;
  low = omega arith;
  high = omega arith;
  passed = λ j a b. absurd (omega arith);
}

take_answer-IsGood :
    (config : Config) (shown : ℕ → Event) (now : ℕ) (slot : Option ℕ) (st : State)
    → IsGood config st
    → IsGood config (take_answer shown now slot st)
unfolding take_answer update_ping_stats
take_answer-IsGood config shown now none st g = g
take_answer-IsGood config shown now (some seq) st g = record {
  seq_is = ground (arith, g.seq_is);
  few = ground (arith, g.few);
  low = ground (arith, g.low);
  high = ground (arith, g.high);
  passed = λ j a b. ground (arith, g.passed j);
}

pub take_reply-IsGood :
    (config : Config) (st : State) (pkt : Packet)
    → IsGood config st
    → IsGood config (take_reply config st pkt)
unfolding take_reply
take_reply-IsGood config st pkt g =
    let seq = answered_seq config st pkt in
    let rtt = rtt_of config st pkt seq in
    take_answer-IsGood config (reply_event config st pkt rtt) rtt seq st g

pub drain-IsGood :
    (config : Config) (st : State) (pkts : List Packet)
    → IsGood config st
    → IsGood config (drain_ping_replies config st pkts)
unfolding drain_ping_replies
drain-IsGood config st [] g = g
drain-IsGood config st (pkt ∷ pkts) g =
    drain-IsGood config (take_reply config st pkt) pkts (take_reply-IsGood config st pkt g)

pub send_due-IsGood :
    (config : Config) (now stamp next : ℕ) (st : State)
    → IsCounted config
    → IsGood config st
    → IsGood config (send_due config now stamp (st, next)).0
unfolding send_due send_ping_request
send_due-IsGood config now stamp next st c g = record {
  seq_is = ground (arith, g.seq_is, g.few);
  few = ground (arith, g.few);
  low = ground (arith, g.low);
  high = ground (arith, g.high, g.seq_is, g.few);
  passed = λ j a b. ground (arith, g.passed j, g.high, g.seq_is, g.few);
}

pub scanned-IsGood :
    (config : Config) (now : ℕ) (st : State) (v : Window)
    → IsCounted config
    → IsGood config st
    → IsScanned now config.timeout_ns st.seq (window_of st) v
    → IsGood config (with_window st v)
scanned-IsGood config now st v c g r =
    let order : (st.next_timeout_check_seq ≤ v.next) × (v.next ≤ st.seq) =
      omega (arith, g.seq_is, g.few, g.low, g.high, r.nearer, r.next_small) in
    record {
      seq_is = g.seq_is;
      few = g.few;
      low = omega (arith, g.low);
      high = order.1;
      passed = λ j a b. elim (dec_le (suc j) st.next_timeout_check_seq) [
        | yes h ↦ r.kept j (g.passed j a h)
        | no h ↦
            subst (λ i. v.replied_or_timeout i ≡ true) (omega (arith, g.seq_is, g.few))
              (r.passed (j - st.next_timeout_check_seq) (omega (arith, g.seq_is, g.few, g.high)))
      ];
    }

-- Every probe that the count asks for was sent, and is answered or has timed out.
pub record IsComplete (config : Config) (st : State) : Type 0 where
  pub all_sent : st.sent ≡ config.count
  pub settled : (j : ℕ) → 1 ≤ j → j < 1 + config.count → st.replied_or_timeout j ≡ true

abbrev RoundOk : Config → Round → Type 0
RoundOk config stuck = ⊥
RoundOk config (too_late st) = st.sent ≤ config.count
RoundOk config (leaves st) = IsComplete config st
RoundOk config (polls st next timeout_ms) = IsGood config st

abbrev pub EndsWell : Config → Ending → Type 0
EndsWell config broken = ⊥
EndsWell config (expired st) = st.sent ≤ config.count
EndsWell config (completed st) = IsComplete config st
EndsWell config (interrupted st) = st.sent ≤ config.count

pub close_round-RoundOk :
    (config : Config) (now next : ℕ) (st : State) (v : Window)
    → IsCounted config
    → IsGood config (with_window st v)
    → RoundOk config (close_round config now (st, next) (some v))
unfolding close_round
close_round-RoundOk config now next st v c g =
    elim (Bool-cases (all_settled config (with_window st v))) [
      | inl e ↦
          let full : (config.count ≤ st.sent) × (v.next ≡ st.seq) = ground arith in
          rw e (record {
            all_sent = omega (arith, g.few);
            settled = λ j a b. g.passed j a (omega (arith, g.seq_is, g.few));
          })
      | inr e ↦ rw e g
    ]

round-RoundOk :
    (config : Config) (st : State) (next : ℕ) (tick : Tick)
    → IsCounted config
    → IsGood config st
    → RoundOk config (round config st next tick)
unfolding round
round-RoundOk config st next tick c g =
    let due : State × ℕ = send_due config tick.now tick.stamp (st, next) in
    let good = send_due-IsGood config tick.now tick.stamp next st c g in
    let (v, e, r) =
      scan-IsScanned 65537 tick.later config.timeout_ns due.0.seq (window_of due.0)
        (omega (arith, good.high, good.seq_is, good.few)) (omega arith) (omega arith) in
    elim (Bool-cases (past_deadline config st tick.now)) [
      | inl late ↦ rw late g.few
      | inr early ↦
          rw (early, e)
            (close_round-RoundOk config tick.later due.1 due.0 v c
              (scanned-IsGood config tick.later due.0 v c good r))
    ]

after-EndsWell :
    (config : Config) (st : State) (next : ℕ) (tick : Tick) (ticks : List Tick) (r : Round)
    → round config st next tick ≡ r
    → RoundOk config r
    → ((st' : State) (next' : ℕ)
        → IsGood config st'
        → EndsWell config (ping_run config st' next' ticks))
    → EndsWell config (ping_run config st next (tick ∷ ticks))
unfolding ping_run
after-EndsWell config st next tick ticks stuck e ok more = absurd ok
after-EndsWell config st next tick ticks (too_late st') e ok more = rw (ping_run, e) ok
after-EndsWell config st next tick ticks (leaves st') e ok more = rw (ping_run, e) ok
after-EndsWell config st next tick ticks (polls st' next' timeout_ms) e ok more =
    rw (ping_run, e)
      (more (drain_ping_replies config st' tick.packets) next'
        (drain-IsGood config st' tick.packets ok))

run-EndsWell :
    (config : Config) (st : State) (next : ℕ) (ticks : List Tick)
    → IsCounted config
    → IsGood config st
    → EndsWell config (ping_run config st next ticks)
unfolding ping_run
run-EndsWell config st next [] c g = g.few
run-EndsWell config st next (tick ∷ ticks) c g =
    after-EndsWell config st next tick ticks (round config st next tick) refl
      (round-RoundOk config st next tick c g) (λ st' next'. run-EndsWell config st' next' ticks c)

-- With a count from 1 to 65534, and whatever the clock and the packets are, the timeout loop never
-- runs out of fuel, no more requests than the count are sent, and when the run ends by itself before
-- the deadline all of them were sent and each is answered or has timed out.
pub ping_run-EndsWell :
    (config : Config) (pid start_time next_send_time : ℕ) (is_dgram : Bool) (ticks : List Tick)
    → IsCounted config
    → EndsWell config
        (ping_run config (init_ping_state config pid start_time is_dgram) next_send_time ticks)
ping_run-EndsWell config pid start_time next_send_time is_dgram ticks c =
    run-EndsWell config (init_ping_state config pid start_time is_dgram) next_send_time ticks c
      (init-IsGood config pid start_time is_dgram)
