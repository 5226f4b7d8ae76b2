-- ===== src/Ping/Run.antt =====
-- The rounds of `ping_run` of src/ping.c. The clock, the received packets and `keep_running` come from
-- an environment: one `Tick` for each round, and the run is interrupted where they end. The wait in
-- `poll` is left out; the time given to `poll` is not.
use knetutils.Base.{ℕ, ◌+◌, ◌-◌, ◌/◌, ◌^◌}
use knetutils.Base.{Bool, false, ◌&&◌, ◌||◌, Option, none, some, List, [], ◌∷◌}
use knetutils.Base.{ltb, leb, ◌==◌, ◌!=◌, if◌then◌else◌}
use knetutils.Base.{update}
use knetutils.Base.{u16, u32, u64, sub64}
use knetutils.Window.{Window, scan, millis}
use knetutils.Base.{◌++◌, map}
use knetutils.Ping.State.{Config, timed_out, State}
use knetutils.Ping.Packet.{Packet, send_ping_request, drain_ping_replies}

-- One round: the clock at its head, in `send_ping_request` and after the sending, and the packets
-- that are then drained.
pub record Tick : Type 0 where
  pub now : ℕ
  pub stamp : ℕ
  pub later : ℕ
  pub packets : List Packet

abbrev pub wants_more : Config → State → Bool
wants_more config st = config.count == 0 || ltb st.sent config.count

-- `next_send_time` after a request.
unfoldable pub next_after : Config → State → ℕ → ℕ
next_after config st now =
    if config.adaptive && ltb 0 st.rtt_last
    then u64 (now + (if ltb st.rtt_last 2_000_000 then 2_000_000 else st.rtt_last))
    else u64 (now + config.interval_ns)

-- The request of a round, if one is due: the state and `next_send_time`.
unfoldable pub send_due : Config → ℕ → ℕ → State × ℕ → State × ℕ
unfolding send_ping_request next_after
send_due config now stamp (st, next_send_time) =
    let noted = record st {
      sent_times = update st.sent_times st.seq now;
      replied_or_timeout = update st.replied_or_timeout st.seq false;
    } in
    let sent = send_ping_request config noted stamp in
    if wants_more config st && leb next_send_time now
    then (record sent { seq = u16 (sent.seq + 1) }, next_after config sent now)
    else (st, next_send_time)

abbrev pub window_of : State → Window
window_of st = record {
  sent_times = st.sent_times;
  replied_or_timeout = st.replied_or_timeout;
  next = st.next_timeout_check_seq;
  late = [];
}

abbrev pub with_window : State → Window → State
with_window st w = record st {
  replied_or_timeout = w.replied_or_timeout;
  next_timeout_check_seq = w.next;
  printed = st.printed ++ map timed_out w.late;
}

-- The test of the count that ends the run.
abbrev pub all_settled : Config → State → Bool
all_settled config st =
    ltb 0 config.count && (leb config.count st.sent && st.next_timeout_check_seq == st.seq)

-- `a < b` of the bit patterns of two ints.
abbrev less_int : ℕ → ℕ → Bool
less_int a b = ltb (u32 (a + 2 ^ 31)) (u32 (b + 2 ^ 31))

-- `timeout_ms` without the deadline, and with it: the bit pattern of an int.
unfoldable pub wait_for : Config → State → ℕ → ℕ → ℕ
wait_for config st next_send_time now =
    let waits_until = u64 (st.sent_times st.next_timeout_check_seq + config.timeout_ns) in
    if wants_more config st
    then (if ltb now next_send_time then millis (next_send_time - now) else 0)
    else if st.next_timeout_check_seq != st.seq
    then millis (sub64 waits_until now)
    else 1

unfoldable pub poll_timeout : Config → State → ℕ → ℕ → ℕ
unfolding wait_for
poll_timeout config st next_send_time now =
    let timeout_ms = wait_for config st next_send_time now in
    let d_ms = u32 (sub64 (u64 (st.start_time + config.deadline_ns)) now / 1_000_000) in
    if ltb 0 config.deadline_ns && less_int d_ms timeout_ms then d_ms else timeout_ms

-- How a round ends: the loop is left at the deadline or when all is settled, or it polls with a
-- state, `next_send_time` and `timeout_ms`. `stuck` stands for a timeout loop without fuel.
pub data Round : Type 0 where
  stuck : Round
  too_late : State → Round
  leaves : State → Round
  polls : State → ℕ → ℕ → Round

unfoldable pub close_round : Config → ℕ → State × ℕ → Option Window → Round
unfolding poll_timeout
close_round config now (st, next) none = stuck
close_round config now (st, next) (some w) =
    let scanned = with_window st w in
    if all_settled config scanned
    then leaves scanned
    else polls scanned next (poll_timeout config scanned next now)

-- `config->deadline_ns > 0 && now - st.start_time >= config->deadline_ns`.
abbrev pub past_deadline : Config → State → ℕ → Bool
past_deadline config st now =
    ltb 0 config.deadline_ns && leb config.deadline_ns (sub64 now st.start_time)

unfoldable pub round : Config → State → ℕ → Tick → Round
unfolding send_due close_round
round config st next_send_time tick =
    let (st', next) = send_due config tick.now tick.stamp (st, next_send_time) in
    if past_deadline config st tick.now
    then too_late st
    else close_round config tick.later (st', next)
        (scan 65537 tick.later config.timeout_ns st'.seq (window_of st'))

pub data Ending : Type 0 where
  broken : Ending
  completed : State → Ending
  expired : State → Ending
  interrupted : State → Ending

-- The loop, from `st` and `next_send_time` on.
unfoldable pub ping_run : Config → State → ℕ → List Tick → Ending
ping_run config st next_send_time [] = interrupted st
ping_run config st next_send_time (tick ∷ ticks) = elim (round config st next_send_time tick) [
  | stuck ↦ broken
  | too_late st' ↦ expired st'
  | leaves st' ↦ completed st'
  | polls st' next timeout_ms ↦
      ping_run config (drain_ping_replies config st' tick.packets) next ticks
]
