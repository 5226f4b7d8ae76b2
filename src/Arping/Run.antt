-- ===== src/Arping/Run.antt =====
-- The rounds of `arping_run` of src/arping.c. The clock, the received frames, what the kernel accepts
-- and `keep_running` come from an environment: one `Tick` for each round, and the run is interrupted
-- where they end. The wait in `poll` is left out.
use knetutils.Base.{ℕ, ◌+◌, ◌-◌, ◌*◌, ◌/◌}
use knetutils.Base.{Bool, true, false, ◌&&◌, ◌||◌, Option, none, some, List, [], ◌∷◌}
use knetutils.Base.{ltb, leb, ◌==◌, ◌!=◌, if◌then◌else◌}
use knetutils.Base.{update}
use knetutils.Base.{u16, u32, u64, sub32, sub64}
use knetutils.Window.{Window, scan, millis}
use knetutils.Arping.Options.{Config}
use knetutils.Base.{◌++◌, map}
use knetutils.Arping.Frame.{timed_out, State, Packet, send_arping_probe, drain_arping_replies}

-- One round: whether the kernel takes a frame, the clock at its head and after the sending, and the
-- packets that are then drained.
pub record Tick : Type 0 where
  pub taken : Bool
  pub now : ℕ
  pub later : ℕ
  pub packets : List Packet

-- `config->count == 0 || st.sent < config->count`.
abbrev pub wants_more : Config → State → Bool
wants_more config st = config.count == 0 || ltb st.sent config.count

-- The state with the clock noted for the probe that is sent next.
abbrev pub noted : ℕ → State → State
noted now st = record st {
  sent_times = update st.sent_times (u16 st.sent) now;
  replied_or_timeout = update st.replied_or_timeout (u16 st.sent) false;
}

-- The state that the kernel's answer leaves, and `next_send_time`; `none` leaves the loop.
unfoldable pub after_send : Config → ℕ → Option (State × List ℕ) → Option (State × ℕ)
after_send config now none = none
after_send config now (some (st, frame)) = some (st, u64 (now + config.interval_ns))

-- The probe of a round, if one is due.
unfoldable pub send_due : Config → ℕ → Bool → State × ℕ → Option (State × ℕ)
unfolding send_arping_probe after_send
send_due config now taken (st, next_send_time) =
    if wants_more config st && leb next_send_time now
    then after_send config now (send_arping_probe config (noted now st) taken)
    else some (st, next_send_time)

abbrev pub window_of : State → Window
window_of st = record {
  sent_times = st.sent_times;
  replied_or_timeout = st.replied_or_timeout;
  next = st.next_timeout_check_seq;
  late = [];
}

abbrev pub with_window : State → Window → State
with_window st w = record st {
  replied_or_timeout = w.replied_or_timeout;
  next_timeout_check_seq = w.next;
  printed = st.printed ++ map timed_out w.late;
}

-- The test that ends the run.
abbrev pub all_settled : Config → State → Bool
all_settled config st =
    ltb 0 config.count && (leb config.count st.sent && st.next_timeout_check_seq == u16 st.sent)

-- `timeout_ms`, the bit pattern of an int.
unfoldable pub poll_timeout : Config → State → ℕ → ℕ → ℕ
poll_timeout config st next_send_time now =
    let waits_until = u64 (st.sent_times st.next_timeout_check_seq + config.timeout_ns) in
    if wants_more config st
    then (if ltb now next_send_time then millis (next_send_time - now) else 0)
    else if st.next_timeout_check_seq != u16 st.sent
    then millis (sub64 waits_until now)
    else 1

-- How a round ends: the loop is left because the kernel took no frame or because all is settled, or
-- it polls with a state, `next_send_time` and `timeout_ms`. `stuck` stands for a timeout loop without
-- fuel.
pub data Round : Type 0 where
  stuck : Round
  refused : State → Round
  leaves : State → Round
  polls : State → ℕ → ℕ → Round

unfoldable pub close_round : Config → ℕ → State × ℕ → Option Window → Round
unfolding poll_timeout
close_round config now (st, next) none = stuck
close_round config now (st, next) (some w) =
    let scanned = with_window st w in
    if all_settled config scanned
    then leaves scanned
    else polls scanned next (poll_timeout config scanned next now)

unfoldable pub scan_round : Config → ℕ → State → Option (State × ℕ) → Round
unfolding close_round
scan_round config later failed none = refused failed
scan_round config later failed (some (st, next)) =
    close_round config later (st, next)
      (scan 65537 later config.timeout_ns (u16 st.sent) (window_of st))

unfoldable pub round : Config → State → ℕ → Tick → Round
unfolding send_due scan_round
round config st next_send_time tick =
    scan_round config tick.later (noted tick.now st)
      (send_due config tick.now tick.taken (st, next_send_time))

pub data Ending : Type 0 where
  broken : Ending
  failed : State → Ending
  completed : State → Ending
  interrupted : State → Ending

-- The loop, from `st` and `next_send_time` on, as long as the program keeps running.
unfoldable pub arping_run : Config → State × Bool → ℕ → List Tick → Ending
arping_run config (st, running) next_send_time [] = interrupted st
arping_run config (st, false) next_send_time (tick ∷ ticks) = interrupted st
arping_run config (st, true) next_send_time (tick ∷ ticks) =
    elim (round config st next_send_time tick) [
      | stuck ↦ broken
      | refused st' ↦ failed st'
      | leaves st' ↦ completed st'
      | polls st' next timeout_ms ↦
          arping_run config (drain_arping_replies config st' tick.packets) next ticks
    ]

-- The percentages of `print_arping_stats`.
unfoldable pub success_percent : State → ℕ
success_percent st = if st.sent == 0 then 0 else u32 (st.received * 100) / st.sent

unfoldable pub loss_percent : State → ℕ
loss_percent st = if st.sent == 0 then 0 else u32 (sub32 st.sent st.received * 100) / st.sent
