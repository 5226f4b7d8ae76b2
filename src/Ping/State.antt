-- ===== src/Ping/State.antt =====
-- The configuration and the state of ping.c, and what `print_statistics` prints.
-- `target_str` and `sock` (display and handle) are left out; the 65536 slots of the two arrays
-- are functions of a u_short.
use knetutils.Base.{ℕ, ◌+◌, ◌*◌, ◌/◌}
use knetutils.Base.{Bool, ◌&&◌, ◌||◌, Option, none, some, List}
use knetutils.Base.{ltb, leb, ◌==◌, if◌then◌else◌}
use knetutils.Base.{u32, u64, sub32, sub64}
use knetutils.Base.{Text}
use knetutils.Base.{Family}
use knetutils.Ping.Sqrt.{integer_sqrt}
use mathlib.Core.Option

pub record Config : Type 0 where
  pub count : ℕ
  pub timeout_ns : ℕ
  pub interval_ns : ℕ
  pub payload_size : ℕ
  pub ttl : ℕ
  pub quiet : Bool
  pub time_unit : Option Text
  pub target_addr : List ℕ
  pub family : Family
  pub cisco_style : Bool
  pub flood : Bool
  pub audible : Bool
  pub adaptive : Bool
  pub bind_iface : Option Text
  pub pattern : List ℕ
  pub deadline_ns : ℕ
  pub tos : ℕ
  pub has_tos : Bool

-- What a run reports as it goes: a request sent, a reply with its round-trip time, number of bytes, sender,
-- sequence number and hop limit (none stands for -1), and a request that timed out.
pub data Event : Type 0 where
  requested : Event
  replied : ℕ → ℕ → Text → ℕ → Option ℕ → Event
  timed_out : ℕ → Event

-- `printed` holds the reports so far; what each puts on the terminal is in Ping.Print.
pub record State : Type 0 where
  pub pid : ℕ
  pub seq : ℕ
  pub sent : ℕ
  pub received : ℕ
  pub start_time : ℕ
  pub rtt_min : ℕ
  pub rtt_max : ℕ
  pub rtt_sum : ℕ
  pub rtt_sum_us : ℕ
  pub rtt_sum_squares_us : ℕ
  pub rtt_last : ℕ
  pub icmp_req_type : ℕ
  pub icmp_rep_type : ℕ
  pub is_dgram : Bool
  pub packet : List ℕ
  pub header_size : ℕ
  pub total_len : ℕ
  pub sent_times : ℕ → ℕ
  pub replied_or_timeout : ℕ → Bool
  pub next_timeout_check_seq : ℕ
  pub printed : List Event

unfoldable pub update_ping_stats : State → ℕ → State
update_ping_stats st rtt =
    let rtt_us = rtt / 1000 in
    record st {
      rtt_min = if st.rtt_min == 0 || ltb rtt st.rtt_min then rtt else st.rtt_min;
      rtt_max = if ltb st.rtt_max rtt then rtt else st.rtt_max;
      rtt_sum = u64 (st.rtt_sum + rtt);
      rtt_sum_us = u64 (st.rtt_sum_us + rtt_us);
      rtt_sum_squares_us = u64 (st.rtt_sum_squares_us + u64 (rtt_us * rtt_us));
      rtt_last = rtt;
    }

-- The round-trip part of the summary: min, avg, max, and mdev in the plain style.
pub data Times : Type 0 where
  min_avg_max : ℕ → ℕ → ℕ → Times
  min_avg_max_mdev : ℕ → ℕ → ℕ → ℕ → Times

-- The numbers of the summary: percentage, packets sent, packets received, times.
pub data Report : Type 0 where
  silent : Report
  cisco : ℕ → ℕ → ℕ → Option Times → Report
  plain : ℕ → ℕ → ℕ → Option Times → Report

unfoldable pub success_percent : State → ℕ
success_percent st = if st.sent == 0 then 0 else u32 (st.received * 100) / st.sent

unfoldable pub loss_percent : State → ℕ
loss_percent st = if st.sent == 0 then 0 else u32 (sub32 st.sent st.received * 100) / st.sent

unfoldable pub variance_us : State → ℕ
variance_us st =
    let avg_us = st.rtt_sum_us / st.received in
    sub64 (st.rtt_sum_squares_us / st.received) (u64 (avg_us * avg_us))

unfoldable pub plain_times : State → Option Times
unfolding variance_us
plain_times st =
    Option.map
      (λ root.
        min_avg_max_mdev st.rtt_min (st.rtt_sum / st.received) st.rtt_max (u64 (root * 1000)))
      (integer_sqrt (variance_us st))

unfoldable pub print_statistics : Config → State → Report
unfolding success_percent loss_percent plain_times
print_statistics config st =
    let timed = ltb 0 st.received && leb 8 config.payload_size in
    if config.quiet
    then silent
    else if config.cisco_style
    then cisco (success_percent st) st.sent st.received (
        if timed then some (min_avg_max st.rtt_min (st.rtt_sum / st.received) st.rtt_max) else none)
    else plain (loss_percent st) st.sent st.received (if timed then plain_times st else none)
