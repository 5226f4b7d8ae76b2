-- ===== src/Tcping/Run.antt =====
-- The rounds of `tcping_run` of src/tcping.c. The clock, the received packets and `keep_running` come
-- from an environment: one `Tick` for each round, and the run is interrupted where they end. The
-- socket's own errors and the wait in `poll` are left out; the time given to `poll` is not.
use knetutils.Base.{ℕ, ◌+◌, ◌-◌, ◌*◌, ◌/◌, ◌%◌}
use knetutils.Base.{Bool, true, false, ◌&&◌, ◌||◌, Option, none, some, List, [], ◌∷◌}
use knetutils.Base.{ltb, leb, ◌==◌, ◌!=◌, if◌then◌else◌}
use knetutils.Base.{update}
use knetutils.Base.{u16, u32, u64, sub32, sub64, has_bit}
use knetutils.Base.{byte_at, be16, be32}
use knetutils.Base.{is_inet}
use knetutils.Utils.{time_diff_ns}
use knetutils.Net.Tcp.{in_addr, in6_addr, ipv4_pseudo_header, ipv6_pseudo_header, tcp_probe}
use knetutils.Window.{Window, scan, millis}
use knetutils.Base.{◌++◌, map}
use knetutils.Tcping.State.{Config, replied, timed_out, State}

abbrev pub pseudo_header : Config → State → List ℕ
pseudo_header config st =
    if is_inet config.family
    then ipv4_pseudo_header (in_addr st.src_addr) (in_addr config.target_addr)
    else ipv6_pseudo_header (in6_addr st.src_addr) (in6_addr config.target_addr)

-- The state after a probe, and the segment handed to the kernel.
unfoldable pub send_tcping_probe : Config → State → State × List ℕ
send_tcping_probe config st = (
  record st { sent = u32 (st.sent + 1) },
  tcp_probe (pseudo_header config st) st.sport config.port st.seq,
)

-- What was received: the buffer, the number of bytes, the clock at the match.
pub record Packet : Type 0 where
  pub buf : List ℕ
  pub len : ℕ
  pub recv_time : ℕ

-- `raw_seq`, one below the acknowledgement number, as a u_short.
abbrev pub acked : ℕ → ℕ
acked ack = u16 (if ltb 0 ack then ack - 1 else ack)

abbrev pub is_answer : ℕ → Bool
is_answer flags = has_bit flags 1 && has_bit flags 4 || has_bit flags 2

-- The slot that a packet answers, if it is an answer to a probe at all.
unfoldable pub answered_slot : Config → State → Packet → Option ℕ
answered_slot config st pkt =
    let hlen = if is_inet config.family then byte_at pkt.buf 0 % 16 * 4 else 0 in
    if ltb pkt.len (hlen + 20)
    then none
    else if be16 pkt.buf (hlen + 2) != st.sport || be16 pkt.buf hlen != config.port
    then none
    else if is_answer (byte_at pkt.buf (hlen + 13))
    then some (acked (be32 pkt.buf (hlen + 8)))
    else none

-- The first answer for a slot counts, and is reported with its flags and its round-trip time.
unfoldable pub take_answer : ℕ → ℕ → Option ℕ → State → State
take_answer flags recv_time none st = st
take_answer flags recv_time (some seq) st =
    let sent = st.sent_times seq in
    let rtt = if ltb 0 sent && leb sent recv_time then time_diff_ns sent recv_time else 0 in
    if st.replied_or_timeout seq then st else record st {
      replied_or_timeout = update st.replied_or_timeout seq true;
      received = u32 (st.received + 1);
      printed = st.printed ++ (replied flags rtt ∷ []);
    }

abbrev pub header_len : Config → Packet → ℕ
header_len config pkt = if is_inet config.family then byte_at pkt.buf 0 % 16 * 4 else 0

-- `r_tcph->th_flags`.
abbrev pub flags_of : Config → Packet → ℕ
flags_of config pkt = byte_at pkt.buf (header_len config pkt + 13)

-- One packet of `drain_tcping_replies`.
unfoldable pub take_reply : Config → State → Packet → State
unfolding answered_slot take_answer
take_reply config st pkt =
    take_answer (flags_of config pkt) pkt.recv_time (answered_slot config st pkt) st

unfoldable pub drain_tcping_replies : Config → State → List Packet → State
drain_tcping_replies config st [] = st
drain_tcping_replies config st (pkt ∷ pkts) =
    drain_tcping_replies config (take_reply config st pkt) pkts

-- One round: the clock at its head and after the sending, and the packets that are then drained.
pub record Tick : Type 0 where
  pub now : ℕ
  pub later : ℕ
  pub packets : List Packet

-- `config->count == 0 || st.sent < config->count`.
abbrev pub wants_more : Config → State → Bool
wants_more config st = config.count == 0 || ltb st.sent config.count

-- The probe of a round, if one is due: the state and `next_send_time`.
unfoldable pub send_due : Config → ℕ → State × ℕ → State × ℕ
unfolding send_tcping_probe
send_due config now (st, next_send_time) =
    let noted = record st {
      sent_times = update st.sent_times (u16 st.seq) now;
      replied_or_timeout = update st.replied_or_timeout (u16 st.seq) false;
    } in
    let sent = (send_tcping_probe config noted).0 in
    if wants_more config st && leb next_send_time now
    then (record sent { seq = u32 (sent.seq + 1) }, u64 (now + config.interval_ns))
    else (st, next_send_time)

abbrev pub window_of : State → Window
window_of st = record {
  sent_times = st.sent_times;
  replied_or_timeout = st.replied_or_timeout;
  next = st.next_timeout_check_seq;
  late = [];
}

abbrev pub with_window : State → Window → State
with_window st w = record st {
  replied_or_timeout = w.replied_or_timeout;
  next_timeout_check_seq = w.next;
  printed = st.printed ++ map timed_out w.late;
}

-- The test that ends the run.
abbrev pub all_settled : Config → State → Bool
all_settled config st =
    ltb 0 config.count && (leb config.count st.sent && st.next_timeout_check_seq == u16 st.seq)

-- `timeout_ms`, the bit pattern of an int.
unfoldable pub poll_timeout : Config → State → ℕ → ℕ → ℕ
poll_timeout config st next_send_time now =
    let waits_until = u64 (st.sent_times st.next_timeout_check_seq + config.timeout_ns) in
    if wants_more config st
    then (if ltb now next_send_time then millis (next_send_time - now) else 0)
    else if st.next_timeout_check_seq != u16 st.seq
    then millis (sub64 waits_until now)
    else 1

-- How a round ends: the loop is left, or it polls with a state, `next_send_time` and `timeout_ms`.
-- `stuck` stands for a timeout loop without fuel.
pub data Round : Type 0 where
  stuck : Round
  leaves : State → Round
  polls : State → ℕ → ℕ → Round

unfoldable pub close_round : Config → ℕ → State × ℕ → Option Window → Round
unfolding poll_timeout
close_round config now (st, next) none = stuck
close_round config now (st, next) (some w) =
    let scanned = with_window st w in
    if all_settled config scanned
    then leaves scanned
    else polls scanned next (poll_timeout config scanned next now)

unfoldable pub round : Config → State → ℕ → Tick → Round
unfolding send_due close_round
round config st next_send_time tick =
    let (st', next) = send_due config tick.now (st, next_send_time) in
    close_round config tick.later (st', next)
      (scan 65537 tick.later config.timeout_ns (u16 (st'.seq)) (window_of st'))

pub data Ending : Type 0 where
  broken : Ending
  completed : State → Ending
  interrupted : State → Ending

-- The loop, from `st` and `next_send_time` on.
unfoldable pub tcping_run : Config → State → ℕ → List Tick → Ending
tcping_run config st next_send_time [] = interrupted st
tcping_run config st next_send_time (tick ∷ ticks) = elim (round config st next_send_time tick) [
  | stuck ↦ broken
  | leaves st' ↦ completed st'
  | polls st' next timeout_ms ↦
      tcping_run config (drain_tcping_replies config st' tick.packets) next ticks
]

-- The percentage of `print_tcping_stats`.
unfoldable pub loss_percent : State → ℕ
loss_percent st = if st.sent == 0 then 0 else u32 (sub32 st.sent st.received * 100) / st.sent
