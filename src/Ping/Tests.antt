-- ===== src/Ping/Tests.antt =====
-- Runs of ping.c, with the theorems applied to them.
use knetutils.Base.{ℕ, ◌≡◌, refl, arith, true, false, Option, some}
use knetutils.Base.{List, [], ◌∷◌, ◌++◌, replicate, Text, codes, Family, inet}
use knetutils.Base.Options.{Opt, goes, read_options}
use knetutils.Ping.Sqrt.{integer_sqrt, IsRoot, integer_sqrt-IsRoot}
use knetutils.Ping.State.{Config, State, update_ping_stats}
use knetutils.Net.Checksum.{calculate_checksum}
use knetutils.Ping.Packet.{
  Packet, init_ping_state, send_ping_request, take_reply, take_answer, answered_seq,
  drain_ping_replies, round_trip,
}
use knetutils.Ping.Request.{send_ping_request_verifies}
use knetutils.Ping.Run.{
  Tick, ping_run, round, send_due, close_round, poll_timeout, next_after, wait_for,
}
use knetutils.Window.{scan}
use knetutils.Utils.{time_diff_ns}
use knetutils.Ping.Settled.{EndsWell, ping_run-EndsWell}
use knetutils.Ping.Reported.{AnswersSent, EndsReported, ping_run-EndsReported}
use knetutils.Ping.Cisco.{EndsMarked, ping_run-EndsMarked}
use knetutils.Ping.Options.{defaults, ping_main, take_target, apply_option, read_pattern}

integer_sqrt-IsRoot_example : (r : ℕ) × (integer_sqrt 1_000_000 ≡ some r) × IsRoot 1_000_000 r
integer_sqrt-IsRoot_example = integer_sqrt-IsRoot 1_000_000 (omega arith)

-- A state to which no time was added yet, of a run with two replies.
abbrev fresh : State
fresh = record {
  pid = 77;
  seq = 3;
  sent = 2;
  received = 2;
  start_time = 5;
  rtt_min = 0;
  rtt_max = 0;
  rtt_sum = 0;
  rtt_sum_us = 0;
  rtt_sum_squares_us = 0;
  rtt_last = 0;
  icmp_req_type = 8;
  icmp_rep_type = 0;
  is_dgram = false;
  packet = [];
  header_size = 28;
  total_len = 84;
  sent_times = λ _. 0;
  replied_or_timeout = λ _. false;
  next_timeout_check_seq = 1;
  printed = [];
}

abbrev times : List ℕ
times = 1_500_000 ∷ 700_000 ∷ []

-- A resolver that knows one address.
abbrev resolver : Text → Family → Option (List ℕ × Family)
resolver name family = some (10 ∷ 0 ∷ 0 ∷ 1 ∷ [], inet)

abbrev hex : Text → Option ℕ
hex s = some 0xab

abbrev options : List Opt
options = (b'C', []) ∷ (b'p', codes "abab") ∷ []

abbrev chosen : Config
chosen = record defaults {
  cisco_style = true;
  pattern = 0xab ∷ 0xab ∷ [];
  target_addr = 10 ∷ 0 ∷ 0 ∷ 1 ∷ [];
  family = inet;
  count = 5;
}

started : ping_main resolver hex (λ _. 0) options (codes "host" ∷ []) ≡ goes chosen
unfolding ping_main take_target apply_option read_options read_pattern
started = refl

-- A state with its packet, as the run starts.
abbrev ready : State
ready = record fresh { packet = replicate 84 0; total_len = 84 }

send_ping_request_verifies_example :
    calculate_checksum (send_ping_request chosen ready 1_000_000).packet ≡ 0
send_ping_request_verifies_example =
    send_ping_request_verifies chosen ready 1_000_000 refl (omega arith) (omega arith) (omega arith)
      (omega arith) refl refl

-- A reply with the identifier 77 to the first request, on a raw socket.
abbrev reply : Packet
reply = record {
  buf = 0x45 ∷ replicate 23 0 ++ (0 ∷ 77 ∷ 0 ∷ 1 ∷ replicate 76 0);
  len = 104;
  name = codes "10.0.0.2";
  recv_time = 2_500;
}

abbrev ticks : List Tick
ticks =
    record { now = 10; stamp = 11; later = 12; packets = reply ∷ [] }
    ∷ record { now = 2_000_000_000; stamp = 2_000_000_001; later = 2_000_000_002; packets = [] }
    ∷ []

ping_run-EndsWell_example :
    EndsWell chosen (ping_run chosen (init_ping_state chosen 77 5 false) 10 ticks)
ping_run-EndsWell_example = ping_run-EndsWell chosen 77 5 10 false ticks (omega arith)

-- The reply comes for the first request, after it was sent.
answers_sent : AnswersSent chosen (init_ping_state chosen 77 5 false) 10 ticks
unfolding round send_due send_ping_request close_round scan poll_timeout take_reply take_answer
    answered_seq drain_ping_replies init_ping_state calculate_checksum next_after wait_for
    update_ping_stats round_trip time_diff_ns
answers_sent = (((omega arith, omega arith), tt), (tt, tt))

ping_run-EndsReported_example :
    EndsReported chosen (ping_run chosen (init_ping_state chosen 77 5 false) 10 ticks)
ping_run-EndsReported_example =
    ping_run-EndsReported chosen 77 5 10 false ticks (omega arith) answers_sent

ping_run-EndsMarked_example :
    EndsMarked (λ n d. []) chosen (ping_run chosen (init_ping_state chosen 77 5 false) 10 ticks)
ping_run-EndsMarked_example =
    ping_run-EndsMarked (λ n d. []) chosen 77 5 10 false ticks
      (record { in_style = refl; loud = refl; no_flood = refl; no_bell = refl }) (omega arith)
      answers_sent
