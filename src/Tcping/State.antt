-- ===== src/Tcping/State.antt =====
-- The configuration and the state of tcping.c. The socket handle and the name of the target are left
-- out; the 65536 slots of the two arrays are functions of a u_short.
use knetutils.Base.{ℕ, ◌+◌, ◌%◌}
use knetutils.Base.{Bool, false, Option, List, []}
use knetutils.Base.{Text}
use knetutils.Base.{Family}

pub record Config : Type 0 where
  pub port : ℕ
  pub count : ℕ
  pub timeout_ns : ℕ
  pub interval_ns : ℕ
  pub target_addr : List ℕ
  pub family : Family
  pub bind_iface : Option Text
  pub quiet : Bool

-- What a run reports as it goes: an answer with the flags of its segment and its round-trip time, and a
-- probe, by its sequence number, that timed out.
pub data Event : Type 0 where
  replied : ℕ → ℕ → Event
  timed_out : ℕ → Event

-- `printed` holds the reports so far; what each puts on the terminal is in Tcping.Print.
pub record State : Type 0 where
  pub sport : ℕ
  pub seq : ℕ
  pub sent : ℕ
  pub received : ℕ
  pub src_addr : List ℕ
  pub sent_times : ℕ → ℕ
  pub replied_or_timeout : ℕ → Bool
  pub next_timeout_check_seq : ℕ
  pub printed : List Event

-- `init_tcping_state` with the source address and the process id.
unfoldable pub init_tcping_state : List ℕ → ℕ → State
init_tcping_state src_addr pid = record {
  sport = 1024 + pid % 64000;
  seq = 1000;
  sent = 0;
  received = 0;
  src_addr = src_addr;
  sent_times = λ _. 0;
  replied_or_timeout = λ _. false;
  next_timeout_check_seq = 1000;
  printed = [];
}
