-- ===== src/Pscan/State.antt =====
-- The configuration and the state of pscan.c. The arrays have one slot for each port of the range;
-- the socket handles are left out. `target_family` is `target_addr.ss_family`.
use knetutils.Base.{ℕ, ◌+◌, ◌-◌, ◌%◌, ◌^◌}
use knetutils.Base.{Bool, false, Option, List, []}
use knetutils.Base.{replicate}
use knetutils.Base.{u32}
use knetutils.Base.{Text}
use knetutils.Base.{Family}

pub record Config : Type 0 where
  pub start_port : ℕ
  pub end_port : ℕ
  pub timeout_ns : ℕ
  pub target_addr : List ℕ
  pub target_family : Family
  pub family : Family
  pub bind_iface : Option Text
  pub rate_limit : ℕ
  pub udp : Bool
  pub randomize : Bool
  pub json_output : Bool
  pub banner_grab : Bool
  pub os_fingerprint : Bool

-- A line that is printed when a port is found open: its port, its round-trip time, and the guess of the
-- system, empty for none.
pub record OpenLine : Type 0 where
  pub port : ℕ
  pub rtt : ℕ
  pub guess : Text

-- `printed` holds the lines printed so far.
pub record State : Type 0 where
  pub src_addr : List ℕ
  pub target_str : Text
  pub sport : ℕ
  pub sent_time : List ℕ
  pub open_rtt : List ℕ
  pub banners : List Text
  pub os_guesses : List Text
  pub open_ports : List Bool
  pub closed_ports : List Bool
  pub printed : List OpenLine

-- `num_ports` of `pscan_run`.
abbrev pub num_ports : Config → ℕ
num_ports config = u32 (config.end_port + 2 ^ 32 - config.start_port + 1)

-- `calloc` of the arrays, and `init_pscan_state` with the address, the name and the process id.
unfoldable pub init_state : Config → List ℕ → Text → ℕ → State
init_state config src_addr target_str pid =
    let n = num_ports config in
    record {
      src_addr = src_addr;
      target_str = target_str;
      sport = 1024 + pid % 64000;
      sent_time = replicate n 0;
      open_rtt = replicate n 0;
      banners = replicate n [];
      os_guesses = replicate n [];
      open_ports = replicate n false;
      closed_ports = replicate n false;
      printed = [];
    }
