-- ===== src/Traceroute/Probe.antt =====
-- The configuration, the state and the probes of traceroute.c. An address is the bytes of its
-- sockaddr_storage (the port at offset 2 in either family); the socket handles are left out, and
-- whether the kernel took a packet is an argument.
use knetutils.Base.{ℕ}
use knetutils.Base.{Bool, false, Option, List, [], ◌∷◌}
use knetutils.Base.{if◌then◌else◌}
use knetutils.Base.{replicate}
use knetutils.Base.{u16}
use knetutils.Base.{be16_bytes, le16_bytes, write}
use knetutils.Base.{Text}
use knetutils.Base.{Family, is_inet, is_inet6}
use knetutils.Net.Checksum.{calculate_checksum}

pub record Config : Type 0 where
  pub first_ttl : ℕ
  pub max_ttl : ℕ
  pub queries : ℕ
  pub timeout_ns : ℕ
  pub target_addr : List ℕ
  pub family : Family
  pub bind_iface : Option Text
  pub resolve_hostnames : Bool
  pub use_udp : Bool

pub record State : Type 0 where
  pub pid : ℕ
  pub seq : ℕ
  pub target_reached : Bool
  pub packet : List ℕ
  pub header_size : ℕ
  pub last_hop_addr : List ℕ

-- What is handed to the kernel: the hop limit, then the destination or the ICMP message.
pub data Sent : Type 0 where
  udp : ℕ → List ℕ → Sent
  icmp : ℕ → List ℕ → Sent

-- The state at the start, `pid` being that of the process.
unfoldable pub init_traceroute_state : Config → ℕ → State
init_traceroute_state config pid =
    let header_size = if is_inet6 config.family then 8 else 28 in
    record {
      pid = u16 pid;
      seq = 1;
      target_reached = false;
      packet = replicate header_size 0;
      header_size = header_size;
      last_hop_addr = replicate 128 0;
    }

-- The echo request of IPv4, written over the packet buffer with its checksum.
unfoldable pub echo_v4 : List ℕ → ℕ → ℕ → List ℕ
echo_v4 packet pid seq =
    let typed = write packet 0 (8 ∷ 0 ∷ []) in
    let named = write (write typed 4 (be16_bytes pid)) 6 (be16_bytes seq) in
    let zeroed = write named 2 (0 ∷ 0 ∷ []) in
    write zeroed 2 (le16_bytes (calculate_checksum zeroed))

-- That of IPv6, whose checksum the kernel fills in.
unfoldable pub echo_v6 : List ℕ → ℕ → ℕ → List ℕ
echo_v6 packet pid seq =
    let typed = write packet 0 (128 ∷ 0 ∷ []) in
    let named = write (write typed 4 (be16_bytes pid)) 6 (be16_bytes seq) in
    write named 2 (0 ∷ 0 ∷ [])

unfoldable pub send_traceroute_probe : Config → State → ℕ → ℕ → Bool → State × Sent × Bool
unfolding echo_v4 echo_v6
send_traceroute_probe config st ttl dest_port taken =
    if config.use_udp
    then (st, udp ttl (write config.target_addr 2 (be16_bytes dest_port)), taken)
    else let packet =
        if is_inet config.family
        then echo_v4 st.packet st.pid st.seq
        else echo_v6 st.packet st.pid st.seq in
      (record st { packet = packet }, icmp ttl packet, taken)
