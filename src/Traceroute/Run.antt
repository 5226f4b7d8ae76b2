-- ===== src/Traceroute/Run.antt =====
-- `traceroute_run` of traceroute.c: the loops over hops, probes and received packets. The clock, the
-- kernel's answers, the packets and `keep_running` come from an environment: one `Hop` for each
-- value of `ttl`, with one `Tick` for each round of its receive loop (a list that ends stands for
-- an observation that stops there). The 256 probe slots are a function of the index.
use knetutils.Base.{ℕ, zero, suc, ◌+◌, ◌-◌, ◌*◌, ◌^◌}
use knetutils.Base.{Bool, true, false, not, ◌&&◌, ◌||◌, Option, none, some, List, [], ◌∷◌, ◌++◌}
use knetutils.Base.{ltb, leb, ◌==◌, if◌then◌else◌}
use knetutils.Base.{replicate}
use knetutils.Base.{update}
use knetutils.Base.{u8, u16, u64, sub64, swap16}
use knetutils.Base.{is_inet}
use knetutils.Traceroute.Match.{is_our_probe_v4, is_our_probe_v6, check_is_target}
use knetutils.Traceroute.Probe.{Config, State, Sent, send_traceroute_probe}

pub record Probe : Type 0 where
  pub send_time : ℕ
  pub recv_time : ℕ
  pub src_addr : List ℕ
  pub received : Bool
  pub sent_ok : Bool

abbrev pub blank : Probe
blank = record { send_time = 0; recv_time = 0; src_addr = []; received = false; sent_ok = false }

-- A received packet: the receive buffer, the number of bytes received, and the sender.
pub record Packet : Type 0 where
  pub buf : List ℕ
  pub len : ℕ
  pub src : List ℕ

-- One round of the receive loop: the flag and the clock at its head, the clock at the time left,
-- the packet if `poll` and `recvfrom` gave one, the clock at the match.
pub record Tick : Type 0 where
  pub running : Bool
  pub head_time : ℕ
  pub left_time : ℕ
  pub packet : Option Packet
  pub match_time : ℕ

pub record Hop : Type 0 where
  pub running : Bool
  pub send_running : ℕ → Bool
  pub send_time : ℕ → ℕ
  pub taken : ℕ → Bool
  pub ticks : List Tick

-- `TRACEROUTE_PORT_BASE + (ttl - 1) * config->queries + probe` as a u_short.
unfoldable pub dest_port : Config → ℕ → ℕ → ℕ
dest_port config ttl probe = u16 (33434 + ttl * config.queries + 65536 - config.queries + probe)

unfoldable pub is_mine : Config → ℕ → ℕ → ℕ → Packet → ℕ → Bool
unfolding dest_port
is_mine config pid base_seq ttl pkt probe =
    let expected_seq = u16 (base_seq + probe) in
    let port = dest_port config ttl probe in
    if is_inet config.family
    then is_our_probe_v4 pkt.buf pkt.len (swap16 pid) (swap16 expected_seq) config.use_udp port
    else is_our_probe_v6 pkt.buf pkt.len (swap16 pid) (swap16 expected_seq) config.use_udp port

-- The probe phase of one hop.
pub record Sending : Type 0 where
  pub state : State
  pub probes : ℕ → Probe
  pub wait_until : ℕ
  pub log : List Sent

-- The body of the loop over the probes.
unfoldable pub send_one : Config → ℕ → Hop → ℕ → Sending → Sending
send_one config ttl hop probe s =
    let (st, sent, ok) =
      send_traceroute_probe config s.state ttl (dest_port config ttl probe) (hop.taken probe) in
    let until = u64 (hop.send_time probe + config.timeout_ns) in
    record {
      state = record st { seq = u16 (st.seq + 1) };
      probes =
          update s.probes probe
            (record (s.probes probe) { send_time = hop.send_time probe; sent_ok = ok });
      wait_until = if ok && ltb s.wait_until until then until else s.wait_until;
      log = s.log ++ (sent ∷ []);
    }

-- `for (probe = 0; probe < config->queries && keep_running; probe++)`, with `left` probes to go.
unfoldable pub send_probes : Config → ℕ → Hop → ℕ → ℕ → Sending → Sending
send_probes config ttl hop zero probe s = s
send_probes config ttl hop (suc left) probe s =
    let rest = send_probes config ttl hop left (probe + 1) (send_one config ttl hop probe s) in
    if hop.send_running probe then rest else s

pub record Waiting : Type 0 where
  pub target_reached : Bool
  pub probes : ℕ → Probe

-- A probe that was sent and has no answer yet.
abbrev pub pending : (ℕ → Probe) → ℕ → Bool
pending probes probe = (probes probe).sent_ok && not (probes probe).received

-- The test whether every probe is done, for the `left` probes from `probe` on.
unfoldable pub all_done : (ℕ → Probe) → ℕ → ℕ → Bool
all_done probes zero probe = true
all_done probes (suc left) probe =
    let rest = all_done probes left (probe + 1) in if pending probes probe then false else rest

-- The first pending probe, from `probe` on, that the packet answers.
unfoldable pub find_mine : (ℕ → Bool) → (ℕ → Probe) → ℕ → ℕ → Option ℕ
find_mine mine probes zero probe = none
find_mine mine probes (suc left) probe =
    let rest = find_mine mine probes left (probe + 1) in
    if pending probes probe && mine probe then some probe else rest

-- The packet is credited to that probe.
unfoldable pub credit : Config → Tick → Packet → Option ℕ → Waiting → Waiting
credit config tick pkt none w = w
credit config tick pkt (some probe) w = record {
  target_reached = w.target_reached || check_is_target config.family config.use_udp pkt.buf pkt.len;
  probes = update w.probes probe (record (w.probes probe) {
    recv_time = tick.match_time;
    src_addr = pkt.src;
    received = true;
  });
}

unfoldable pub receive : Config → State → ℕ → ℕ → Tick → Option Packet → Waiting → Waiting
unfolding credit
receive config st base_seq ttl tick none w = w
receive config st base_seq ttl tick (some pkt) w =
    credit config tick pkt
      (find_mine (is_mine config st.pid base_seq ttl pkt) w.probes config.queries 0) w

-- One round of `while (keep_running && get_time_ns() < global_wait_until)`; `none` leaves the loop.
unfoldable pub wait_round : Config → State → ℕ → ℕ → ℕ → Tick → Waiting → Option Waiting
unfolding receive all_done
wait_round config st base_seq ttl until tick w =
    let timeout_ns = sub64 until tick.left_time in
    if not (tick.running && ltb tick.head_time until)
    then none
    else if all_done w.probes config.queries 0
    then none
    else if timeout_ns == 0 || leb (2 ^ 63) timeout_ns
    then none
    else some (receive config st base_seq ttl tick tick.packet w)

unfoldable pub wait_loop : Config → State → ℕ → ℕ → ℕ → List Tick → Waiting → Waiting
wait_loop config st base_seq ttl until [] w = w
wait_loop config st base_seq ttl until (tick ∷ ticks) w =
    elim (wait_round config st base_seq ttl until tick w) [
      | none ↦ w
      | some w' ↦ wait_loop config st base_seq ttl until ticks w'
    ]

-- The body of the loop over `ttl`.
unfoldable pub run_hop : Config → State → ℕ → Hop → State × (ℕ → Probe)
run_hop config st ttl hop =
    let base_seq = st.seq in
    let cleared = record st { last_hop_addr = replicate 128 0 } in
    let s =
      send_probes config ttl hop config.queries 0
        (record { state = cleared; probes = λ _. blank; wait_until = 0; log = [] }) in
    let w =
      wait_loop config s.state base_seq ttl s.wait_until hop.ticks
        (record { target_reached = s.state.target_reached; probes = s.probes }) in
    (record (s.state) { target_reached = w.target_reached }, w.probes)

-- `for (ttl = config->first_ttl; ttl <= config->max_ttl && keep_running && !st.target_reached;
-- ttl++)`, for as many hops as the environment has; the hops done, with their probes.
unfoldable pub traceroute_loop : Config → State → ℕ → List Hop → List (ℕ × (ℕ → Probe))
traceroute_loop config st ttl [] = []
traceroute_loop config st ttl (hop ∷ hops) =
    let (st', probes) = run_hop config st ttl hop in
    let rest = traceroute_loop config st' (u8 (ttl + 1)) hops in
    if leb ttl config.max_ttl && (hop.running && not st.target_reached)
    then (ttl, probes) ∷ rest
    else []
