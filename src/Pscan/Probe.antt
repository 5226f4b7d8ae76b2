-- ===== src/Pscan/Probe.antt =====
-- The probes of src/pscan.c: `send_probe`, `drain_packets` and the loop of `pscan_run` over the ports.
-- The clock and the received packets come from an environment, one `Turn` for each port, which holds
-- what all the calls of `drain_packets` before the next port receive. The pauses are left out.
use knetutils.Base.{ℕ, ◌+◌, ◌-◌, ◌<◌}
use knetutils.Base.{◌≡◌, refl, sym, ap, ◌∙◌, inl, inr, arith}
use knetutils.Base.{true, Option, none, some, List, [], ◌∷◌}
use knetutils.Base.{ltb, ◌==◌, if◌then◌else◌, Bool-cases}
use knetutils.Base.{length, get_or, set}
use knetutils.Base.{length-set, get_or-set_self, get_or-set_ne}
use knetutils.Base.{be16_bytes, write}
use knetutils.Base.{Text, same_text}
use knetutils.Base.{Family, is_inet}
use mathlib.Core.Path.{subst}
use native.Mathlib.Decide.{ℕ_discrete}
use knetutils.Net.Tcp.{in_addr, in6_addr, ipv4_pseudo_header, ipv6_pseudo_header, tcp_probe}
use knetutils.Pscan.State.{Config, State}
use knetutils.Pscan.Packet.{
  in_range, close_port, take_segment, segment_of, Segment, refused_v4, refused_v6, process_packet,
}

-- What is handed to the kernel: the destination, and the segment of a TCP probe.
pub data Sent : Type 0 where
  udp_probe : List ℕ → Sent
  syn_probe : List ℕ → List ℕ → Sent

-- The target's address with the port, at offset 2 in either family.
abbrev pub destination : Config → ℕ → List ℕ
destination config dport = write config.target_addr 2 (be16_bytes dport)

abbrev pub pseudo_header : Config → State → List ℕ
pseudo_header config st =
    if is_inet config.target_family
    then ipv4_pseudo_header (in_addr st.src_addr) (in_addr config.target_addr)
    else ipv6_pseudo_header (in6_addr st.src_addr) (in6_addr config.target_addr)

-- `now` is the clock when the time of the probe is noted.
unfoldable pub send_probe : Config → State → ℕ → ℕ → State × Sent
send_probe config st dport now =
    let timed =
      if in_range config dport
      then record st { sent_time = set st.sent_time (dport - config.start_port) now }
      else st in
    (
      timed,
      if config.udp
          then udp_probe (destination config dport)
          else syn_probe (destination config dport)
              (tcp_probe (pseudo_header config st) st.sport dport (1000 + dport)),
    )

-- A received packet: the buffer, the number of bytes, the sender's family and name, the clock.
pub record Packet : Type 0 where
  pub buf : List ℕ
  pub len : ℕ
  pub family : Family
  pub name : Text
  pub recv_time : ℕ

unfoldable pub drain_packets : Config → State → List Packet → State
drain_packets config st [] = st
drain_packets config st (pkt ∷ pkts) =
    drain_packets config
      (process_packet config st pkt.buf pkt.len pkt.family pkt.name pkt.recv_time) pkts

pub record Turn : Type 0 where
  pub now : ℕ
  pub packets : List Packet

-- The loop over `port_list`, for as many ports as the environment has turns.
unfoldable pub probe_ports : Config → State → List (ℕ × Turn) → State
unfolding send_probe
probe_ports config st [] = st
probe_ports config st ((port, turn) ∷ rest) =
    probe_ports config (drain_packets config (send_probe config st port turn.now).0 turn.packets)
      rest

-- No packet changes the times of the probes.
take_segment-sent_time :
    (config : Config) (family : Family) (now : ℕ) (seg : Option Segment) (st : State)
    → (take_segment config family now seg st).sent_time ≡ st.sent_time
unfolding take_segment
take_segment-sent_time config family now none st = refl
take_segment-sent_time config family now (some seg) st = ground arith

close_port-sent_time :
    (config : Config) (port : Option ℕ) (st : State)
    → (close_port config port st).sent_time ≡ st.sent_time
unfolding close_port
close_port-sent_time config none st = refl
close_port-sent_time config (some port) st = ground arith

process_packet-sent_time :
    (config : Config) (st : State) (buf : List ℕ) (len : ℕ) (family : Family) (name : Text)
    (now : ℕ)
    → (process_packet config st buf len family name now).sent_time ≡ st.sent_time
unfolding process_packet
process_packet-sent_time config st buf len family name now =
    let seg = segment_of family buf len in
    let port = if is_inet config.target_family then refused_v4 buf len else refused_v6 buf len in
    elim (Bool-cases config.udp) [
      | inl e ↦ rw e (close_port-sent_time config port st)
      | inr e ↦ elim (Bool-cases (ltb len 20)) [
        | inl f ↦ rw (e, f) refl
        | inr f ↦ elim (Bool-cases (same_text name st.target_str)) [
          | inl s ↦ rw (e, f, s) (take_segment-sent_time config family now seg st)
          | inr s ↦ rw (e, f, s) refl
        ]
      ]
    ]

drain-sent_time :
    (config : Config) (st : State) (pkts : List Packet)
    → (drain_packets config st pkts).sent_time ≡ st.sent_time
unfolding drain_packets
drain-sent_time config st [] = refl
drain-sent_time config st (pkt ∷ pkts) =
    drain-sent_time config
      (process_packet config st pkt.buf pkt.len pkt.family pkt.name pkt.recv_time) pkts
    ∙ process_packet-sent_time config st pkt.buf pkt.len pkt.family pkt.name pkt.recv_time

-- The time of the last turn of a port, or `t` if it has none.
abbrev pub last_time : ℕ → List (ℕ × Turn) → ℕ → ℕ
last_time port [] t = t
last_time port ((p, turn) ∷ rest) t = last_time port rest (if p == port then turn.now else t)

send_time :
    (config : Config) (st : State) (p now port : ℕ)
    → in_range config port ≡ true
    → config.end_port < config.start_port + length st.sent_time
    → get_or (send_probe config st p now).0.sent_time (port - config.start_port) 0
      ≡ (if p == port then now else get_or st.sent_time (port - config.start_port) 0)
unfolding send_probe
send_time config st p now port e room =
    let self = get_or-set_self st.sent_time (port - config.start_port) now 0 in
    let other =
      get_or-set_ne st.sent_time (p - config.start_port) (port - config.start_port) now 0 in
    elim (ℕ_discrete p port) [
      | yes q ↦
          subst
            (λ k.
              get_or (send_probe config st k now).0.sent_time (port - config.start_port) 0
              ≡ (if k == port then now else get_or st.sent_time (port - config.start_port) 0))
            (sym q) (ground (arith, self))
      | no ne ↦ ground (arith, other)
    ]

length-send :
    (config : Config) (st : State) (p now : ℕ)
    → length (send_probe config st p now).0.sent_time ≡ length st.sent_time
unfolding send_probe
length-send config st p now = ground (arith, length-set st.sent_time (p - config.start_port) now)

-- When the state has a slot for every port of the range, the slot of a port of the range holds, after the
-- loop, the time of the last probe of that port, whatever packets came between; without a probe it is
-- unchanged.
probe_ports-last_time :
    (config : Config) (st : State) (turns : List (ℕ × Turn)) (port : ℕ)
    → in_range config port ≡ true
    → config.end_port < config.start_port + length st.sent_time
    → get_or (probe_ports config st turns).sent_time (port - config.start_port) 0
      ≡ last_time port turns (get_or st.sent_time (port - config.start_port) 0)
unfolding probe_ports
probe_ports-last_time config st [] port e room = refl
probe_ports-last_time config st ((p, turn) ∷ rest) port e room =
    let sent : State = (send_probe config st p turn.now).0 in
    let same = drain-sent_time config sent turn.packets in
    let len = ap length same ∙ length-send config st p turn.now in
    probe_ports-last_time config (drain_packets config sent turn.packets) rest port e
      (omega (arith, len))
    ∙ ap (λ t. last_time port rest t)
        (ap (λ l. get_or l (port - config.start_port) 0) same
          ∙ send_time config st p turn.now port e room)
