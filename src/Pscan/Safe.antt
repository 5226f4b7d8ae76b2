-- ===== src/Pscan/Safe.antt =====
-- What a received packet can do to the state of a scan.
use knetutils.Base.{ℕ, ◌+◌, ◌-◌, ◌*◌, ◌%◌, ◌≤◌}
use knetutils.Base.{◌≡◌, refl, arith}
use knetutils.Base.{true, false, Option, none, some, List}
use knetutils.Base.{if◌then◌else◌}
use knetutils.Base.{get_or}
use knetutils.Base.{get_or-set_ne}
use knetutils.Base.{byte_at, AgreeBelow}
use knetutils.Base.{Text, same_text_sound}
use knetutils.Base.{Family, is_inet}
use native.Mathlib.Decide.{dec_lt}
use knetutils.Pscan.State.{Config, State}
use knetutils.Pscan.Packet.{
  refused_v4, refused_v6, close_port, Segment, segment_at, segment_of, is_syn_ack, take_segment,
  process_packet,
}

refused_v4-AgreeBelow :
    (b c : List ℕ) (len : ℕ) → AgreeBelow len b c → refused_v4 b len ≡ refused_v4 c len
unfolding refused_v4
refused_v4-AgreeBelow b c len h =
    let hl : ℕ = byte_at b 0 % 16 * 4 in
    let at : ℕ = hl + 8 + byte_at b (hl + 8) % 16 * 4 + 2 in
    ground (arith, h 0, h hl, h (hl + 1), h (hl + 8), h at, h (at + 1))

refused_v6-AgreeBelow :
    (b c : List ℕ) (len : ℕ) → AgreeBelow len b c → refused_v6 b len ≡ refused_v6 c len
unfolding refused_v6
refused_v6-AgreeBelow b c len h = ground (arith, h 0, h 1, h 50, h 51)

segment_at-AgreeBelow :
    (b c : List ℕ) (len at ttl : ℕ)
    → AgreeBelow len b c
    → at + 20 ≤ len
    → segment_at b at ttl ≡ segment_at c at ttl
segment_at-AgreeBelow b c len at ttl h room =
    ground (
      arith,
      h at,
      h (at + 1),
      h (at + 2),
      h (at + 2 + 1),
      h (at + 13),
      h (at + 14),
      h (at + 14 + 1),
    )

segment_of-AgreeBelow :
    (family : Family) (b c : List ℕ) (len : ℕ)
    → 20 ≤ len
    → AgreeBelow len b c
    → segment_of family b len ≡ segment_of family c len
unfolding segment_of
segment_of-AgreeBelow family b c len room h =
    let hl : ℕ = byte_at b 0 % 16 * 4 in
    ground (
      arith,
      h 0,
      h 8,
      segment_at-AgreeBelow b c len hl (byte_at b 8) h,
      segment_at-AgreeBelow b c len 0 0 h,
    )

-- A packet acts on the state by its received bytes alone: what earlier packets left in the buffer
-- behind them is never used.
pub process_packet-AgreeBelow :
    (config : Config) (st : State) (b c : List ℕ) (len : ℕ) (family : Family) (name : Text)
    (now : ℕ)
    → AgreeBelow len b c
    → process_packet config st b len family name now
      ≡ process_packet config st c len family name now
unfolding process_packet
process_packet-AgreeBelow config st b c len family name now h = elim (dec_lt len 20) [
  | yes short ↦ ground (arith, refused_v4-AgreeBelow b c len h, refused_v6-AgreeBelow b c len h)
  | no long ↦ ground (
    arith,
    refused_v4-AgreeBelow b c len h,
    refused_v6-AgreeBelow b c len h,
    segment_of-AgreeBelow family b c len (omega arith) h,
  )
]

-- The segment answers the scan: it comes from the target to the source port of the scan, is a
-- SYN-ACK, and its port is the one in slot `idx` of the range.
pub record Answers (config : Config) (st : State) (name : Text) (idx : ℕ) (seg : Segment)
    : Type 0 where
  pub from_target : name ≡ st.target_str
  pub to_us : seg.dport ≡ st.sport
  pub syn_ack : is_syn_ack seg ≡ true
  pub in_slot : seg.port ≡ config.start_port + idx
  pub below_end : seg.port ≤ config.end_port

take_segment_opens :
    (config : Config) (family : Family) (now : ℕ) (seg : Option Segment) (st : State) (j : ℕ)
    → get_or st.open_ports j false ≡ false
    → get_or (take_segment config family now seg st).open_ports j false ≡ true
    → (s : Segment) × (seg ≡ some s)
      × (s.dport ≡ st.sport)
      × (is_syn_ack s ≡ true)
      × (s.port ≡ config.start_port + j)
      × (s.port ≤ config.end_port)
unfolding take_segment
take_segment_opens config family now none st j h k = cc
take_segment_opens config family now (some s) st j h k =
    let keep = get_or-set_ne st.open_ports (s.port - config.start_port) j true false in
    (
      s,
      refl,
      ground (arith, keep),
      ground (arith, keep),
      ground (arith, keep),
      ground (arith, keep),
    )

close_port-open :
    (config : Config) (port : Option ℕ) (st : State)
    → (close_port config port st).open_ports ≡ st.open_ports
unfolding close_port
close_port-open config none st = refl
close_port-open config (some port) st = ground arith

reaches :
    (config : Config) (st : State) (buf : List ℕ) (len : ℕ) (family : Family) (name : Text)
    (now j : ℕ)
    → get_or st.open_ports j false ≡ false
    → get_or (process_packet config st buf len family name now).open_ports j false ≡ true
    → (config.udp ≡ false)
      × (name ≡ st.target_str)
      × (get_or (take_segment config family now (segment_of family buf len) st).open_ports j false
          ≡ true)
unfolding process_packet
reaches config st buf len family name now j h k =
    let closed =
      close_port-open config
        (if is_inet config.target_family then refused_v4 buf len else refused_v6 buf len) st in
    let same = same_text_sound name st.target_str in
    (ground (arith, closed, same), ground (arith, closed, same), ground (arith, closed, same))

-- A port becomes open only by a SYN-ACK from the target's port of that slot to the scan's source
-- port; no packet of a UDP scan opens one.
process_packet_opens :
    (config : Config) (st : State) (buf : List ℕ) (len : ℕ) (family : Family) (name : Text)
    (now j : ℕ)
    → get_or st.open_ports j false ≡ false
    → get_or (process_packet config st buf len family name now).open_ports j false ≡ true
    → (config.udp ≡ false)
      × ((seg : Segment) × (segment_of family buf len ≡ some seg) × Answers config st name j seg)
unfolding process_packet
process_packet_opens config st buf len family name now j h k =
    let closed =
      close_port-open config
        (if is_inet config.target_family then refused_v4 buf len else refused_v6 buf len) st in
    let (tcp, named, changed) = reaches config st buf len family name now j h k in
    let (seg, e, d, f, p, q) =
      take_segment_opens config family now (segment_of family buf len) st j h changed in
    (
      tcp,
      (seg, e, record { from_target = named; to_us = d; syn_ack = f; in_slot = p; below_end = q }),
    )
