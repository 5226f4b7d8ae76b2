-- ===== src/Pscan/Answered.antt =====
-- The open ports of src/pscan.c against what was received: a port is open exactly if a packet answered it.
use knetutils.Base.{ℕ, ◌+◌, ◌-◌, ◌<◌}
use knetutils.Base.{◌≡◌, refl, ap, ◌∙◌, inl, inr, arith}
use knetutils.Base.{Bool, true, false, not, ◌&&◌, ◌||◌, Option, none, some, List, [], ◌∷◌}
use knetutils.Base.{ltb, leb, ◌==◌, if◌then◌else◌, Bool-cases}
use knetutils.Base.{length, get_or, set}
use knetutils.Base.{length-set, get_or-set_self, get_or-set_ne}
use knetutils.Base.{Text, same_text}
use knetutils.Base.{Family, is_inet}
use native.Mathlib.Decide.{ℕ_discrete}
use knetutils.Pscan.State.{Config, State}
use knetutils.Pscan.Packet.{
  in_range, close_port, refused_v4, refused_v6, Segment, segment_of, is_syn_ack, open_port,
  take_segment, process_packet,
}
use knetutils.Pscan.Probe.{Packet}

-- A SYN-ACK from the port, for a scan from the port `sport`.
abbrev pub answers_port : ℕ → ℕ → Option Segment → Bool
answers_port sport port none = false
answers_port sport port (some seg) = seg.dport == sport && (seg.port == port && is_syn_ack seg)

-- What it means that a packet answers the probe of a port, without a look at the state of the scan but for
-- the target's name and the source port.
abbrev pub answers : Config → Text → ℕ → ℕ → Packet → Bool
answers config target sport port pkt =
    not config.udp
    && (leb 20 pkt.len
        && (same_text pkt.name target
            && answers_port sport port (segment_of pkt.family pkt.buf pkt.len)))

abbrev pub any_answers : Config → Text → ℕ → ℕ → List Packet → Bool
any_answers config target sport port [] = false
any_answers config target sport port (pkt ∷ pkts) =
    answers config target sport port pkt || any_answers config target sport port pkts

-- The state still has the target, the source port and the slots.
pub record SameScan (st st' : State) : Type 0 where
  pub same_target : st'.target_str ≡ st.target_str
  pub same_sport : st'.sport ≡ st.sport
  pub same_slots : length st'.open_ports ≡ length st.open_ports

abbrev pub is_open : Config → State → ℕ → Bool
is_open config st port = get_or st.open_ports (port - config.start_port) false

or_false : (b : Bool) → b ≡ (b || false)
or_false true = refl
or_false false = refl

take_segment-SameScan :
    (config : Config) (family : Family) (now : ℕ) (seg : Option Segment) (st : State)
    → SameScan st (take_segment config family now seg st)
unfolding take_segment open_port
take_segment-SameScan config family now none st = record {
  same_target = refl;
  same_sport = refl;
  same_slots = refl;
}
take_segment-SameScan config family now (some seg) st = record {
  same_target = ground arith;
  same_sport = ground arith;
  same_slots = ground (arith, length-set st.open_ports (seg.port - config.start_port) true);
}

close_port-SameScan :
    (config : Config) (port : Option ℕ) (st : State) → SameScan st (close_port config port st)
unfolding close_port
close_port-SameScan config none st = record {
  same_target = refl;
  same_sport = refl;
  same_slots = refl;
}
close_port-SameScan config (some port) st = record {
  same_target = ground arith;
  same_sport = ground arith;
  same_slots = ground arith;
}

same_scan : (st : State) → SameScan st st
same_scan st = record { same_target = refl; same_sport = refl; same_slots = refl }

pub process_packet-SameScan :
    (config : Config) (st : State) (pkt : Packet)
    → SameScan st (process_packet config st pkt.buf pkt.len pkt.family pkt.name pkt.recv_time)
unfolding process_packet
process_packet-SameScan config st pkt =
    let seg = segment_of pkt.family pkt.buf pkt.len in
    let p =
      if is_inet config.target_family
      then refused_v4 pkt.buf pkt.len
      else refused_v6 pkt.buf pkt.len in
    elim (Bool-cases config.udp) [
      | inl e ↦ rw e (close_port-SameScan config p st)
      | inr e ↦ elim (Bool-cases (ltb pkt.len 20)) [
        | inl f ↦ rw (e, f) (same_scan st)
        | inr f ↦ elim (Bool-cases (same_text pkt.name st.target_str)) [
          | inl s ↦ rw (e, f, s) (take_segment-SameScan config pkt.family pkt.recv_time seg st)
          | inr s ↦ rw (e, f, s) (same_scan st)
        ]
      ]
    ]

module _ (config : Config) (st : State) (port : ℕ) (inside : in_range config port ≡ true)
    (room : config.end_port < config.start_port + length st.open_ports) where
  take_segment-open :
      (family : Family) (now : ℕ) (seg : Option Segment)
      → is_open config (take_segment config family now seg st) port
        ≡ (is_open config st port || answers_port st.sport port seg)
  unfolding take_segment open_port
  take_segment-open family now none = ground arith
  take_segment-open family now (some seg) =
      let idx = seg.port - config.start_port in
      let self = get_or-set_self st.open_ports (port - config.start_port) true false in
      let other = get_or-set_ne st.open_ports idx (port - config.start_port) true false in
      elim (ℕ_discrete (seg.port) port) [
        | yes e ↦
            let hit : get_or (set st.open_ports idx true) (port - config.start_port) false ≡ true =
              ap
                (λ n.
                  get_or (set st.open_ports (n - config.start_port) true) (port - config.start_port)
                    false)
                e
              ∙ self (ground arith) in
            let old : get_or st.open_ports idx false ≡ is_open config st port =
              ap (λ n. get_or st.open_ports (n - config.start_port) false) e in
            ground (arith, hit, old)
        | no ne ↦ ground (arith, other)
      ]

  close_port-is_open :
      (p : Option ℕ) → is_open config (close_port config p st) port ≡ is_open config st port
  unfolding close_port
  close_port-is_open none = refl
  close_port-is_open (some p) = ground arith

  -- One packet opens the port exactly if it answers it.
  pub process_packet-open :
      (pkt : Packet)
      → is_open config
          (process_packet config st pkt.buf pkt.len pkt.family pkt.name pkt.recv_time)
          port
        ≡ (is_open config st port || answers config st.target_str st.sport port pkt)
  unfolding process_packet
  process_packet-open pkt =
      let seg = segment_of pkt.family pkt.buf pkt.len in
      let p =
        if is_inet config.target_family
        then refused_v4 pkt.buf pkt.len
        else refused_v6 pkt.buf pkt.len in
      elim (Bool-cases config.udp) [
        | inl e ↦ rw e (close_port-is_open p ∙ or_false (is_open config st port))
        | inr e ↦ elim (Bool-cases (ltb pkt.len 20)) [
          | inl f ↦
              let short : leb 20 pkt.len ≡ false = ground arith in
              rw (e, f, short) (or_false (is_open config st port))
          | inr f ↦
              let long : leb 20 pkt.len ≡ true = ground arith in
              elim (Bool-cases (same_text pkt.name st.target_str)) [
                | inl s ↦ rw (e, f, s, long) (take_segment-open pkt.family pkt.recv_time seg)
                | inr s ↦ rw (e, f, s, long) (or_false (is_open config st port))
              ]
        ]
      ]
