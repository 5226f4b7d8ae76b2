-- ===== src/Pscan/Refused.antt =====
-- A UDP scan by src/pscan.c against what was received: a port is closed exactly if a packet refused it.
use knetutils.Base.{ℕ, ◌+◌, ◌-◌, ◌≤◌, ◌<◌}
use knetutils.Base.{◌≡◌, refl, sym, ap, ◌∙◌, arith}
use knetutils.Base.{Bool, true, false, ◌||◌, Option, none, some, List, [], ◌∷◌, ◌++◌}
use knetutils.Base.{◌==◌, if◌then◌else◌}
use knetutils.Base.{length, get_or, set, replicate, length-replicate}
use knetutils.Base.{length-set, get_or-set_self, get_or-set_ne}
use knetutils.Base.{is_inet}
use native.Mathlib.Decide.{ℕ_discrete}
use knetutils.Pscan.State.{Config, State, init_state, num_ports}
use knetutils.Pscan.Packet.{in_range, close_port, process_packet}
use knetutils.Pscan.Quoted.{
  bytes_from, unreachable_v4, unreachable_v6, refused_v4-unreachable_v4, refused_v6-unreachable_v6,
}
use knetutils.Pscan.Ports.{port_list}
use knetutils.Pscan.Probe.{Packet, Turn, send_probe, drain_packets, probe_ports}
use knetutils.Pscan.Open.{packets_of, or_assoc, or_nothing}
use knetutils.Pscan.Run.{World, with_turns, wait_rounds, scan}
use knetutils.Pscan.Scan.{packets_in, received, get_or-replicate}

-- The port that a packet refuses, read layer by layer from the bytes received.
abbrev pub refusal : Config → Packet → Option ℕ
refusal config pkt =
    if is_inet config.target_family
    then unreachable_v4 (bytes_from pkt.buf 0 pkt.len)
    else unreachable_v6 (bytes_from pkt.buf 0 pkt.len)

abbrev names_port : ℕ → Option ℕ → Bool
names_port port none = false
names_port port (some p) = p == port

abbrev pub any_refuses : Config → ℕ → List Packet → Bool
any_refuses config port [] = false
any_refuses config port (pkt ∷ pkts) =
    names_port port (refusal config pkt) || any_refuses config port pkts

-- The slots of the closed ports after a packet and after all packets.
abbrev mark : Config → Option ℕ → List Bool → List Bool
mark config none slots = slots
mark config (some p) slots =
    if in_range config p then set slots (p - config.start_port) true else slots

abbrev marks : Config → List Packet → List Bool → List Bool
marks config [] slots = slots
marks config (pkt ∷ pkts) slots = marks config pkts (mark config (refusal config pkt) slots)

marks-append :
    (config : Config) (xs ys : List Packet) (slots : List Bool)
    → marks config (xs ++ ys) slots ≡ marks config ys (marks config xs slots)
marks-append config [] ys slots = refl
marks-append config (x ∷ xs) ys slots =
    marks-append config xs ys (mark config (refusal config x) slots)

length-mark :
    (config : Config) (p : Option ℕ) (slots : List Bool)
    → length (mark config p slots) ≡ length slots
length-mark config none slots = refl
length-mark config (some p) slots = ground (arith, length-set slots (p - config.start_port) true)

module _ (config : Config) (port : ℕ) (inside : in_range config port ≡ true) where
  mark-get_or :
      (p : Option ℕ) (slots : List Bool)
      → config.end_port < config.start_port + length slots
      → get_or (mark config p slots) (port - config.start_port) false
        ≡ (get_or slots (port - config.start_port) false || names_port port p)
  mark-get_or none slots room = or_nothing (get_or slots (port - config.start_port) false)
  mark-get_or (some p) slots room =
      let at = port - config.start_port in
      let self = get_or-set_self slots at true false in
      let other = get_or-set_ne slots (p - config.start_port) at true false in
      elim (ℕ_discrete p port) [
        | yes e ↦
            let hit : get_or (set slots (p - config.start_port) true) at false ≡ true =
              ap (λ n. get_or (set slots (n - config.start_port) true) at false) e
              ∙ self (ground arith) in
            ground (arith, hit)
        | no ne ↦ ground (arith, other)
      ]

  marks-get_or :
      (pkts : List Packet) (slots : List Bool)
      → config.end_port < config.start_port + length slots
      → get_or (marks config pkts slots) (port - config.start_port) false
        ≡ (get_or slots (port - config.start_port) false || any_refuses config port pkts)
  marks-get_or [] slots room = or_nothing (get_or slots (port - config.start_port) false)
  marks-get_or (pkt ∷ pkts) slots room =
      let p = refusal config pkt in
      marks-get_or pkts (mark config p slots) (omega (arith, length-mark config p slots))
      ∙ ap (λ b. b || any_refuses config port pkts) (mark-get_or p slots room)
      ∙ or_assoc (get_or slots (port - config.start_port) false) (names_port port p)
          (any_refuses config port pkts)

close_port-mark :
    (config : Config) (p : Option ℕ) (st : State)
    → (close_port config p st).closed_ports ≡ mark config p st.closed_ports
unfolding close_port
close_port-mark config none st = refl
close_port-mark config (some p) st = ground arith

send-closed :
    (config : Config) (st : State) (port now : ℕ)
    → (send_probe config st port now).0.closed_ports ≡ st.closed_ports
unfolding send_probe
send-closed config st port now = ground arith

module _ (config : Config) (udp : config.udp ≡ true) where
  process-mark :
      (st : State) (pkt : Packet)
      → (process_packet config st pkt.buf pkt.len pkt.family pkt.name pkt.recv_time).closed_ports
        ≡ mark config (refusal config pkt) st.closed_ports
  unfolding process_packet
  process-mark st pkt =
      rw (udp, refused_v4-unreachable_v4 pkt.buf pkt.len, refused_v6-unreachable_v6 pkt.buf pkt.len)
        (close_port-mark config (refusal config pkt) st)

  drain-marks :
      (st : State) (pkts : List Packet)
      → (drain_packets config st pkts).closed_ports ≡ marks config pkts st.closed_ports
  unfolding drain_packets
  drain-marks st [] = refl
  drain-marks st (pkt ∷ pkts) =
      drain-marks (process_packet config st pkt.buf pkt.len pkt.family pkt.name pkt.recv_time) pkts
      ∙ ap (marks config pkts) (process-mark st pkt)

  probe-marks :
      (st : State) (turns : List (ℕ × Turn))
      → (probe_ports config st turns).closed_ports ≡ marks config (packets_of turns) st.closed_ports
  unfolding probe_ports
  probe-marks st [] = refl
  probe-marks st ((p, turn) ∷ turns) =
      let sent : State = (send_probe config st p turn.now).0 in
      probe-marks (drain_packets config sent turn.packets) turns
      ∙ ap (marks config (packets_of turns)) (
          drain-marks sent turn.packets
          ∙ ap (marks config turn.packets) (send-closed config st p turn.now))
      ∙ sym (marks-append config turn.packets (packets_of turns) st.closed_ports)

  wait-marks :
      (st : State) (rounds : List (List Packet))
      → (wait_rounds config st rounds).closed_ports
        ≡ marks config (packets_in rounds) st.closed_ports
  unfolding wait_rounds
  wait-marks st [] = refl
  wait-marks st (pkts ∷ rounds) =
      wait-marks (drain_packets config st pkts) rounds
      ∙ ap (marks config (packets_in rounds)) (drain-marks st pkts)
      ∙ sym (marks-append config pkts (packets_in rounds) st.closed_ports)

  pub scan-closed :
      (w : World) (port : ℕ)
      → config.start_port ≤ config.end_port
      → config.end_port < 65536
      → in_range config port ≡ true
      → get_or (scan config w).closed_ports (port - config.start_port) false
        ≡ any_refuses config port (received config w)
  unfolding scan init_state
  scan-closed w port le lt inside =
      let st = init_state config w.src_addr w.target_str w.pid in
      let turns = with_turns w.turn 0 (port_list config w.rand) in
      let slots = replicate (num_ports config) false in
      let at = port - config.start_port in
      let all : (scan config w).closed_ports ≡ marks config (received config w) slots =
        wait-marks (probe_ports config st turns) w.waited
        ∙ ap (marks config (packets_in w.waited)) (probe-marks st turns)
        ∙ sym (marks-append config (packets_of turns) (packets_in w.waited) slots) in
      ap (λ l. get_or l at false) all
      ∙ marks-get_or config port inside (received config w) slots
          (omega (arith, length-replicate {A = Bool} (num_ports config) false))
      ∙ ap (λ b. b || any_refuses config port (received config w))
          (get_or-replicate (num_ports config) at)
