-- ===== src/Pscan/OnceShown.antt =====
-- That a whole scan by src/pscan.c prints each open port once.
use knetutils.Base.{ℕ, ◌-◌, ◌≤◌, ◌<◌}
use knetutils.Base.{◌≡◌, refl, sym, ap, ◌∙◌, inl, inr, arith}
use knetutils.Base.{false, ◌&&◌, List, [], ◌∷◌}
use knetutils.Base.{Bool-cases}
use knetutils.Base.{length-replicate}
use knetutils.Base.{Text}
use knetutils.Pscan.State.{Config, State, init_state, num_ports}
use knetutils.Pscan.Packet.{in_range, process_packet}
use knetutils.Pscan.Ports.{port_list}
use knetutils.Pscan.Probe.{Packet, Turn, send_probe, drain_packets, probe_ports}
use knetutils.Pscan.Run.{World, with_turns, wait_rounds, scan}
use knetutils.Pscan.Scan.{is_answered, scan-open, get_or-replicate}
use knetutils.Base.{length-replicate}
use knetutils.Pscan.Shown.{lines_for, one_if, IsShown, agreeing-IsShown, process_packet-IsShown}

module _ (config : Config) (loud : config.json_output ≡ false) where
  drain-IsShown :
      (st : State) (pkts : List Packet)
      → IsShown config st
      → IsShown config (drain_packets config st pkts)
  unfolding drain_packets
  drain-IsShown st [] s = s
  drain-IsShown st (pkt ∷ pkts) s =
      drain-IsShown (process_packet config st pkt.buf pkt.len pkt.family pkt.name pkt.recv_time)
        pkts (process_packet-IsShown config loud st pkt s)

  send-IsShown :
      (st : State) (port now : ℕ)
      → IsShown config st
      → IsShown config (send_probe config st port now).0
  unfolding send_probe
  send-IsShown st port now s = elim (Bool-cases (in_range config port)) [
    | inl e ↦ rw e (agreeing-IsShown config st _ refl refl s)
    | inr e ↦ rw e s
  ]

  probe-IsShown :
      (st : State) (turns : List (ℕ × Turn))
      → IsShown config st
      → IsShown config (probe_ports config st turns)
  unfolding probe_ports
  probe-IsShown st [] s = s
  probe-IsShown st ((port, turn) ∷ turns) s =
      let sent : State = (send_probe config st port turn.now).0 in
      probe-IsShown (drain_packets config sent turn.packets) turns
        (drain-IsShown sent turn.packets (send-IsShown st port turn.now s))

  wait-IsShown :
      (st : State) (rounds : List (List Packet))
      → IsShown config st
      → IsShown config (wait_rounds config st rounds)
  unfolding wait_rounds
  wait-IsShown st [] s = s
  wait-IsShown st (pkts ∷ rounds) s =
      wait-IsShown (drain_packets config st pkts) rounds (drain-IsShown st pkts s)

  start-IsShown :
      (src_addr : List ℕ) (target_str : Text) (pid : ℕ)
      → config.start_port ≤ config.end_port
      → config.end_port < 65536
      → IsShown config (init_state config src_addr target_str pid)
  unfolding init_state
  start-IsShown src_addr target_str pid le lt = record {
    room = omega (arith, length-replicate (num_ports config) false);
    once =
        λ port at. ap one_if (sym (get_or-replicate (num_ports config) (port - config.start_port)));
    inside = λ port out. refl;
  }

  scan-IsShown :
      (w : World)
      → config.start_port ≤ config.end_port
      → config.end_port < 65536
      → IsShown config (scan config w)
  unfolding scan
  scan-IsShown w le lt =
      let st = init_state config w.src_addr w.target_str w.pid in
      let turns = with_turns w.turn 0 (port_list config w.rand) in
      wait-IsShown (probe_ports config st turns) w.waited
        (probe-IsShown st turns (start-IsShown w.src_addr w.target_str w.pid le lt))

-- A scan without JSON of a range that is not empty prints, while it scans, one line for each port of the
-- range that some received packet answers, however often it is answered, and no line for any other port.
pub scan-lines :
    (config : Config) (w : World) (port : ℕ)
    → config.json_output ≡ false
    → config.start_port ≤ config.end_port
    → config.end_port < 65536
    → lines_for port (scan config w).printed
      ≡ one_if (in_range config port && is_answered config w port)
scan-lines config w port loud le lt =
    let s = scan-IsShown config loud w le lt in
    elim (Bool-cases (in_range config port)) [
      | inl at ↦ rw at (s.once port at ∙ ap one_if (scan-open config w port le lt at))
      | inr out ↦ rw out (s.inside port out)
    ]
