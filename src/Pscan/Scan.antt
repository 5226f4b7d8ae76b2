-- ===== src/Pscan/Scan.antt =====
-- A whole scan by src/pscan.c against what was received: the ports that the report lists.
use knetutils.Base.{ℕ, zero, suc, ◌+◌, ◌-◌, ◌%◌, ◌≤◌, ◌<◌}
use knetutils.Base.{◌≡◌, refl, sym, ap, ap₂, ◌∙◌, arith}
use knetutils.Base.{Bool, true, false, ◌||◌, List, [], ◌∷◌, ◌++◌}
use knetutils.Base.{length, get_or, replicate, length-replicate}
use knetutils.Pscan.State.{Config, State, init_state, num_ports}
use knetutils.Pscan.Packet.{in_range}
use knetutils.Pscan.Ports.{port_list}
use knetutils.Pscan.Probe.{Packet, drain_packets, probe_ports}
use knetutils.Pscan.Answered.{any_answers, SameScan, is_open}
use knetutils.Pscan.Open.{
  drain-SameScan, drain-open, packets_of, probe-SameScan, probe-open, or_assoc, or_nothing,
  SameScan-trans, any-append,
}
use knetutils.Pscan.Run.{World, with_turns, wait_rounds, scan}

-- All packets of the rounds of the waiting.
abbrev pub packets_in : List (List Packet) → List Packet
packets_in [] = []
packets_in (pkts ∷ rounds) = pkts ++ packets_in rounds

-- All packets of a scan, in the order of their receipt.
abbrev pub received : Config → World → List Packet
received config w =
    packets_of (with_turns w.turn 0 (port_list config w.rand)) ++ packets_in w.waited

wait-SameScan :
    (config : Config) (st : State) (rounds : List (List Packet))
    → SameScan st (wait_rounds config st rounds)
unfolding wait_rounds
wait-SameScan config st [] = record { same_target = refl; same_sport = refl; same_slots = refl }
wait-SameScan config st (pkts ∷ rounds) =
    let st₁ : State = drain_packets config st pkts in
    SameScan-trans st st₁ (wait_rounds config st₁ rounds) (drain-SameScan config st pkts)
      (wait-SameScan config st₁ rounds)

wait-open :
    (config : Config) (port : ℕ) (st : State) (rounds : List (List Packet))
    → in_range config port ≡ true
    → config.end_port < config.start_port + length st.open_ports
    → is_open config (wait_rounds config st rounds) port ≡ (
        is_open config st port
        || any_answers config st.target_str st.sport port (packets_in rounds))
unfolding wait_rounds
wait-open config port st [] inside room = or_nothing (is_open config st port)
wait-open config port st (pkts ∷ rounds) inside room =
    let st₁ : State = drain_packets config st pkts in
    let s = drain-SameScan config st pkts in
    let spec = λ (xs : List Packet). any_answers config st.target_str st.sport port xs in
    wait-open config port st₁ rounds inside (omega (arith, s.same_slots))
    ∙ ap₂ (λ x y. x || y) (drain-open config port inside st pkts room)
        (ap₂ (λ t n. any_answers config t n port (packets_in rounds)) s.same_target s.same_sport)
    ∙ or_assoc (is_open config st port) (spec pkts) (spec (packets_in rounds))
    ∙ ap (λ x. is_open config st port || x)
        (sym (any-append config st.target_str st.sport port pkts (packets_in rounds)))

pub get_or-replicate : (n i : ℕ) → get_or (replicate n false) i false ≡ false
get_or-replicate zero i = refl
get_or-replicate (suc n) zero = refl
get_or-replicate (suc n) (suc i) = get_or-replicate n i

-- The source port that `init_pscan_state` takes from the process id.
abbrev pub source_port : World → ℕ
source_port w = 1024 + w.pid % 64000

-- Some packet of the scan answers the port.
abbrev pub is_answered : Config → World → ℕ → Bool
is_answered config w port = any_answers config w.target_str (source_port w) port (received config w)

pub scan-target : (config : Config) (w : World) → (scan config w).target_str ≡ w.target_str
unfolding scan init_state
scan-target config w =
    let st = init_state config w.src_addr w.target_str w.pid in
    let turns = with_turns w.turn 0 (port_list config w.rand) in
    let a = probe-SameScan config st turns in
    let b = wait-SameScan config (probe_ports config st turns) w.waited in
    b.same_target ∙ a.same_target

pub scan-open :
    (config : Config) (w : World) (port : ℕ)
    → config.start_port ≤ config.end_port
    → config.end_port < 65536
    → in_range config port ≡ true
    → is_open config (scan config w) port ≡ is_answered config w port
unfolding scan init_state
scan-open config w port le lt inside =
    let st = init_state config w.src_addr w.target_str w.pid in
    let turns = with_turns w.turn 0 (port_list config w.rand) in
    let probed : State = probe_ports config st turns in
    let a = probe-SameScan config st turns in
    let room : config.end_port < config.start_port + length st.open_ports =
      omega (arith, length-replicate (num_ports config) false) in
    wait-open config port probed w.waited inside (omega (arith, a.same_slots))
    ∙ ap₂ (λ x y. x || y)
        (probe-open config port inside st turns room
          ∙ ap (λ b. b || any_answers config w.target_str (source_port w) port (packets_of turns))
              (get_or-replicate (num_ports config) (port - config.start_port)))
        (ap₂ (λ t n. any_answers config t n port (packets_in w.waited)) a.same_target a.same_sport)
    ∙ sym (
        any-append config w.target_str (source_port w) port (packets_of turns)
          (packets_in w.waited))
