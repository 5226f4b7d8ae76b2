-- ===== src/Pscan/Run.antt =====
-- `pscan_run` of src/pscan.c, from the arrays to the report. What the process is given from outside
-- is a `World`; the sockets are those of Pscan/Setup. `none` means that the fuel of a loop over the
-- range ran out. The text of what is printed is in Pscan.Json and Pscan.Lines.
use knetutils.Base.{ℕ, ◌+◌, ◌-◌}
use knetutils.Base.{Bool, false, not, ◌&&◌, Option, none, some, List, [], ◌∷◌}
use knetutils.Base.{if◌then◌else◌}
use knetutils.Base.{get_or, set}
use knetutils.Base.{Text}
use mathlib.Core.Option
use knetutils.Pscan.State.{Config, State, init_state}
use knetutils.Pscan.Ports.{port_list}
use knetutils.Pscan.Probe.{Packet, Turn, drain_packets, probe_ports}
use knetutils.Pscan.Banner.{grab_banner}
use knetutils.Pscan.Report.{Entry, visit, json_report, non_empty}

-- What a connection for a banner gives: a socket, the connection, the first read and the read after
-- the request.
pub record Connection : Type 0 where
  pub opened : Bool
  pub connected : Bool
  pub first : Option (List ℕ)
  pub second : Option (List ℕ)

-- The source address and the name of the target that `init_pscan_state` finds, the process id, what `rand`
-- returns, the turn of each index of `port_list`, what is received in each round of the waiting and what
-- the connection to a port gives.
pub record World : Type 0 where
  pub src_addr : List ℕ
  pub target_str : Text
  pub pid : ℕ
  pub rand : ℕ → ℕ
  pub turn : ℕ → Turn
  pub waited : List (List Packet)
  pub connection : ℕ → Connection

-- The ports with the turns of the indices from `i` on.
abbrev pub with_turns : (ℕ → Turn) → ℕ → List ℕ → List (ℕ × Turn)
with_turns turn i [] = []
with_turns turn i (port ∷ ports) = (port, turn i) ∷ with_turns turn (i + 1) ports

-- `while (get_time_ns() - start_wait < config->timeout_ns)`, for as many rounds as receive packets.
unfoldable pub wait_rounds : Config → State → List (List Packet) → State
wait_rounds config st [] = st
wait_rounds config st (pkts ∷ rounds) = wait_rounds config (drain_packets config st pkts) rounds

-- The probes and the waiting.
unfoldable pub scan : Config → World → State
scan config w =
    let st = init_state config w.src_addr w.target_str w.pid in
    let turns = with_turns w.turn 0 (port_list config w.rand) in
    wait_rounds config (probe_ports config st turns) w.waited

-- Phase 2, for the ports visited.
unfoldable pub grab_banners : Config → (ℕ → Connection) → State → List ℕ → State
grab_banners config connection st [] = st
grab_banners config connection st (port ∷ ports) =
    let idx = port - config.start_port in
    let c = connection port in
    let old = get_or st.banners idx [] in
    let banner = grab_banner c.opened c.connected c.first c.second old 128 in
    let grabbed =
      if get_or st.open_ports idx false
      then record st { banners = set st.banners idx banner }
      else st in
    grab_banners config connection grabbed ports

unfoldable pub banner_phase : ℕ → Config → (ℕ → Connection) → State → Option State
banner_phase fuel config connection st =
    if config.banner_grab && not config.udp
    then Option.map (grab_banners config connection st)
        (visit fuel config.end_port config.start_port)
    else some st

-- What is printed at the end.
pub data Report : Type 0 where
  json : Text → List Entry → Report
  open_filtered : List ℕ → Report
  banner_list : List (ℕ × Text) → Report
  nothing : Report

-- The ports of a UDP scan that did not answer.
unfoldable pub not_closed : Config → State → List ℕ → List ℕ
not_closed config st [] = []
not_closed config st (port ∷ ports) =
    let rest = not_closed config st ports in
    if get_or st.closed_ports (port - config.start_port) false then rest else port ∷ rest

unfoldable pub with_banner : Config → State → List ℕ → List (ℕ × Text)
with_banner config st [] = []
with_banner config st (port ∷ ports) =
    let idx = port - config.start_port in
    let banner = get_or st.banners idx [] in
    let rest = with_banner config st ports in
    if get_or st.open_ports idx false && non_empty banner then (port, banner) ∷ rest else rest

unfoldable pub report : ℕ → Config → State → Option Report
report fuel config st =
    if config.json_output
    then Option.map (json st.target_str) (json_report fuel config st)
    else if config.udp
    then Option.map (λ ports. open_filtered (not_closed config st ports))
        (visit fuel config.end_port config.start_port)
    else if config.banner_grab
    then Option.map (λ ports. banner_list (with_banner config st ports))
        (visit fuel config.end_port config.start_port)
    else some nothing

unfoldable pub behind_banners : ℕ → Config → Option State → Option Report
behind_banners fuel config none = none
behind_banners fuel config (some st) = report fuel config st

unfoldable pub pscan_run : ℕ → Config → World → Option Report
unfolding scan banner_phase behind_banners
pscan_run fuel config w =
    behind_banners fuel config (banner_phase fuel config w.connection (scan config w))
