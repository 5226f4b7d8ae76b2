-- ===== src/Pscan/Refine.antt =====
-- The report of src/pscan.c for a TCP scan against an abstract scanner.
use knetutils.Base.{ℕ, zero, suc, ◌+◌, ◌-◌, ◌≤◌, ◌<◌}
use knetutils.Base.{◌≡◌, refl, ap, ap₂, ◌∙◌, inl, inr, arith}
use knetutils.Base.{true, false, none, some, List, [], ◌∷◌, map}
use knetutils.Base.{ltb, if◌then◌else◌, Bool-cases}
use knetutils.Base.{get_or, set}
use knetutils.Pscan.State.{Config, State}
use knetutils.Pscan.Packet.{in_range}
use knetutils.Pscan.Banner.{grab_banner}
use knetutils.Pscan.Report.{
  Entry, tcp_open, udp_open, visit, visit_all, json_entry, add_entry, entries, json_report,
  ports_from, json_report_total,
}
use knetutils.Pscan.Answered.{is_open}
use knetutils.Pscan.Run.{
  Connection, World, scan, grab_banners, banner_phase, json, report, behind_banners, pscan_run,
}
use knetutils.Pscan.Scan.{is_answered, scan-target, scan-open}

-- The abstract scanner: the ports that some received packet answers.
abbrev pub answered_ports : Config → World → List ℕ → List ℕ
answered_ports config w [] = []
answered_ports config w (port ∷ ports) =
    let rest = answered_ports config w ports in
    if is_answered config w port then port ∷ rest else rest

abbrev pub port_of : Entry → ℕ
port_of (tcp_open port rtt guess banner) = port
port_of (udp_open port) = port

-- Phase 2 changes only the banners.
abbrev grab_one : Config → (ℕ → Connection) → State → ℕ → State
grab_one config connection st port =
    let idx = port - config.start_port in
    let c = connection port in
    let old = get_or st.banners idx [] in
    let banner = grab_banner c.opened c.connected c.first c.second old 128 in
    if get_or st.open_ports idx false then record st { banners = set st.banners idx banner } else st

grab_one-same :
    (config : Config) (connection : ℕ → Connection) (st : State) (port : ℕ)
    → let st' = grab_one config connection st port in
      (st'.open_ports ≡ st.open_ports) × (st'.target_str ≡ st.target_str)
grab_one-same config connection st port =
    elim (Bool-cases (get_or st.open_ports (port - config.start_port) false)) [
      | inl e ↦ rw e (refl, refl)
      | inr e ↦ rw e (refl, refl)
    ]

grab-same :
    (config : Config) (connection : ℕ → Connection) (st : State) (ports : List ℕ)
    → let st' = grab_banners config connection st ports in
      (st'.open_ports ≡ st.open_ports) × (st'.target_str ≡ st.target_str)
unfolding grab_banners
grab-same config connection st [] = (refl, refl)
grab-same config connection st (port ∷ ports) =
    let one = grab_one-same config connection st port in
    let rest = grab-same config connection (grab_one config connection st port) ports in
    (rest.0 ∙ one.0, rest.1 ∙ one.1)

-- An entry of a TCP scan stands for an open port.
module _ (config : Config) (tcp : config.udp ≡ false) (st : State) where
  open_entry :
      (port : ℕ)
      → is_open config st port ≡ true
      → (e : Entry) × (json_entry config st port ≡ some e) × (port_of e ≡ port)
  unfolding json_entry
  open_entry port o = elim (Bool-cases (ltb 0 (get_or st.open_rtt (port - config.start_port) 0))) [
    | inl r ↦ rw (tcp, o, r) (_, refl, refl)
    | inr r ↦ rw (tcp, o, r) (_, refl, refl)
  ]

  no_entry : (port : ℕ) → is_open config st port ≡ false → json_entry config st port ≡ none
  unfolding json_entry
  no_entry port o = rw (tcp, o) refl

-- Every port of the list is in the range.
abbrev pub AllInRange : Config → List ℕ → Type 0
AllInRange config [] = Unit
AllInRange config (port ∷ ports) = (in_range config port ≡ true) × AllInRange config ports

pub ports_from-AllInRange :
    (config : Config) (n port : ℕ)
    → config.start_port ≤ port
    → port + n ≤ config.end_port + 1
    → AllInRange config (ports_from port n)
ports_from-AllInRange config zero port le room = tt
ports_from-AllInRange config (suc n) port le room =
    (ground arith, ports_from-AllInRange config n (port + 1) (omega arith) (omega arith))

module _ (config : Config) (w : World) (tcp : config.udp ≡ false)
    (le : config.start_port ≤ config.end_port) (lt : config.end_port < 65535) where
  listed :
      (st : State) (ports : List ℕ)
      → st.open_ports ≡ (scan config w).open_ports
      → AllInRange config ports
      → map port_of (entries config st ports) ≡ answered_ports config w ports
  unfolding entries add_entry
  listed st [] same inside = refl
  listed st (port ∷ ports) same (here, inside) =
      let found : is_open config st port ≡ is_answered config w port =
        ap (λ l. get_or l (port - config.start_port) false) same
        ∙ scan-open config w port le (omega arith) here in
      let rest = listed st ports same inside in
      elim (Bool-cases (is_answered config w port)) [
        | inl a ↦
            let (e, is, at) = open_entry config tcp st port (found ∙ a) in
            rw a (
              ap (λ o. map port_of (add_entry o (entries config st ports))) is
              ∙ ap₂ (λ p ps. p ∷ ps) at rest)
        | inr a ↦
            let is = no_entry config tcp st port (found ∙ a) in
            rw a (ap (λ o. map port_of (add_entry o (entries config st ports))) is ∙ rest)
      ]

  abbrev enough : ℕ
  enough = config.end_port + 2 - config.start_port

  abbrev all_ports : List ℕ
  all_ports = ports_from config.start_port (config.end_port + 1 - config.start_port)

  visited : visit enough config.end_port config.start_port ≡ some all_ports
  visited =
      visit_all config.end_port lt enough (config.end_port + 1 - config.start_port)
        config.start_port (omega arith) (omega arith)

  -- Phase 2 ends, and leaves the open ports and the name.
  banner_phase-ends :
      (st : State) × (banner_phase enough config w.connection (scan config w) ≡ some st)
      × (st.open_ports ≡ (scan config w).open_ports)
      × (st.target_str ≡ w.target_str)
  unfolding banner_phase
  banner_phase-ends = elim (Bool-cases config.banner_grab) [
    | inl b ↦
        let g = grab-same config w.connection (scan config w) all_ports in
        (
          grab_banners config w.connection (scan config w) all_ports,
          rw (b, tcp, visited) refl,
          g.0,
          g.1 ∙ scan-target config w,
        )
    | inr b ↦ (scan config w, rw (b, tcp) refl, refl, scan-target config w)
  ]

pub report-json :
    (fuel : ℕ) (config : Config) (st : State) (es : List Entry)
    → config.json_output ≡ true
    → json_report fuel config st ≡ some es
    → report fuel config st ≡ some (json st.target_str es)
unfolding report
report-json fuel config st es out e = rw (e, out) refl

-- A JSON scan by TCP of a range that ends below 65535 ends, with fuel for one round more than the
-- range has ports, and refines the abstract scanner: its report names the target and its entries are
-- for the ports of the range that some received packet answers, each once, in increasing order. A
-- packet answers a port when it has at least 20 bytes, comes from the target's name and is a SYN-ACK
-- from the port to the scan's source port.
pub pscan_run-answered_ports :
    (config : Config) (w : World)
    → config.udp ≡ false
    → config.json_output ≡ true
    → config.start_port ≤ config.end_port
    → config.end_port < 65535
    → (es : List Entry) × (pscan_run (config.end_port + 2 - config.start_port) config w
        ≡ some (json w.target_str es))
      × (map port_of es
          ≡ answered_ports config w
              (ports_from config.start_port (config.end_port + 1 - config.start_port)))
unfolding pscan_run behind_banners
pscan_run-answered_ports config w tcp out le lt =
    let (st, done, same, name) = banner_phase-ends config w tcp le lt in
    let ports = ports_from config.start_port (config.end_port + 1 - config.start_port) in
    (
      entries config st ports,
      ap (behind_banners (config.end_port + 2 - config.start_port) config) done
          ∙ report-json (config.end_port + 2 - config.start_port) config st
              (entries config st ports) out (json_report_total config st le lt)
          ∙ ap (λ t. some (json t (entries config st ports))) name,
      listed config w tcp le lt st ports same (
          ports_from-AllInRange config (config.end_port + 1 - config.start_port) config.start_port
            (omega arith) (omega arith)),
    )
