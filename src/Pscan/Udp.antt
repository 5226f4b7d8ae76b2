-- ===== src/Pscan/Udp.antt =====
-- The reports of src/pscan.c for a UDP scan against an abstract scanner.
use knetutils.Base.{ℕ, ◌+◌, ◌-◌, ◌≤◌, ◌<◌}
use knetutils.Base.{◌≡◌, refl, ap, ◌∙◌, inl, inr, arith}
use knetutils.Base.{Bool, true, false, none, some, List, [], ◌∷◌, map}
use knetutils.Base.{if◌then◌else◌, Bool-cases}
use knetutils.Base.{get_or}
use knetutils.Base.{Text}
use knetutils.Pscan.State.{Config, State}
use knetutils.Pscan.Packet.{in_range}
use knetutils.Pscan.Probe.{Packet}
use knetutils.Pscan.Report.{
  udp_open, visit, visit_all, json_entry, add_entry, entries, ports_from, json_report_total,
}
use knetutils.Pscan.Answered.{any_answers, is_open}
use knetutils.Pscan.Run.{
  World, scan, banner_phase, Report, json, open_filtered, banner_list, nothing, not_closed, report,
  behind_banners, pscan_run,
}
use knetutils.Pscan.Scan.{received, source_port, scan-open}
use knetutils.Pscan.Refine.{port_of, AllInRange, ports_from-AllInRange, report-json}
use knetutils.Pscan.Refused.{any_refuses, scan-closed}

-- The abstract scanner: the ports that no received packet refuses.
abbrev pub unrefused_ports : Config → World → List ℕ → List ℕ
unrefused_ports config w [] = []
unrefused_ports config w (port ∷ ports) =
    let rest = unrefused_ports config w ports in
    if any_refuses config port (received config w) then rest else port ∷ rest

-- The ports that a report lists.
abbrev pub ports_listed : Report → List ℕ
ports_listed (json target es) = map port_of es
ports_listed (open_filtered ports) = ports
ports_listed (banner_list banners) = map (λ b. b.0) banners
ports_listed nothing = []

udp_entry :
    (config : Config) (st : State) (port : ℕ) (closed : Bool)
    → config.udp ≡ true
    → is_open config st port ≡ false
    → get_or st.closed_ports (port - config.start_port) false ≡ closed
    → json_entry config st port ≡ (if closed then none else some (udp_open port))
unfolding json_entry
udp_entry config st port true udp shut c = rw (shut, c, udp) refl
udp_entry config st port false udp shut c = rw (shut, c, udp) refl

module _ (config : Config) (w : World) (udp : config.udp ≡ true) where
  no_answers :
      (target : Text) (sport port : ℕ) (pkts : List Packet)
      → any_answers config target sport port pkts ≡ false
  no_answers target sport port [] = refl
  no_answers target sport port (pkt ∷ pkts) = rw udp (no_answers target sport port pkts)

  module _ (le : config.start_port ≤ config.end_port) (lt : config.end_port < 65535) where
    plain_listed :
        (ports : List ℕ)
        → AllInRange config ports
        → not_closed config (scan config w) ports ≡ unrefused_ports config w ports
    unfolding not_closed
    plain_listed [] inside = refl
    plain_listed (port ∷ ports) (here, inside) =
        rw (scan-closed config udp w port le (omega arith) here, plain_listed ports inside) refl

    entry_lem :
        (port : ℕ)
        → in_range config port ≡ true
        → json_entry config (scan config w) port
          ≡ (if any_refuses config port (received config w) then none else some (udp_open port))
    entry_lem port here =
        let shut : is_open config (scan config w) port ≡ false =
          scan-open config w port le (omega arith) here
          ∙ no_answers w.target_str (source_port w) port (received config w) in
        let closed = scan-closed config udp w port le (omega arith) here in
        udp_entry config (scan config w) port (any_refuses config port (received config w)) udp shut
          closed

    json_listed :
        (ports : List ℕ)
        → AllInRange config ports
        → map port_of (entries config (scan config w) ports) ≡ unrefused_ports config w ports
    unfolding entries add_entry
    json_listed [] inside = refl
    json_listed (port ∷ ports) (here, inside) =
        let rest = json_listed ports inside in
        let e = entry_lem port here in
        ap (λ o. map port_of (add_entry o (entries config (scan config w) ports))) e
        ∙ (elim (Bool-cases (any_refuses config port (received config w))) [
          | inl r ↦ rw r rest
          | inr r ↦ rw r (ap (λ ps. port ∷ ps) rest)
        ])

no_banners :
    (fuel : ℕ) (config : Config) (w : World)
    → config.udp ≡ true
    → banner_phase fuel config w.connection (scan config w) ≡ some (scan config w)
unfolding banner_phase
no_banners fuel config w udp = elim (Bool-cases config.banner_grab) [
  | inl b ↦ rw (b, udp) refl
  | inr b ↦ rw (b, udp) refl
]

report-plain :
    (fuel : ℕ) (config : Config) (st : State) (ports : List ℕ)
    → config.json_output ≡ false
    → config.udp ≡ true
    → visit fuel config.end_port config.start_port ≡ some ports
    → report fuel config st ≡ some (open_filtered (not_closed config st ports))
unfolding report
report-plain fuel config st ports plain udp v = rw (v, plain, udp) refl

-- A UDP scan of a range that ends below 65535 ends, with fuel for one round more than the range has ports,
-- and refines an abstract scanner: its report, in JSON or not, lists the ports of the range that no received
-- packet refuses, each once, in increasing order. For IPv4, a packet refuses a port when behind its IP
-- header stands an ICMP message of type 3 and code 3 whose quoted datagram has, behind its own IP header,
-- eight bytes, of which the third and fourth are the port; for IPv6, when it is an ICMPv6 message of type 1
-- and code 4 whose quoted datagram has them behind its first 40 bytes. The quoted protocol is not tested.
pub pscan_run-unrefused_ports :
    (config : Config) (w : World)
    → config.udp ≡ true
    → config.start_port ≤ config.end_port
    → config.end_port < 65535
    → (r : Report) × (pscan_run (config.end_port + 2 - config.start_port) config w ≡ some r)
      × (ports_listed r
          ≡ unrefused_ports config w
              (ports_from config.start_port (config.end_port + 1 - config.start_port)))
unfolding pscan_run behind_banners
pscan_run-unrefused_ports config w udp le lt =
    let n : ℕ = config.end_port + 1 - config.start_port in
    let fuel : ℕ = config.end_port + 2 - config.start_port in
    let ports : List ℕ = ports_from config.start_port n in
    let st : State = scan config w in
    let inside : AllInRange config ports =
      ports_from-AllInRange config n config.start_port (omega arith) (omega arith) in
    let start = ap (behind_banners fuel config) (no_banners fuel config w udp) in
    elim (Bool-cases config.json_output) [
      | inl out ↦ (
        json st.target_str (entries config st ports),
        start
            ∙ report-json fuel config st (entries config st ports) out
                (json_report_total config st le lt),
        json_listed config w udp le lt ports inside,
      )
      | inr plain ↦ (
        open_filtered (not_closed config st ports),
        start
            ∙ report-plain fuel config st ports plain udp
                (visit_all config.end_port lt fuel n config.start_port (omega arith) (omega arith)),
        plain_listed config w udp le lt ports inside,
      )
    ]
