-- ===== src/Pscan/Report.antt =====
-- The loops of `pscan_run` over the range after the scan, and what they report. `port` is a u_short
-- that is increased until it passes `end_port`; `none` means that the fuel ran out.
use knetutils.Base.{ℕ, zero, suc, ◌+◌, ◌-◌, ◌≤◌, ◌<◌}
use knetutils.Base.{◌≡◌, refl, ap, ◌∙◌, arith}
use knetutils.Base.{Bool, true, false, not, ◌&&◌, ◌||◌, Option, none, some, List, [], ◌∷◌}
use knetutils.Base.{ltb, leb, if◌then◌else◌}
use knetutils.Base.{get_or}
use knetutils.Base.{u16}
use knetutils.Base.{Text}
use mathlib.Core.Option
use knetutils.Pscan.State.{Config, State}

-- `for (port = config->start_port; port <= config->end_port; port++)`: the ports visited.
unfoldable pub visit : ℕ → ℕ → ℕ → Option (List ℕ)
visit zero end port = none
visit (suc fuel) end port =
    let rest = visit fuel end (u16 (port + 1)) in
    if leb port end then Option.map (λ ports. port ∷ ports) rest else some []

-- What one port contributes to the JSON report.
pub data Entry : Type 0 where
  tcp_open : ℕ → Option ℕ → Option Text → Option Text → Entry
  udp_open : ℕ → Entry

abbrev pub non_empty : Text → Bool
non_empty [] = false
non_empty (c ∷ s) = true

unfoldable pub json_entry : Config → State → ℕ → Option Entry
json_entry config st port =
    let idx = port - config.start_port in
    let rtt = get_or st.open_rtt idx 0 in
    let guess = get_or st.os_guesses idx [] in
    let banner = get_or st.banners idx [] in
    if get_or st.open_ports idx false || (config.udp && not (get_or st.closed_ports idx false))
    then if not config.udp && ltb 0 rtt
      then some (
          tcp_open port (some rtt)
            (if config.os_fingerprint && non_empty guess then some guess else none)
            (if config.banner_grab && non_empty banner then some banner else none))
      else if config.udp
      then some (udp_open port)
      else some (tcp_open port none none none)
    else none

unfoldable pub add_entry : Option Entry → List Entry → List Entry
add_entry none es = es
add_entry (some e) es = e ∷ es

unfoldable pub entries : Config → State → List ℕ → List Entry
unfolding add_entry
entries config st [] = []
entries config st (port ∷ ports) = add_entry (json_entry config st port) (entries config st ports)

-- The JSON report.
unfoldable pub json_report : ℕ → Config → State → Option (List Entry)
unfolding entries visit
json_report fuel config st =
    Option.map (entries config st) (visit fuel config.end_port config.start_port)

-- `n` consecutive ports.
abbrev pub ports_from : ℕ → ℕ → List ℕ
ports_from port zero = []
ports_from port (suc n) = port ∷ ports_from (port + 1) n

pub visit_all :
    (end : ℕ)
    → end < 65535
    → (fuel n port : ℕ) → port + n ≡ end + 1
    → n < fuel
    → visit fuel end port ≡ some (ports_from port n)
unfolding visit
visit_all end h zero n port e f = absurd (omega arith)
visit_all end h (suc fuel) zero port e f = ground arith
visit_all end h (suc fuel) (suc n) port e f =
    let next : u16 (port + 1) ≡ port + 1 = omega arith in
    let rest = visit_all end h fuel n (port + 1) (omega arith) (omega arith) in
    let here : leb port end ≡ true = ground arith in rw (here, next, rest) refl

visit_never : (fuel port : ℕ) → port ≤ 65535 → visit fuel 65535 port ≡ none
unfolding visit
visit_never zero port h = refl
visit_never (suc fuel) port h =
    let here : leb port 65535 ≡ true = ground arith in
    rw (here, visit_never fuel (u16 (port + 1)) (omega arith)) refl

-- A range that ends below 65535 is reported, with fuel for one round more than its ports: the entries
-- of its ports in increasing order.
pub json_report_total :
    (config : Config) (st : State)
    → config.start_port ≤ config.end_port
    → config.end_port < 65535
    → json_report (config.end_port + 2 - config.start_port) config st
      ≡ some (
          entries config st
            (ports_from config.start_port (config.end_port + 1 - config.start_port)))
unfolding json_report
json_report_total config st le lt = ap (Option.map (entries config st)) (
    visit_all config.end_port lt (config.end_port + 2 - config.start_port)
      (config.end_port + 1 - config.start_port) config.start_port (omega arith) (omega arith))

-- A range that ends at 65535 is never reported, with any fuel: the u_short `port` never passes it.
pub json_report_never :
    (fuel : ℕ) (config : Config) (st : State)
    → config.start_port ≤ 65535
    → config.end_port ≡ 65535
    → json_report fuel config st ≡ none
unfolding json_report
json_report_never fuel config st h e =
    ap (Option.map (entries config st))
      (ap (λ end. visit fuel end config.start_port) e ∙ visit_never fuel config.start_port h)
