-- ===== src/Tests.antt =====
-- The theorems on src/main.c and on the shared timeout loop, applied to concrete arguments.
use knetutils.Base.{◌≡◌, refl, arith, true, false, none, some}
use knetutils.Base.{[], ◌∷◌, ◌++◌, codes, same_text}
use knetutils.Main.{
  Tool, arping, ping, sniff, tcping, traceroute, pscan, get_basename, main, runs, exits, tool_name,
  IsOther, main_multicall,
}
use knetutils.Base.{◌≢◌, sym, same_text_refl}
use mathlib.Core.Path.{subst}
use knetutils.Base.{Text, Option, Family, List, ℕ, if◌then◌else◌, is_inet, replicate, some}
use knetutils.Net.Kernel.{Call, Reply, Kernel}
use knetutils.Net.Held.{IsHeldBy, close_one}
use knetutils.Ping.Options.{defaults as ping_defaults}
use knetutils.Tcping.Options.{defaults as tcping_defaults}
use knetutils.Arping.Options.{defaults as arping_defaults}
use knetutils.Traceroute.Options.{defaults as traceroute_defaults}
use knetutils.Pscan.Options.{defaults as pscan_defaults}
use knetutils.Sniff.Options.{defaults as sniff_defaults}
use knetutils.Ping.Setup.{setup_ping_socket}
use knetutils.Tcping.Setup.{setup_tcping_socket}
use knetutils.Arping.Setup.{setup_arping_socket}
use knetutils.Traceroute.Setup.{setup_traceroute_sockets, close_sockets as close_traceroute}
use knetutils.Pscan.Setup.{open_sockets, close_sockets as close_pscan}
use knetutils.Sniff.Setup.{open_capture, close_capture}
use knetutils.Base.{◌||◌, ◌==◌}
use knetutils.Cli.{CliOption, opt_str, print_option}
use knetutils.Cli.Columns.{from_column, lines, lines-print_option}
use knetutils.Usage.{
  shown, taken, arping_options, arping_optstring, ping_options, ping_optstring, pscan_options,
  pscan_optstring, sniff_options, sniff_optstring, tcping_options, tcping_optstring,
  traceroute_options, traceroute_optstring,
}
use knetutils.Usage.Agree.{is_refused, is_unknown, usage_agrees}
use knetutils.Arping.Options.{apply_option as arping_option}
use knetutils.Sniff.Options.{apply_option as sniff_option}
use knetutils.Ping.Options.{apply_option as ping_option}
use knetutils.Tcping.Options.{apply_option as tcping_option}
use knetutils.Traceroute.Options.{apply_option as traceroute_option}
use knetutils.Pscan.Options.{apply_option as pscan_option}
use knetutils.Setups.{set_ups-AreHeld}
use knetutils.Window.{Window, scan, IsScanned, scan-IsScanned}

differ : (s t : Text) → same_text s t ≡ false → s ≢ t
differ s t d e =
    let same : same_text s s ≡ false = subst (λ u. same_text s u ≡ false) (sym e) d in
    absurd (ground (arith, same, same_text_refl s))

knetutils-IsOther : IsOther (get_basename (codes "knetutils"))
unfolding get_basename same_text tool_name
knetutils-IsOther arping = differ (codes "knetutils") (codes "arping") refl
knetutils-IsOther ping = differ (codes "knetutils") (codes "ping") refl
knetutils-IsOther sniff = differ (codes "knetutils") (codes "sniff") refl
knetutils-IsOther tcping = differ (codes "knetutils") (codes "tcping") refl
knetutils-IsOther traceroute = differ (codes "knetutils") (codes "traceroute") refl
knetutils-IsOther pscan = differ (codes "knetutils") (codes "pscan") refl

trace-IsOther : IsOther (codes "trace")
unfolding same_text tool_name
trace-IsOther arping = differ (codes "trace") (codes "arping") refl
trace-IsOther ping = differ (codes "trace") (codes "ping") refl
trace-IsOther sniff = differ (codes "trace") (codes "sniff") refl
trace-IsOther tcping = differ (codes "trace") (codes "tcping") refl
trace-IsOther traceroute = differ (codes "trace") (codes "traceroute") refl
trace-IsOther pscan = differ (codes "trace") (codes "pscan") refl

main_multicall_example :
    ((tool : Tool)
      → (main ((codes "/bin" ++ (b'/' ∷ tool_name tool)) ∷ codes "-q" ∷ [])
          ≡ runs tool ((codes "/bin" ++ (b'/' ∷ tool_name tool)) ∷ codes "-q" ∷ []))
        × (main (codes "knetutils" ∷ tool_name tool ∷ codes "-q" ∷ [])
            ≡ runs tool (tool_name tool ∷ codes "-q" ∷ [])))
    × ((status : ℕ) × (main (codes "knetutils" ∷ codes "trace" ∷ codes "-q" ∷ []) ≡ exits status))
main_multicall_example =
    main_multicall (codes "/bin") (codes "knetutils") (codes "trace") (codes "-q" ∷ [])
      knetutils-IsOther trace-IsOther

-- Three probes, the last of which was sent a while ago, around the end of the sequence numbers.
abbrev window : Window
window = record { sent_times = λ j. 100; replied_or_timeout = λ j. false; next = 65534; late = [] }

scan-IsScanned_example :
    (v : Window) × (scan 4 150 10 1 window ≡ some v) × IsScanned 150 10 1 window v
scan-IsScanned_example = scan-IsScanned 4 150 10 1 window (omega arith) (omega arith) (omega arith)

-- A kernel that answers every call, with a new descriptor for each.
abbrev answer : List Call → Call → Option Reply
answer [] c = some (3, replicate 16 0)
answer (first ∷ []) c = some (4, replicate 16 0)
answer (first ∷ second ∷ log) c = some (5, replicate 16 0)

abbrev kernel : Kernel
kernel = record {
  answer = answer;
  interfaces = [];
  route_lines = [];
  log = [];
  opened = 2 ∷ 1 ∷ 0 ∷ [];
  blocks = 0;
}

abbrev inet_pton : Family → Text → Option (List ℕ)
inet_pton family s = if is_inet family then some (127 ∷ 0 ∷ 0 ∷ 1 ∷ []) else none

set_ups-AreHeld_example :
    IsHeldBy close_one kernel (setup_ping_socket inet_pton ping_defaults kernel)
    × IsHeldBy close_one kernel (setup_tcping_socket inet_pton tcping_defaults kernel)
    × IsHeldBy close_one kernel (setup_arping_socket (arping_defaults.0) (codes "eth0") kernel)
    × IsHeldBy close_traceroute kernel
        (setup_traceroute_sockets inet_pton (record traceroute_defaults { use_udp = true }) kernel)
    × IsHeldBy close_pscan kernel (open_sockets (record pscan_defaults { udp = true }) kernel)
    × IsHeldBy close_capture kernel (
        open_capture
          (record sniff_defaults { pcap_file = some (codes "out.pcap") })
          (codes "eth0")
          kernel)
set_ups-AreHeld_example =
    set_ups-AreHeld inet_pton kernel (codes "eth0") ping_defaults tcping_defaults
      (arping_defaults.0) (record traceroute_defaults { use_udp = true })
      (record pscan_defaults { udp = true })
      (record sniff_defaults { pcap_file = some (codes "out.pcap") })

-- An option like that of sniff, whose description has two lines.
abbrev verbosity : CliOption
verbosity = record {
  short_opt = b'v';
  arg_name = none;
  description = codes "increase verbosity" ++ (10 ∷ codes "-v   : show L4 headers");
}

lines-print_option_example :
    from_column 18 (lines (print_option verbosity)) ≡ lines verbosity.description ++ ([] ∷ [])
unfolding opt_str
lines-print_option_example =
    lines-print_option verbosity ((λ e. ground (arith, e)), ((λ e. ground (arith, e)), tt))
      (omega arith)

usage_agrees_example :
    ((shown arping_options b'd' ≡ taken arping_optstring b'd')
      × (is_refused (arping_option arping_defaults (b'd', []))
          ≡ is_unknown (taken arping_optstring b'd')))
    × ((shown ping_options b'd'
          ≡ (if b'd' == b'4' || b'd' == b'6' then none else taken ping_optstring b'd'))
        × (is_refused (ping_option (λ s. none) (λ i. 0) ping_defaults (b'd', []))
            ≡ is_unknown (taken ping_optstring b'd')))
    × ((shown pscan_options b'd' ≡ taken pscan_optstring b'd')
        × (is_refused (pscan_option pscan_defaults (b'd', []))
            ≡ is_unknown (taken pscan_optstring b'd')))
    × ((shown sniff_options b'd' ≡ taken sniff_optstring b'd')
        × (is_refused (sniff_option sniff_defaults (b'd', []))
            ≡ is_unknown (taken sniff_optstring b'd')))
    × ((shown tcping_options b'd' ≡ taken tcping_optstring b'd')
        × (is_refused (tcping_option tcping_defaults (b'd', []))
            ≡ is_unknown (taken tcping_optstring b'd')))
    × ((shown traceroute_options b'd' ≡ taken traceroute_optstring b'd')
        × (is_refused (traceroute_option traceroute_defaults (b'd', []))
            ≡ is_unknown (taken traceroute_optstring b'd')))
usage_agrees_example =
    usage_agrees (λ s. none) (λ i. 0) arping_defaults ping_defaults pscan_defaults sniff_defaults
      tcping_defaults traceroute_defaults b'd' [] (λ e. ground (arith, e))
