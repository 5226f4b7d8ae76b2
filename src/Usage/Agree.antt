-- ===== src/Usage/Agree.antt =====
-- The options that the tools' usage texts show, that getopt takes for them and that their mains accept.
use knetutils.Base.{ℕ}
use knetutils.Base.{◌≡◌, ◌≢◌, arith}
use knetutils.Base.{Bool, true, false, ◌||◌, Option, none, some}
use knetutils.Base.{◌==◌, if◌then◌else◌}
use knetutils.Base.{Text}
use knetutils.Base.Options.{Step, exits, dies, goes}
use knetutils.Usage.{
  shown, taken, arping_options, arping_optstring, ping_options, ping_optstring, pscan_options,
  pscan_optstring, sniff_options, sniff_optstring, tcping_options, tcping_optstring,
  traceroute_options, traceroute_optstring,
}
use knetutils.Ping.State.{Config as PingConfig}
use knetutils.Tcping.State.{Config as TcpingConfig}
use knetutils.Arping.Options.{Reading as ArpingReading, apply_option as arping_option}
use knetutils.Traceroute.Probe.{Config as TracerouteConfig}
use knetutils.Pscan.State.{Config as PscanConfig}
use knetutils.Sniff.Options.{Config as SniffConfig, apply_option as sniff_option}
use knetutils.Ping.Options.{apply_option as ping_option}
use knetutils.Tcping.Options.{apply_option as tcping_option}
use knetutils.Traceroute.Options.{apply_option as traceroute_option}
use knetutils.Pscan.Options.{apply_range, port_range, split_dash, apply_option as pscan_option}

-- The tool ends with the usage text and the status 1.
abbrev pub is_refused {ℓ} : {C : Type ℓ} → Step C → Bool
is_refused (exits status) = status == 1
is_refused dies = false
is_refused (goes c) = false

abbrev pub is_unknown : Option Bool → Bool
is_unknown none = true
is_unknown (some has_arg) = false

apply_range-accepted :
    (config : PscanConfig) (range : ℕ × ℕ) → is_refused (apply_range config range) ≡ false
unfolding apply_range
apply_range-accepted config (start, end) = ground arith

pscan_lem :
    (config : PscanConfig) (ch : ℕ) (arg : Text)
    → is_refused (pscan_option config (ch, arg)) ≡ is_unknown (taken pscan_optstring ch)
unfolding pscan_option
pscan_lem config ch arg =
    ground (arith, apply_range-accepted config (port_range arg (split_dash arg)))

ping_lem :
    (scan_hex : Text → Option ℕ) (stale : ℕ → ℕ) (config : PingConfig) (ch : ℕ) (arg : Text)
    → is_refused (ping_option scan_hex stale config (ch, arg))
      ≡ is_unknown (taken ping_optstring ch)
unfolding ping_option
ping_lem scan_hex stale config ch arg = ground arith

arping_lem :
    (config : ArpingReading) (ch : ℕ) (arg : Text)
    → is_refused (arping_option config (ch, arg)) ≡ is_unknown (taken arping_optstring ch)
unfolding arping_option
arping_lem config ch arg = ground arith

sniff_lem :
    (config : SniffConfig) (ch : ℕ) (arg : Text)
    → is_refused (sniff_option config (ch, arg)) ≡ is_unknown (taken sniff_optstring ch)
unfolding sniff_option
sniff_lem config ch arg = ground arith

tcping_lem :
    (config : TcpingConfig) (ch : ℕ) (arg : Text)
    → is_refused (tcping_option config (ch, arg)) ≡ is_unknown (taken tcping_optstring ch)
unfolding tcping_option
tcping_lem config ch arg = ground arith

traceroute_lem :
    (config : TracerouteConfig) (ch : ℕ) (arg : Text)
    → is_refused (traceroute_option config (ch, arg)) ≡ is_unknown (taken traceroute_optstring ch)
unfolding traceroute_option
traceroute_lem config ch arg = ground arith

ping_table :
    (ch : ℕ)
    → ch ≢ b':'
    → shown ping_options ch ≡ (if ch == b'4' || ch == b'6' then none else taken ping_optstring ch)
ping_table ch h = ground arith

arping_table : (ch : ℕ) → ch ≢ b':' → shown arping_options ch ≡ taken arping_optstring ch
arping_table ch h = ground arith

traceroute_table :
    (ch : ℕ) → ch ≢ b':' → shown traceroute_options ch ≡ taken traceroute_optstring ch
traceroute_table ch h = ground arith

tcping_table : (ch : ℕ) → ch ≢ b':' → shown tcping_options ch ≡ taken tcping_optstring ch
tcping_table ch h = ground arith

sniff_table : (ch : ℕ) → ch ≢ b':' → shown sniff_options ch ≡ taken sniff_optstring ch
sniff_table ch h = ground arith

pscan_table : (ch : ℕ) → ch ≢ b':' → shown pscan_options ch ≡ taken pscan_optstring ch
pscan_table ch h = ground arith

-- For a character but the colon: what the usage text shows for it (nothing, an option, or one with an argument) is
-- what getopt takes, except that ping's text leaves out -4 and -6, which getopt takes; and the
-- tool ends with its usage text and the status 1 exactly for a character that getopt does not
-- take. This holds in each of the six tools, whatever was read before and whatever the argument is.
pub usage_agrees :
    (scan_hex : Text → Option ℕ) (stale : ℕ → ℕ) (arping : ArpingReading) (ping : PingConfig)
    (pscan : PscanConfig) (sniff : SniffConfig) (tcping : TcpingConfig)
    (traceroute : TracerouteConfig) (ch : ℕ) (arg : Text)
    → ch ≢ b':'
    → ((shown arping_options ch ≡ taken arping_optstring ch)
        × (is_refused (arping_option arping (ch, arg)) ≡ is_unknown (taken arping_optstring ch)))
      × ((shown ping_options ch
            ≡ (if ch == b'4' || ch == b'6' then none else taken ping_optstring ch))
          × (is_refused (ping_option scan_hex stale ping (ch, arg))
              ≡ is_unknown (taken ping_optstring ch)))
      × ((shown pscan_options ch ≡ taken pscan_optstring ch)
          × (is_refused (pscan_option pscan (ch, arg)) ≡ is_unknown (taken pscan_optstring ch)))
      × ((shown sniff_options ch ≡ taken sniff_optstring ch)
          × (is_refused (sniff_option sniff (ch, arg)) ≡ is_unknown (taken sniff_optstring ch)))
      × ((shown tcping_options ch ≡ taken tcping_optstring ch)
          × (is_refused (tcping_option tcping (ch, arg)) ≡ is_unknown (taken tcping_optstring ch)))
      × ((shown traceroute_options ch ≡ taken traceroute_optstring ch)
          × (is_refused (traceroute_option traceroute (ch, arg))
              ≡ is_unknown (taken traceroute_optstring ch)))
usage_agrees scan_hex stale arping ping pscan sniff tcping traceroute ch arg h = (
  (arping_table ch h, arping_lem arping ch arg),
  (ping_table ch h, ping_lem scan_hex stale ping ch arg),
  (pscan_table ch h, pscan_lem pscan ch arg),
  (sniff_table ch h, sniff_lem sniff ch arg),
  (tcping_table ch h, tcping_lem tcping ch arg),
  (traceroute_table ch h, traceroute_lem traceroute ch arg),
)
