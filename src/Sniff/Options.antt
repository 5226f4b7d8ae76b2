-- ===== src/Sniff/Options.antt =====
-- The command line of sniff.c: the options that getopt yields. Printing is left out.
use knetutils.Base.{ℕ, ◌+◌}
use knetutils.Base.{Option, none, some, List}
use knetutils.Base.{◌==◌, if◌then◌else◌}
use knetutils.Base.{Text}
use knetutils.Base.Options.{Opt, atoi, Step, exits, goes, ◌>>=◌, read_options}

pub record Config : Type 0 where
  pub iface : Option Text
  pub max_packets : ℕ
  pub verbosity : ℕ
  pub pcap_file : Option Text

abbrev pub defaults : Config
defaults = record { iface = none; max_packets = 0; verbosity = 0; pcap_file = none }

-- `max_packets` and `verbosity` are the bit patterns of ints; the increment stays below its overflow.
unfoldable pub apply_option : Config → Opt → Step Config
apply_option config (ch, optarg) =
    if ch == b'I'
    then goes (record config { iface = some optarg })
    else if ch == b'c'
    then goes (record config { max_packets = atoi optarg })
    else if ch == b'w'
    then goes (record config { pcap_file = some optarg })
    else if ch == b'v'
    then goes (record config { verbosity = config.verbosity + 1 })
    else if ch == b'h'
    then exits 0
    else exits 1

unfoldable pub need_iface : Config → Step Config
need_iface config = elim config.iface [ none ↦ exits 1 | some iface ↦ goes config ]

-- `sniff_main` up to the call of `sniff_run`.
unfoldable pub sniff_main : List Opt → Step Config
sniff_main opts = do config ← read_options apply_option defaults opts; need_iface config
