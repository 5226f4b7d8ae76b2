-- ===== src/Pscan/Options.antt =====
-- The command line of pscan.c. The options are those that getopt yields, `args` the operands behind
-- them; `resolve_host` of net.c gives an address with its family. Printing is left out.
use knetutils.Base.{ℕ, ◌*◌, ◌≤◌, ◌<◌}
use knetutils.Base.{◌≡◌, arith}
use knetutils.Base.{true, false, ◌||◌, Option, none, some, List, [], ◌∷◌}
use knetutils.Base.{ltb, ◌==◌, if◌then◌else◌}
use knetutils.Base.{u16, u64, sign_extend}
use knetutils.Base.{Text}
use knetutils.Base.{Family, unspec, inet, inet6}
use knetutils.Base.Options.{
  Opt, atoi, Step, exits, dies, goes, ◌>>=◌, read_options, read_options_keeps, >>=-eq-goes,
}
use mathlib.Core.Option
use knetutils.Pscan.State.{Config}

abbrev pub defaults : Config
defaults = record {
  start_port = 1;
  end_port = 1024;
  timeout_ns = 2_000_000_000;
  target_addr = [];
  target_family = unspec;
  family = unspec;
  bind_iface = none;
  rate_limit = 0;
  udp = false;
  randomize = false;
  json_output = false;
  banner_grab = false;
  os_fingerprint = false;
}

-- `strchr (optarg, '-')`: the texts before and behind the first dash, if there is one.
unfoldable pub split_dash : Text → Option (Text × Text)
split_dash [] = none
split_dash (c ∷ s) =
    if c == b'-' then some ([], s) else Option.map (λ p. (c ∷ p.0, p.1)) (split_dash s)

unfoldable pub port_range : Text → Option (Text × Text) → ℕ × ℕ
port_range arg (some (from, to)) = (u16 (atoi from), u16 (atoi to))
port_range arg none = (u16 (atoi arg), u16 (atoi arg))

unfoldable pub apply_range : Config → ℕ × ℕ → Step Config
apply_range config (start, end) =
    if start == 0 || (end == 0 || ltb end start)
    then dies
    else goes (record config { start_port = start; end_port = end })

unfoldable pub apply_option : Config → Opt → Step Config
apply_option config (ch, optarg) =
    if ch == b'u'
    then goes (record config { udp = true })
    else if ch == b's'
    then goes (record config { banner_grab = true })
    else if ch == b'O'
    then goes (record config { os_fingerprint = true })
    else if ch == b'j'
    then goes (record config { json_output = true })
    else if ch == b'R'
    then goes (record config { randomize = true })
    else if ch == b'4'
    then goes (record config { family = inet })
    else if ch == b'6'
    then goes (record config { family = inet6 })
    else if ch == b'p'
    then apply_range config (port_range optarg (split_dash optarg))
    else if ch == b'W'
    then goes (record config { timeout_ns = u64 (sign_extend (atoi optarg) * 1_000_000_000) })
    else if ch == b'r'
    then goes (record config { rate_limit = atoi optarg })
    else if ch == b'I'
    then goes (record config { bind_iface = some optarg })
    else if ch == b'h'
    then exits 0
    else exits 1

module _ (resolve_host : Text → Family → Option (List ℕ × Family)) where
  unfoldable pub take_target : Config → List Text → Step Config
  take_target config [] = exits 1
  take_target config (target ∷ args) = elim (resolve_host target config.family) [
    | none ↦ dies
    | some (addr, family) ↦ goes (record config { target_addr = addr; target_family = family })
  ]

  -- `pscan_main` up to the call of `pscan_run`.
  unfoldable pub pscan_main : List Opt → List Text → Step Config
  unfolding take_target
  pscan_main opts args = do
    config ← read_options apply_option defaults opts
    take_target config args

-- The range is not empty and its ports are u_shorts.
record IsRange (config : Config) : Type 0 where
  from_one : 1 ≤ config.start_port
  ordered : config.start_port ≤ config.end_port
  below : config.end_port < 65536

apply_range-IsRange :
    (c c' : Config) (p : ℕ × ℕ) → p.1 < 65536 → apply_range c p ≡ goes c' → IsRange c'
unfolding apply_range
apply_range-IsRange c c' (start, end) lt e = ground arith

port_range-lt : (arg : Text) (parts : Option (Text × Text)) → (port_range arg parts).1 < 65536
unfolding port_range
port_range-lt arg none = omega arith
port_range-lt arg (some (from, to)) = omega arith

apply_option-IsRange :
    (c c' : Config) (opt : Opt) → IsRange c → apply_option c opt ≡ goes c' → IsRange c'
unfolding apply_option
apply_option-IsRange c c' (ch, optarg) v e = ground (
  arith,
  apply_range-IsRange c c' (port_range optarg (split_dash optarg)),
  port_range-lt optarg (split_dash optarg),
)

take_target-IsRange :
    (resolve_host : Text → Family → Option (List ℕ × Family)) (c c' : Config) (args : List Text)
    → IsRange c
    → take_target resolve_host c args ≡ goes c'
    → IsRange c'
unfolding take_target
take_target-IsRange resolve_host c c' [] v e = cc
take_target-IsRange resolve_host c c' (target ∷ args) v e = ground arith

-- A scan is started only with a range of ports from 1 to 65535 that is not empty, whatever the options
-- are and in whatever order they come.
pscan_main-IsRange :
    (resolve_host : Text → Family → Option (List ℕ × Family)) (opts : List Opt) (args : List Text)
    (config : Config)
    → pscan_main resolve_host opts args ≡ goes config
    → IsRange config
unfolding pscan_main
pscan_main-IsRange resolve_host opts args config e =
    let (c, read, taken) =
      >>=-eq-goes (read_options apply_option defaults opts) (λ x. take_target resolve_host x args)
        e in
    take_target-IsRange resolve_host c config args
      (read_options_keeps IsRange apply_option apply_option-IsRange defaults c opts (omega arith)
        read)
      taken
