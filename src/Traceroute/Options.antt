-- ===== src/Traceroute/Options.antt =====
-- The command line of traceroute.c: the options that getopt yields, the operands behind them, and
-- `resolve_host` of net.c. Printing is left out.
use knetutils.Base.{ℕ, ◌*◌, ◌≤◌, ◌<◌}
use knetutils.Base.{◌≡◌, arith}
use knetutils.Base.{true, false, Option, none, some, List, [], ◌∷◌}
use knetutils.Base.{◌==◌, if◌then◌else◌}
use knetutils.Base.{u8, u64, sign_extend}
use knetutils.Base.{Text}
use knetutils.Base.{Family, unspec, inet, inet6}
use knetutils.Base.Options.{
  Opt, atoi, Step, exits, dies, goes, ◌>>=◌, read_options, read_options_keeps, >>=-eq-goes,
}
use knetutils.Traceroute.Probe.{Config}

abbrev pub defaults : Config
defaults = record {
  first_ttl = 1;
  max_ttl = 30;
  queries = 3;
  timeout_ns = 3_000_000_000;
  target_addr = [];
  family = unspec;
  bind_iface = none;
  resolve_hostnames = true;
  use_udp = false;
}

unfoldable pub apply_option : Config → Opt → Step Config
apply_option config (ch, optarg) =
    if ch == b'4'
    then goes (record config { family = inet })
    else if ch == b'6'
    then goes (record config { family = inet6 })
    else if ch == b'f'
    then goes (record config { first_ttl = u8 (atoi optarg) })
    else if ch == b'm'
    then goes (record config { max_ttl = u8 (atoi optarg) })
    else if ch == b'q'
    then goes (record config { queries = u8 (atoi optarg) })
    else if ch == b'w'
    then goes (record config { timeout_ns = u64 (sign_extend (atoi optarg) * 1_000_000_000) })
    else if ch == b'I'
    then goes (record config { bind_iface = some optarg })
    else if ch == b'n'
    then goes (record config { resolve_hostnames = false })
    else if ch == b'U'
    then goes (record config { use_udp = true })
    else if ch == b'h'
    then exits 0
    else exits 1

module _ (resolve_host : Text → Family → Option (List ℕ × Family)) where
  unfoldable pub take_target : Config → List Text → Step Config
  take_target config [] = exits 1
  take_target config (target ∷ args) = elim (resolve_host target config.family) [
    | none ↦ dies
    | some (addr, family) ↦ goes (record config {
      target_addr = addr;
      family = family;
      first_ttl = if config.first_ttl == 0 then 1 else config.first_ttl;
    })
  ]

  -- `traceroute_main` up to the call of `traceroute_run`.
  unfoldable pub traceroute_main : List Opt → List Text → Step Config
  traceroute_main opts args = do
    config ← read_options apply_option defaults opts
    take_target config args

-- The numbers of the configuration are u_chars.
pub record IsSmall (config : Config) : Type 0 where
  pub first_small : config.first_ttl < 256
  pub max_small : config.max_ttl < 256
  pub queries_small : config.queries < 256

apply_option-IsSmall :
    (c c' : Config) (opt : Opt) → IsSmall c → apply_option c opt ≡ goes c' → IsSmall c'
unfolding apply_option
apply_option-IsSmall c c' (ch, optarg) v e = ground arith

take_target_lem :
    (resolve_host : Text → Family → Option (List ℕ × Family)) (c c' : Config) (args : List Text)
    → IsSmall c
    → take_target resolve_host c args ≡ goes c'
    → IsSmall c' × (1 ≤ c'.first_ttl)
unfolding take_target
take_target_lem resolve_host c c' [] v e = cc
take_target_lem resolve_host c c' (target ∷ args) v e = ground arith

-- A trace is started only with a first hop limit from 1 to 255, a last one below 256, and at most 255
-- probes for each hop, so that the 256 slots for them are enough.
traceroute_main_lem :
    (resolve_host : Text → Family → Option (List ℕ × Family)) (opts : List Opt) (args : List Text)
    (config : Config)
    → traceroute_main resolve_host opts args ≡ goes config
    → IsSmall config × (1 ≤ config.first_ttl)
unfolding traceroute_main
traceroute_main_lem resolve_host opts args config e =
    let (c, read, taken) =
      >>=-eq-goes (read_options apply_option defaults opts) (λ x. take_target resolve_host x args)
        e in
    take_target_lem resolve_host c config args
      (read_options_keeps IsSmall apply_option apply_option-IsSmall defaults c opts (omega arith)
        read)
      taken
