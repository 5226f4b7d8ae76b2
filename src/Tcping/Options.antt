-- ===== src/Tcping/Options.antt =====
-- The command line of tcping.c: the options that getopt yields, the operands behind them, and
-- `resolve_host` of net.c. Printing is left out.
use knetutils.Base.{ℕ, ◌*◌, ◌≤◌, ◌<◌}
use knetutils.Base.{◌≡◌, arith}
use knetutils.Base.{true, false, Option, none, some, List, [], ◌∷◌}
use knetutils.Base.{◌==◌, if◌then◌else◌}
use knetutils.Base.{u16, u64, sign_extend}
use knetutils.Base.{Text}
use knetutils.Base.{Family, unspec, inet, inet6}
use knetutils.Base.Options.{Opt, atoi, Step, exits, dies, goes, ◌>>=◌, read_options, >>=-eq-goes}
use knetutils.Tcping.State.{Config}

abbrev pub defaults : Config
defaults = record {
  port = 0;
  count = 0;
  timeout_ns = 1_000_000_000;
  interval_ns = 1_000_000_000;
  target_addr = [];
  family = unspec;
  bind_iface = none;
  quiet = false;
}

unfoldable pub apply_option : Config → Opt → Step Config
apply_option config (ch, optarg) =
    if ch == b'4'
    then goes (record config { family = inet })
    else if ch == b'6'
    then goes (record config { family = inet6 })
    else if ch == b'c'
    then goes (record config { count = atoi optarg })
    else if ch == b'W'
    then goes (record config { timeout_ns = u64 (sign_extend (atoi optarg) * 1_000_000_000) })
    else if ch == b'i'
    then goes (record config { interval_ns = u64 (sign_extend (atoi optarg) * 1_000_000) })
    else if ch == b'I'
    then goes (record config { bind_iface = some optarg })
    else if ch == b'q'
    then goes (record config { quiet = true })
    else if ch == b'h'
    then exits 0
    else exits 1

module _ (resolve_host : Text → Family → Option (List ℕ × Family)) where
  unfoldable pub take_target : Config → List Text → Step Config
  take_target config [] = exits 1
  take_target config (target ∷ []) = exits 1
  take_target config (target ∷ port ∷ args) =
      if u16 (atoi port) == 0 then dies else elim (resolve_host target config.family) [
        | none ↦ dies
        | some (addr, family) ↦
            goes (record config { target_addr = addr; family = family; port = u16 (atoi port) })
      ]

  -- `tcping_main` up to the call of `tcping_run`.
  unfoldable pub tcping_main : List Opt → List Text → Step Config
  tcping_main opts args = do
    config ← read_options apply_option defaults opts
    take_target config args

  take_target_lem :
      (c c' : Config) (args : List Text)
      → take_target c args ≡ goes c'
      → (1 ≤ c'.port)
        × (c'.port < 65536)
        × ((target : Text) × (resolve_host target c.family ≡ some (c'.target_addr, c'.family)))
  unfolding take_target
  take_target_lem c c' [] e = cc
  take_target_lem c c' (target ∷ []) e = cc
  take_target_lem c c' (target ∷ port ∷ args) e =
      (ground arith, ground arith, (target, ground arith))

  -- tcping runs only with a port from 1 to 65535, and with an address and a family that the resolver
  -- gave for some host.
  tcping_main_lem :
      (opts : List Opt) (args : List Text) (config : Config)
      → tcping_main opts args ≡ goes config
      → (1 ≤ config.port)
        × (config.port < 65536)
        × ((target : Text) × (family : Family) × (resolve_host target family
              ≡ some (config.target_addr, config.family)))
  unfolding tcping_main
  tcping_main_lem opts args config e =
      let (c, read, taken) =
        >>=-eq-goes (read_options apply_option defaults opts) (λ x. take_target x args) e in
      let (low, high, (target, found)) = take_target_lem c config args taken in
      (low, high, (target, c.family, found))
