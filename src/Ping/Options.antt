-- ===== src/Ping/Options.antt =====
-- The command line of ping.c: the options that getopt yields, the operands behind them, and
-- `resolve_host` of net.c. `scan_hex` is what `sscanf (s, "%2x", &byte)` converts, if anything, and
-- `stale i` the value that `byte` has in round `i` when nothing is converted. Printing is left out.
use knetutils.Base.{ℕ, zero, suc, ◌+◌, ◌*◌, ◌/◌, ◌^◌, ◌≤◌, ◌<◌, min}
use knetutils.Base.{◌≡◌, refl, ap, ◌≢◌, arith}
use knetutils.Base.{true, false, ◌&&◌, Option, none, some, List, [], ◌∷◌}
use knetutils.Base.{◌==◌, if◌then◌else◌}
use knetutils.Base.{length, drop}
use knetutils.Base.{u8, u32, u64, sign_extend}
use knetutils.Base.{Text}
use knetutils.Base.{Family, unspec, inet, inet6}
use knetutils.Base.Options.{
  Opt, strtol, atoi, atoi-lt, Step, exits, dies, goes, ◌>>=◌, read_options, read_options_keeps,
  >>=-eq-goes,
}
use knetutils.Ping.State.{Config}

abbrev pub defaults : Config
defaults = record {
  count = 0;
  timeout_ns = 1_000_000_000;
  interval_ns = 1_000_000_000;
  payload_size = 56;
  ttl = 0;
  quiet = false;
  time_unit = none;
  target_addr = [];
  family = unspec;
  cisco_style = false;
  flood = false;
  audible = false;
  adaptive = false;
  bind_iface = none;
  pattern = [];
  deadline_ns = 0;
  tos = 0;
  has_tos = false;
}

module _ (scan_hex : Text → Option ℕ) (stale : ℕ → ℕ) where
  scanned : ℕ → Option ℕ → ℕ
  scanned i (some byte) = u8 byte
  scanned i none = u8 (stale i)

  -- The bytes of the pattern, `left` of them from round `i` on, where the text is at `optarg + i * 2`.
  pattern_bytes : ℕ → ℕ → Text → List ℕ
  pattern_bytes zero i s = []
  pattern_bytes (suc left) i s = scanned i (scan_hex s) ∷ pattern_bytes left (i + 1) (drop 2 s)

  -- The case of `-p`; the list is `pattern` up to `pattern_len`.
  unfoldable pub read_pattern : Text → List ℕ
  unfolding pattern_bytes scanned
  read_pattern optarg = pattern_bytes (min (length optarg) 32 / 2) 0 optarg

  unfoldable pub apply_option : Config → Opt → Step Config
  apply_option config (ch, optarg) =
      if ch == b'4'
      then goes (record config { family = inet })
      else if ch == b'6'
      then goes (record config { family = inet6 })
      else if ch == b'C'
      then goes (record config { cisco_style = true })
      else if ch == b'a'
      then goes (record config { audible = true })
      else if ch == b'A'
      then goes (record config { adaptive = true })
      else if ch == b'f'
      then goes (record config { flood = true; interval_ns = 10_000_000 })
      else if ch == b'I'
      then goes (record config { bind_iface = some optarg })
      else if ch == b'c'
      then goes (record config { count = atoi optarg })
      else if ch == b'w'
      then goes (record config { deadline_ns = u64 (sign_extend (atoi optarg) * 1_000_000_000) })
      else if ch == b'W'
      then goes (record config { timeout_ns = u64 (sign_extend (atoi optarg) * 1_000_000_000) })
      else if ch == b'i'
      then goes (record config { interval_ns = u64 (sign_extend (atoi optarg) * 1_000_000) })
      else if ch == b'u'
      then goes (record config { time_unit = some optarg })
      else if ch == b's'
      then goes (record config { payload_size = atoi optarg })
      else if ch == b'p'
      then goes (record config { pattern = read_pattern optarg })
      else if ch == b'Q'
      then goes (record config { tos = u32 (strtol 0 optarg); has_tos = true })
      else if ch == b't'
      then goes (record config { ttl = u8 (atoi optarg) })
      else if ch == b'q'
      then goes (record config { quiet = true })
      else if ch == b'h'
      then exits 0
      else exits 1

module _ (resolve_host : Text → Family → Option (List ℕ × Family)) where
  unfoldable pub take_target : Config → List Text → Step Config
  take_target config [] = exits 1
  take_target config (target ∷ args) = elim (resolve_host target config.family) [
    | none ↦ dies
    | some (addr, family) ↦ goes (record config {
      target_addr = addr;
      family = family;
      count = if config.cisco_style && config.count == 0 then 5 else config.count;
    })
  ]

  -- `ping_main` up to the call of `ping_run`.
  unfoldable pub ping_main : (Text → Option ℕ) → (ℕ → ℕ) → List Opt → List Text → Step Config
  ping_main scan_hex stale opts args = do
    config ← read_options (apply_option scan_hex stale) defaults opts
    take_target config args

-- What is needed of a configuration: the pattern fits its 16 bytes, the hop limit its u_char.
record IsSound (config : Config) : Type 0 where
  pattern_fits : length config.pattern ≤ 16
  ttl_small : config.ttl < 256
  payload_u32 : config.payload_size < 2 ^ 32
  count_u32 : config.count < 2 ^ 32

module _ (scan_hex : Text → Option ℕ) (stale : ℕ → ℕ) where
  length-pattern_bytes :
      (left i : ℕ) (s : Text) → length (pattern_bytes scan_hex stale left i s) ≡ left
  unfolding pattern_bytes
  length-pattern_bytes zero i s = refl
  length-pattern_bytes (suc left) i s = ap suc (length-pattern_bytes left (i + 1) (drop 2 s))

  length-read_pattern : (s : Text) → length (read_pattern scan_hex stale s) ≤ 16
  unfolding read_pattern
  length-read_pattern s = omega (arith, length-pattern_bytes (min (length s) 32 / 2) 0 s)

  apply_option-IsSound :
      (c c' : Config) (opt : Opt)
      → IsSound c
      → apply_option scan_hex stale c opt ≡ goes c'
      → IsSound c'
  unfolding apply_option
  apply_option-IsSound c c' (ch, optarg) v e =
      ground (arith, length-read_pattern optarg, atoi-lt optarg)

take_target_lem :
    (resolve_host : Text → Family → Option (List ℕ × Family)) (c c' : Config) (args : List Text)
    → IsSound c
    → take_target resolve_host c args ≡ goes c'
    → IsSound c' × (c'.cisco_style ≡ true → c'.count ≢ 0)
unfolding take_target
take_target_lem resolve_host c c' [] v e = cc
take_target_lem resolve_host c c' (target ∷ args) v e = (ground arith, λ a b. ground arith)

-- ping runs only with a pattern of at most 16 bytes, for which there is room, a hop limit below 256,
-- a payload size and a count below 2 ^ 32, and in the Cisco style only with a count that is not 0.
ping_main_lem :
    (resolve_host : Text → Family → Option (List ℕ × Family)) (scan_hex : Text → Option ℕ)
    (stale : ℕ → ℕ) (opts : List Opt) (args : List Text) (config : Config)
    → ping_main resolve_host scan_hex stale opts args ≡ goes config
    → IsSound config × (config.cisco_style ≡ true → config.count ≢ 0)
unfolding ping_main
ping_main_lem resolve_host scan_hex stale opts args config e =
    let (c, read, taken) =
      >>=-eq-goes (read_options (apply_option scan_hex stale) defaults opts)
        (λ x. take_target resolve_host x args) e in
    take_target_lem resolve_host c config args
      (read_options_keeps IsSound (apply_option scan_hex stale)
        (apply_option-IsSound scan_hex stale) defaults c opts (omega arith) read)
      taken
