-- ===== src/Arping/Options.antt =====
-- The command line of arping.c: the options that getopt yields, the operands behind them, and the
-- functions of net.c that it calls. Printing is left out.
use knetutils.Base.{ℕ, ◌*◌}
use knetutils.Base.{◌≡◌, ◌∙◌, ◌≢◌, inl, inr, arith}
use knetutils.Base.{Bool, true, false, ◌&&◌, ◌||◌, Option, none, some, List, [], ◌∷◌}
use knetutils.Base.{◌==◌, if◌then◌else◌, Option-cases}
use knetutils.Base.{replicate}
use knetutils.Base.{u64, sign_extend}
use knetutils.Base.{Text}
use knetutils.Base.Options.{Opt, atoi, Step, exits, dies, goes, ◌>>=◌, read_options, >>=-eq-goes}

pub record Config : Type 0 where
  pub iface : Option Text
  pub target_ip : ℕ
  pub source_ip : ℕ
  pub source_mac : List ℕ
  pub count : ℕ
  pub timeout_ns : ℕ
  pub interval_ns : ℕ
  pub quiet : Bool
  pub unsolicited : Bool
  pub dad : Bool
  pub gateway : Bool
  pub cisco_style : Bool
  pub quit_on_reply : Bool
  pub use_reply : Bool
  pub keep_broadcast : Bool
  pub time_unit : Option Text

-- The configuration, and `source_ip_str`.
abbrev pub Reading : Type 0
Reading = Config × Option Text

abbrev pub defaults : Reading
defaults = (
  record {
    iface = none;
    target_ip = 0;
    source_ip = 0;
    source_mac = replicate 6 0;
    count = 0;
    timeout_ns = 1_000_000_000;
    interval_ns = 1_000_000_000;
    quiet = false;
    unsolicited = false;
    dad = false;
    gateway = false;
    cisco_style = false;
    quit_on_reply = false;
    use_reply = false;
    keep_broadcast = false;
    time_unit = none;
  },
  none,
)

unfoldable pub apply_option : Reading → Opt → Step Reading
apply_option (config, source) (ch, optarg) =
    if ch == b'I'
    then goes (record config { iface = some optarg }, source)
    else if ch == b'c'
    then goes (record config { count = atoi optarg }, source)
    else if ch == b'w'
    then goes (record config { timeout_ns = u64 (sign_extend (atoi optarg) * 1_000_000) }, source)
    else if ch == b'i'
    then goes (record config { interval_ns = u64 (sign_extend (atoi optarg) * 1_000_000) }, source)
    else if ch == b'S'
    then goes (config, some optarg)
    else if ch == b'q'
    then goes (record config { quiet = true }, source)
    else if ch == b'U'
    then goes (record config { unsolicited = true }, source)
    else if ch == b'd'
    then goes (record config { dad = true }, source)
    else if ch == b'G'
    then goes (record config { gateway = true }, source)
    else if ch == b'C'
    then goes (record config { cisco_style = true }, source)
    else if ch == b'f'
    then goes (record config { quit_on_reply = true }, source)
    else if ch == b'A'
    then goes (record config { use_reply = true }, source)
    else if ch == b'b'
    then goes (record config { keep_broadcast = true }, source)
    else if ch == b'u'
    then goes (record config { time_unit = some optarg }, source)
    else if ch == b'h'
    then exits 0
    else exits 1

-- The functions of net.c; an address is its `s_addr`.
pub record Lookup : Type 0 where
  pub get_iface_mac : Text → Option (List ℕ)
  pub get_iface_addr : Text → Option ℕ
  pub resolve_ipv4 : Text → Option ℕ
  pub get_default_gateway : Text → Option ℕ

abbrev pub or_die : Option ℕ → Step ℕ
or_die none = dies
or_die (some n) = goes n

abbrev or_zero : Option ℕ → ℕ
or_zero none = 0
or_zero (some n) = n

abbrev pub first : List Text → Option Text
first [] = none
first (x ∷ xs) = some x

module _ (net : Lookup) where
  unfoldable pub choose_source : Config → Option Text → Text → Step ℕ
  choose_source config source iface = if config.dad then goes 0 else elim source [
    | some name ↦ or_die (net.resolve_ipv4 name)
    | none ↦ goes (or_zero (net.get_iface_addr iface))
  ]

  unfoldable pub choose_target : Config → ℕ → Text → Option Text → Step ℕ
  choose_target config source_ip iface target =
      if config.gateway
      then or_die (net.get_default_gateway iface)
      else if config.unsolicited
      then goes source_ip
      else elim target [ none ↦ exits 1 | some name ↦ or_die (net.resolve_ipv4 name) ]

  unfoldable pub or_die_mac : Option (List ℕ) → Step (List ℕ)
  or_die_mac none = dies
  or_die_mac (some mac) = goes mac

  unfoldable pub complete : Config → Option Text → Text → Option Text → Step Config
  unfolding or_die_mac
  complete config source iface target = do
    mac ← or_die_mac (net.get_iface_mac iface)
    source_ip ← choose_source config source iface
    target_ip ← choose_target config source_ip iface target
    goes (record config {
      source_mac = mac;
      source_ip = source_ip;
      target_ip = target_ip;
      count = if config.cisco_style && config.count == 0 then 5 else config.count;
    })

  unfoldable pub check_operands : Config → Option Text → Option Text → Step Config
  check_operands config source target = elim config.iface [
    | none ↦ exits 1
    | some iface ↦ elim target [
      | some name ↦ complete config source iface (some name)
      | none ↦
          if config.gateway || config.unsolicited
          then complete config source iface none
          else exits 1
    ]
  ]

  -- `arping_main` up to the call of `arping_run`.
  unfoldable pub arping_main : List Opt → List Text → Step Config
  arping_main opts args = do
    (config, source) ← read_options apply_option defaults opts
    check_operands config source (first args)

  complete_lem :
      (c c' : Config) (source : Option Text) (iface : Text) (target : Option Text)
      → complete c source iface target ≡ goes c'
      → (net.get_iface_mac iface ≡ some c'.source_mac)
        × (c'.dad ≡ true → c'.source_ip ≡ 0)
        × (c'.gateway ≡ true → net.get_default_gateway iface ≡ some c'.target_ip)
        × (c'.gateway ≡ false → c'.unsolicited ≡ true → c'.target_ip ≡ c'.source_ip)
        × (c'.cisco_style ≡ true → c'.count ≢ 0)
        × (c'.iface ≡ c.iface)
  unfolding complete choose_source choose_target
  complete_lem c c' source iface target e = (
    ground arith,
    λ h. ground arith,
    λ h. ground arith,
    λ h k. ground arith,
    λ h k. ground arith,
    ground arith,
  )

  check_no_iface :
      (c c' : Config) (source target : Option Text)
      → c.iface ≡ none
      → check_operands c source target ≢ goes c'
  unfolding check_operands
  check_no_iface c c' source target x e = ground arith

  check_lem :
      (c c' : Config) (source target : Option Text)
      → check_operands c source target ≡ goes c'
      → (iface : Text) × (c.iface ≡ some iface) × (complete c source iface target ≡ goes c')
  unfolding check_operands
  check_lem c c' source target e = elim (Option-cases c.iface) [
    | inl x ↦ absurd (check_no_iface c c' source target x e)
    | inr (iface, x) ↦ (iface, x, ground arith)
  ]

  -- arping runs only with an interface whose hardware address it found. In the detection of duplicates the
  -- source address is 0.0.0.0; with `-G` the target is the default gateway; otherwise, unsolicited, the
  -- target is the source; in the Cisco style there is a count.
  arping_main_lem :
      (opts : List Opt) (args : List Text) (config : Config)
      → arping_main opts args ≡ goes config
      → (iface : Text) × (config.iface ≡ some iface)
        × (net.get_iface_mac iface ≡ some config.source_mac)
        × (config.dad ≡ true → config.source_ip ≡ 0)
        × (config.gateway ≡ true → net.get_default_gateway iface ≡ some config.target_ip)
        × (config.gateway ≡ false → config.unsolicited ≡ true → config.target_ip ≡ config.source_ip)
        × (config.cisco_style ≡ true → config.count ≢ 0)
  unfolding arping_main
  arping_main_lem opts args config e =
      let (c, read, more) =
        >>=-eq-goes (read_options apply_option defaults opts)
          (λ x. check_operands x.0 x.1 (first args)) e in
      let (iface, x, done) = check_lem c.0 config c.1 (first args) more in
      let (mac, dad, gateway, own, cisco, same) =
        complete_lem c.0 config c.1 iface (first args) done in
      (iface, same ∙ x, mac, dad, gateway, own, cisco)
